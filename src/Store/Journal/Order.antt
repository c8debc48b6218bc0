-- ===== src/Store/Journal/Order.antt =====
-- crates/pantheon-store/src/command.rs: the journal is numbered without gaps or repetitions.
use pantheon.Base.{ℕ, ◌+◌, ◌≤◌, ◌≡◌, some, List, [], ◌∷◌, ◌++◌}
use pantheon.Store.Database.{Database, Event, text_length}
use pantheon.Store.Journal.{Command}

-- the journal is numbered from 1 on, and the next number is free
abbrev pub Numbers : ℕ → List Event → Type 0
Numbers n [] = Unit
Numbers n (e ∷ l) = (e.sequence ≡ n) × Numbers (n + 1) l

abbrev pub count : List Event → ℕ
count [] = 0
count (e ∷ l) = count l + 1

pub record IsNumbered (db : Database) : Type 0 where
  pub numbered : Numbers 1 db.journal
  pub next_free : db.next_sequence ≡ some (count db.journal + 1)

-- the tables behind a first execution
abbrev committed : Command → Database → Database
committed c d =
    let n = count d.journal + 1 in
    record d {
      next_sequence = some (n + 1);
      journal =
          d.journal
          ++ (record {
            sequence = n;
            event_type = c.event_type;
            recorded_at = d.now;
            command = some (c.epoch, c.id);
          })
            ∷ [];
      commands =
          d.commands
          ++ (record {
            epoch = c.epoch;
            id = c.id;
            request_hash = c.request_hash.bytes;
            sequence = n;
            recorded_at = d.now;
          })
            ∷ [];
    }

-- what the CHECKs of the two tables ask of a command; its request hash is 32 bytes by its type
pub record IsStorable (c : Command) : Type 0 where
  pub event_named : 1 ≤ text_length c.event_type
  pub event_bounded : text_length c.event_type ≤ 128
  pub epoch_full : text_length c.epoch ≡ 32
  pub id_named : 1 ≤ text_length c.id
  pub id_bounded : text_length c.id ≤ 128
