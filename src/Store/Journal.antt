-- ===== src/Store/Journal.antt =====
-- crates/pantheon-store/src/command.rs: the event journal and the command ledger.
pub mod History
pub mod Replay
pub mod Order
use pantheon.Base.{
  ℕ, suc, ◌+◌, ◌≡◌, Bool, true, false, ◌&&◌, not, Option, none, some, List, [], ◌∷◌, ◌++◌, Text,
  text, ok, err, text_eq, ◌==◌, leb, length, if◌then◌else◌, find?, any,
}
use pantheon.Store.Database.{
  Database, Event, LedgerEntry, StoreError, invariant_violated, stale_command_epoch,
  command_conflict, constraint, text_length, Tx, pure, fail, gets, modify, fail_if, some_or, ◌>>=◌,
  ◌>>◌,
}

-- `[u8; 32]`
pub record RequestHash : Type 0 where
  pub bytes : Text
  pub full : length bytes ≡ 32

pub record Command : Type 0 where
  pub epoch : Text
  pub id : Text
  pub request_hash : RequestHash
  pub event_type : Text

-- a journal position and when it was recorded; the epoch of the journal is the current one
pub data Committed (A : Type 0) : Type 0 where
  executed : A → ℕ → Committed A
  replayed : ℕ → ℕ → Committed A

unfoldable pub current_generation : Tx Text
current_generation = do
  generation ← gets (λ db. db.restore_generation)
  some_or generation (invariant_violated (text "system_state has no installation identity row"))

unfoldable pub fence_epoch : Text → Tx Unit
unfolding current_generation
fence_epoch supplied = do
  current ← current_generation
  fail_if (not (text_eq supplied current)) (stale_command_epoch supplied current)

abbrev pub is_command : Command → LedgerEntry → Bool
is_command c e = text_eq e.epoch c.epoch && text_eq e.id c.id

unfoldable pub lookup : Command → Tx (Option LedgerEntry)
lookup c = gets (λ db. find? (is_command c) db.commands)

unfoldable pub allocate_sequence : Tx ℕ
allocate_sequence = do
  next ← gets (λ db. db.next_sequence)
  sequence ← some_or next (invariant_violated (text "no current journal epoch exists"))
  modify (λ db. record db { next_sequence = some (sequence + 1) })
  pure sequence

-- CHECK (length(…) BETWEEN 1 AND 128)
abbrev pub is_sized : Text → Bool
is_sized t = leb 1 (text_length t) && leb (text_length t) 128

-- the CHECKs of `event_journal`, and `UNIQUE (journal_epoch, sequence)`, which fails with the last argument
unfoldable pub insert_event : ℕ → Text → Option (Text × Text) → StoreError → Tx ℕ
insert_event sequence event_type command occupied = do
  recorded_at ← gets (λ db. db.now)
  fail_if (not (leb 1 sequence && is_sized event_type)) (constraint (text "event_journal"))
  taken ← gets (λ db. any (λ e. e.sequence == sequence) db.journal)
  fail_if taken occupied
  modify (λ db. record db {
    journal =
        db.journal
        ++ (record {
          sequence = sequence;
          event_type = event_type;
          recorded_at = recorded_at;
          command = command;
        })
          ∷ [];
  })
  pure recorded_at

unfoldable pub append_event : Command → ℕ → Tx ℕ
append_event c sequence =
    insert_event sequence c.event_type (some (c.epoch, c.id))
      (invariant_violated (text "journal slot is already occupied"))

abbrev pub is_storable : Command → Bool
is_storable c = text_length c.epoch == 32 && is_sized c.id && length c.request_hash.bytes == 32

-- the CHECKs of `commands` and its primary key
unfoldable pub record_command : Command → ℕ → ℕ → Tx Unit
record_command c sequence recorded_at = do
  fail_if (not (is_storable c)) (constraint (text "commands"))
  known ← gets (λ db. any (is_command c) db.commands)
  fail_if known (constraint (text "commands"))
  modify (λ db. record db {
    commands =
        db.commands
        ++ (record {
          epoch = c.epoch;
          id = c.id;
          request_hash = c.request_hash.bytes;
          sequence = sequence;
          recorded_at = recorded_at;
        })
          ∷ [];
  })

unfoldable pub append_internal_event : Text → Tx ℕ
append_internal_event event_type = do
  sequence ← allocate_sequence
  insert_event sequence event_type none (constraint (text "event_journal"))
  pure sequence

unfoldable pub run_new : {A : Type 0} → Command → Tx A → Tx (Committed A)
run_new c mutation = do
  value ← mutation
  sequence ← allocate_sequence
  recorded_at ← append_event c sequence
  record_command c sequence recorded_at
  pure (executed value sequence)

unfoldable pub classify : {A : Type 0} → Command → Tx A → Option LedgerEntry → Tx (Committed A)
classify c mutation none = run_new c mutation
classify c mutation (some e) =
    if text_eq e.request_hash c.request_hash.bytes
    then pure (replayed e.sequence e.recorded_at)
    else fail (command_conflict c.id)

unfoldable pub execute : {A : Type 0} → Command → Tx A → Tx (Committed A)
execute c mutation = do fence_epoch c.epoch; entry ← lookup c; classify c mutation entry
