-- ===== src/Store/Journal/History.antt =====
-- crates/pantheon-store/src/command.rs: the ledger remembers a command along any sequence of transactions
-- that commit. One that fails is rolled back and leaves the tables as they were.
use pantheon.Base.{
  ℕ, Bool, ◌≡◌, ◌∙◌, some, List, [], ◌∷◌, ◌++◌, ok, find?, arith, Bool-cases, inl, inr,
}
use pantheon.Store.Database.{Database, LedgerEntry, Tx}
use pantheon.Store.Keeps.{Keeps, Keeps-any_execute}
use pantheon.Store.Journal.{
  Command, Committed, is_command, allocate_sequence, insert_event, append_event, record_command,
  execute,
}

-- a body that writes neither the command ledger nor the restore generation, which `Journal` and the
-- installation own
abbrev pub IsPayload : {A : Type 0} → Tx A → Type 0
IsPayload {A} m =
    (db : Database) (r : A × Database)
    → m db ≡ ok r
    → (r.1.commands ≡ db.commands) × (r.1.restore_generation ≡ db.restore_generation)

-- the transactions that commit: commands, whatever their identity, and ones without an identity
pub data History : Database → Database → Type 1 where
  done : {db : Database} → History db db
  command :
      {A : Type 0} {db d : Database} (c : Command) (m : Tx A) (r : Committed A × Database)
      → IsPayload m
      → execute c m db ≡ ok r
      → History r.1 d
      → History db d
  internal :
      {A : Type 0} {db d : Database} (m : Tx A) (r : A × Database)
      → IsPayload m
      → m db ≡ ok r
      → History r.1 d
      → History db d

-- the epoch is current, and the ledger's entry for the command is the given one
pub record Remembers (c : Command) (e : LedgerEntry) (db : Database) : Type 0 where
  pub current : db.restore_generation ≡ some c.epoch
  pub entered : find? (is_command c) db.commands ≡ some e

find?-found :
    {A : Type 0} (p : A → Bool) (l m : List A) (x : A)
    → find? p l ≡ some x
    → find? p (l ++ m) ≡ some x
find?-found p [] m x h = cc
find?-found p (y ∷ l) m x h = elim (Bool-cases (p y)) [
  | inl e ↦ ground arith
  | inr e ↦ ground (arith, find?-found p l m x (ground arith))
]

module _ (c : Command) (e : LedgerEntry) where
  same_ledger :
      (db d : Database)
      → d.commands ≡ db.commands
      → d.restore_generation ≡ db.restore_generation
      → Remembers c e db
      → Remembers c e d
  same_ledger db d k g h = record { current = g ∙ h.current; entered = rw k h.entered }

  allocate_sequence-Remembers : Keeps (Remembers c e) allocate_sequence
  unfolding allocate_sequence
  allocate_sequence-Remembers db r h p = same_ledger db r.1 (ground arith) (ground arith) p

  append_event-Remembers : (other : Command) (s : ℕ) → Keeps (Remembers c e) (append_event other s)
  unfolding append_event insert_event
  append_event-Remembers other s db r h p = same_ledger db r.1 (ground arith) (ground arith) p

  -- what is recorded comes behind the entries that are there
  record_command-grows :
      (other : Command) (s t : ℕ) (db : Database) {r : Unit × Database}
      → record_command other s t db ≡ ok r
      → (more : List LedgerEntry) × (r.1.commands ≡ db.commands ++ more)
        × (r.1.restore_generation ≡ db.restore_generation)
  unfolding record_command
  record_command-grows other s t db h = (
    record {
      epoch = other.epoch;
      id = other.id;
      request_hash = other.request_hash.bytes;
      sequence = s;
      recorded_at = t;
    }
        ∷ [],
    ground arith,
    ground arith,
  )

  record_command-Remembers :
      (other : Command) (s t : ℕ) → Keeps (Remembers c e) (record_command other s t)
  record_command-Remembers other s t db r h p =
      let (more, k, g) = record_command-grows other s t db h in
      record {
        current = g ∙ p.current;
        entered = rw k (find?-found (is_command c) db.commands more e p.entered);
      }

  pub IsPayload-Remembers : {A : Type 0} (m : Tx A) → IsPayload m → Keeps (Remembers c e) m
  IsPayload-Remembers m body db r h p = let (k, g) = body db r h in same_ledger db r.1 k g p

  pub History-Remembers : {db d : Database} → History db d → Remembers c e db → Remembers c e d
  History-Remembers done p = p
  History-Remembers {db = db} (command other m r body h later) p = History-Remembers later (
      Keeps-any_execute (Remembers c e) other m allocate_sequence-Remembers
        (append_event-Remembers other) (record_command-Remembers other) (IsPayload-Remembers m body)
        db r h p)
  History-Remembers {db = db} (internal m r body h later) p =
      History-Remembers later (IsPayload-Remembers m body db r h p)
