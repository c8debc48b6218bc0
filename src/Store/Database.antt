-- ===== src/Store/Database.antt =====
-- The durable tables that the journal and the Attempt lineage write, with the columns that they read
-- or write (crates/pantheon-store/src/migrations.rs has the schema). A revision or a time is a natural
-- number; `now` of a transaction is the `unixepoch()` that it reads.
use pantheon.Base.{
  ℕ, Bool, true, false, Option, none, some, List, [], ◌∷◌, Text, Result, ok, err, ◌+◌, ◌&&◌, ◌==◌,
  leb, ltb, if◌then◌else◌,
}

-- crates/pantheon-core/src/attempt.rs
pub data Observation : Type 0 where
  absent starting running exited unknown : Observation

pub data LaunchContactState : Type 0 where
  not_contacted contact_may_have_occurred : LaunchContactState

-- `run_status.phase`
pub data RunPhase : Type 0 where
  active finalizing completed failed cancelled yielded : RunPhase

pub data SessionState : Type 0 where
  session_active session_revoked : SessionState

pub record RunStatus : Type 0 where
  pub run_id : Text
  pub phase : RunPhase
  pub terminal_target : Option RunPhase
  pub revision : ℕ
  pub active_slot : Bool
  pub current_attempt_id : Option Text
  pub updated_at : ℕ

pub record Attempt : Type 0 where
  pub id : Text
  pub run_id : Text
  pub ordinal : ℕ
  pub launch_key : Text
  pub created_at : ℕ

pub record AttemptStatus : Type 0 where
  pub attempt_id : Text
  pub run_id : Text
  pub observed_execution : Observation
  pub terminal : Bool
  pub revision : ℕ
  pub launch_contact_state : LaunchContactState
  pub launch_contact_initiated_at : Option ℕ
  pub launch_contact_epoch : Option Text
  pub started_at : Option ℕ
  pub finished_at : Option ℕ
  pub updated_at : ℕ

pub record Session : Type 0 where
  pub id : Text
  pub attempt_id : Text
  pub restore_generation : Text
  pub credential_revision : ℕ
  pub credential_hash : Text
  pub credential_rekeyed_at : Option ℕ
  pub state : SessionState
  pub created_at : ℕ
  pub revoked_at : Option ℕ
  pub revocation_reason : Option Text

pub record Event : Type 0 where
  pub sequence : ℕ
  pub event_type : Text
  pub recorded_at : ℕ
  -- the epoch and the id of the command, or neither
  pub command : Option (Text × Text)

pub record LedgerEntry : Type 0 where
  pub epoch : Text
  pub id : Text
  pub request_hash : Text
  pub sequence : ℕ
  pub recorded_at : ℕ

pub record Database : Type 0 where
  pub restore_generation : Option Text
  pub runs : List RunStatus
  -- the Runs with a row in `run_context_plans`
  pub planned : List Text
  pub attempts : List Attempt
  pub statuses : List AttemptStatus
  pub sessions : List Session
  -- `next_sequence` of the current journal epoch
  pub next_sequence : Option ℕ
  pub journal : List Event
  pub commands : List LedgerEntry
  pub now : ℕ

pub data StoreError : Type 0 where
  invariant_violated : Text → StoreError
  -- a table, a key, the expected and the actual revision
  revision_conflict : Text → Text → ℕ → Option ℕ → StoreError
  stale_command_epoch : Text → Text → StoreError
  command_conflict : Text → StoreError
  attempt_not_launch_ready : Text → Text → StoreError
  rekey_forbidden : Text → Text → StoreError
  stale_authority : Text → Text → StoreError
  -- SQLite refused a constraint of the schema
  constraint : Text → StoreError
  -- a column is NULL where the code reads a text
  invalid_column : Text → StoreError

-- SQLite's `length` of a text: the characters in front of its first NUL
unfoldable pub text_length : Text → ℕ
text_length [] = 0
text_length (b ∷ t) =
    let rest = text_length t in
    if b == 0 then 0 else if leb 0x80 b && ltb b 0xc0 then rest else rest + 1

-- the body of a transaction over its own view of the tables
abbrev pub Tx : Type 0 → Type 0
Tx A = Database → Result StoreError (A × Database)

abbrev pub pure : {A : Type 0} → A → Tx A
pure a db = ok (a, db)

-- `writer.fail`
abbrev pub fail : {A : Type 0} → StoreError → Tx A
fail e db = err e

abbrev pub gets : {A : Type 0} → (Database → A) → Tx A
gets f db = ok (f db, db)

abbrev pub modify : (Database → Database) → Tx Unit
modify f db = ok (tt, f db)

abbrev pub and_then :
    {A B : Type 0}
    → Result StoreError (A × Database)
    → (A → Tx B)
    → Result StoreError (B × Database)
and_then (err e) f = err e
and_then (ok r) f = f r.0 r.1

infixl 5 ◌>>=◌ ◌>>◌
abbrev pub ◌>>=◌ : {A B : Type 0} → Tx A → (A → Tx B) → Tx B
◌>>=◌ m f db = and_then (m db) f

abbrev pub ◌>>◌ : {A B : Type 0} → Tx A → Tx B → Tx B
m >> k = m >>= λ _. k

abbrev pub fail_if : Bool → StoreError → Tx Unit
fail_if true e = fail e
fail_if false e = pure tt

abbrev pub some_or : {A : Type 0} → Option A → StoreError → Tx A
some_or none e = fail e
some_or (some a) e = pure a
