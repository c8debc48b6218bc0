-- ===== src/Store/Lineage/Creation.antt =====
-- crates/pantheon-store/src/execution.rs: `create_attempt`.
use pantheon.Base.{
  ℕ, ◌+◌, Bool, true, false, ◌&&◌, ◌||◌, not, Option, none, some, List, [], ◌∷◌, ◌++◌, Text, text,
  text_eq, ◌==◌, ltb, length, if◌then◌else◌, find?, any,
}
use pantheon.Store.Tables.{find_row}
use pantheon.Store.Database.{
  RunStatus, Attempt, AttemptStatus, Session, RunPhase, active, absent, not_contacted,
  session_active, revision_conflict, attempt_not_launch_ready, constraint, text_length, Tx, pure,
  fail, gets, modify, fail_if, some_or, ◌>>=◌, ◌>>◌,
}
use pantheon.Store.Journal.{Command, Committed, is_sized, execute, current_generation}
use pantheon.Store.Lineage.Revisioned.{run_status, set_current_attempt_id, update_revisioned_by}

pub record AttemptCreation : Type 0 where
  pub run_id : Text
  pub attempt_id : Text
  pub launch_key : Text
  pub session_id : Text
  pub credential_verifier : Text
  pub expected_run_status_revision : ℕ

pub record AttemptCreated : Type 0 where
  pub attempt_id : Text
  pub run_id : Text
  pub ordinal : ℕ
  pub launch_key : Text
  pub session_id : Text
  pub restore_generation : Text

abbrev pub is_active : RunPhase → Bool
is_active active = true
is_active _ = false

-- `s.phase = 'Active'` at the key
unfoldable pub active_run : Text → Tx (Option RunStatus)
active_run run_id = do
  row ← gets (λ db. find_row (λ r. r.run_id) run_id db.runs)
  pure (elim row [ none ↦ none | some r ↦ if is_active r.phase then some r else none ])

abbrev pub is_live_of : Text → AttemptStatus → Bool
is_live_of run_id s = text_eq s.run_id run_id && not s.terminal

abbrev pub refuse : {A : Type 0} → Text → Text → Tx A
refuse run_id detail = fail (attempt_not_launch_ready run_id detail)

unfoldable pub forbid_live : Text → Option AttemptStatus → Tx Unit
forbid_live run_id none = pure tt
forbid_live run_id (some s) =
    refuse run_id (text "nonterminal attempt " ++ s.attempt_id ++ text " already owns this Run")

-- COALESCE(MAX(ordinal), 0) over the Run's Attempts
unfoldable pub max_ordinal : Text → List Attempt → ℕ
max_ordinal run_id [] = 0
max_ordinal run_id (a ∷ l) =
    if text_eq a.run_id run_id && ltb (max_ordinal run_id l) a.ordinal
    then a.ordinal
    else max_ordinal run_id l

unfoldable pub insert_attempt : Attempt → Tx Unit
insert_attempt a = do
  fail_if (not (is_sized a.id) || not (text_length a.launch_key == 64))
      (constraint (text "attempts"))
  taken ← gets (λ db. any (λ b. text_eq b.id a.id || text_eq b.launch_key a.launch_key) db.attempts)
  fail_if taken (constraint (text "attempts"))
  modify (λ db. record db { attempts = db.attempts ++ a ∷ [] })

-- the primary key, and `one_nonterminal_attempt_per_run`
unfoldable pub insert_status : AttemptStatus → Tx Unit
insert_status s = do
  taken ← gets (λ db. any (λ t. text_eq t.attempt_id s.attempt_id) db.statuses)
  fail_if taken (constraint (text "attempt_status"))
  live ← gets (λ db. any (is_live_of s.run_id) db.statuses)
  fail_if (not s.terminal && live) (constraint (text "one_nonterminal_attempt_per_run"))
  modify (λ db. record db { statuses = db.statuses ++ s ∷ [] })

unfoldable pub insert_session : Session → Tx Unit
insert_session s = do
  fail_if
      (not (is_sized s.id)
        || not (text_length s.restore_generation == 32)
        || not (length s.credential_hash == 32))
      (constraint (text "agent_control_sessions"))
  taken ← gets (λ db. any (λ t. text_eq t.id s.id || text_eq t.attempt_id s.attempt_id) db.sessions)
  fail_if taken (constraint (text "agent_control_sessions"))
  modify (λ db. record db { sessions = db.sessions ++ s ∷ [] })

-- step 1 to 3: the Run is Active at the expected revision, has its frozen context, and no live Attempt
unfoldable pub check_launch_ready : AttemptCreation → Tx Unit
check_launch_ready c = do
  found ← active_run c.run_id
  run ←
      some_or found
        (attempt_not_launch_ready c.run_id (text "the Run does not exist or is not Active"))
  fail_if (not (run.revision == c.expected_run_status_revision)) (
      revision_conflict (text "run_status") c.run_id c.expected_run_status_revision
        (some run.revision))
  attached ← gets (λ db. any (λ r. text_eq r c.run_id) db.planned)
  fail_if (not attached) (
      attempt_not_launch_ready c.run_id
        (text "no ContextPlan is attached; the Run is not LaunchReady"))
  live ← gets (λ db. find? (is_live_of c.run_id) db.statuses)
  forbid_live c.run_id live

-- steps 4 to 6
unfoldable pub insert_lineage : AttemptCreation → Tx AttemptCreated
insert_lineage c = do
  last_ordinal ← gets (λ db. max_ordinal c.run_id db.attempts)
  generation ← current_generation
  now ← gets (λ db. db.now)
  insert_attempt (record {
    id = c.attempt_id;
    run_id = c.run_id;
    ordinal = last_ordinal + 1;
    launch_key = c.launch_key;
    created_at = now;
  })
  insert_status (record {
    attempt_id = c.attempt_id;
    run_id = c.run_id;
    observed_execution = absent;
    terminal = false;
    revision = 1;
    launch_contact_state = not_contacted;
    launch_contact_initiated_at = none;
    launch_contact_epoch = none;
    started_at = none;
    finished_at = none;
    updated_at = now;
  })
  insert_session (record {
    id = c.session_id;
    attempt_id = c.attempt_id;
    restore_generation = generation;
    credential_revision = 1;
    credential_hash = c.credential_verifier;
    credential_rekeyed_at = none;
    state = session_active;
    created_at = now;
    revoked_at = none;
    revocation_reason = none;
  })
  update_revisioned_by run_status c.run_id c.expected_run_status_revision
      (set_current_attempt_id (some c.attempt_id) ∷ [])
  pure (record {
    attempt_id = c.attempt_id;
    run_id = c.run_id;
    ordinal = last_ordinal + 1;
    launch_key = c.launch_key;
    session_id = c.session_id;
    restore_generation = generation;
  })

unfoldable pub apply_attempt_creation : AttemptCreation → Tx AttemptCreated
apply_attempt_creation c = check_launch_ready c >> insert_lineage c

unfoldable pub create_attempt : Command → AttemptCreation → Tx (Committed AttemptCreated)
create_attempt command c = execute command (apply_attempt_creation c)
