-- ===== src/Store/Lineage/Outcome.antt =====
-- crates/pantheon-store/src/execution.rs: `record_execution_observation` and `conclude_run`.
use pantheon.Base.{
  ℕ, Bool, true, false, not, Option, none, some, [], ◌∷◌, ◌++◌, Text, text, text_eq, if◌then◌else◌,
}
use pantheon.Store.Tables.{update_row}
use pantheon.Store.Database.{
  AttemptStatus, Observation, starting, running, exited, RunPhase, failed, cancelled,
  session_revoked, invariant_violated, Tx, pure, fail, gets, modify, fail_if, some_or, ◌>>=◌, ◌>>◌,
}
use pantheon.Store.Journal.{append_internal_event}
use pantheon.Store.Lineage.Revisioned.{
  run_status, attempt_status, set_phase, set_terminal_target, set_active_slot, set_updated_at,
  set_observed, set_terminal, set_finished_at, set_touched_at, update_revisioned_by,
}
use pantheon.Store.Lineage.Authority.{is_contacted, is_open, contact_text, status_of}

pub data ObservationUpdate : Type 0 where
  observe terminal_with : Observation → ObservationUpdate

abbrev pub is_exited : Observation → Bool
is_exited exited = true
is_exited _ = false

abbrev pub is_alive : Observation → Bool
is_alive starting = true
is_alive running = true
is_alive _ = false

abbrev pub coalesce : {A : Type 0} → Option A → A → A
coalesce none b = b
coalesce (some a) b = a

-- started_at = COALESCE(started_at, now), once the Attempt is alive
unfoldable pub stamp_started : Text → Observation → Tx Unit
stamp_started attempt_id o =
    if is_alive o
    then modify (λ db. record db {
      statuses =
          update_row (λ s. s.attempt_id) attempt_id
            (λ s. record s { started_at = some (coalesce s.started_at db.now) }) db.statuses;
    })
    else pure tt

unfoldable pub revoke_session : Text → Tx Unit
revoke_session attempt_id = modify (λ db. record db {
  sessions =
      update_row (λ s. s.attempt_id) attempt_id
        (λ s.
          if is_open s.state
          then record s {
            state = session_revoked;
            revoked_at = some db.now;
            revocation_reason = some (coalesce s.revocation_reason (text "attempt-terminal"));
          }
          else s)
        db.sessions;
})

unfoldable pub apply_observe : Text → ℕ → Observation → Tx ℕ
apply_observe attempt_id expected o = do
  now ← gets (λ db. db.now)
  fail_if (is_exited o) (invariant_violated (text "EXITED is definitive; use the terminal update"))
  new_revision ←
      update_revisioned_by attempt_status attempt_id expected
        (set_observed o ∷ set_touched_at now ∷ [])
  stamp_started attempt_id o
  pure new_revision

-- the durable contact marker is there
unfoldable pub require_contact : Text → Option AttemptStatus → Tx Unit
require_contact attempt_id none = fail (
    invariant_violated (
      text "attempt "
      ++ attempt_id
      ++ text " cannot terminalize while launch contact is not proven (absent)"))
require_contact attempt_id (some s) = fail_if (not (is_contacted s.launch_contact_state)) (
    invariant_violated (
      text "attempt "
      ++ attempt_id
      ++ text " cannot terminalize while launch contact is not proven ("
      ++ contact_text s.launch_contact_state
      ++ text ")"))

unfoldable pub apply_terminal : Text → ℕ → Observation → Tx ℕ
apply_terminal attempt_id expected o = do
  now ← gets (λ db. db.now)
  status ← status_of attempt_id
  require_contact attempt_id status
  new_revision ←
      update_revisioned_by attempt_status attempt_id expected
        (set_observed o ∷ set_terminal true ∷ set_finished_at (some now) ∷ set_touched_at now ∷ [])
  revoke_session attempt_id
  append_internal_event (text "run.attempt.terminal")
  pure new_revision

unfoldable pub record_execution_observation : Text → ℕ → ObservationUpdate → Tx ℕ
record_execution_observation attempt_id expected (observe o) = apply_observe attempt_id expected o
record_execution_observation attempt_id expected (terminal_with o) =
    apply_terminal attempt_id expected o

-- the conclusions that carry no Candidate
abbrev pub direct_phase : Text → Option RunPhase
direct_phase target =
    if text_eq target (text "Failed")
    then some failed
    else if text_eq target (text "Cancelled")
    then some cancelled
    else none

unfoldable pub conclude_run : Text → Text → ℕ → Tx Unit
conclude_run run_id terminal_target expected = do
  target ← some_or (direct_phase terminal_target) (
      invariant_violated
        (text "terminal target " ++ terminal_target ++ text " cannot conclude a Run directly"))
  now ← gets (λ db. db.now)
  update_revisioned_by run_status run_id expected (
      set_phase target
      ∷ set_terminal_target (some target)
      ∷ set_active_slot false
      ∷ set_updated_at now
      ∷ [])
  append_internal_event (text "run.concluded")
  pure tt
