-- ===== src/Store/Lineage/Authority.antt =====
-- crates/pantheon-store/src/execution.rs: `rekey_agent_control_session` and `mark_launch_contact`.
use pantheon.Base.{
  ℕ, ◌+◌, Bool, true, false, ◌&&◌, not, Option, none, some, [], ◌∷◌, ◌++◌, Text, text, text_eq,
  ◌==◌, if◌then◌else◌,
}
use pantheon.Store.Tables.{find_row, update_row}
use pantheon.Store.Database.{
  AttemptStatus, Session, LaunchContactState, not_contacted, contact_may_have_occurred,
  SessionState, session_active, session_revoked, invariant_violated, revision_conflict,
  rekey_forbidden, stale_authority, invalid_column, Tx, pure, fail, gets, modify, fail_if, some_or,
  ◌>>=◌, ◌>>◌,
}
use pantheon.Store.Journal.{current_generation, append_internal_event}
use pantheon.Store.Lineage.Revisioned.{
  attempt_status, set_contact_state, set_contact_initiated_at, set_contact_epoch, set_touched_at,
  update_revisioned_by,
}
use pantheon.Store.Lineage.Creation.{active_run}

abbrev pub is_contacted : LaunchContactState → Bool
is_contacted not_contacted = false
is_contacted contact_may_have_occurred = true

abbrev pub is_open : SessionState → Bool
is_open session_active = true
is_open session_revoked = false

-- the `state` column
abbrev pub state_text : SessionState → Text
state_text session_active = text "ACTIVE"
state_text session_revoked = text "REVOKED"

abbrev pub contact_text : LaunchContactState → Text
contact_text not_contacted = text "NOT_CONTACTED"
contact_text contact_may_have_occurred = text "CONTACT_MAY_HAVE_OCCURRED"

-- `str::split_once` at one byte
unfoldable pub split_once : ℕ → Text → Option (Text × Text)
split_once b [] = none
split_once b (c ∷ t) =
    if c == b
    then some ([], t)
    else elim (split_once b t) [ none ↦ none | some r ↦ some (c ∷ r.0, r.1) ]

unfoldable pub status_of : Text → Tx (Option AttemptStatus)
status_of attempt_id = gets (λ db. find_row (λ s. s.attempt_id) attempt_id db.statuses)

unfoldable pub session_of : Text → Tx (Option Session)
session_of attempt_id = gets (λ db. find_row (λ s. s.attempt_id) attempt_id db.sessions)

-- the text column `current_attempt_id` of the Run, when it is Active
unfoldable pub current_attempt : Text → Tx (Option Text)
current_attempt run_id = do
  run ← active_run run_id
  elim run [
    | none ↦ pure none
    | some r ↦ some_or r.current_attempt_id (invalid_column (text "current_attempt_id")) >>= λ a.
        pure (some a)
  ]

abbrev pub names : Text → Option Text → Bool
names a none = false
names a (some b) = text_eq b a

-- the Run of the Attempt
unfoldable pub owner_attempt : Text → Tx (Option Text)
owner_attempt attempt_id = do
  attempt ← gets (λ db. find_row (λ a. a.id) attempt_id db.attempts)
  elim attempt [ none ↦ pure none | some a ↦ current_attempt a.run_id ]

-- the Attempt is nonterminal and not contacted
unfoldable pub require_precontact : Text → Tx Unit
require_precontact attempt_id = do
  facts ← status_of attempt_id
  status ← some_or facts (rekey_forbidden attempt_id (text "the Attempt does not exist"))
  fail_if status.terminal (rekey_forbidden attempt_id (text "the Attempt is terminal"))
  fail_if (is_contacted status.launch_contact_state) (
      rekey_forbidden attempt_id (
        text "launch contact is "
        ++ contact_text status.launch_contact_state
        ++ text "; the credential revision is frozen"))

-- the session is ACTIVE and of the current generation
unfoldable pub require_session : Text → Tx Unit
require_session attempt_id = do
  generation ← current_generation
  found ← session_of attempt_id
  session ←
      some_or found (rekey_forbidden attempt_id (text "the Attempt owns no AgentControlSession"))
  halves ←
      some_or (split_once 124 (session.restore_generation ++ 124 ∷ state_text session.state))
        (invariant_violated (text "session generation/state unreadable"))
  fail_if (not (text_eq halves.1 (text "ACTIVE")))
      (rekey_forbidden attempt_id (text "the session is " ++ halves.1 ++ text ", not ACTIVE"))
  fail_if (not (text_eq halves.0 generation))
      (rekey_forbidden attempt_id (text "the session belongs to an older RestoreGeneration"))

unfoldable pub forbid_rekey_unless_precontact : Text → Tx Unit
forbid_rekey_unless_precontact attempt_id = do
  require_precontact attempt_id
  require_session attempt_id
  current ← owner_attempt attempt_id
  fail_if (not (names attempt_id current)) (
      rekey_forbidden attempt_id
        (text "the Attempt is no longer the Run's current one under an Active Run"))

-- WHERE attempt_id = ? AND credential_revision = ? AND state = 'ACTIVE'
abbrev pub can_swap : ℕ → Session → Bool
can_swap expected s = s.credential_revision == expected && is_open s.state

unfoldable pub swap_credential : Text → Text → ℕ → Option Session → Tx Unit
swap_credential attempt_id verifier expected none =
    fail (revision_conflict (text "agent_control_sessions") attempt_id expected none)
swap_credential attempt_id verifier expected (some s) =
    if can_swap expected s
    then modify (λ db. record db {
      sessions =
          update_row (λ s. s.attempt_id) attempt_id
            (λ s. record s {
              credential_revision = s.credential_revision + 1;
              credential_hash = verifier;
              credential_rekeyed_at = some db.now;
            })
            db.sessions;
    })
    else fail (
        revision_conflict (text "agent_control_sessions") attempt_id expected
          (some s.credential_revision))

unfoldable pub rekey_agent_control_session : Text → Text → ℕ → Tx ℕ
rekey_agent_control_session attempt_id verifier expected = do
  forbid_rekey_unless_precontact attempt_id
  session ← session_of attempt_id
  swap_credential attempt_id verifier expected session
  append_internal_event (text "agent-control.session.rekeyed")
  pure (expected + 1)

-- the credential revision of the Attempt's ACTIVE session of the current generation
unfoldable pub live_revision : Text → Tx (Option ℕ)
live_revision attempt_id = do
  generation ← gets (λ db. db.restore_generation)
  session ← session_of attempt_id
  pure (elim session [
    | none ↦ none
    | some s ↦
        if is_open s.state && names s.restore_generation generation
        then some s.credential_revision
        else none
  ])

-- the guards of a first contact
unfoldable pub require_authority : Text → Text → ℕ → Tx Unit
require_authority run_id attempt_id expected_credential = do
  current ← current_attempt run_id
  fail_if (not (names attempt_id current)) (
      stale_authority attempt_id
        (text "the Attempt is no longer the Run's current one under an Active Run"))
  found ← live_revision attempt_id
  credential ←
      some_or found
        (stale_authority attempt_id (text "no current-generation ACTIVE session exists"))
  fail_if (not (credential == expected_credential))
      (stale_authority attempt_id (text "session credential revision is not the expected one"))

unfoldable pub first_contact : Text → Text → Text → ℕ → ℕ → Tx Unit
first_contact run_id attempt_id controller_epoch expected_status expected_credential = do
  require_authority run_id attempt_id expected_credential
  now ← gets (λ db. db.now)
  update_revisioned_by attempt_status attempt_id expected_status (
      set_contact_state contact_may_have_occurred
      ∷ set_contact_initiated_at (some now)
      ∷ set_contact_epoch (some controller_epoch)
      ∷ set_touched_at now
      ∷ [])
  append_internal_event (text "run.attempt.contact-initiated")
  pure tt

-- WHERE run_id = ? AND terminal = 0
unfoldable pub eligible : Text → Option AttemptStatus → Option AttemptStatus
eligible run_id none = none
eligible run_id (some s) = if text_eq s.run_id run_id && not s.terminal then some s else none

unfoldable pub mark_launch_contact : Text → Text → Text → ℕ → ℕ → Tx Unit
mark_launch_contact run_id attempt_id controller_epoch expected_status expected_credential = do
  found ← status_of attempt_id
  status ←
      some_or (eligible run_id found)
        (stale_authority attempt_id (text "the Attempt is absent, foreign to the Run, or terminal"))
  -- lost-response reconciliation: the boundary already committed
  if is_contacted status.launch_contact_state
      then pure tt
      else first_contact run_id attempt_id controller_epoch expected_status expected_credential
