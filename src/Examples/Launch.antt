-- ===== src/Examples/Launch.antt =====
-- The properties of crates/pantheon-store/src/execution.rs around a launch, at a Run whose Attempt is
-- not contacted.
use pantheon.Base.{ℕ, ◌≡◌, refl, true, false, none, some, [], ◌∷◌, text, ok}
use pantheon.Store.Tables.{find_row, update_row}
use pantheon.Store.Database.{
  Database, RunStatus, Attempt, AttemptStatus, Session, Observation, LaunchContactState, RunPhase,
  SessionState, text_length,
}
use pantheon.Store.Journal.{
  append_internal_event, allocate_sequence, insert_event, current_generation,
}
use pantheon.Store.Lineage.Revisioned.{
  check_assignments, ensure_plain_identifier, update_found, update_revisioned_by,
}
use pantheon.Store.Lineage.Creation.{active_run}
use pantheon.Store.Lineage.Authority.{
  split_once, status_of, session_of, current_attempt, owner_attempt, require_precontact,
  require_session, forbid_rekey_unless_precontact, swap_credential, rekey_agent_control_session,
  live_revision, require_authority, first_contact, eligible, mark_launch_contact,
}
use pantheon.Store.Lineage.Boundary.{
  IsCrossed, IsCurrent, mark_launch_contact-IsCrossed, rekey-IsCurrent,
}

abbrev run : RunStatus
run = record {
  run_id = text "r1";
  phase = RunPhase.active;
  terminal_target = none;
  revision = 2;
  active_slot = true;
  current_attempt_id = some (text "t1");
  updated_at = 1;
}

abbrev attempt : Attempt
attempt = record {
  id = text "t1";
  run_id = text "r1";
  ordinal = 1;
  launch_key = text "key";
  created_at = 1;
}

abbrev waiting : AttemptStatus
waiting = record {
  attempt_id = text "t1";
  run_id = text "r1";
  observed_execution = Observation.absent;
  terminal = false;
  revision = 1;
  launch_contact_state = LaunchContactState.not_contacted;
  launch_contact_initiated_at = none;
  launch_contact_epoch = none;
  started_at = none;
  finished_at = none;
  updated_at = 1;
}

abbrev session : Session
session = record {
  id = text "s1";
  attempt_id = text "t1";
  restore_generation = text "gen";
  credential_revision = 1;
  credential_hash = text "old";
  credential_rekeyed_at = none;
  state = SessionState.session_active;
  created_at = 1;
  revoked_at = none;
  revocation_reason = none;
}

abbrev ready : Database
ready = record {
  restore_generation = some (text "gen");
  runs = run ∷ [];
  planned = [];
  attempts = attempt ∷ [];
  statuses = waiting ∷ [];
  sessions = session ∷ [];
  next_sequence = some 1;
  journal = [];
  commands = [];
  now = 9;
}

abbrev contacted : Database
contacted = record ready {
  statuses =
      (record waiting {
        launch_contact_state = LaunchContactState.contact_may_have_occurred;
        launch_contact_initiated_at = some 9;
        launch_contact_epoch = some (text "e1");
        updated_at = 9;
        revision = 2;
      })
      ∷ [];
  next_sequence = some 2;
  journal =
      (record {
        sequence = 1;
        event_type = text "run.attempt.contact-initiated";
        recorded_at = 9;
        command = none;
      })
      ∷ [];
}

contact : mark_launch_contact (text "r1") (text "t1") (text "e1") 1 1 ready ≡ ok (tt, contacted)
unfolding mark_launch_contact status_of eligible first_contact require_authority current_attempt
    active_run live_revision session_of update_revisioned_by check_assignments
    ensure_plain_identifier update_found append_internal_event allocate_sequence insert_event
    text_length find_row update_row
contact = refl

mark_launch_contact-IsCrossed_example : IsCrossed (text "r1") (text "t1") contacted
mark_launch_contact-IsCrossed_example =
    mark_launch_contact-IsCrossed (text "r1") (text "t1") (text "e1") 1 1 ready (tt, contacted)
      contact

abbrev rekeyed : Database
rekeyed = record ready {
  sessions =
      (record session {
        credential_revision = 2;
        credential_hash = text "new";
        credential_rekeyed_at = some 9;
      })
      ∷ [];
  next_sequence = some 2;
  journal =
      (record {
        sequence = 1;
        event_type = text "agent-control.session.rekeyed";
        recorded_at = 9;
        command = none;
      })
      ∷ [];
}

rekey : rekey_agent_control_session (text "t1") (text "new") 1 ready ≡ ok (2, rekeyed)
unfolding rekey_agent_control_session forbid_rekey_unless_precontact require_precontact
    require_session owner_attempt current_attempt active_run status_of session_of split_once
    current_generation swap_credential append_internal_event allocate_sequence insert_event
    text_length find_row update_row
rekey = refl

rekey-IsCurrent_example : ◌≡◌ {A = ℕ} 2 2 × IsCurrent (text "t1") (2, text "new") rekeyed
rekey-IsCurrent_example = rekey-IsCurrent (text "t1") (text "new") 1 ready (2, rekeyed) rekey
