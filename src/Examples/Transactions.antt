-- ===== src/Examples/Transactions.antt =====
-- The properties of crates/pantheon-store at concrete inputs.
use pantheon.Base.{
  ◌≡◌, refl, true, false, none, some, List, [], ◌∷◌, ◌++◌, Text, text, ok, err, arith,
}
use pantheon.Store.Tables.{find_row, update_row}
use pantheon.Store.Database.{
  Database, AttemptStatus, Session, Observation, LaunchContactState, SessionState,
  revision_conflict, invariant_violated, text_length,
}
use pantheon.Store.Journal.{
  RequestHash, Command, allocate_sequence, insert_event, append_internal_event,
}
use pantheon.Store.Journal.History.{History}
use pantheon.Store.Lineage.Revisioned.{
  StatusAssignment, set_observed, set_status_revision, ensure_plain_identifier, check_assignments,
  update_found, update_revisioned_by, attempt_status,
}
use pantheon.Store.Lineage.Swap.{attempt_status-IsColumnar, update_revisioned_by-twice}
use pantheon.Store.Lineage.Authority.{status_of}
use pantheon.Store.Lineage.Outcome.{
  terminal_with, record_execution_observation, apply_terminal, require_contact, revoke_session,
}
use pantheon.Store.Lineage.Fencing.{Steps, step, done, observed, IsFrozen, Steps-IsFrozen}
use pantheon.Store.Lineage.Attempts.{IsProven, IsSingle, live, Steps-IsProven, Steps-IsSingle}
use pantheon.Examples.{filled}

abbrev generation : Text
generation = text "0123456789abcdef0123456789abcdef"

abbrev request_hash : RequestHash
request_hash = record { bytes = filled 32; full = refl }

abbrev other_hash : RequestHash
other_hash = record { bytes = b'x' ∷ filled 31; full = refl }

-- a Run with an Attempt that is contacted, and its session
abbrev contacted_status : AttemptStatus
contacted_status = record {
  attempt_id = text "t1";
  run_id = text "r1";
  observed_execution = Observation.absent;
  terminal = false;
  revision = 2;
  launch_contact_state = LaunchContactState.contact_may_have_occurred;
  launch_contact_initiated_at = some 4;
  launch_contact_epoch = some (text "e");
  started_at = none;
  finished_at = none;
  updated_at = 4;
}

abbrev live_session : Session
live_session = record {
  id = text "s1";
  attempt_id = text "t1";
  restore_generation = generation;
  credential_revision = 1;
  credential_hash = filled 32;
  credential_rekeyed_at = none;
  state = SessionState.session_active;
  created_at = 3;
  revoked_at = none;
  revocation_reason = none;
}

abbrev tables : Database
tables = record {
  restore_generation = some (generation);
  runs = [];
  planned = [];
  attempts = [];
  statuses = contacted_status ∷ [];
  sessions = live_session ∷ [];
  next_sequence = some 5;
  journal = [];
  commands = [];
  now = 9;
}

abbrev command : Command
command = record {
  epoch = generation;
  id = text "c1";
  request_hash = request_hash;
  event_type = text "test.ran";
}

-- the tables after the command ran with a body that changes nothing
abbrev tables_after : Database
tables_after = record tables {
  next_sequence = some 6;
  journal =
      (record {
        sequence = 5;
        event_type = text "test.ran";
        recorded_at = 9;
        command = some (generation, text "c1");
      })
      ∷ [];
  commands =
      (record {
        epoch = generation;
        id = text "c1";
        request_hash = filled 32;
        sequence = 5;
        recorded_at = 9;
      })
      ∷ [];
}

-- another command that runs later
abbrev second : Command
second = record command { id = text "c2" }

abbrev tables_later : Database
tables_later = record tables_after {
  next_sequence = some 7;
  journal =
      tables_after.journal
      ++ (record {
        sequence = 6;
        event_type = text "test.ran";
        recorded_at = 9;
        command = some (generation, text "c2");
      })
        ∷ [];
  commands =
      tables_after.commands
      ++ (record {
        epoch = generation;
        id = text "c2";
        request_hash = filled 32;
        sequence = 6;
        recorded_at = 9;
      })
        ∷ [];
}

-- the Attempt is then found to be terminal
abbrev tables_ended : Database
tables_ended = record tables {
  statuses =
      (record contacted_status {
        observed_execution = Observation.exited;
        terminal = true;
        finished_at = some 9;
        updated_at = 9;
        revision = 3;
      })
      ∷ [];
  sessions =
      (record live_session {
        state = SessionState.session_revoked;
        revoked_at = some 9;
        revocation_reason = some (text "attempt-terminal");
      })
      ∷ [];
  next_sequence = some 6;
  journal =
      (record {
        sequence = 5;
        event_type = text "run.attempt.terminal";
        recorded_at = 9;
        command = none;
      })
      ∷ [];
}

ended :
    record_execution_observation (text "t1") 2 (terminal_with Observation.exited) tables
    ≡ ok (3, tables_ended)
unfolding record_execution_observation apply_terminal status_of require_contact update_revisioned_by
    check_assignments ensure_plain_identifier update_found revoke_session append_internal_event
    allocate_sequence insert_event find_row update_row text_length
ended = refl

history : Steps tables tables_ended
history =
    step (observed (text "t1") 2 (terminal_with Observation.exited) (3, tables_ended) ended) done

tables-IsFrozen : IsFrozen (text "t1") (1, filled 32) tables.statuses tables.sessions
unfolding find_row
tables-IsFrozen = ((contacted_status, refl, refl), (live_session, refl, refl))

Steps-IsFrozen_example :
    IsFrozen (text "t1") (1, filled 32) tables_ended.statuses tables_ended.sessions
Steps-IsFrozen_example = Steps-IsFrozen (text "t1") (1, filled 32) history tables-IsFrozen

Steps-IsProven_example : IsProven tables_ended.statuses tables_ended.sessions
Steps-IsProven_example = Steps-IsProven history ((λ t. refl), tt)

tables-IsSingle : IsSingle tables.statuses tables.sessions
unfolding live
tables-IsSingle run_id = ground arith

Steps-IsSingle_example : IsSingle tables_ended.statuses tables_ended.sessions
Steps-IsSingle_example = Steps-IsSingle history tables-IsSingle

abbrev first_tables : Database
first_tables = record tables { next_sequence = some 1 }

abbrev claim : List StatusAssignment
claim = set_observed Observation.running ∷ []

abbrev claimed : Database
claimed = record tables {
  statuses =
      (record contacted_status { observed_execution = Observation.running; revision = 3 }) ∷ [];
}

claimed_once : update_revisioned_by attempt_status (text "t1") 2 claim tables ≡ ok (3, claimed)
unfolding update_revisioned_by check_assignments update_found find_row update_row
    ensure_plain_identifier
claimed_once = refl

claim_checked : check_assignments attempt_status claim claimed ≡ ok (tt, claimed)
unfolding check_assignments ensure_plain_identifier
claim_checked = refl

-- the revision may not be assigned
revision_refused :
    check_assignments attempt_status (set_status_revision 7 ∷ []) tables
    ≡ err (
        invariant_violated
          (text "a revisioned update may not assign the revision column of attempt_status"))
unfolding check_assignments ensure_plain_identifier
revision_refused = refl

update_revisioned_by-twice_example :
    update_revisioned_by attempt_status (text "t1") 2 claim claimed
    ≡ err (revision_conflict (text "attempt_status") (text "t1") 2 (some 3))
update_revisioned_by-twice_example =
    update_revisioned_by-twice attempt_status (text "t1") 2 claim claim tables (3, claimed)
      attempt_status-IsColumnar claimed_once claim_checked
