-- ===== src/Store/Lineage/Revisioned.antt =====
-- crates/pantheon-store/src/transaction.rs: the compare-and-swap update of a revisioned table.
use pantheon.Base.{
  ℕ, ◌+◌, Bool, true, false, ◌&&◌, ◌||◌, not, Option, none, some, List, [], ◌∷◌, ◌++◌, map, Text,
  text, text_eq, leb, ◌==◌, if◌then◌else◌,
}
use pantheon.Store.Tables.{find_row, update_row}
use pantheon.Store.Database.{
  Database, RunStatus, RunPhase, AttemptStatus, Observation, LaunchContactState, invariant_violated,
  revision_conflict, Tx, pure, fail, fail_if, gets, modify, ◌>>=◌, ◌>>◌,
}

-- a table whose rows have a key and a revision, and the assignments to its columns
pub record Table (A B : Type 0) : Type 0 where
  pub name : Text
  pub key_column : Text
  pub key : A → Text
  pub revision : A → ℕ
  pub with_revision : ℕ → A → A
  pub column : B → Text
  pub write : B → A → A
  pub rows : Database → List A
  pub put : List A → Database → Database

-- an assignment to a column of `run_status`
pub data RunAssignment : Type 0 where
  set_run_id : Text → RunAssignment
  set_phase : RunPhase → RunAssignment
  set_terminal_target : Option RunPhase → RunAssignment
  set_revision set_updated_at : ℕ → RunAssignment
  set_active_slot : Bool → RunAssignment
  set_current_attempt_id : Option Text → RunAssignment

abbrev pub run_column : RunAssignment → Text
run_column (set_run_id _) = text "run_id"
run_column (set_phase _) = text "phase"
run_column (set_terminal_target _) = text "terminal_target"
run_column (set_revision _) = text "revision"
run_column (set_updated_at _) = text "updated_at"
run_column (set_active_slot _) = text "active_slot"
run_column (set_current_attempt_id _) = text "current_attempt_id"

abbrev pub run_write : RunAssignment → RunStatus → RunStatus
run_write (set_run_id v) r = record r { run_id = v }
run_write (set_phase v) r = record r { phase = v }
run_write (set_terminal_target v) r = record r { terminal_target = v }
run_write (set_revision v) r = record r { revision = v }
run_write (set_updated_at v) r = record r { updated_at = v }
run_write (set_active_slot v) r = record r { active_slot = v }
run_write (set_current_attempt_id v) r = record r { current_attempt_id = v }

-- an assignment to a column of `attempt_status`
pub data StatusAssignment : Type 0 where
  set_attempt_id set_holder : Text → StatusAssignment
  set_observed : Observation → StatusAssignment
  set_terminal : Bool → StatusAssignment
  set_status_revision set_touched_at : ℕ → StatusAssignment
  set_contact_state : LaunchContactState → StatusAssignment
  set_contact_epoch : Option Text → StatusAssignment
  set_contact_initiated_at set_started_at set_finished_at : Option ℕ → StatusAssignment

abbrev pub status_column : StatusAssignment → Text
status_column (set_attempt_id _) = text "attempt_id"
status_column (set_holder _) = text "run_id"
status_column (set_observed _) = text "observed_execution"
status_column (set_terminal _) = text "terminal"
status_column (set_status_revision _) = text "revision"
status_column (set_touched_at _) = text "updated_at"
status_column (set_contact_state _) = text "launch_contact_state"
status_column (set_contact_epoch _) = text "launch_contact_epoch"
status_column (set_contact_initiated_at _) = text "launch_contact_initiated_at"
status_column (set_started_at _) = text "started_at"
status_column (set_finished_at _) = text "finished_at"

abbrev pub status_write : StatusAssignment → AttemptStatus → AttemptStatus
status_write (set_attempt_id v) s = record s { attempt_id = v }
status_write (set_holder v) s = record s { run_id = v }
status_write (set_observed v) s = record s { observed_execution = v }
status_write (set_terminal v) s = record s { terminal = v }
status_write (set_status_revision v) s = record s { revision = v }
status_write (set_touched_at v) s = record s { updated_at = v }
status_write (set_contact_state v) s = record s { launch_contact_state = v }
status_write (set_contact_epoch v) s = record s { launch_contact_epoch = v }
status_write (set_contact_initiated_at v) s = record s { launch_contact_initiated_at = v }
status_write (set_started_at v) s = record s { started_at = v }
status_write (set_finished_at v) s = record s { finished_at = v }

abbrev pub run_status : Table RunStatus RunAssignment
run_status = record {
  name = text "run_status";
  key_column = text "run_id";
  key = λ r. r.run_id;
  revision = λ r. r.revision;
  with_revision = λ n r. record r { revision = n };
  column = run_column;
  write = run_write;
  rows = λ db. db.runs;
  put = λ l db. record db { runs = l };
}

abbrev pub attempt_status : Table AttemptStatus StatusAssignment
attempt_status = record {
  name = text "attempt_status";
  key_column = text "attempt_id";
  key = λ r. r.attempt_id;
  revision = λ r. r.revision;
  with_revision = λ n r. record r { revision = n };
  column = status_column;
  write = status_write;
  rows = λ db. db.statuses;
  put = λ l db. record db { statuses = l };
}

abbrev pub is_ascii_digit : ℕ → Bool
is_ascii_digit c = leb b'0' c && leb c b'9'

abbrev pub is_ascii_upper : ℕ → Bool
is_ascii_upper c = leb b'A' c && leb c b'Z'

abbrev pub is_ascii_alphanumeric : ℕ → Bool
is_ascii_alphanumeric c = is_ascii_digit c || (is_ascii_upper c || (leb b'a' c && leb c b'z'))

abbrev pub are_plain : Text → Bool
are_plain [] = true
are_plain (c ∷ t) = (is_ascii_alphanumeric c || c == b'_') && are_plain t

abbrev pub is_plain : Text → Bool
is_plain [] = false
is_plain (c ∷ t) = not (is_ascii_digit c) && are_plain (c ∷ t)

unfoldable pub ensure_plain_identifier : Text → Text → Tx Unit
ensure_plain_identifier kind name =
    fail_if (not (is_plain name))
      (invariant_violated (kind ++ text " name " ++ name ++ text " is not a plain SQL identifier"))

abbrev pub to_lower : ℕ → ℕ
to_lower c = if is_ascii_upper c then c + 32 else c

-- `eq_ignore_ascii_case`
abbrev pub same_column : Text → Text → Bool
same_column a b = text_eq (map to_lower a) (map to_lower b)

-- the columns that an update may not assign
abbrev pub is_protected : Text → Text → Bool
is_protected key_column column =
    same_column column (text "revision")
    || (same_column column (text "id") || same_column column key_column)

unfoldable pub check_assignments : {A B : Type 0} → Table A B → List B → Tx Unit
unfolding ensure_plain_identifier
check_assignments t [] = pure tt
check_assignments t (b ∷ assignments) = do
  ensure_plain_identifier (text "column") (t.column b)
  fail_if (is_protected t.key_column (t.column b)) (
      invariant_violated (
        text "a revisioned update may not assign the "
        ++ t.column b
        ++ text " column of "
        ++ t.name))
  check_assignments t assignments

-- of two assignments to one column the later one counts
abbrev pub assign : {A B : Type 0} → Table A B → List B → A → A
assign t [] r = r
assign t (b ∷ assignments) r = assign t assignments (t.write b r)

-- SET …, revision = revision + 1
abbrev pub advance : {A B : Type 0} → Table A B → List B → A → A
advance t assignments r = t.with_revision (t.revision r + 1) (assign t assignments r)

-- the outcome for the row that the key names, if there is one
unfoldable pub update_found : {A B : Type 0} → Table A B → Text → ℕ → List B → Option A → Tx ℕ
update_found t key expected assignments none = fail (revision_conflict t.name key expected none)
update_found t key expected assignments (some r) =
    if t.revision r == expected
    then (modify (λ db. t.put (update_row t.key key (advance t assignments) (t.rows db)) db)
        >> pure (expected + 1))
    else fail (revision_conflict t.name key expected (some (t.revision r)))

unfoldable pub update_revisioned_by : {A B : Type 0} → Table A B → Text → ℕ → List B → Tx ℕ
unfolding ensure_plain_identifier check_assignments update_found
update_revisioned_by t key expected assignments = do
  ensure_plain_identifier (text "table") t.name
  ensure_plain_identifier (text "column") t.key_column
  check_assignments t assignments
  row ← gets (λ db. find_row t.key key (t.rows db))
  update_found t key expected assignments row
