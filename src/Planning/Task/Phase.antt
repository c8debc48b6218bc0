-- ===== src/Planning/Task/Phase.antt =====
-- crates/pantheon-core/src/planning/task.rs: the phases of a Task and their stored names.
use pantheon.Base.{
  ◌≡◌, refl, Bool, true, false, Option, none, some, Text, text, text_eq, text_eq_iff, arith,
  if◌then◌else◌,
}

pub data TaskPhase : Type 0 where
  pending ready active waiting evaluating finalizing succeeded failed cancelled superseded :
      TaskPhase

unfoldable pub as_str : TaskPhase → Text
as_str pending = text "Pending"
as_str ready = text "Ready"
as_str active = text "Active"
as_str waiting = text "Waiting"
as_str evaluating = text "Evaluating"
as_str finalizing = text "Finalizing"
as_str succeeded = text "Succeeded"
as_str failed = text "Failed"
as_str cancelled = text "Cancelled"
as_str superseded = text "Superseded"

unfoldable pub parse : Text → Option TaskPhase
parse t =
    if text_eq t (text "Pending")
    then some pending
    else if text_eq t (text "Ready")
    then some ready
    else if text_eq t (text "Active")
    then some active
    else if text_eq t (text "Waiting")
    then some waiting
    else if text_eq t (text "Evaluating")
    then some evaluating
    else if text_eq t (text "Finalizing")
    then some finalizing
    else if text_eq t (text "Succeeded")
    then some succeeded
    else if text_eq t (text "Failed")
    then some failed
    else if text_eq t (text "Cancelled")
    then some cancelled
    else if text_eq t (text "Superseded")
    then some superseded
    else none

unfoldable pub is_terminal : TaskPhase → Bool
is_terminal succeeded = true
is_terminal failed = true
is_terminal cancelled = true
is_terminal superseded = true
is_terminal _ = false

unfoldable pub requires_no_run : TaskPhase → Bool
requires_no_run ready = true
requires_no_run waiting = true
requires_no_run _ = false

pub parse-as_str : (p : TaskPhase) → parse (as_str p) ≡ some p
unfolding parse as_str
parse-as_str pending = refl
parse-as_str ready = refl
parse-as_str active = refl
parse-as_str waiting = refl
parse-as_str evaluating = refl
parse-as_str finalizing = refl
parse-as_str succeeded = refl
parse-as_str failed = refl
parse-as_str cancelled = refl
parse-as_str superseded = refl

pub parse_only : (t : Text) (p : TaskPhase) → parse t ≡ some p → t ≡ as_str p
unfolding parse as_str
parse_only t p h = ground (arith, text_eq_iff t)
