-- ===== src/Planning/Goal/Phase.antt =====
-- crates/pantheon-core/src/planning/goal.rs: the phases of a Goal and their stored names.
use pantheon.Base.{
  ◌≡◌, refl, Bool, true, false, Option, none, some, Text, text, text_eq, text_eq_iff, arith,
  if◌then◌else◌,
}

pub data GoalPhase : Type 0 where
  planning active evaluating finalizing succeeded failed cancelled : GoalPhase

unfoldable pub as_str : GoalPhase → Text
as_str planning = text "Planning"
as_str active = text "Active"
as_str evaluating = text "Evaluating"
as_str finalizing = text "Finalizing"
as_str succeeded = text "Succeeded"
as_str failed = text "Failed"
as_str cancelled = text "Cancelled"

unfoldable pub parse : Text → Option GoalPhase
parse t =
    if text_eq t (text "Planning")
    then some planning
    else if text_eq t (text "Active")
    then some active
    else if text_eq t (text "Evaluating")
    then some evaluating
    else if text_eq t (text "Finalizing")
    then some finalizing
    else if text_eq t (text "Succeeded")
    then some succeeded
    else if text_eq t (text "Failed")
    then some failed
    else if text_eq t (text "Cancelled")
    then some cancelled
    else none

unfoldable pub is_nonterminal : GoalPhase → Bool
is_nonterminal planning = true
is_nonterminal active = true
is_nonterminal evaluating = true
is_nonterminal finalizing = true
is_nonterminal _ = false

pub parse-as_str : (p : GoalPhase) → parse (as_str p) ≡ some p
unfolding parse as_str
parse-as_str planning = refl
parse-as_str active = refl
parse-as_str evaluating = refl
parse-as_str finalizing = refl
parse-as_str succeeded = refl
parse-as_str failed = refl
parse-as_str cancelled = refl

pub parse_only : (t : Text) (p : GoalPhase) → parse t ≡ some p → t ≡ as_str p
unfolding parse as_str
parse_only t p h = ground (arith, text_eq_iff t)
