-- ===== src/Planning/Direct.antt =====
-- crates/pantheon-core/src/planning/direct.rs: the deterministic planner, and what validation makes
-- of its proposals.
pub mod Servable
use pantheon.Base.{
  ◌≡◌, ◌≢◌, ◌↔◌, refl, Bool, true, false, Option, none, some, List, [], ◌∷◌, map, Text, text, All,
  Any, inl, inr,
}
use pantheon.Base.Accepts.{IsOk, Has}
use pantheon.Base.Int.{ℤ}
use pantheon.Config.Value.{Value, integer, string, object_of}
use pantheon.Config.Digest.{Hasher, Digest, value_digest}
use pantheon.Planning.Goal.{GoalSpec, GoalInput, Deliverable}
use pantheon.Planning.Goal
use pantheon.Planning.Proposal.{Proposal, ProposedTask, ProposedCriterion}
use pantheon.Planning.Validate.{Authority, is_blank, validate}
use pantheon.Planning.Validate.Admission.{
  IsPlain, IsWithin, IsDelivered, IsAdmissible, IsAccepted, validate_iff,
}

pub data Trigger : Type 0 where
  initial : Trigger

unfoldable pub as_str : Trigger → Text
as_str initial = text "initial"

pub record PlanningInput : Type 0 where
  pub goal_id : Text
  pub goal_revision : ℤ
  pub goal : GoalSpec
  pub expected_graph_revision : ℤ
  pub configuration_activation_sequence : ℤ
  pub trigger : Trigger

unfoldable pub input_digest : Hasher → PlanningInput → Digest
unfolding as_str
input_digest hash input = value_digest hash (
    object_of (
      (text "goalId", string input.goal_id)
      ∷ (text "goalRevision", integer input.goal_revision)
      ∷ (text "goalSpec", Goal.to_value input.goal)
      ∷ (text "expectedGraphRevision", integer input.expected_graph_revision)
      ∷ (text "configurationActivationSequence", integer input.configuration_activation_sequence)
      ∷ (text "trigger", string (as_str input.trigger))
      ∷ (text "plannerImplementation", string (text "pantheon-direct-planner"))
      ∷ (text "plannerVersion", string (text "v1"))
      ∷ []))

abbrev pub mvp_evaluator_ref : Text
mvp_evaluator_ref = text "check://project/unit-tests"

unfoldable pub proposed : GoalSpec → ProposedTask
proposed goal = record {
  task_type = text "code.change";
  objective = goal.objective;
  inputs = map (λ i. (i.name, i.reference)) goal.inputs;
  outputs = map (λ d. (d.name, d.kind, d.required)) goal.deliverables;
  competencies = text "code.analysis" ∷ text "code.editing" ∷ text "test.execution" ∷ [];
  resources = goal.constraints.permitted_resources;
  permitted_effects = goal.constraints.permitted_effects;
  forbidden_effects = goal.constraints.forbidden_effects;
  criteria =
      record {
        id = text "acceptance-checks-pass";
        statement = text "The configured deterministic acceptance checks pass.";
        evaluator_ref = mvp_evaluator_ref;
        required = true;
      }
      ∷ [];
}

unfoldable pub plan : PlanningInput → Proposal
unfolding proposed
plan input = record { tasks = proposed input.goal ∷ []; edges = [] }
