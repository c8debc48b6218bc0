-- ===== src/Examples/Planning.antt =====
-- The properties of the planner and of validation at concrete inputs.
use pantheon.Base.{◌≡◌, refl, true, [], ◌∷◌, text, ok, arith}
use pantheon.Base.Int.{pos, IsInt64}
use pantheon.Config.Canonical.{write_canonical}
use pantheon.Config.Digest.{Hasher, IsDigest, value_digest}
use pantheon.Planning.Goal.{GoalSpec, goal_read-to_value}
use pantheon.Planning.Goal
use pantheon.Planning.Task.{TaskSpec, required}
use pantheon.Planning.Task
use pantheon.Planning.Task.Stored
use pantheon.Planning.Task.Stored.{task_read-to_value}
use pantheon.Planning.Proposal
use pantheon.Planning.Evaluators.{RegistryResolver, resolve}
use pantheon.Planning.Validate.{
  Authority, Materializable, validate, check_task, pin, task_spec, is_blank,
  reject_forbidden_content, check_effect, check_resource, check_deliverable,
}
use pantheon.Planning.Validate.Ceiling.{IsCeiled, validate-IsCeiled}
use pantheon.Planning.Direct.{PlanningInput, initial, plan}
use pantheon.Examples.{filled}

abbrev hash : Hasher
hash t = filled 32

abbrev goal : GoalSpec
goal = record {
  objective = text "fix";
  inputs = record { name = text "repo"; reference = text "workspace://src" } ∷ [];
  deliverables = record { name = text "patch"; kind = text "changeset"; required = true } ∷ [];
  constraints = record {
    permitted_effects = text "filesystem.write" ∷ [];
    forbidden_effects = [];
    permitted_resources = text "workspace://src/**" ∷ [];
  };
}

abbrev registry : RegistryResolver
registry = (text "check://project/unit-tests", text "v7") ∷ []

abbrev authority : Authority
authority = record {
  goal = goal;
  goal_id = text "goal-1";
  goal_revision = pos 1;
  evaluators = resolve registry;
  evaluator_registry_digest = filled 32;
  configuration_activation_sequence = pos 2;
}

abbrev input : PlanningInput
input = record {
  goal_id = text "goal-1";
  goal_revision = pos 1;
  goal = goal;
  expected_graph_revision = pos 0;
  configuration_activation_sequence = pos 2;
  trigger = initial;
}

abbrev spec : TaskSpec
spec = record {
  task_type = text "code.change";
  objective = text "fix";
  inputs = record { name = text "repo"; reference = text "workspace://src" } ∷ [];
  outputs = record { name = text "patch"; kind = text "changeset"; required = true } ∷ [];
  competencies = text "code.analysis" ∷ text "code.editing" ∷ text "test.execution" ∷ [];
  scope = record {
    resources = text "workspace://src/**" ∷ [];
    permitted_effects = text "filesystem.write" ∷ [];
    forbidden_effects = [];
  };
  acceptance = record {
    criteria =
        record {
          id = text "acceptance-checks-pass";
          statement = text "The configured deterministic acceptance checks pass.";
          evaluator_ref = text "check://project/unit-tests";
          evaluator_version = text "v7";
          severity = required;
        }
        ∷ [];
    evaluator_registry_digest = filled 32;
    configuration_activation_sequence = pos 2;
  };
  goal_id = text "goal-1";
  goal_revision = pos 1;
}

abbrev materialized : Materializable
materialized = record {
  spec = spec;
  proposal_digest = filled 32;
  goal_revision = pos 1;
  goal_digest = filled 32;
}

accepted : validate hash (plan input) authority ≡ ok materialized
unfolding validate plan check_task is_blank reject_forbidden_content check_effect check_resource
    check_deliverable pin resolve task_spec Goal.digest Proposal.digest value_digest
accepted = refl

digest : IsDigest (filled 32)
digest = record { width = refl; bytes = ground arith }

IsInt64-one : IsInt64 (pos 1)
IsInt64-one = ground arith

IsInt64-two : IsInt64 (pos 2)
IsInt64-two = ground arith

goal_read-to_value_example :
    Goal.from_canonical_json (write_canonical (Goal.to_value goal)) ≡ ok goal
goal_read-to_value_example = goal_read-to_value goal

task_read-to_value_example :
    Stored.from_canonical_json (write_canonical (Task.to_value spec)) ≡ ok spec
task_read-to_value_example = task_read-to_value spec IsInt64-one IsInt64-two digest

validate-IsCeiled_example : IsCeiled materialized authority
validate-IsCeiled_example = validate-IsCeiled hash (plan input) authority materialized accepted
