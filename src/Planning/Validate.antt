-- ===== src/Planning/Validate.antt =====
-- crates/pantheon-core/src/planning/validate.rs: a proposal against the authoritative facts.
pub mod Admission
pub mod Ceiling
use pantheon.Base.{
  ℕ, ◌+◌, ◌≡◌, Bool, true, false, ◌&&◌, ◌||◌, not, Option, none, some, List, [], ◌∷◌, map, Text,
  text, text_eq, text_contains, strip_prefix, is_some, is_nil, any, length, leb, ◌==◌,
  if◌then◌else◌, Result, ok, err, ok_or, refuse_if, ◌>>=◌, ◌>>◌, collect,
}
use pantheon.Base.Accepts.{each}
use pantheon.Base.Int.{ℤ}
use pantheon.Config.Digest.{Hasher, Digest}
use pantheon.Planning.Goal.{GoalSpec, Deliverable}
use pantheon.Planning.Goal
use pantheon.Planning.Proposal.{Proposal, ProposedTask, ProposedCriterion}
use pantheon.Planning.Proposal
use pantheon.Planning.Task.{
  TaskInput, TaskOutput, Severity, required, advisory, AcceptanceCriterion, TaskSpec,
}

-- the values that stand in the details of the messages
pub data PlanError : Type 0 where
  shape_tasks shape_edges : ℕ → PlanError
  invalid_value : Text → PlanError
  unknown_evaluator : Text → PlanError
  effect_not_permitted effect_forbidden resource_outside : Text → PlanError
  deliverable_not_covered : Text → Text → PlanError
  forbidden_task_content : Text → Text → PlanError

unfoldable pub kind : PlanError → Text
kind (shape_tasks _) = text "shape"
kind (shape_edges _) = text "shape"
kind (invalid_value _) = text "invalid-value"
kind (unknown_evaluator _) = text "unknown-evaluator"
kind (effect_not_permitted _) = text "scope-escalation"
kind (effect_forbidden _) = text "scope-escalation"
kind (resource_outside _) = text "scope-escalation"
kind (deliverable_not_covered _ _) = text "deliverable-not-covered"
kind (forbidden_task_content _ _) = text "forbidden-task-content"

-- `evaluators` is the `EvaluatorResolver`
pub record Authority : Type 0 where
  pub goal : GoalSpec
  pub goal_id : Text
  pub goal_revision : ℤ
  pub evaluators : Text → Option Text
  pub evaluator_registry_digest : Digest
  pub configuration_activation_sequence : ℤ

pub record Materializable : Type 0 where
  pub spec : TaskSpec
  pub proposal_digest : Digest
  pub goal_revision : ℤ
  pub goal_digest : Digest

-- the UTF-8 forms of the characters of the property White_Space, of one, two and three bytes
unfoldable pub is_space : ℕ → Bool
is_space a = (leb 9 a && leb a 13) || a == 32

unfoldable pub is_space_pair : ℕ → ℕ → Bool
is_space_pair a b = a == 0xc2 && (b == 0x85 || b == 0xa0)

unfoldable pub is_space_triple : ℕ → ℕ → ℕ → Bool
is_space_triple a b c =
    (a == 0xe1 && b == 0x9a && c == 0x80)
    || (a == 0xe2
        && b == 0x80
        && ((leb 0x80 c && leb c 0x8a) || c == 0xa8 || c == 0xa9 || c == 0xaf))
    || (a == 0xe2 && b == 0x81 && c == 0x9f)
    || (a == 0xe3 && b == 0x80 && c == 0x80)

-- `trim().is_empty()`
unfoldable pub is_blank : Text → Bool
unfolding is_space is_space_pair is_space_triple
is_blank [] = true
is_blank (a ∷ []) = is_space a
is_blank (a ∷ b ∷ []) = let rest = is_blank (b ∷ []) in (is_space a && rest) || is_space_pair a b
is_blank (a ∷ b ∷ c ∷ t) =
    let rest = is_blank (b ∷ c ∷ t) in
    let rest₂ = is_blank (c ∷ t) in
    let rest₃ = is_blank t in
    (is_space a && rest) || (is_space_pair a b && rest₂) || (is_space_triple a b c && rest₃)

abbrev pub forbidden_prefixes : List (Text × Text)
forbidden_prefixes =
    (text "agent://", text "a Logical Agent assignment")
    ∷ (text "backend://", text "a backend assignment")
    ∷ (text "model://", text "a provider or model assignment")
    ∷ (text "runtime://", text "a runtime assignment")
    ∷ (text "secret://", text "credential material")
    ∷ (text "run://", text "a Run reference")
    ∷ (text "attempt://", text "an Attempt reference")
    ∷ (text "sandbox://", text "a Sandbox reference")
    ∷ []

-- `starts_with`
unfoldable pub starts_with : Text → Text → Bool
starts_with t prefix = is_some (strip_prefix prefix t)

unfoldable pub reject_prefix : Text → Text × Text → Result PlanError Unit
unfolding starts_with
reject_prefix reference (prefix, description) =
    refuse_if (starts_with reference prefix) (forbidden_task_content description reference)

unfoldable pub reject_reference : Text → Result PlanError Unit
unfolding reject_prefix
reject_reference reference = each (reject_prefix reference) forbidden_prefixes

unfoldable pub reject_forbidden_content : ProposedTask → Result PlanError Unit
unfolding reject_reference
reject_forbidden_content task =
    each (λ input. reject_reference input.1) task.inputs >> each reject_reference task.resources

unfoldable pub check_effect : GoalSpec → Text → Result PlanError Unit
check_effect goal effect = do
  refuse_if (not (text_contains goal.constraints.permitted_effects effect))
      (effect_not_permitted effect)
  refuse_if (text_contains goal.constraints.forbidden_effects effect) (effect_forbidden effect)

unfoldable pub check_resource : GoalSpec → Text → Result PlanError Unit
check_resource goal resource =
    refuse_if (not (text_contains goal.constraints.permitted_resources resource))
      (resource_outside resource)

unfoldable pub is_covered : ProposedTask → Deliverable → Bool
is_covered task d = any (λ o. o.2 && text_eq o.1 d.kind) task.outputs

unfoldable pub check_deliverable : ProposedTask → Deliverable → Result PlanError Unit
unfolding is_covered
check_deliverable task d =
    if not d.required
    then ok tt
    else refuse_if (not (is_covered task d)) (deliverable_not_covered d.name d.kind)

unfoldable pub pin : (Text → Option Text) → ProposedCriterion → Result PlanError AcceptanceCriterion
pin evaluators criterion = do
  version ← ok_or (evaluators criterion.evaluator_ref) (unknown_evaluator criterion.evaluator_ref)
  ok (record {
    id = criterion.id;
    statement = criterion.statement;
    evaluator_ref = criterion.evaluator_ref;
    evaluator_version = version;
    severity = if criterion.required then required else advisory;
  })

-- the checks of the one task, in the order of the source
unfoldable pub check_task : ProposedTask → GoalSpec → Result PlanError Unit
check_task task goal = do
  refuse_if (is_blank task.task_type) (invalid_value (text "task.type"))
  refuse_if (is_blank task.objective) (invalid_value (text "task.objective"))
  refuse_if (is_nil task.competencies) (invalid_value (text "task.competencies"))
  refuse_if (is_nil task.criteria) (invalid_value (text "task.criteria"))
  reject_forbidden_content task
  each (check_effect goal) task.permitted_effects
  each (check_resource goal) task.resources
  each (check_deliverable task) goal.deliverables

unfoldable pub task_spec : Authority → ProposedTask → List AcceptanceCriterion → TaskSpec
task_spec authority task criteria = record {
  task_type = task.task_type;
  objective = task.objective;
  inputs = map (λ i. record { name = i.0; reference = i.1 }) task.inputs;
  outputs = map (λ o. record { name = o.0; kind = o.1; required = o.2 }) task.outputs;
  competencies = task.competencies;
  scope = record {
    resources = task.resources;
    permitted_effects = task.permitted_effects;
    forbidden_effects = task.forbidden_effects;
  };
  acceptance = record {
    criteria = criteria;
    evaluator_registry_digest = authority.evaluator_registry_digest;
    configuration_activation_sequence = authority.configuration_activation_sequence;
  };
  goal_id = authority.goal_id;
  goal_revision = authority.goal_revision;
}

-- `&proposal.tasks[0]`, after the length is known to be one
unfoldable pub only_task : List ProposedTask → Result PlanError ProposedTask
only_task [] = err (shape_tasks 0)
only_task (task ∷ []) = ok task
only_task (task ∷ more ∷ tasks) = err (shape_tasks (2 + length tasks))

unfoldable pub validate : Hasher → Proposal → Authority → Result PlanError Materializable
unfolding only_task
validate hash proposal authority = do
  task ← only_task proposal.tasks
  refuse_if (not (is_nil proposal.edges)) (shape_edges (length proposal.edges))
  check_task task authority.goal
  criteria ← collect (pin authority.evaluators) task.criteria
  ok (record {
    spec = task_spec authority task criteria;
    proposal_digest = Proposal.digest hash proposal;
    goal_revision = authority.goal_revision;
    goal_digest = Goal.digest hash authority.goal;
  })
