-- ===== src/Planning/Task.antt =====
-- crates/pantheon-core/src/planning/task.rs: the Task specification and its canonical value.
pub mod Phase
pub mod Stored
use pantheon.Base.{◌≡◌, refl, Bool, List, [], ◌∷◌, map, Text, text}
use pantheon.Base.Int.{ℤ, IsInt64}
use pantheon.Config.Value.{Value, bool, integer, string, array_of, object_of, IsCanonical}
use pantheon.Config.Digest.{Hasher, Digest, value_digest, display}
use pantheon.Config.Fields.{strings, AreCanonical-values, strings-IsCanonical}

pub record TaskInput : Type 0 where
  pub name : Text
  pub reference : Text

pub record TaskOutput : Type 0 where
  pub name : Text
  pub kind : Text
  pub required : Bool

pub record TaskScope : Type 0 where
  pub resources : List Text
  pub permitted_effects : List Text
  pub forbidden_effects : List Text

pub data Severity : Type 0 where
  required advisory : Severity

unfoldable pub severity_as_str : Severity → Text
severity_as_str required = text "required"
severity_as_str advisory = text "advisory"

pub record AcceptanceCriterion : Type 0 where
  pub id : Text
  pub statement : Text
  pub evaluator_ref : Text
  pub evaluator_version : Text
  pub severity : Severity

pub record AcceptanceContract : Type 0 where
  pub criteria : List AcceptanceCriterion
  pub evaluator_registry_digest : Digest
  pub configuration_activation_sequence : ℤ

pub record TaskSpec : Type 0 where
  pub task_type : Text
  pub objective : Text
  pub inputs : List TaskInput
  pub outputs : List TaskOutput
  pub competencies : List Text
  pub scope : TaskScope
  pub acceptance : AcceptanceContract
  pub goal_id : Text
  pub goal_revision : ℤ

unfoldable pub input_value : TaskInput → Value
input_value i = object_of ((text "name", string i.name) ∷ (text "ref", string i.reference) ∷ [])

unfoldable pub output_value : TaskOutput → Value
output_value o = object_of (
    (text "name", string o.name)
    ∷ (text "kind", string o.kind)
    ∷ (text "required", bool o.required)
    ∷ [])

unfoldable pub scope_value : TaskScope → Value
scope_value s = object_of (
    (text "resources", strings s.resources)
    ∷ (text "permittedEffects", strings s.permitted_effects)
    ∷ (text "forbiddenEffects", strings s.forbidden_effects)
    ∷ [])

unfoldable pub criterion_value : AcceptanceCriterion → Value
unfolding severity_as_str
criterion_value c = object_of (
    (text "id", string c.id)
    ∷ (text "statement", string c.statement)
    ∷ (text "evaluatorRef", string c.evaluator_ref)
    ∷ (text "evaluatorVersion", string c.evaluator_version)
    ∷ (text "severity", string (severity_as_str c.severity))
    ∷ [])

unfoldable pub acceptance_value : AcceptanceContract → Value
unfolding criterion_value
acceptance_value a = object_of (
    (text "strategy", string (text "all"))
    ∷ (text "criteria", array_of (map criterion_value a.criteria))
    ∷ (text "evaluatorRegistryDigest", string (display a.evaluator_registry_digest))
    ∷ (text "configurationActivationSequence", integer a.configuration_activation_sequence)
    ∷ [])

unfoldable pub to_value : TaskSpec → Value
unfolding input_value output_value scope_value acceptance_value
to_value t = object_of (
    (text "type", string t.task_type)
    ∷ (text "objective", string t.objective)
    ∷ (text "inputs", array_of (map input_value t.inputs))
    ∷ (text "outputs", array_of (map output_value t.outputs))
    ∷ (text "competencies", strings t.competencies)
    ∷ (text "scope", scope_value t.scope)
    ∷ (text "acceptance", acceptance_value t.acceptance)
    ∷ (text "goalId", string t.goal_id)
    ∷ (text "goalRevision", integer t.goal_revision)
    ∷ [])

unfoldable pub digest : Hasher → TaskSpec → Digest
digest hash t = value_digest hash (to_value t)

unfoldable pub acceptance_digest : Hasher → TaskSpec → Digest
acceptance_digest hash t = value_digest hash (acceptance_value t.acceptance)

input_value-IsCanonical : (i : TaskInput) → IsCanonical (input_value i)
unfolding input_value object_of
input_value-IsCanonical i = search

output_value-IsCanonical : (o : TaskOutput) → IsCanonical (output_value o)
unfolding output_value object_of
output_value-IsCanonical o = search

scope_value-IsCanonical : (s : TaskScope) → IsCanonical (scope_value s)
unfolding scope_value object_of
scope_value-IsCanonical s = search strings-IsCanonical

criterion_value-IsCanonical : (c : AcceptanceCriterion) → IsCanonical (criterion_value c)
unfolding criterion_value object_of
criterion_value-IsCanonical c = search

acceptance_value-IsCanonical :
    (a : AcceptanceContract)
    → IsInt64 a.configuration_activation_sequence
    → IsCanonical (acceptance_value a)
unfolding acceptance_value object_of
acceptance_value-IsCanonical a h = search (AreCanonical-values, criterion_value-IsCanonical)

pub to_value-IsCanonical :
    (t : TaskSpec)
    → IsInt64 t.goal_revision
    → IsInt64 t.acceptance.configuration_activation_sequence
    → IsCanonical (to_value t)
unfolding to_value object_of
to_value-IsCanonical t h k = search (
  acceptance_value-IsCanonical t.acceptance k,
  scope_value-IsCanonical,
  strings-IsCanonical,
  AreCanonical-values,
  input_value-IsCanonical,
  output_value-IsCanonical,
)
