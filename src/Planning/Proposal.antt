-- ===== src/Planning/Proposal.antt =====
-- crates/pantheon-core/src/planning/proposal.rs: what a planner proposes, and its digest.
use pantheon.Base.{ℕ, ◌^◌, ◌-◌, Bool, List, [], ◌∷◌, map, Text, text, ltb, if◌then◌else◌}
use pantheon.Base.Int.{ℤ, pos}
use pantheon.Config.Value.{Value, bool, integer, string, array_of, object_of}
use pantheon.Config.Digest.{Hasher, Digest, value_digest}
use pantheon.Config.Fields.{strings}

pub record ProposedCriterion : Type 0 where
  pub id : Text
  pub statement : Text
  pub evaluator_ref : Text
  pub required : Bool

-- an input is its name and reference, an output its name, kind and whether it is required
pub record ProposedTask : Type 0 where
  pub task_type : Text
  pub objective : Text
  pub inputs : List (Text × Text)
  pub outputs : List (Text × Text × Bool)
  pub competencies : List Text
  pub resources : List Text
  pub permitted_effects : List Text
  pub forbidden_effects : List Text
  pub criteria : List ProposedCriterion

-- an edge is the positions of its two tasks
pub record Proposal : Type 0 where
  pub tasks : List ProposedTask
  pub edges : List (ℕ × ℕ)

unfoldable pub input_value : Text × Text → Value
input_value (name, reference) =
    object_of ((text "name", string name) ∷ (text "ref", string reference) ∷ [])

unfoldable pub output_value : Text × Text × Bool → Value
output_value (name, kind, required) = object_of (
    (text "name", string name) ∷ (text "kind", string kind) ∷ (text "required", bool required) ∷ [])

unfoldable pub criterion_value : ProposedCriterion → Value
criterion_value c = object_of (
    (text "id", string c.id)
    ∷ (text "statement", string c.statement)
    ∷ (text "evaluatorRef", string c.evaluator_ref)
    ∷ (text "required", bool c.required)
    ∷ [])

unfoldable pub task_value : ProposedTask → Value
unfolding input_value output_value criterion_value
task_value t = object_of (
    (text "type", string t.task_type)
    ∷ (text "objective", string t.objective)
    ∷ (text "inputs", array_of (map input_value t.inputs))
    ∷ (text "outputs", array_of (map output_value t.outputs))
    ∷ (text "competencies", strings t.competencies)
    ∷ (
      text "scope",
      object_of (
          (text "resources", strings t.resources)
          ∷ (text "permittedEffects", strings t.permitted_effects)
          ∷ (text "forbiddenEffects", strings t.forbidden_effects)
          ∷ []),
    )
    ∷ (text "criteria", array_of (map criterion_value t.criteria))
    ∷ [])

-- `i64::try_from(n).unwrap_or(i64::MAX)`
unfoldable pub position : ℕ → ℤ
position n = if ltb n (2 ^ 63) then pos n else pos (2 ^ 63 - 1)

unfoldable pub edge_value : ℕ × ℕ → Value
unfolding position
edge_value (upstream, downstream) = object_of (
    (text "upstream", integer (position upstream))
    ∷ (text "downstream", integer (position downstream))
    ∷ [])

unfoldable pub to_value : Proposal → Value
unfolding task_value edge_value
to_value p = object_of (
    (text "tasks", array_of (map task_value p.tasks))
    ∷ (text "edges", array_of (map edge_value p.edges))
    ∷ [])

unfoldable pub digest : Hasher → Proposal → Digest
digest hash p = value_digest hash (to_value p)
