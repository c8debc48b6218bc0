-- ===== src/Planning/Direct/Servable.antt =====
-- crates/pantheon-core/src/planning: which Goals the deterministic planner serves.
use pantheon.Base.{◌≡◌, Bool, false, Option, some, List, map, Text, All}
use pantheon.Base.Accepts.{Has}
use pantheon.Planning.Goal.{GoalSpec, GoalInput, Deliverable}
use pantheon.Planning.Validate.{is_blank}
use pantheon.Planning.Validate.Admission.{IsPlain}
use pantheon.Planning.Direct.{mvp_evaluator_ref}

-- a Goal that a DIRECT plan can serve
pub record IsServable (goal : GoalSpec) (evaluators : Text → Option Text) : Type 0 where
  pub stated : is_blank goal.objective ≡ false
  pub effects_disjoint :
      All (λ e. ¬ Has goal.constraints.forbidden_effects e) goal.constraints.permitted_effects
  pub inputs_plain : All (λ (i : GoalInput). IsPlain i.reference) goal.inputs
  pub resources_plain : All IsPlain goal.constraints.permitted_resources
  pub evaluated : (version : Text) × (evaluators mvp_evaluator_ref ≡ some version)

-- the outputs that the planner proposes for the deliverables
abbrev outputs : List Deliverable → List (Text × Text × Bool)
outputs l = map (λ d. (d.name, d.kind, d.required)) l
