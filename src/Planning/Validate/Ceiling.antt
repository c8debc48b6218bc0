-- ===== src/Planning/Validate/Ceiling.antt =====
-- crates/pantheon-core/src/planning/validate.rs: what holds of every materialized specification.
use pantheon.Base.{
  ◌≡◌, sym, subst, ◌∙◌, Text, ok_injective, collect_nil, collect_cons, some, List, [], ◌∷◌, ok,
  >>=-eq-ok, All, collect, ok_or, refuse_if, not, is_nil, length, map,
}
use pantheon.Base.Accepts.{IsOk-ok, Has, ok_or-eq-ok, then-eq-ok}
use pantheon.Config.Digest.{Hasher}
use pantheon.Planning.Goal
use pantheon.Planning.Proposal.{Proposal, ProposedTask, ProposedCriterion}
use pantheon.Planning.Proposal
use pantheon.Planning.Task.{TaskInput, AcceptanceCriterion}
use pantheon.Planning.Validate.{
  Authority, Materializable, check_task, pin, task_spec, only_task, shape_edges, unknown_evaluator,
  validate,
}
use pantheon.Planning.Validate.Admission.{
  IsPlain, IsWithin, IsAdmissible, only_task_one, validate_iff,
}

-- the ceiling that a stored specification keeps
pub record IsCeiled (m : Materializable) (authority : Authority) : Type 0 where
  pub effects : All (IsWithin authority.goal) m.spec.scope.permitted_effects
  pub resources : All (Has authority.goal.constraints.permitted_resources) m.spec.scope.resources
  pub resources_plain : All IsPlain m.spec.scope.resources
  pub inputs_plain : All (λ i. IsPlain i.reference) m.spec.inputs
  pub versions :
      All
        (λ c. authority.evaluators c.evaluator_ref ≡ some c.evaluator_version)
        m.spec.acceptance.criteria

pin-eq-ok :
    (authority : Authority) (l : List ProposedCriterion) (cs : List AcceptanceCriterion)
    → collect (pin authority.evaluators) l ≡ ok cs
    → All (λ c. authority.evaluators c.evaluator_ref ≡ some c.evaluator_version) cs
unfolding pin
pin-eq-ok authority [] cs h = rw (collect_nil (pin authority.evaluators) cs h) tt
pin-eq-ok authority (x ∷ l) cs h =
    let (c, cs', e, e', whole) = collect_cons (pin authority.evaluators) x l cs h in
    rw whole (pinned c e, pin-eq-ok authority l cs' e')
  where
    pinned :
        (c : AcceptanceCriterion)
        → pin authority.evaluators x ≡ ok c
        → authority.evaluators c.evaluator_ref ≡ some c.evaluator_version
    pinned c e =
        let (version, found, built) =
          >>=-eq-ok
            (ok_or (authority.evaluators x.evaluator_ref) (unknown_evaluator x.evaluator_ref)) _
            e in
        subst (λ a. authority.evaluators a.evaluator_ref ≡ some a.evaluator_version)
          (ok_injective built) (ok_or-eq-ok (authority.evaluators x.evaluator_ref) _ version found)

All-inputs :
    (l : List (Text × Text))
    → All (λ (i : Text × Text). IsPlain i.1) l
    → All
        (λ (i : TaskInput). IsPlain i.reference)
        (map (λ i. record { name = i.0; reference = i.1 }) l)
All-inputs [] h = tt
All-inputs (i ∷ l) h = (h.0, All-inputs l h.1)

-- Every specification that validation lets through requests only effects that the Goal permits and
-- does not forbid and only resources of the Goal, names no reserved scheme in its resources or
-- inputs, and pins for each criterion the version that the active configuration gives its
-- evaluator.
pub validate-IsCeiled :
    (hash : Hasher) (p : Proposal) (authority : Authority) (m : Materializable)
    → validate hash p authority ≡ ok m
    → IsCeiled m authority
unfolding validate task_spec
validate-IsCeiled hash p authority m h =
    let (task, found, h₁) = >>=-eq-ok (only_task p.tasks) _ h in
    let h₂ = then-eq-ok (refuse_if (not (is_nil p.edges)) (shape_edges (length p.edges))) _ h₁ in
    let h₃ = then-eq-ok (check_task task authority.goal) _ h₂ in
    let (criteria, pinned, built) =
      >>=-eq-ok (collect (pin authority.evaluators) task.criteria) _ h₃ in
    let (t, one, _, g) = (validate_iff hash p authority).0 (IsOk-ok m h) in
    let same = ok_injective (sym (only_task_one p.tasks t one) ∙ found) in
    subst (λ x. IsCeiled x authority) (ok_injective built)
      (ceiled task criteria (subst (λ x. IsAdmissible x authority) same g)
        (pin-eq-ok authority task.criteria criteria pinned))
  where
    ceiled :
        (task : ProposedTask) (criteria : List AcceptanceCriterion)
        → IsAdmissible task authority
        → All (λ c. authority.evaluators c.evaluator_ref ≡ some c.evaluator_version) criteria
        → IsCeiled
            (record {
              spec = task_spec authority task criteria;
              proposal_digest = Proposal.digest hash p;
              goal_revision = authority.goal_revision;
              goal_digest = Goal.digest hash authority.goal;
            })
            authority
    ceiled task criteria g versions = record {
      effects = g.effects_within;
      resources = g.resources_within;
      resources_plain = g.resources_plain;
      inputs_plain = All-inputs task.inputs g.inputs_plain;
      versions = versions;
    }
