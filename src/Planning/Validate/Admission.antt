-- ===== src/Planning/Validate/Admission.antt =====
-- crates/pantheon-core/src/planning/validate.rs: which proposals are admissible, and what is
-- materialized of them.
use pantheon.Base.{
  ◌≡◌, ◌≢◌, ◌↔◌, inl, inr, refl, sym, ap, subst, ◌∙◌, Bool, true, false, not, some, List, [], ◌∷◌,
  ◌++◌, Text, text_eq_iff, strip_prefix, strip_prefix_inv, strip_prefix_append, ok, ok_injective,
  ok_or, refuse_if, All, Any, All-map, Any→any, any→Any, arith, Option-cases, collect,
  if◌then◌else◌,
}
use pantheon.Base.Accepts.{
  IsOk, IsOk-value, IsOk-ok, IsOk-bind, IsOk->>=, IsOk-then, IsOk-refuse_if, IsOk-ok_or,
  IsOk-collect, iff_trans, refuse_if_iff, then_iff, each_iff, not-false_iff, is_nil-false_iff,
  is_nil_iff, Has, text_contains_iff, text_contains-false_iff,
}
use pantheon.Config.Digest.{Hasher}
use pantheon.Planning.Goal.{GoalSpec, Deliverable}
use pantheon.Planning.Proposal.{Proposal, ProposedTask, ProposedCriterion}
use pantheon.Planning.Validate.{
  Authority, is_blank, forbidden_prefixes, starts_with, reject_prefix, reject_reference,
  deliverable_not_covered, reject_forbidden_content, check_effect, check_resource, is_covered,
  check_deliverable, pin, check_task, only_task, validate,
}

-- no reserved scheme begins the reference
abbrev pub IsPlain : Text → Type 0
IsPlain reference = All (λ entry. (rest : Text) → reference ≢ entry.0 ++ rest) forbidden_prefixes

abbrev pub IsWithin : GoalSpec → Text → Type 0
IsWithin goal effect =
    Has goal.constraints.permitted_effects effect × ¬ Has goal.constraints.forbidden_effects effect

abbrev pub IsDelivered : ProposedTask → Deliverable → Type 0
IsDelivered task d = d.required ≡ true → Any (λ o. (o.2 ≡ true) × (o.1 ≡ d.kind)) task.outputs

abbrev pub IsResolved : Authority → ProposedCriterion → Type 0
IsResolved authority c = (version : Text) × (authority.evaluators c.evaluator_ref ≡ some version)

-- what the Goal and the active configuration ask of a proposed task
pub record IsAdmissible (task : ProposedTask) (authority : Authority) : Type 0 where
  pub typed : is_blank task.task_type ≡ false
  pub stated : is_blank task.objective ≡ false
  pub competent : task.competencies ≢ []
  pub judged : task.criteria ≢ []
  pub inputs_plain : All (λ i. IsPlain i.1) task.inputs
  pub resources_plain : All IsPlain task.resources
  pub effects_within : All (IsWithin authority.goal) task.permitted_effects
  pub resources_within : All (Has authority.goal.constraints.permitted_resources) task.resources
  pub delivered : All (IsDelivered task) authority.goal.deliverables
  pub resolved : All (IsResolved authority) task.criteria

starts_with-false_iff : (t p : Text) → (starts_with t p ≡ false) ↔ ((rest : Text) → t ≢ p ++ rest)
unfolding starts_with
starts_with-false_iff t p = (
  λ h rest e. ground (arith, strip_prefix_append p rest, ap (strip_prefix p) e),
  λ h. elim (Option-cases (strip_prefix p t)) [
    | inl e ↦ ground arith
    | inr (rest, e) ↦ absurd (h rest (strip_prefix_inv p t rest e))
  ],
)

reject_reference_iff : (t : Text) → IsOk (reject_reference t) ↔ IsPlain t
unfolding reject_reference
reject_reference_iff t =
    each_iff (reject_prefix t) (λ entry. refuse_if_iff _ (starts_with-false_iff t entry.0))
      forbidden_prefixes

reject_forbidden_content_iff :
    (task : ProposedTask)
    → IsOk (reject_forbidden_content task)
      ↔ (All (λ i. IsPlain i.1) task.inputs × All IsPlain task.resources)
unfolding reject_forbidden_content
reject_forbidden_content_iff task =
    then_iff _ _ (each_iff _ (λ i. reject_reference_iff i.1) task.inputs)
      (each_iff _ reject_reference_iff task.resources)

check_effect_iff : (goal : GoalSpec) (e : Text) → IsOk (check_effect goal e) ↔ IsWithin goal e
unfolding check_effect
check_effect_iff goal e =
    then_iff _ _
      (refuse_if_iff _
        (iff_trans (not-false_iff _) (text_contains_iff goal.constraints.permitted_effects e)))
      (refuse_if_iff _ (text_contains-false_iff goal.constraints.forbidden_effects e))

check_resource_iff :
    (goal : GoalSpec) (r : Text)
    → IsOk (check_resource goal r) ↔ Has goal.constraints.permitted_resources r
unfolding check_resource
check_resource_iff goal r =
    refuse_if_iff _
      (iff_trans (not-false_iff _) (text_contains_iff goal.constraints.permitted_resources r))

is_covered_iff :
    (task : ProposedTask) (d : Deliverable)
    → (is_covered task d ≡ true) ↔ Any (λ o. (o.2 ≡ true) × (o.1 ≡ d.kind)) task.outputs
unfolding is_covered
is_covered_iff task d = (
  any→Any _ task.outputs (λ o h. (ground arith, (text_eq_iff o.1 d.kind).0 (ground arith))),
  Any→any _ task.outputs (λ o h. ground (arith, h.0, (text_eq_iff o.1 d.kind).1 h.1)),
)

check_required_iff :
    (b : Bool) (task : ProposedTask) (d : Deliverable)
    → d.required ≡ b
    → IsOk (
        if not b
        then ok tt
        else refuse_if (not (is_covered task d)) (deliverable_not_covered d.name d.kind))
      ↔ IsDelivered task d
check_required_iff true task d e =
    iff_trans (refuse_if_iff _ (iff_trans (not-false_iff _) (is_covered_iff task d)))
      (λ h k. h, λ h. h e)
check_required_iff false task d e = (λ h k. cc, λ h. IsOk-ok tt refl)

check_deliverable_iff :
    (task : ProposedTask) (d : Deliverable) → IsOk (check_deliverable task d) ↔ IsDelivered task d
unfolding check_deliverable
check_deliverable_iff task d = check_required_iff d.required task d refl

pin_iff :
    (authority : Authority) (c : ProposedCriterion)
    → IsOk (pin authority.evaluators c) ↔ IsResolved authority c
unfolding pin
pin_iff authority c = (
  λ h. IsOk-ok_or _ _ ((IsOk-bind (ok_or (authority.evaluators c.evaluator_ref) _) _ h).0),
  λ (v, e). pinned v e,
)
  where
    pinned :
        (v : Text)
        → authority.evaluators c.evaluator_ref ≡ some v
        → IsOk (pin authority.evaluators c)
    pinned v e = rw e (IsOk-ok _ refl)

check_task_iff :
    (task : ProposedTask) (goal : GoalSpec)
    → IsOk (check_task task goal) ↔ (
        (is_blank task.task_type ≡ false)
        × ((is_blank task.objective ≡ false)
            × ((task.competencies ≢ [])
                × ((task.criteria ≢ [])
                    × ((All (λ i. IsPlain i.1) task.inputs × All IsPlain task.resources)
                        × (All (IsWithin goal) task.permitted_effects
                            × (All (Has goal.constraints.permitted_resources) task.resources
                                × All (IsDelivered task) goal.deliverables)))))))
unfolding check_task
check_task_iff task goal = then_iff _ _ (IsOk-refuse_if _ _) (
    then_iff _ _ (IsOk-refuse_if _ _) (
      then_iff _ _ (refuse_if_iff _ (is_nil-false_iff task.competencies)) (
        then_iff _ _ (refuse_if_iff _ (is_nil-false_iff task.criteria)) (
          then_iff _ _ (reject_forbidden_content_iff task) (
            then_iff _ _ (each_iff _ (check_effect_iff goal) task.permitted_effects) (
              then_iff _ _ (each_iff _ (check_resource_iff goal) task.resources)
                (each_iff _ (check_deliverable_iff task) goal.deliverables)))))))

only_task-eq-ok :
    (l : List ProposedTask) (task : ProposedTask) → only_task l ≡ ok task → l ≡ task ∷ []
unfolding only_task
only_task-eq-ok [] task h = cc
only_task-eq-ok (t ∷ []) task h = ap (λ x. x ∷ []) (ok_injective h)
only_task-eq-ok (_ ∷ _ ∷ _) task h = cc

admissible-check_task :
    (task : ProposedTask) (authority : Authority)
    → IsAdmissible task authority
    → IsOk (check_task task authority.goal)
admissible-check_task task authority h = (check_task_iff task authority.goal).1 (
  h.typed,
  (
    h.stated,
    (
      h.competent,
      (
        h.judged,
        (
          (h.inputs_plain, h.resources_plain),
          (h.effects_within, (h.resources_within, h.delivered)),
        ),
      ),
    ),
  ),
)

pub only_task_one :
    (l : List ProposedTask) (task : ProposedTask) → l ≡ task ∷ [] → only_task l ≡ ok task
unfolding only_task
only_task_one l task e = rw e refl

-- what acceptance asks of a whole proposal
abbrev pub IsAccepted : Proposal → Authority → Type 0
IsAccepted p authority =
    (task : ProposedTask) × (p.tasks ≡ task ∷ []) × (p.edges ≡ []) × IsAdmissible task authority

pub validate_iff :
    (hash : Hasher) (p : Proposal) (authority : Authority)
    → IsOk (validate hash p authority) ↔ IsAccepted p authority
unfolding validate
validate_iff hash p authority = (to, from)
  where
    to : IsOk (validate hash p authority) → IsAccepted p authority
    to h =
        let (found, h₁) = IsOk-bind (only_task p.tasks) _ h in
        let (task, e) = IsOk-value (only_task p.tasks) found in
        let (unlinked, h₂) = (IsOk-then _ _).0 (h₁ task e) in
        let (checked, h₃) = (IsOk-then (check_task task authority.goal) _).0 h₂ in
        let pinned = (IsOk-bind (collect (pin authority.evaluators) task.criteria) _ h₃).0 in
        let (a, (b, (c, (d, ((f, g), (i, (j, k))))))) =
          (check_task_iff task authority.goal).0 checked in
        (
          task,
          only_task-eq-ok p.tasks task e,
          (is_nil_iff p.edges).0 ((IsOk-refuse_if _ _).0 unlinked),
          record {
            typed = a;
            stated = b;
            competent = c;
            judged = d;
            inputs_plain = f;
            resources_plain = g;
            effects_within = i;
            resources_within = j;
            delivered = k;
            resolved =
                All-map task.criteria (λ x. (pin_iff authority x).0)
                  ((IsOk-collect _ task.criteria).0 pinned);
          },
        )

    from : IsAccepted p authority → IsOk (validate hash p authority)
    from (task, e, no_edges, h) =
        IsOk->>= (only_task p.tasks) _ (IsOk-ok task (only_task_one p.tasks task e)) (λ t e'.
          let same = ok_injective (sym (only_task_one p.tasks task e) ∙ e') in
          let g = subst (λ x. IsAdmissible x authority) same h in
          let pinned =
            (IsOk-collect (pin authority.evaluators) t.criteria).1
              (All-map t.criteria (λ x. (pin_iff authority x).1) g.resolved) in
          (IsOk-then _ _).1 (
            (IsOk-refuse_if _ _).1 ((is_nil_iff p.edges).1 no_edges),
            (IsOk-then (check_task t authority.goal) _).1 (
              admissible-check_task t authority g,
              IsOk->>= _ _ pinned (λ cs e''. IsOk-ok _ refl),
            ),
          ))
