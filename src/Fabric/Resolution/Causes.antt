-- ===== src/Fabric/Resolution/Causes.antt =====
-- crates/pantheon-core/src/execution.rs: what the reason of a rejection says of the Agent.
use pantheon.Base.{
  ◌≡◌, ◌≢◌, refl, sym, subst, Bool, true, false, not, some, List, [], ◌∷◌, map, Text, text_eq,
  text_eq_iff, text_contains, keep, find?, All, Any, All-map, arith, Bool-cases, Option-cases,
  any→Any, inl, inr, Result, ok, err,
}
use mathlib.Core.List.Permᴰ
use mathlib.Core.List.{Permᴰ}
use pantheon.Base.Accepts.{Has, text_contains-false_iff, is_nil-false_iff}
use pantheon.Base.Int.{int_lt}
use pantheon.Base.Order.{list_ord, nat_ord}
use pantheon.Base.Sort.{sort-Perm, All-perm, Any-perm}
use pantheon.Base.SortWith.{dedup}
use pantheon.Config.Digest.{Hasher}
use pantheon.Config.Model.Agents.{Agent, identity, RoutePolicy, RuleEffect, permit, forbid}
use pantheon.Config.Model.Execution.{SandboxProfile}
use pantheon.Config.Revision.{CompiledConfiguration}
use pantheon.Planning.Task.{TaskSpec}
use pantheon.Fabric.Request.{ConfigurationBinding}
use pantheon.Fabric.Resolution.{
  ResolvedAgent, AgentRejection, AgentRejectionReason, AgentResolution, disabled, not_current,
  pinned_out, excluded, unsupported_task_type, missing_competencies, forbidden_action,
  forbidden_effect, future_activation, unknown_route, unknown_profile, unsatisfied_profile,
  sorted_difference, contains_agent, is_forbid, forbids, policy_incompatibility, refusal,
  resolve_agent, decide, resolve_each, no_eligible_agent, resolve_agents,
}
use pantheon.Fabric.Resolution.Eligible.{
  IsForbidden, contains_agent-Any, Any-contains_agent, find?-Any, find?-none, any-false,
}
use pantheon.Fabric.Resolution.Partition.{
  resolution, sorted_agents-Perm, resolve_agents-eq-err, rejected_alone,
}
use pantheon.Fabric.Resolution.Wired.{refusal-is_dangling}

-- the reason is true of the Agent
abbrev pub Explains :
    TaskSpec → CompiledConfiguration → ConfigurationBinding → Agent → AgentRejectionReason → Type 0
Explains task c binding agent disabled = agent.enabled ≡ false
Explains task c binding agent not_current = agent.current ≡ false
Explains task c binding agent (unsupported_task_type t) =
    (task.task_type ≡ t) × All (λ accepted. accepted ≢ t) agent.accepts
Explains task c binding agent (missing_competencies missing) =
    (missing ≢ []) × All (λ m. Has task.competencies m × (¬ Has agent.competencies m)) missing
Explains task c binding agent pinned_out =
    (c.routing.agent_pins ≢ []) × (¬ Any (λ p. p ≡ identity agent) c.routing.agent_pins)
Explains task c binding agent excluded = Any (λ p. p ≡ identity agent) c.routing.agent_exclusions
Explains task c binding agent (forbidden_action a) = Has agent.actions a × IsForbidden c a
Explains task c binding agent (forbidden_effect e) =
    Has task.scope.permitted_effects e × IsForbidden c e
Explains task c binding agent future_activation =
    int_lt binding.activation_sequence task.acceptance.configuration_activation_sequence ≡ true
Explains task c binding agent (unknown_route name) =
    (agent.route_policy ≡ name) × All (λ (p : RoutePolicy). p.name ≢ name) c.routing.policies
Explains task c binding agent (unknown_profile name) =
    (agent.sandbox_profile ≡ name)
    × All (λ (p : SandboxProfile). p.name ≢ name) c.execution.profiles
Explains task c binding agent (unsatisfied_profile name) =
    (agent.sandbox_profile ≡ name)
    × Any
        (λ (p : SandboxProfile).
          (p.name ≡ name) × Any (λ r. ¬ Has p.guarantees r) agent.sandbox_requirements)
        c.execution.profiles

unequal : (s t : Text) → text_eq s t ≡ false → s ≢ t
unequal s t h e = ground (arith, (text_eq_iff s t).1 e)

All-keep :
    (P : Text → Type 0) (p : Text → Bool) (l : List Text)
    → All (λ t. p t ≡ true → P t) l
    → All P (keep p l)
All-keep P p [] h = tt
All-keep P p (x ∷ l) h = elim (Bool-cases (p x)) [
  | inl e ↦ rw e (h.0 e, All-keep P p l h.1)
  | inr e ↦ rw e (All-keep P p l h.1)
]

All-dedup : (P : Text → Type 0) (l : List Text) → All P l → All P (dedup l)
All-dedup P [] h = tt
All-dedup P (s ∷ []) h = h
All-dedup P (s ∷ t ∷ l) h = elim (Bool-cases (text_eq s t)) [
  | inl e ↦ rw e (All-dedup P (t ∷ l) h.1)
  | inr e ↦ rw e (h.0, All-dedup P (t ∷ l) h.1)
]

All-Has : (l : List Text) → All (Has l) l
All-Has [] = tt
All-Has (x ∷ l) = (inl refl, All-map l (λ t h. inr h) (All-Has l))

sorted_difference-missing :
    (required available : List Text)
    → All (λ m. Has required m × (¬ Has available m)) (sorted_difference required available)
unfolding sorted_difference
sorted_difference-missing required available = All-dedup _ _ (
    All-perm _ (Permᴰ.symm (sort-Perm (keep (λ v. not (text_contains available v)) required))) (
      All-keep _ _ required (
        All-map required (λ t h k. (h, (text_contains-false_iff available t).0 (ground arith)))
          (All-Has required))))

is_forbid-forbid : (e : RuleEffect) → is_forbid e ≡ true → e ≡ forbid
unfolding is_forbid
is_forbid-forbid forbid h = refl
is_forbid-forbid permit h = cc

forbidden :
    (c : CompiledConfiguration) (l : List Text) (a : Text)
    → find? (forbids c.authorization.rules) l ≡ some a
    → Has l a × IsForbidden c a
unfolding forbids
forbidden c l a h =
    let (found, holds) = find?-Any (forbids c.authorization.rules) l a h in
    (
      found,
      any→Any _ c.authorization.rules
          (λ r e.
            ((text_eq_iff r.action a).0 (ground arith), is_forbid-forbid r.effect (ground arith)))
          holds,
    )

Any-member : {A : Type 0} (P : A → Type 0) (l : List A) (x : A) → P x → Any (λ y. y ≡ x) l → Any P l
Any-member P [] x h k = elim k [ ]
Any-member P (y ∷ l) x h (inl e) = inl (subst P (sym e) h)
Any-member P (y ∷ l) x h (inr k) = inr (Any-member P l x h k)

module _ (task : TaskSpec) (c : CompiledConfiguration) (binding : ConfigurationBinding)
    (agent : Agent) where
  refusal-Explains :
      (reason : AgentRejectionReason)
      → refusal task c binding agent ≡ some reason
      → Explains task c binding agent reason
  unfolding refusal policy_incompatibility
  refusal-Explains disabled h = ground arith
  refusal-Explains not_current h = ground arith
  refusal-Explains (unsupported_task_type t) h =
      let same : task.task_type ≡ t = ground arith in
      (
        same,
        All-map agent.accepts (λ a k. unequal a t (subst (λ x. text_eq a x ≡ false) same k))
            (any-false _ agent.accepts (ground arith)),
      )
  refusal-Explains (missing_competencies missing) h =
      let same : sorted_difference task.competencies agent.competencies ≡ missing = ground arith in
      subst (λ m. (m ≢ []) × All (λ x. Has task.competencies x × (¬ Has agent.competencies x)) m)
        same
        (
          (is_nil-false_iff _).0 (ground arith),
          sorted_difference-missing task.competencies agent.competencies,
        )
  refusal-Explains pinned_out h =
      let out : contains_agent c.routing.agent_pins (identity agent) ≡ false = ground arith in
      (
        (is_nil-false_iff _).0 (ground arith),
        λ k. let held = Any-contains_agent c.routing.agent_pins (identity agent) k in cc,
      )
  refusal-Explains excluded h =
      contains_agent-Any c.routing.agent_exclusions (identity agent) (ground arith)
  refusal-Explains (forbidden_action a) h = forbidden c agent.actions a (ground arith)
  refusal-Explains (forbidden_effect a) h =
      forbidden c task.scope.permitted_effects a (ground arith)
  refusal-Explains future_activation h = ground arith
  refusal-Explains (unknown_route name) h =
      let e = refusal-is_dangling task c binding agent (unknown_route name) h in cc
  refusal-Explains (unknown_profile name) h =
      let e = refusal-is_dangling task c binding agent (unknown_profile name) h in cc
  refusal-Explains (unsatisfied_profile name) h =
      let e = refusal-is_dangling task c binding agent (unsatisfied_profile name) h in cc

  resolve_agent-Explains :
      (reason : AgentRejectionReason)
      → resolve_agent task c binding agent ≡ err reason
      → Explains task c binding agent reason
  unfolding resolve_agent
  resolve_agent-Explains reason h = elim (Option-cases (refusal task c binding agent)) [
    | inr (why, e) ↦
        let same : why ≡ reason = ground arith in
        subst (Explains task c binding agent) same (refusal-Explains why e)
    | inl e ↦
        elim (Option-cases (find? (λ p. text_eq p.name agent.route_policy) c.routing.policies)) [
          | inl e' ↦
              let same : unknown_route agent.route_policy ≡ reason = ground arith in
              subst (Explains task c binding agent) same (
                refl,
                All-map c.routing.policies (λ p k. unequal p.name agent.route_policy k)
                    (find?-none _ c.routing.policies e'),
              )
          | inr (route, e') ↦
              elim (Option-cases
                (find? (λ p. text_eq p.name agent.sandbox_profile) c.execution.profiles)) [
                  | inl e'' ↦
                      let same : unknown_profile agent.sandbox_profile ≡ reason = ground arith in
                      subst (Explains task c binding agent) same (
                        refl,
                        All-map c.execution.profiles (λ p k. unequal p.name agent.sandbox_profile k)
                            (find?-none _ c.execution.profiles e''),
                      )
                  | inr (profile, e'') ↦
                      let same : unsatisfied_profile profile.name ≡ reason = ground arith in
                      let (found, named) =
                        find?-Any (λ p. text_eq p.name agent.sandbox_profile) c.execution.profiles
                          profile e'' in
                      let unmet =
                        any→Any (λ r. not (text_contains profile.guarantees r))
                          agent.sandbox_requirements
                          (λ r k. (text_contains-false_iff profile.guarantees r).0 (ground arith))
                          (ground arith) in
                      subst (Explains task c binding agent) same (
                        sym ((text_eq_iff profile.name agent.sandbox_profile).0 named),
                        Any-member _ c.execution.profiles profile (refl, unmet) found,
                      )
                ]
        ]
  ]

-- the rejection is of one of the Agents, for a reason that is true of it
abbrev pub IsExplained :
    TaskSpec → CompiledConfiguration → ConfigurationBinding → List Agent → AgentRejection → Type 0
IsExplained task c binding agents x =
    Any (λ a. (identity a ≡ x.agent) × Explains task c binding a x.reason) agents

decide-IsExplained :
    (task : TaskSpec) (c : CompiledConfiguration) (binding : ConfigurationBinding) (agent : Agent)
    (agents : List Agent) (o : Result AgentRejectionReason ResolvedAgent) (rest : AgentResolution)
    → ((reason : AgentRejectionReason) → o ≡ err reason → Explains task c binding agent reason)
    → All (IsExplained task c binding agents) rest.rejected
    → All (IsExplained task c binding (agent ∷ agents)) (decide agent o rest).rejected
unfolding decide
decide-IsExplained task c binding agent agents (ok r) rest h k =
    All-map rest.rejected (λ x e. inr e) k
decide-IsExplained task c binding agent agents (err reason) rest h k =
    (inl (refl, h reason refl), All-map rest.rejected (λ x e. inr e) k)

resolve_each-IsExplained :
    (task : TaskSpec) (c : CompiledConfiguration) (binding : ConfigurationBinding)
    (agents : List Agent)
    → All (IsExplained task c binding agents) (resolve_each task c binding agents).rejected
unfolding resolve_each
resolve_each-IsExplained task c binding [] = tt
resolve_each-IsExplained task c binding (agent ∷ agents) =
    decide-IsExplained task c binding agent agents (resolve_agent task c binding agent)
      (resolve_each task c binding agents) (resolve_agent-Explains task c binding agent)
      (resolve_each-IsExplained task c binding agents)

-- When no Agent is eligible, the refusal names every Agent of the configuration once, and the reason it
-- gives for each is true of an Agent of that identity: it is disabled or not current, does not accept the
-- type of the Task, lacks the competencies that are named, is not among the pins or is among the
-- exclusions, takes the action or needs the effect that is named and a rule forbids, or the route policy
-- or the profile of the name is not there or leaves a requirement open; or the Task names a future
-- activation.
pub resolve_agents-no_eligible_agent :
    (hash : Hasher) (task : TaskSpec) (configuration : CompiledConfiguration)
    (binding : ConfigurationBinding) (task_type : Text) (causes : List AgentRejection)
    → resolve_agents hash task configuration binding ≡ err (no_eligible_agent task_type causes)
    → Permᴰ (map (λ x. x.agent) causes) (map identity configuration.agents.agents)
      × All (IsExplained task configuration binding configuration.agents.agents) causes
resolve_agents-no_eligible_agent hash task configuration binding task_type causes h =
    let (none_eligible, same) =
      resolve_agents-eq-err hash task configuration binding task_type causes h in
    (
      rejected_alone task configuration binding causes none_eligible same,
      subst (All (IsExplained task configuration binding configuration.agents.agents)) same (
          All-map (resolution task configuration binding).rejected
            (λ x k. Any-perm _ (sorted_agents-Perm configuration.agents.agents) k)
            (resolve_each-IsExplained task configuration binding _)),
    )
