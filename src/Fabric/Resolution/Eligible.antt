-- ===== src/Fabric/Resolution/Eligible.antt =====
-- crates/pantheon-core/src/execution.rs: what holds of every Agent that resolution finds eligible.
use pantheon.Base.{
  ◌≡◌, ◌⊎◌, inl, inr, refl, sym, ap, subst, Bool, true, false, not, none, some, List, [], ◌∷◌, Text,
  text_eq, text_eq_iff, text_contains, is_nil, any, find?, All, Any, any→Any, Any→any, arith,
  Bool-cases, Option-cases, ok, All-map, ◌∙◌,
}
use pantheon.Base.Accepts.{Has, text_contains_iff, is_nil_iff, not-false_iff}
use pantheon.Base.Int.{int_lt}
use pantheon.Config.Model.Agents.{
  LogicalAgentVersion, Agent, identity, RoutePolicy, AuthorizationRule, RuleEffect, forbid,
}
use pantheon.Config.Model.Execution.{SandboxProfile}
use pantheon.Config.Revision.{CompiledConfiguration}
use pantheon.Planning.Task.{TaskSpec}
use pantheon.Fabric.Request.{ConfigurationBinding}
use pantheon.Fabric.Missing.{Provides, sorted_difference-nil_iff, same_agent_iff}
use pantheon.Fabric.Resolution.{
  ResolvedAgent, sorted_difference, contains_agent, is_forbid, forbids, policy_incompatibility,
  refusal, resolve_agent,
}

-- some rule of the configuration forbids the action
abbrev pub IsForbidden : CompiledConfiguration → Text → Type 0
IsForbidden configuration action =
    Any (λ (r : AuthorizationRule). (r.action ≡ action) × (r.effect ≡ forbid))
      configuration.authorization.rules

-- what an eligible Agent satisfies
pub record IsEligible (task : TaskSpec) (configuration : CompiledConfiguration)
    (binding : ConfigurationBinding) (r : ResolvedAgent) : Type 0 where
  pub named : r.identity ≡ identity r.agent
  pub enabled : r.agent.enabled ≡ true
  pub current : r.agent.current ≡ true
  pub accepts : Has r.agent.accepts task.task_type
  pub competent : Provides task.competencies r.agent.competencies
  pub pinned :
      (configuration.routing.agent_pins ≡ [])
      ⊎ Any (λ p. p ≡ r.identity) configuration.routing.agent_pins
  pub included : ¬ Any (λ p. p ≡ r.identity) configuration.routing.agent_exclusions
  pub actions_allowed : All (λ a. ¬ IsForbidden configuration a) r.agent.actions
  pub effects_allowed : All (λ a. ¬ IsForbidden configuration a) task.scope.permitted_effects
  pub activated :
      int_lt binding.activation_sequence task.acceptance.configuration_activation_sequence ≡ false
  pub routed : Any (λ p. p ≡ r.route_policy) configuration.routing.policies
  pub route_named : r.route_policy.name ≡ r.agent.route_policy
  pub sandboxed : Any (λ p. p ≡ r.sandbox_profile) configuration.execution.profiles
  pub profile_named : r.sandbox_profile.name ≡ r.agent.sandbox_profile
  pub guaranteed : Provides r.agent.sandbox_requirements r.sandbox_profile.guarantees

-- the conditions behind `refusal`
record IsUnrefused (task : TaskSpec) (configuration : CompiledConfiguration)
    (binding : ConfigurationBinding) (agent : Agent) : Type 0 where
  enabled : agent.enabled ≡ true
  current : agent.current ≡ true
  accepts : any (λ accepted. text_eq accepted task.task_type) agent.accepts ≡ true
  competent : is_nil (sorted_difference task.competencies agent.competencies) ≡ true
  pinned :
      (is_nil configuration.routing.agent_pins ≡ true)
      ⊎ (contains_agent configuration.routing.agent_pins (identity agent) ≡ true)
  included : contains_agent configuration.routing.agent_exclusions (identity agent) ≡ false
  allowed : policy_incompatibility task agent configuration ≡ none
  activated :
      int_lt binding.activation_sequence task.acceptance.configuration_activation_sequence ≡ false

refusal-none :
    (task : TaskSpec) (configuration : CompiledConfiguration) (binding : ConfigurationBinding)
    (agent : Agent)
    → refusal task configuration binding agent ≡ none
    → IsUnrefused task configuration binding agent
unfolding refusal
refusal-none task configuration binding agent h = record {
  enabled = ground arith;
  current = ground arith;
  accepts = ground arith;
  competent = ground arith;
  pinned = elim (Bool-cases (is_nil configuration.routing.agent_pins)) [
    | inl e ↦ inl e
    | inr e ↦ inr (ground arith)
  ];
  included = ground arith;
  allowed = ground arith;
  activated = ground arith;
}

pub contains_agent-Any :
    (l : List LogicalAgentVersion) (a : LogicalAgentVersion)
    → contains_agent l a ≡ true
    → Any (λ p. p ≡ a) l
unfolding contains_agent
contains_agent-Any l a h = any→Any _ l (λ p e. (same_agent_iff p a).0 (ground arith)) h

pub Any-contains_agent :
    (l : List LogicalAgentVersion) (a : LogicalAgentVersion)
    → Any (λ p. p ≡ a) l
    → contains_agent l a ≡ true
unfolding contains_agent
Any-contains_agent l a h = Any→any _ l (λ p e. ground (arith, (same_agent_iff p a).1 e)) h

pub find?-Any :
    {A : Type 0} (p : A → Bool) (l : List A) (x : A)
    → find? p l ≡ some x
    → Any (λ y. y ≡ x) l × (p x ≡ true)
find?-Any p [] x h = cc
find?-Any p (y ∷ l) x h = elim (Bool-cases (p y)) [
  | inl e ↦ let same = first e in (inl same, subst (λ z. p z ≡ true) same e)
  | inr e ↦ let (found, holds) = find?-Any p l x (ground arith) in (inr found, holds)
]
  where
    first : p y ≡ true → y ≡ x
    first e = ground arith

pub find?-none :
    {A : Type 0} (p : A → Bool) (l : List A) → find? p l ≡ none → All (λ a. p a ≡ false) l
find?-none p [] h = tt
find?-none p (y ∷ l) h = (ground arith, find?-none p l (ground arith))

true-false : ◌≡◌ {A = Bool} true false → ⊥
true-false e = cc

pub any-false :
    {A : Type 0} (p : A → Bool) (l : List A) → any p l ≡ false → All (λ a. p a ≡ false) l
any-false p [] h = tt
any-false p (x ∷ l) h = (ground arith, any-false p l (ground arith))

forbids-IsForbidden :
    (configuration : CompiledConfiguration) (action : Text)
    → forbids configuration.authorization.rules action ≡ false
    → ¬ IsForbidden configuration action
unfolding forbids
forbids-IsForbidden configuration action h k = absurd (
    true-false (
      sym (
        Any→any _ configuration.authorization.rules
          (λ r e. ground (arith, (text_eq_iff r.action action).1 e.0, forbid_true r.effect e.1)) k)
      ∙ h))
  where
    forbid_true : (e : RuleEffect) → e ≡ forbid → is_forbid e ≡ true
    forbid_true e h = rw h refl

compatible :
    (task : TaskSpec) (agent : Agent) (configuration : CompiledConfiguration)
    → policy_incompatibility task agent configuration ≡ none
    → All (λ a. ¬ IsForbidden configuration a) agent.actions
      × All (λ a. ¬ IsForbidden configuration a) task.scope.permitted_effects
unfolding policy_incompatibility
compatible task agent configuration h =
    (allowed agent.actions (ground arith), allowed task.scope.permitted_effects (ground arith))
  where
    allowed :
        (l : List Text)
        → find? (forbids configuration.authorization.rules) l ≡ none
        → All (λ a. ¬ IsForbidden configuration a) l
    allowed l e =
        All-map l (forbids-IsForbidden configuration)
          (find?-none (forbids configuration.authorization.rules) l e)

resolved :
    (task : TaskSpec) (configuration : CompiledConfiguration) (binding : ConfigurationBinding)
    (agent : Agent) (route : RoutePolicy) (profile : SandboxProfile)
    → IsUnrefused task configuration binding agent
    → find? (λ p. text_eq p.name agent.route_policy) configuration.routing.policies ≡ some route
    → find? (λ p. text_eq p.name agent.sandbox_profile) configuration.execution.profiles
      ≡ some profile
    → any (λ r. not (text_contains profile.guarantees r)) agent.sandbox_requirements ≡ false
    → IsEligible task configuration binding (record {
      identity = identity agent;
      agent = agent;
      route_policy = route;
      sandbox_profile = profile;
    })
resolved task configuration binding agent route profile h e f g =
    let (routed, route_named) = find?-Any _ _ route e in
    let (sandboxed, profile_named) = find?-Any _ _ profile f in
    let (actions_allowed, effects_allowed) = compatible task agent configuration h.allowed in
    record {
      named = refl;
      enabled = h.enabled;
      current = h.current;
      accepts = any→Any _ agent.accepts (λ a k. (text_eq_iff a task.task_type).0 k) h.accepts;
      competent = (sorted_difference-nil_iff _ _).0 ((is_nil_iff _).0 (rw (h.competent) refl));
      pinned = elim h.pinned [
        | inl k ↦ inl ((is_nil_iff configuration.routing.agent_pins).0 (rw k refl))
        | inr k ↦ inr (contains_agent-Any configuration.routing.agent_pins (identity agent) k)
      ];
      included = λ k. true-false (
          sym (Any-contains_agent configuration.routing.agent_exclusions (identity agent) k)
          ∙ h.included);
      actions_allowed = actions_allowed;
      effects_allowed = effects_allowed;
      activated = h.activated;
      routed = routed;
      route_named = (text_eq_iff route.name agent.route_policy).0 route_named;
      sandboxed = sandboxed;
      profile_named = (text_eq_iff profile.name agent.sandbox_profile).0 profile_named;
      guaranteed =
          All-map agent.sandbox_requirements
            (λ r k.
              (text_contains_iff profile.guarantees r).0
                ((not-false_iff (text_contains profile.guarantees r)).0 k))
            (any-false _ agent.sandbox_requirements g);
    }

the_resolved : Agent → RoutePolicy → SandboxProfile → ResolvedAgent
the_resolved agent route profile = record {
  identity = identity agent;
  agent = agent;
  route_policy = route;
  sandbox_profile = profile;
}

resolve_agent-eq-ok :
    (task : TaskSpec) (configuration : CompiledConfiguration) (binding : ConfigurationBinding)
    (agent : Agent) (r : ResolvedAgent)
    → resolve_agent task configuration binding agent ≡ ok r
    → (route : RoutePolicy) × (profile : SandboxProfile) × (refusal task configuration binding agent
        ≡ none)
      × (find? (λ p. text_eq p.name agent.route_policy) configuration.routing.policies ≡ some route)
      × (find? (λ p. text_eq p.name agent.sandbox_profile) configuration.execution.profiles
          ≡ some profile)
      × (any (λ r. not (text_contains profile.guarantees r)) agent.sandbox_requirements ≡ false)
      × (the_resolved agent route profile ≡ r)
unfolding resolve_agent the_resolved
resolve_agent-eq-ok task configuration binding agent r h =
    elim (Option-cases (refusal task configuration binding agent)) [
      | inr (reason, e) ↦ ground arith
      | inl e ↦
          elim (Option-cases
            (find? (λ p. text_eq p.name agent.route_policy) configuration.routing.policies)) [
              | inl e' ↦ ground arith
              | inr (route, e') ↦
                  elim (Option-cases (
                    find? (λ p. text_eq p.name agent.sandbox_profile)
                      configuration.execution.profiles)) [
                        | inl e'' ↦ ground arith
                        | inr (profile, e'') ↦
                            elim (Bool-cases (
                              any (λ r. not (text_contains profile.guarantees r))
                                agent.sandbox_requirements)) [
                                  | inl g ↦ ground arith
                                  | inr g ↦ (route, profile, e, e', e'', g, ground arith)
                                ]
                      ]
            ]
    ]

pub resolve_agent-IsEligible :
    (task : TaskSpec) (configuration : CompiledConfiguration) (binding : ConfigurationBinding)
    (agent : Agent) (r : ResolvedAgent)
    → resolve_agent task configuration binding agent ≡ ok r
    → IsEligible task configuration binding r
unfolding the_resolved
resolve_agent-IsEligible task configuration binding agent r h =
    let (route, profile, e, e', e'', g, same) =
      resolve_agent-eq-ok task configuration binding agent r h in
    subst (IsEligible task configuration binding) same (
      resolved task configuration binding agent route profile
        (refusal-none task configuration binding agent e) e' e'' g)

pub resolve_agent-identity :
    (task : TaskSpec) (configuration : CompiledConfiguration) (binding : ConfigurationBinding)
    (agent : Agent) (r : ResolvedAgent)
    → resolve_agent task configuration binding agent ≡ ok r
    → r.agent ≡ agent
unfolding the_resolved
resolve_agent-identity task configuration binding agent r h =
    let (_, _, _, _, _, _, same) = resolve_agent-eq-ok task configuration binding agent r h in
    ap (λ x. x.agent) (sym same)
