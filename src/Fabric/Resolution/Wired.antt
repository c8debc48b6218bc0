-- ===== src/Fabric/Resolution/Wired.antt =====
-- crates/pantheon-core/src/execution.rs: resolution on a configuration that the compiler let through
-- (crates/pantheon-core/src/config/validate.rs).
use pantheon.Base.{
  ◌≡◌, refl, Bool, true, false, not, some, List, [], ◌∷◌, Text, text_eq, text_eq_iff, text_contains,
  any, find?, All, Any, arith, Bool-cases, Option-cases, inl, inr, Result, ok, err,
}
use pantheon.Base.Accepts.{Has, text_contains_iff}
use pantheon.Config.Digest.{Hasher}
use pantheon.Config.Model.Agents.{Agent, RoutePolicy}
use pantheon.Config.Revision.{CompiledConfiguration}
use pantheon.Config.Validate.{profile_of}
use pantheon.Config.Validate.Wiring.{IsWired}
use pantheon.Planning.Task.{TaskSpec}
use pantheon.Fabric.Request.{ConfigurationBinding}
use pantheon.Fabric.Resolution.{
  ResolvedAgent, AgentRejection, AgentRejectionReason, AgentResolution, unknown_route,
  unknown_profile, unsatisfied_profile, policy_incompatibility, refusal, configuration_mismatch,
  no_eligible_agent, AgentResolutionError, resolve_agent, decide, resolve_each, conclude,
  mismatched, resolve_agents,
}
use pantheon.Fabric.Resolution.Partition.{resolution, sorted_agents-Perm}
use pantheon.Base.Sort.{All-perm}
use mathlib.Core.List.Permᴰ
use pantheon.Config.Compile.{compile}
use pantheon.Config.Compile.Compiled.{compile-IsLinked}
use pantheon.Base.{is_nil}

-- the reasons that blame the configuration's own references
abbrev pub is_dangling : AgentRejectionReason → Bool
is_dangling (unknown_route _) = true
is_dangling (unknown_profile _) = true
is_dangling (unsatisfied_profile _) = true
is_dangling _ = false

policy_incompatibility-is_dangling :
    (task : TaskSpec) (agent : Agent) (c : CompiledConfiguration) (reason : AgentRejectionReason)
    → policy_incompatibility task agent c ≡ some reason
    → is_dangling reason ≡ false
unfolding policy_incompatibility
policy_incompatibility-is_dangling task agent c reason h = ground arith

pub refusal-is_dangling :
    (task : TaskSpec) (c : CompiledConfiguration) (binding : ConfigurationBinding) (agent : Agent)
    (reason : AgentRejectionReason)
    → refusal task c binding agent ≡ some reason
    → is_dangling reason ≡ false
unfolding refusal
refusal-is_dangling task c binding agent reason h =
    elim (Option-cases (policy_incompatibility task agent c)) [
      | inl e ↦ ground arith
      | inr (found, e) ↦
          let k = policy_incompatibility-is_dangling task agent c found e in ground arith
    ]

-- a policy of the name is there, so it is found
policy_found :
    (name : Text) (l : List RoutePolicy)
    → Any (λ (p : RoutePolicy). p.name ≡ name) l
    → (route : RoutePolicy) × (find? (λ p. text_eq p.name name) l ≡ some route)
policy_found name [] h = elim h [ ]
policy_found name (p ∷ l) (inl e) = (p, ground (arith, (text_eq_iff p.name name).1 e))
policy_found name (p ∷ l) (inr k) =
    let (route, e) = policy_found name l k in
    elim (Bool-cases (text_eq p.name name)) [
      | inl h ↦ (p, ground arith)
      | inr h ↦ (route, ground arith)
    ]

provided :
    (guarantees requirements : List Text)
    → All (Has guarantees) requirements
    → any (λ r. not (text_contains guarantees r)) requirements ≡ false
provided guarantees [] h = refl
provided guarantees (r ∷ l) h =
    let rest = provided guarantees l h.1 in ground (arith, (text_contains_iff guarantees r).1 h.0)

resolve_agent-is_dangling :
    (task : TaskSpec) (c : CompiledConfiguration) (binding : ConfigurationBinding) (agent : Agent)
    (reason : AgentRejectionReason)
    → IsWired c agent
    → resolve_agent task c binding agent ≡ err reason
    → is_dangling reason ≡ false
unfolding resolve_agent profile_of
resolve_agent-is_dangling task c binding agent reason (routed, (profile, (found, (supplied, _))))
      h =
    let (route, e) = policy_found agent.route_policy c.routing.policies routed in
    let k = provided profile.guarantees agent.sandbox_requirements supplied in
    elim (Option-cases (refusal task c binding agent)) [
      | inl e' ↦ ground arith
      | inr (why, e') ↦ let same = refusal-is_dangling task c binding agent why e' in ground arith
    ]

decide-is_dangling :
    (agent : Agent) (o : Result AgentRejectionReason ResolvedAgent) (rest : AgentResolution)
    → ((reason : AgentRejectionReason) → o ≡ err reason → is_dangling reason ≡ false)
    → All (λ (x : AgentRejection). is_dangling x.reason ≡ false) rest.rejected
    → All (λ (x : AgentRejection). is_dangling x.reason ≡ false) (decide agent o rest).rejected
unfolding decide
decide-is_dangling agent (ok r) rest h k = k
decide-is_dangling agent (err reason) rest h k = (h reason refl, k)

resolve_each-is_dangling :
    (task : TaskSpec) (c : CompiledConfiguration) (binding : ConfigurationBinding)
    (agents : List Agent)
    → All (IsWired c) agents
    → All
        (λ (x : AgentRejection). is_dangling x.reason ≡ false)
        (resolve_each task c binding agents).rejected
unfolding resolve_each
resolve_each-is_dangling task c binding [] h = tt
resolve_each-is_dangling task c binding (agent ∷ agents) h =
    decide-is_dangling agent (resolve_agent task c binding agent)
      (resolve_each task c binding agents)
      (λ reason e. resolve_agent-is_dangling task c binding agent reason h.0 e)
      (resolve_each-is_dangling task c binding agents h.1)

-- the rejections that an outcome of resolution reports
abbrev pub rejections : Result AgentResolutionError AgentResolution → List AgentRejection
rejections (ok r) = r.rejected
rejections (err (no_eligible_agent _ causes)) = causes
rejections (err (configuration_mismatch _ _)) = []

-- On a configuration that compiles, whether resolution succeeds or is refused, no Agent is rejected
-- for a route policy or a sandbox profile that is not there, or for a profile that does not satisfy
-- its requirements.
pub resolve_agents-compile :
    (hash : Hasher) (source : Text) (c : CompiledConfiguration) (task : TaskSpec)
    (binding : ConfigurationBinding)
    → compile source ≡ ok c
    → All
        (λ (x : AgentRejection). is_dangling x.reason ≡ false)
        (rejections (resolve_agents hash task c binding))
unfolding resolve_agents conclude
resolve_agents-compile hash source c task binding h =
    elim (Bool-cases (mismatched hash c binding)) [
      | inl e ↦ rw e tt
      | inr e ↦ elim (Bool-cases (is_nil (resolution task c binding).eligible)) [
        | inl k ↦ rw (e, k) sound
        | inr k ↦ rw (e, k) sound
      ]
    ]
  where
    sound :
        All
          (λ (x : AgentRejection). is_dangling x.reason ≡ false)
          (resolution task c binding).rejected
    sound = resolve_each-is_dangling task c binding _ (
        All-perm (IsWired c) (Permᴰ.symm (sorted_agents-Perm c.agents.agents))
          (compile-IsLinked source c h).1.wired)
