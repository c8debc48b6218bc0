-- ===== src/Fabric/Launch.antt =====
-- crates/pantheon-core/src/execution.rs: what a candidate accepted for an Agent's own request has.
use pantheon.Base.{
  ◌≡◌, sym, subst, Bool, true, false, List, Text, All, ok, refuse_if, inl, inr, ok_injective,
  if◌then◌else◌,
}
use pantheon.Base.Accepts.{IsOk, Has, then-eq-ok}
use pantheon.Base.Order.{nat_ord, list_ord}
use pantheon.Base.Sort.{sort, sort-Perm, All-perm}
use pantheon.Config.Digest.{Hasher}
use pantheon.Config.Revision.{CompiledConfiguration}
use pantheon.Planning.Task.{TaskSpec}
use pantheon.Fabric.Request.{
  ConfigurationBinding, keyed_required, observational_allowed, LaunchSemantics, keyed_idempotent,
  ControllerSafetyFacts, BackendDescriptor, ExecutionRequest, ExecutionOffer,
}
use pantheon.Fabric.Missing.{Provides}
use pantheon.Fabric.Resolution.{ResolvedAgent, mismatched, build_execution_request}
use pantheon.Fabric.Candidate.{validate_execution_candidate}
use pantheon.Fabric.Candidate.Proven.{IsIsolated, IsLaunchable, validate_execution_candidate_iff}

-- what the Agent asks of the offer that its Task is launched on
pub record IsLaunched (agent : ResolvedAgent) (descriptor : BackendDescriptor)
    (offer : ExecutionOffer) (safety : ControllerSafetyFacts) : Type 0 where
  pub featured :
      Provides agent.agent.execution_features descriptor.supported_execution_features
      × Provides agent.agent.execution_features offer.supported_execution_features
  pub isolated : All (IsIsolated safety descriptor offer) agent.agent.sandbox_requirements
  pub keyed :
      agent.route_policy.requires_keyed_launch ≡ true → offer.launch_semantics ≡ keyed_idempotent

All-sort : (P : Text → Type 0) (l : List Text) → All P (sort l) → All P l
All-sort P l h = All-perm P (sort-Perm l) h

keyed_launch :
    (requires safe : Bool) (semantics : LaunchSemantics)
    → IsLaunchable (if requires then keyed_required else observational_allowed) semantics safe
    → requires ≡ true
    → semantics ≡ keyed_idempotent
keyed_launch true safe semantics (inl e) r = e
keyed_launch true safe semantics (inr e) r = cc
keyed_launch false safe semantics h r = cc

-- When the request of a resolved Agent is built and a candidate is accepted for it, the back end
-- and its offer have every execution feature of the Agent, the controller, the back end and the
-- offer each hold every sandbox requirement of the Agent, and the launch is keyed when the Agent's
-- route policy requires it.
pub build_execution_request-IsLaunched :
    (hash : Hasher) (task_id : Text) (task : TaskSpec) (agent : ResolvedAgent)
    (configuration : CompiledConfiguration) (binding : ConfigurationBinding)
    (request : ExecutionRequest) (descriptor : BackendDescriptor) (offer : ExecutionOffer)
    (backend_enabled : Bool) (safety : ControllerSafetyFacts)
    → build_execution_request hash task_id task agent configuration binding ≡ ok request
    → IsOk (validate_execution_candidate hash request agent descriptor offer backend_enabled safety)
    → IsLaunched agent descriptor offer safety
unfolding build_execution_request
build_execution_request-IsLaunched hash task_id task agent configuration binding request descriptor
      offer backend_enabled safety h k =
    let (_, ((features, (features', _)), ((isolated, (_, launchable)), _))) =
      (validate_execution_candidate_iff hash request agent descriptor offer backend_enabled
          safety).0
        k in
    let built =
      ok_injective (then-eq-ok (refuse_if (mismatched hash configuration binding) _) _ h) in
    record {
      featured = (
        All-sort (Has descriptor.supported_execution_features) _ (
            subst
              (λ q. Provides q.required_execution_features descriptor.supported_execution_features)
              (sym built) features),
        All-sort (Has offer.supported_execution_features) _ (
            subst (λ q. Provides q.required_execution_features offer.supported_execution_features)
              (sym built) features'),
      );
      isolated = All-sort (IsIsolated safety descriptor offer) _ (
          subst (λ q. All (IsIsolated safety descriptor offer) q.isolation_requirements) (sym built)
            isolated);
      keyed =
          keyed_launch agent.route_policy.requires_keyed_launch safety.observational_launch_safe
            offer.launch_semantics
            (subst
              (λ q.
                IsLaunchable q.launch_safety offer.launch_semantics
                  safety.observational_launch_safe)
              (sym built) launchable);
    }
