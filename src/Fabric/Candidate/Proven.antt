-- ===== src/Fabric/Candidate/Proven.antt =====
-- crates/pantheon-core/src/execution.rs: what an execution candidate has been checked for.
use pantheon.Base.{
  ◌≡◌, ◌↔◌, ◌⊎◌, inl, inr, refl, Bool, true, false, not, some, List, [], Text, text_contains,
  ==_iff, All, ok_or,
}
use pantheon.Base.Accepts.{
  IsOk, IsOk-ok, IsOk-bind, IsOk-then, IsOk-refuse_if, IsOk-ok_or, iff_trans, All-iff,
  refuse_if_iff, then_iff, each_iff, not-false_iff, is_nil_iff, Has, text_contains_iff,
}
use pantheon.Base.Int.{ℤ, int_lt}
use pantheon.Base.Order.{list_ord, nat_ord}
use pantheon.Config.Digest.{Hasher}
use pantheon.Config.Model.Agents.{route_digest}
use pantheon.Fabric.Request.{
  LaunchSafety, keyed_required, observational_allowed, LaunchSemantics, keyed_idempotent,
  observational, same_semantics, ControllerSafetyFacts, ResourceQuantity, BackendDescriptor,
  descriptor_digest, ExecutionRequest, request_digest, ExecutionOffer,
}
use pantheon.Fabric.Resolution.{ResolvedAgent}
use pantheon.Fabric.Missing.{
  Provides, sorted_difference-nil_iff, same_iff, neither_iff, same_agent_iff, keep-nil_iff,
}
use pantheon.Fabric.Candidate.{
  CandidateRejection, resource_quantity, check_quantity, check_resource, check_missing, unproven,
  unsafe_launch, check_identity, check_capability, check_safety, validate_execution_candidate,
}

check_missing_iff :
    {P : Type 0} (reason : List Text → CandidateRejection) (missing : List Text)
    → (missing ≡ []) ↔ P
    → IsOk (check_missing reason missing) ↔ P
unfolding check_missing
check_missing_iff reason missing h = refuse_if_iff _ (iff_trans (is_nil_iff missing) h)

-- the back end is enabled and available, and the offer is its answer to this very request
abbrev pub IsOffered :
    Hasher → ExecutionRequest → ResolvedAgent → BackendDescriptor → ExecutionOffer → Bool → Type 0
IsOffered hash request resolved descriptor offer backend_enabled =
    (backend_enabled ≡ true)
    × ((descriptor.available_for_offers ≡ true)
        × ((descriptor.backend_id ≡ offer.backend_id)
            × ((descriptor.revision ≡ offer.descriptor_revision)
                × ((descriptor_digest hash descriptor ≡ offer.descriptor_digest)
                    × ((request_digest hash request ≡ offer.request_digest)
                        × ((resolved.identity ≡ request.agent)
                            × (route_digest hash resolved.route_policy
                                ≡ request.route_policy_digest)))))))

-- the back end and its offer have the features, the context and the placement of the request
abbrev pub IsCapable : ExecutionRequest → BackendDescriptor → ExecutionOffer → Type 0
IsCapable request descriptor offer =
    Provides request.required_execution_features descriptor.supported_execution_features
    × (Provides request.required_execution_features offer.supported_execution_features
        × ((int_lt descriptor.context_capacity_tokens request.min_context_tokens ≡ false)
            × ((int_lt offer.context_capacity_tokens request.min_context_tokens ≡ false)
                × (Provides request.placement_constraints descriptor.placement
                    × Provides request.placement_constraints offer.placement))))

-- the controller, the descriptor and the offer each have the requirement
abbrev pub IsIsolated : ControllerSafetyFacts → BackendDescriptor → ExecutionOffer → Text → Type 0
IsIsolated safety descriptor offer requirement =
    Has safety.isolation_guarantees requirement
    × (Has descriptor.isolation_facts requirement × Has offer.isolation_facts requirement)

abbrev pub IsLaunchable : LaunchSafety → LaunchSemantics → Bool → Type 0
IsLaunchable safety semantics observational_safe =
    (semantics ≡ keyed_idempotent)
    ⊎ ((safety ≡ observational_allowed) × (observational_safe ≡ true))

abbrev pub IsSafe :
    ExecutionRequest → BackendDescriptor → ExecutionOffer → ControllerSafetyFacts → Type 0
IsSafe request descriptor offer safety =
    All (IsIsolated safety descriptor offer) request.isolation_requirements
    × ((descriptor.launch_semantics ≡ offer.launch_semantics)
        × IsLaunchable request.launch_safety offer.launch_semantics
            safety.observational_launch_safe)

-- the first quantity of the name is enough
abbrev pub Supplies : List ResourceQuantity → ResourceQuantity → Type 0
Supplies offered required =
    (quantity : ℤ) × (resource_quantity offered required.name ≡ some quantity)
    × (int_lt quantity required.quantity ≡ false)

check_identity_iff :
    (hash : Hasher) (request : ExecutionRequest) (resolved : ResolvedAgent)
    (descriptor : BackendDescriptor) (offer : ExecutionOffer) (backend_enabled : Bool)
    → IsOk (check_identity hash request resolved descriptor offer backend_enabled)
      ↔ IsOffered hash request resolved descriptor offer backend_enabled
unfolding check_identity
check_identity_iff hash request resolved descriptor offer backend_enabled =
    then_iff _ _ (refuse_if_iff _ (not-false_iff backend_enabled)) (
      then_iff _ _ (refuse_if_iff _ (not-false_iff descriptor.available_for_offers)) (
        then_iff _ _ (refuse_if_iff _ (same_iff _ _)) (
          then_iff _ _
            (refuse_if_iff _ (iff_trans (not-false_iff _) (==_iff descriptor.revision _)))
            (then_iff _ _ (refuse_if_iff _ (same_iff _ _)) (
              then_iff _ _ (refuse_if_iff _ (same_iff _ _)) (
                refuse_if_iff _ (
                  neither_iff _ _ (same_agent_iff resolved.identity request.agent)
                    (same_iff _ _))))))))

check_capability_iff :
    (request : ExecutionRequest) (descriptor : BackendDescriptor) (offer : ExecutionOffer)
    → IsOk (check_capability request descriptor offer) ↔ IsCapable request descriptor offer
unfolding check_capability
check_capability_iff request descriptor offer =
    then_iff _ _ (check_missing_iff _ _ (sorted_difference-nil_iff _ _)) (
      then_iff _ _ (check_missing_iff _ _ (sorted_difference-nil_iff _ _)) (
        then_iff _ _ (IsOk-refuse_if _ _) (
          then_iff _ _ (IsOk-refuse_if _ _) (
            then_iff _ _ (check_missing_iff _ _ (sorted_difference-nil_iff _ _))
              (check_missing_iff _ _ (sorted_difference-nil_iff _ _))))))

unproven_iff :
    (safety : ControllerSafetyFacts) (descriptor : BackendDescriptor) (offer : ExecutionOffer)
    (requirement : Text)
    → (unproven safety descriptor offer requirement ≡ false)
      ↔ IsIsolated safety descriptor offer requirement
unfolding unproven
unproven_iff safety descriptor offer requirement =
    neither_iff _ _ (held safety.isolation_guarantees)
      (neither_iff _ _ (held descriptor.isolation_facts) (held offer.isolation_facts))
  where
    held :
        (facts : List Text)
        → (not (text_contains facts requirement) ≡ false) ↔ Has facts requirement
    held facts = iff_trans (not-false_iff _) (text_contains_iff facts requirement)

unsafe_launch_iff :
    (safety : LaunchSafety) (semantics : LaunchSemantics) (safe : Bool)
    → (unsafe_launch safety semantics safe ≡ false) ↔ IsLaunchable safety semantics safe
unfolding unsafe_launch
unsafe_launch_iff keyed_required keyed_idempotent safe = (λ h. inl refl, λ h. refl)
unsafe_launch_iff keyed_required observational safe =
    (λ h. cc, λ h. elim h [ inl e ↦ cc | inr e ↦ cc ])
unsafe_launch_iff observational_allowed keyed_idempotent safe = (λ h. inl refl, λ h. refl)
unsafe_launch_iff observational_allowed observational true = (λ h. inr (refl, refl), λ h. refl)
unsafe_launch_iff observational_allowed observational false =
    (λ h. cc, λ h. elim h [ inl e ↦ cc | inr e ↦ cc ])

same_semantics_iff : (a b : LaunchSemantics) → (not (same_semantics a b) ≡ false) ↔ (a ≡ b)
unfolding same_semantics
same_semantics_iff keyed_idempotent keyed_idempotent = (λ h. refl, λ h. refl)
same_semantics_iff observational observational = (λ h. refl, λ h. refl)
same_semantics_iff keyed_idempotent observational = (λ h. cc, λ h. cc)
same_semantics_iff observational keyed_idempotent = (λ h. cc, λ h. cc)

check_safety_iff :
    (request : ExecutionRequest) (descriptor : BackendDescriptor) (offer : ExecutionOffer)
    (safety : ControllerSafetyFacts)
    → IsOk (check_safety request descriptor offer safety) ↔ IsSafe request descriptor offer safety
unfolding check_safety
check_safety_iff request descriptor offer safety =
    then_iff _ _
      (check_missing_iff _ _ (
        iff_trans (keep-nil_iff _ request.isolation_requirements)
          (All-iff (unproven_iff safety descriptor offer) request.isolation_requirements)))
      (then_iff _ _ (refuse_if_iff _ (same_semantics_iff _ _)) (
        refuse_if_iff _ (
          unsafe_launch_iff request.launch_safety offer.launch_semantics
            safety.observational_launch_safe)))

check_quantity_iff :
    (offered : List ResourceQuantity) (required : ResourceQuantity)
    → IsOk (check_quantity offered required) ↔ Supplies offered required
unfolding check_quantity
check_quantity_iff offered required = (to, from)
  where
    to : IsOk (check_quantity offered required) → Supplies offered required
    to h =
        let (found, next) = IsOk-bind (ok_or (resource_quantity offered required.name) _) _ h in
        let (q, e) = IsOk-ok_or (resource_quantity offered required.name) _ found in
        (q, e, (IsOk-refuse_if _ _).0 (next q (rw e refl)))

    from : Supplies offered required → IsOk (check_quantity offered required)
    from (q, e, h) = rw e ((IsOk-refuse_if _ _).1 h)

-- A candidate is accepted exactly when the back end is enabled and available and the offer answers
-- this request, with the same back end, descriptor revision, descriptor digest and request digest,
-- and the request is the resolved Agent's under its route policy; the descriptor and the offer both
-- have every required feature, enough context and every placement; each isolation requirement is
-- held by the controller, the descriptor and the offer; the launch semantics agree and are keyed,
-- or observational where the request and the controller allow that; and both supply every required
-- quantity.
pub validate_execution_candidate_iff :
    (hash : Hasher) (request : ExecutionRequest) (resolved : ResolvedAgent)
    (descriptor : BackendDescriptor) (offer : ExecutionOffer) (backend_enabled : Bool)
    (safety : ControllerSafetyFacts)
    → IsOk
        (validate_execution_candidate hash request resolved descriptor offer backend_enabled safety)
      ↔ (IsOffered hash request resolved descriptor offer backend_enabled
          × (IsCapable request descriptor offer
              × (IsSafe request descriptor offer safety
                  × All
                      (λ r. Supplies descriptor.resources r × Supplies offer.resources r)
                      request.resource_requirements)))
unfolding validate_execution_candidate check_resource
validate_execution_candidate_iff hash request resolved descriptor offer backend_enabled safety =
    then_iff _ _ (check_identity_iff hash request resolved descriptor offer backend_enabled) (
      then_iff _ _ (check_capability_iff request descriptor offer) (
        then_iff _ _ (check_safety_iff request descriptor offer safety) (
          iff_trans (IsOk-then _ _) (
            iff_trans (λ h. h.0, λ h. (h, IsOk-ok _ refl))
              (each_iff _
                (λ r.
                  then_iff _ _ (check_quantity_iff descriptor.resources r)
                    (check_quantity_iff offer.resources r))
                request.resource_requirements)))))
