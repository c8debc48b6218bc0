-- ===== src/Fabric/Candidate.antt =====
-- crates/pantheon-core/src/execution.rs: `validate_execution_candidate`.
pub mod Proven
use pantheon.Base.{
  ℕ, Bool, true, false, ◌&&◌, ◌||◌, not, Option, none, some, List, [], ◌∷◌, Text, text, text_eq,
  text_contains, is_nil, find?, keep, ◌==◌, if◌then◌else◌, Result, ok, err, ok_or, refuse_if, ◌>>=◌,
  ◌>>◌,
}
use pantheon.Base.Accepts.{each}
use pantheon.Base.Int.{ℤ, pos, int_lt}
use pantheon.Config.Value.{Value, string, object_of}
use pantheon.Config.Digest.{Hasher, Digest, value_digest, digest_eq, display}
use pantheon.Config.Model.Agents.{
  LogicalAgentVersion, same_agent, reference_value, RoutePolicy, route_digest,
}
use pantheon.Fabric.Request.{
  LaunchSafety, keyed_required, observational_allowed, LaunchSemantics, keyed_idempotent,
  observational, same_semantics, ControllerSafetyFacts, ResourceQuantity, BackendDescriptor,
  descriptor_digest, ExecutionRequest, request_digest, ExecutionOffer, offer_digest,
}
use pantheon.Fabric.Resolution.{ResolvedAgent, sorted_difference}

pub data CandidateRejection : Type 0 where
  backend_disabled backend_unavailable backend_mismatch : CandidateRejection
  descriptor_revision_mismatch offer_request_mismatch : CandidateRejection
  missing_execution_features : List Text → CandidateRejection
  context_capacity_too_small : ℤ → ℤ → CandidateRejection
  placement_incompatible isolation_not_proven : List Text → CandidateRejection
  resource_incompatible : Text → ℤ → ℤ → CandidateRejection
  launch_semantics_mismatch unsafe_launch_semantics route_policy_mismatch : CandidateRejection

pub record ExecutionCandidate : Type 0 where
  pub agent : LogicalAgentVersion
  pub request_digest : Digest
  pub offer : ExecutionOffer
  pub route_policy : RoutePolicy
  pub execution_profile_digest : Digest

unfoldable pub candidate_digest : Hasher → ExecutionCandidate → Digest
candidate_digest hash c = value_digest hash (
    object_of (
      (text "agent", reference_value c.agent)
      ∷ (text "requestDigest", string (display c.request_digest))
      ∷ (text "offerDigest", string (display (offer_digest hash c.offer)))
      ∷ (text "routePolicyDigest", string (display (route_digest hash c.route_policy)))
      ∷ (text "executionProfileDigest", string (display c.execution_profile_digest))
      ∷ []))

unfoldable pub resource_quantity : List ResourceQuantity → Text → Option ℤ
resource_quantity [] name = none
resource_quantity (r ∷ l) name =
    let rest = resource_quantity l name in if text_eq r.name name then some r.quantity else rest

-- one table's share of a requirement
unfoldable pub check_quantity :
    List ResourceQuantity → ResourceQuantity → Result CandidateRejection Unit
unfolding resource_quantity
check_quantity offered required = do
  quantity ←
      ok_or (resource_quantity offered required.name)
        (resource_incompatible required.name required.quantity (pos 0))
  refuse_if (int_lt quantity required.quantity)
      (resource_incompatible required.name required.quantity quantity)

unfoldable pub check_resource :
    BackendDescriptor → ExecutionOffer → ResourceQuantity → Result CandidateRejection Unit
check_resource descriptor offer required =
    check_quantity descriptor.resources required >> check_quantity offer.resources required

-- refuse with the missing texts, if there are any
unfoldable pub check_missing :
    (List Text → CandidateRejection) → List Text → Result CandidateRejection Unit
check_missing reason missing = refuse_if (not (is_nil missing)) (reason missing)

-- the requirements that one of the three does not prove
unfoldable pub unproven : ControllerSafetyFacts → BackendDescriptor → ExecutionOffer → Text → Bool
unproven safety descriptor offer requirement =
    not (text_contains safety.isolation_guarantees requirement)
    || (not (text_contains descriptor.isolation_facts requirement)
        || not (text_contains offer.isolation_facts requirement))

unfoldable pub unsafe_launch : LaunchSafety → LaunchSemantics → Bool → Bool
unsafe_launch keyed_required keyed_idempotent safe = false
unsafe_launch keyed_required observational safe = true
unsafe_launch observational_allowed keyed_idempotent safe = false
unsafe_launch observational_allowed observational safe = not safe

-- who offers what to whom
unfoldable pub check_identity :
    Hasher
    → ExecutionRequest
    → ResolvedAgent
    → BackendDescriptor
    → ExecutionOffer
    → Bool
    → Result CandidateRejection Unit
check_identity hash request resolved descriptor offer backend_enabled = do
  refuse_if (not backend_enabled) backend_disabled
  refuse_if (not descriptor.available_for_offers) backend_unavailable
  refuse_if (not (text_eq descriptor.backend_id offer.backend_id)) backend_mismatch
  refuse_if (not (descriptor.revision == offer.descriptor_revision)) descriptor_revision_mismatch
  refuse_if (not (digest_eq (descriptor_digest hash descriptor) offer.descriptor_digest))
      descriptor_revision_mismatch
  refuse_if (not (digest_eq (request_digest hash request) offer.request_digest))
      offer_request_mismatch
  refuse_if
      (not (same_agent resolved.identity request.agent)
        || not (digest_eq (route_digest hash resolved.route_policy) request.route_policy_digest))
      route_policy_mismatch

-- what the back end and the offer provide
unfoldable pub check_capability :
    ExecutionRequest → BackendDescriptor → ExecutionOffer → Result CandidateRejection Unit
check_capability request descriptor offer = do
  check_missing missing_execution_features (
      sorted_difference request.required_execution_features descriptor.supported_execution_features)
  check_missing missing_execution_features
      (sorted_difference request.required_execution_features offer.supported_execution_features)
  refuse_if (int_lt descriptor.context_capacity_tokens request.min_context_tokens)
      (context_capacity_too_small request.min_context_tokens descriptor.context_capacity_tokens)
  refuse_if (int_lt offer.context_capacity_tokens request.min_context_tokens)
      (context_capacity_too_small request.min_context_tokens offer.context_capacity_tokens)
  check_missing placement_incompatible
      (sorted_difference request.placement_constraints descriptor.placement)
  check_missing placement_incompatible
      (sorted_difference request.placement_constraints offer.placement)

-- what is proven to be safe
unfoldable pub check_safety :
    ExecutionRequest
    → BackendDescriptor
    → ExecutionOffer
    → ControllerSafetyFacts
    → Result CandidateRejection Unit
check_safety request descriptor offer safety = do
  check_missing isolation_not_proven
      (keep (unproven safety descriptor offer) request.isolation_requirements)
  refuse_if (not (same_semantics descriptor.launch_semantics offer.launch_semantics))
      launch_semantics_mismatch
  refuse_if
      (unsafe_launch request.launch_safety offer.launch_semantics safety.observational_launch_safe)
      unsafe_launch_semantics

unfoldable pub validate_execution_candidate :
    Hasher
    → ExecutionRequest
    → ResolvedAgent
    → BackendDescriptor
    → ExecutionOffer
    → Bool
    → ControllerSafetyFacts
    → Result CandidateRejection ExecutionCandidate
validate_execution_candidate hash request resolved descriptor offer backend_enabled safety = do
  check_identity hash request resolved descriptor offer backend_enabled
  check_capability request descriptor offer
  check_safety request descriptor offer safety
  each (check_resource descriptor offer) request.resource_requirements
  ok (record {
    agent = resolved.identity;
    request_digest = request_digest hash request;
    offer = offer;
    route_policy = resolved.route_policy;
    execution_profile_digest = request.execution_profile_digest;
  })
