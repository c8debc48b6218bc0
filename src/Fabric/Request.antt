-- ===== src/Fabric/Request.antt =====
-- crates/pantheon-core/src/execution.rs: bindings, descriptors, requests and offers, and their
-- canonical values.
use pantheon.Base.{
  ℕ, Bool, true, false, ◌&&◌, ◌||◌, not, List, [], ◌∷◌, map, Text, text, text_eq, text_cmp, ◌==◌,
  Ordering,
}
use pantheon.Base.Int.{ℤ, int_eq, int_cmp}
use pantheon.Base.Order.{then, nat_ord, list_ord}
use pantheon.Base.Sort.{sort}
use pantheon.Base.SortWith.{sort_with, dedup}
use pantheon.Config.Value.{Value, bool, integer, string, array_of, object_of}
use pantheon.Config.Canonical.{decimal}
use pantheon.Config.Digest.{Hasher, Digest, value_digest, display, digest_eq}
use pantheon.Config.Fields
use pantheon.Config.Model.Agents.{LogicalAgentVersion, reference_value}
use pantheon.Config.Revision.{ComponentDigests, same_components, components_value}

pub record ConfigurationBinding : Type 0 where
  pub activation_sequence : ℤ
  pub content_digest : Digest
  pub component_digests : ComponentDigests

unfoldable pub matches : ConfigurationBinding → ConfigurationBinding → Bool
unfolding same_components
matches a b =
    int_eq a.activation_sequence b.activation_sequence
    && digest_eq a.content_digest b.content_digest
    && same_components a.component_digests b.component_digests

unfoldable pub binding_value : ConfigurationBinding → Value
binding_value b = object_of (
    (text "activationSequence", integer b.activation_sequence)
    ∷ (text "contentDigest", string (display b.content_digest))
    ∷ (text "componentDigests", components_value b.component_digests)
    ∷ [])

pub data LaunchSafety : Type 0 where
  keyed_required observational_allowed : LaunchSafety

pub data LaunchSemantics : Type 0 where
  keyed_idempotent observational : LaunchSemantics

unfoldable pub as_str : LaunchSemantics → Text
as_str keyed_idempotent = text "KEYED_IDEMPOTENT"
as_str observational = text "OBSERVATIONAL"

-- `==`
unfoldable pub same_semantics : LaunchSemantics → LaunchSemantics → Bool
same_semantics keyed_idempotent keyed_idempotent = true
same_semantics observational observational = true
same_semantics _ _ = false

pub record ControllerSafetyFacts : Type 0 where
  pub isolation_guarantees : List Text
  pub observational_launch_safe : Bool

pub record ResourceQuantity : Type 0 where
  pub name : Text
  pub quantity : ℤ

unfoldable pub quantity_cmp : ResourceQuantity → ResourceQuantity → Ordering
quantity_cmp a b = (then) (text_cmp a.name b.name) (int_cmp a.quantity b.quantity)

-- `strings`, which sorts and removes doubles, and `isolation_facts`
unfoldable pub strings : List Text → Value
strings l = Fields.strings (dedup (sort l))

unfoldable pub quantity_value : ResourceQuantity → Value
quantity_value r =
    object_of ((text "name", string r.name) ∷ (text "quantity", integer r.quantity) ∷ [])

unfoldable pub resources : List ResourceQuantity → Value
unfolding quantity_cmp quantity_value
resources l = array_of (map quantity_value (sort_with quantity_cmp l))

pub record BackendDescriptor : Type 0 where
  pub backend_id : Text
  pub revision : ℕ
  pub available_for_offers : Bool
  pub placement : List Text
  pub supported_execution_features : List Text
  pub context_capacity_tokens : ℤ
  pub isolation_facts : List Text
  pub resources : List ResourceQuantity
  pub launch_semantics : LaunchSemantics

unfoldable pub descriptor_value : BackendDescriptor → Value
unfolding strings resources as_str
descriptor_value d = object_of (
    (text "backendId", string d.backend_id)
    ∷ (text "revision", string (decimal d.revision))
    ∷ (text "availableForOffers", bool d.available_for_offers)
    ∷ (text "placement", strings d.placement)
    ∷ (text "supportedExecutionFeatures", strings d.supported_execution_features)
    ∷ (text "contextCapacityTokens", integer d.context_capacity_tokens)
    ∷ (text "isolationFacts", strings d.isolation_facts)
    ∷ (text "resources", resources d.resources)
    ∷ (text "launchSemantics", string (as_str d.launch_semantics))
    ∷ [])

unfoldable pub descriptor_digest : Hasher → BackendDescriptor → Digest
descriptor_digest hash d = value_digest hash (descriptor_value d)

pub record ExecutionRequest : Type 0 where
  pub task_id : Text
  pub task_spec_digest : Digest
  pub task_type : Text
  pub task_competencies : List Text
  pub agent : LogicalAgentVersion
  pub required_execution_features : List Text
  pub min_context_tokens : ℤ
  pub placement_constraints : List Text
  pub isolation_requirements : List Text
  pub resource_requirements : List ResourceQuantity
  pub required_actions : List Text
  pub configuration : ConfigurationBinding
  pub route_policy_digest : Digest
  pub execution_profile_digest : Digest
  pub sandbox_profile_digest : Digest
  pub launch_safety : LaunchSafety

unfoldable pub safety_text : LaunchSafety → Text
safety_text keyed_required = text "KEYED_REQUIRED"
safety_text observational_allowed = text "OBSERVATIONAL_ALLOWED"

unfoldable pub request_value : ExecutionRequest → Value
unfolding strings resources binding_value safety_text
request_value r = object_of (
    (text "taskId", string r.task_id)
    ∷ (text "taskSpecDigest", string (display r.task_spec_digest))
    ∷ (text "taskType", string r.task_type)
    ∷ (text "taskCompetencies", strings r.task_competencies)
    ∷ (text "agent", reference_value r.agent)
    ∷ (text "requiredExecutionFeatures", strings r.required_execution_features)
    ∷ (text "minContextTokens", integer r.min_context_tokens)
    ∷ (text "placementConstraints", strings r.placement_constraints)
    ∷ (text "isolationRequirements", strings r.isolation_requirements)
    ∷ (text "resourceRequirements", resources r.resource_requirements)
    ∷ (text "requiredActions", strings r.required_actions)
    ∷ (text "configuration", binding_value r.configuration)
    ∷ (text "routePolicyDigest", string (display r.route_policy_digest))
    ∷ (text "executionProfileDigest", string (display r.execution_profile_digest))
    ∷ (text "sandboxProfileDigest", string (display r.sandbox_profile_digest))
    ∷ (text "launchSafety", string (safety_text r.launch_safety))
    ∷ [])

unfoldable pub request_digest : Hasher → ExecutionRequest → Digest
request_digest hash r = value_digest hash (request_value r)

pub record ExecutionOffer : Type 0 where
  pub request_digest : Digest
  pub backend_id : Text
  pub descriptor_revision : ℕ
  pub descriptor_digest : Digest
  pub supported_execution_features : List Text
  pub context_capacity_tokens : ℤ
  pub placement : List Text
  pub isolation_facts : List Text
  pub resources : List ResourceQuantity
  pub launch_semantics : LaunchSemantics
  pub offer_reference : Text

unfoldable pub offer_value : ExecutionOffer → Value
unfolding strings resources as_str
offer_value o = object_of (
    (text "requestDigest", string (display o.request_digest))
    ∷ (text "backendId", string o.backend_id)
    ∷ (text "descriptorRevision", string (decimal o.descriptor_revision))
    ∷ (text "descriptorDigest", string (display o.descriptor_digest))
    ∷ (text "supportedExecutionFeatures", strings o.supported_execution_features)
    ∷ (text "contextCapacityTokens", integer o.context_capacity_tokens)
    ∷ (text "placement", strings o.placement)
    ∷ (text "isolationFacts", strings o.isolation_facts)
    ∷ (text "resources", resources o.resources)
    ∷ (text "launchSemantics", string (as_str o.launch_semantics))
    ∷ (text "offerReference", string o.offer_reference)
    ∷ [])

unfoldable pub offer_digest : Hasher → ExecutionOffer → Digest
offer_digest hash o = value_digest hash (offer_value o)

unfoldable pub is_stale_against : ExecutionOffer → BackendDescriptor → Bool
is_stale_against o d =
    not (text_eq o.backend_id d.backend_id) || not (o.descriptor_revision == d.revision)
