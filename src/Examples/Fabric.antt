-- ===== src/Examples/Fabric.antt =====
-- The properties of the execution fabric at concrete inputs.
use pantheon.Base.{
  ◌≡◌, ◌≢◌, ◌↔◌, refl, true, false, List, [], ◌∷◌, map, Text, text, ok, err, All, Any,
}
use mathlib.Core.List.{Permᴰ}
use Prim.Native.Nat.Ordering.{gt}
use pantheon.Base.Accepts.{IsOk, IsOk-ok}
use pantheon.Base.Int.{pos}
use pantheon.Config.Digest.{Hasher, value_digest}
use pantheon.Config.Model.Agents.{identity, route_digest, same_agent, sorted_agents}
use pantheon.Config.Model.Execution.{profile_digest}
use pantheon.Config.Revision.{revision_digest}
use pantheon.Planning.Task.{TaskSpec}
use pantheon.Planning.Task
use pantheon.Fabric.Request.{
  ConfigurationBinding, ControllerSafetyFacts, BackendDescriptor, ExecutionRequest, ExecutionOffer,
  keyed_required, keyed_idempotent, descriptor_digest, request_digest, offer_digest, same_semantics,
}
use pantheon.Fabric.Resolution.{
  ResolvedAgent, AgentRejection, AgentResolution, no_eligible_agent, unsupported_task_type,
  resolve_agents, build_execution_request, sorted_difference,
}
use pantheon.Fabric.Resolution.Eligible.{IsEligible}
use pantheon.Fabric.Resolution.Partition.{decided, resolve_agents-IsEligible, resolve_agents-Perm}
use pantheon.Fabric.Resolution.Causes.{IsExplained, resolve_agents-no_eligible_agent}
use pantheon.Fabric.Resolution.Wired.{is_dangling, rejections, resolve_agents-compile}
use pantheon.Config.Canonical.{write_canonical}
use pantheon.Fabric.Candidate.{
  ExecutionCandidate, validate_execution_candidate, check_identity, check_capability, check_safety,
  check_missing, unproven, unsafe_launch,
}
use pantheon.Fabric.Candidate.Proven.{
  IsOffered, IsCapable, IsSafe, Supplies, validate_execution_candidate_iff,
}
use pantheon.Fabric.Selection.{compare_candidates, select_execution_candidate}
use pantheon.Fabric.Selection.Least.{select_execution_candidate-least}
use pantheon.Fabric.Launch.{IsLaunched, build_execution_request-IsLaunched}
use pantheon.Examples.{filled}
use pantheon.Examples.Configuration.{
  configuration, coder, main_policy, box, document, document_compiled,
}

abbrev hash : Hasher
hash t = filled 32

abbrev binding : ConfigurationBinding
binding = record {
  activation_sequence = pos 2;
  content_digest = filled 32;
  component_digests = record {
    agents = filled 32;
    routing = filled 32;
    execution_profile = filled 32;
    evaluator_registry = filled 32;
    context_policy = filled 32;
    authorization = filled 32;
  };
}

abbrev task_of : Text → TaskSpec
task_of task_type = record {
  task_type = task_type;
  objective = text "fix";
  inputs = [];
  outputs = [];
  competencies = text "edit" ∷ [];
  scope = record {
    resources = [];
    permitted_effects = text "filesystem.write" ∷ [];
    forbidden_effects = [];
  };
  acceptance = record {
    criteria = [];
    evaluator_registry_digest = filled 32;
    configuration_activation_sequence = pos 2;
  };
  goal_id = text "goal-1";
  goal_revision = pos 1;
}

abbrev task : TaskSpec
task = task_of (text "code.change")

abbrev resolved : ResolvedAgent
resolved = record {
  identity = record { name = text "coder"; version = 1 };
  agent = coder;
  route_policy = main_policy;
  sandbox_profile = box;
}

abbrev resolution : AgentResolution
resolution = record { eligible = resolved ∷ []; rejected = [] }

abbrev causes : List AgentRejection
causes =
    record {
      agent = record { name = text "coder"; version = 1 };
      reason = unsupported_task_type (text "code.review");
    }
    ∷ []

resolution_found : resolve_agents hash task configuration binding ≡ ok resolution
unfolding resolve_agents revision_digest value_digest sorted_agents
resolution_found = refl

none_found :
    resolve_agents hash (task_of (text "code.review")) configuration binding
    ≡ err (no_eligible_agent (text "code.review") causes)
unfolding resolve_agents revision_digest value_digest sorted_agents
none_found = refl

abbrev request : ExecutionRequest
request = record {
  task_id = text "task-1";
  task_spec_digest = filled 32;
  task_type = text "code.change";
  task_competencies = text "edit" ∷ [];
  agent = record { name = text "coder"; version = 1 };
  required_execution_features = text "tools" ∷ [];
  min_context_tokens = pos 8;
  placement_constraints = [];
  isolation_requirements = text "isolation.control-plane" ∷ [];
  resource_requirements = [];
  required_actions = text "shell.execute" ∷ [];
  configuration = binding;
  route_policy_digest = filled 32;
  execution_profile_digest = filled 32;
  sandbox_profile_digest = filled 32;
  launch_safety = keyed_required;
}

request_built :
    build_execution_request hash (text "task-1") task resolved configuration binding ≡ ok request
unfolding build_execution_request Task.digest revision_digest value_digest route_digest
    profile_digest
request_built = refl

abbrev safety : ControllerSafetyFacts
safety = record {
  isolation_guarantees = text "isolation.control-plane" ∷ [];
  observational_launch_safe = false;
}

abbrev descriptor : BackendDescriptor
descriptor = record {
  backend_id = text "local";
  revision = 3;
  available_for_offers = true;
  placement = [];
  supported_execution_features = text "tools" ∷ [];
  context_capacity_tokens = pos 16;
  isolation_facts = text "isolation.control-plane" ∷ [];
  resources = [];
  launch_semantics = keyed_idempotent;
}

abbrev offer : ExecutionOffer
offer = record {
  request_digest = filled 32;
  backend_id = text "local";
  descriptor_revision = 3;
  descriptor_digest = filled 32;
  supported_execution_features = text "tools" ∷ [];
  context_capacity_tokens = pos 16;
  placement = [];
  isolation_facts = text "isolation.control-plane" ∷ [];
  resources = [];
  launch_semantics = keyed_idempotent;
  offer_reference = text "offer-1";
}

abbrev the_candidate : ExecutionCandidate
the_candidate = record {
  agent = record { name = text "coder"; version = 1 };
  request_digest = filled 32;
  offer = offer;
  route_policy = main_policy;
  execution_profile_digest = filled 32;
}

-- the same with more context, which the policy prefers
abbrev roomy : ExecutionCandidate
roomy = record {
  agent = record { name = text "coder"; version = 1 };
  request_digest = filled 32;
  offer = record {
    request_digest = filled 32;
    backend_id = text "remote";
    descriptor_revision = 3;
    descriptor_digest = filled 32;
    supported_execution_features = text "tools" ∷ [];
    context_capacity_tokens = pos 32;
    placement = [];
    isolation_facts = text "isolation.control-plane" ∷ [];
    resources = [];
    launch_semantics = keyed_idempotent;
    offer_reference = text "offer-2";
  };
  route_policy = main_policy;
  execution_profile_digest = filled 32;
}

candidate_accepted :
    validate_execution_candidate hash request resolved descriptor offer true safety
    ≡ ok the_candidate
unfolding validate_execution_candidate check_identity check_capability check_safety check_missing
    unproven unsafe_launch sorted_difference same_semantics descriptor_digest value_digest
    request_digest same_agent route_digest
candidate_accepted = refl

selected : select_execution_candidate hash (the_candidate ∷ roomy ∷ []) ≡ ok roomy
unfolding select_execution_candidate compare_candidates offer_digest value_digest
selected = refl

resolve_agents-IsEligible_example :
    (resolution.eligible ≢ []) × All (IsEligible task configuration binding) resolution.eligible
resolve_agents-IsEligible_example =
    resolve_agents-IsEligible hash task configuration binding resolution resolution_found

resolve_agents-Perm_example : Permᴰ (decided resolution) (map identity configuration.agents.agents)
resolve_agents-Perm_example =
    resolve_agents-Perm hash task configuration binding resolution resolution_found

resolve_agents-no_eligible_agent_example :
    Permᴰ (map (λ x. x.agent) causes) (map identity configuration.agents.agents)
    × All
        (IsExplained
          (task_of (text "code.review"))
          configuration
          binding
          configuration.agents.agents)
        causes
resolve_agents-no_eligible_agent_example =
    resolve_agents-no_eligible_agent hash (task_of (text "code.review")) configuration binding
      (text "code.review") causes none_found

validate_execution_candidate_iff_example :
    IsOk (validate_execution_candidate hash request resolved descriptor offer true safety) ↔ (
      IsOffered hash request resolved descriptor offer true
      × (IsCapable request descriptor offer
          × (IsSafe request descriptor offer safety
              × All
                  (λ r. Supplies descriptor.resources r × Supplies offer.resources r)
                  request.resource_requirements)))
validate_execution_candidate_iff_example =
    validate_execution_candidate_iff hash request resolved descriptor offer true safety

select_execution_candidate-least_example :
    Any (λ c. c ≡ roomy) (the_candidate ∷ roomy ∷ [])
    × All (λ c. compare_candidates hash roomy c ≢ gt) (the_candidate ∷ roomy ∷ [])
select_execution_candidate-least_example =
    select_execution_candidate-least hash (λ name. main_policy) (the_candidate ∷ roomy ∷ []) roomy
      (refl, (refl, tt)) selected

build_execution_request-IsLaunched_example : IsLaunched resolved descriptor offer safety
build_execution_request-IsLaunched_example =
    build_execution_request-IsLaunched hash (text "task-1") task resolved configuration binding
      request descriptor offer true safety request_built (IsOk-ok the_candidate candidate_accepted)

resolve_agents-compile_example :
    All
      (λ (x : AgentRejection). is_dangling x.reason ≡ false)
      (rejections (resolve_agents hash (task_of (text "code.review")) configuration binding))
resolve_agents-compile_example =
    resolve_agents-compile hash (write_canonical document) configuration
      (task_of (text "code.review")) binding document_compiled
