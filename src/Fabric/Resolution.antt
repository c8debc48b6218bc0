-- ===== src/Fabric/Resolution.antt =====
-- crates/pantheon-core/src/execution.rs: `resolve_agents` and `build_execution_request`.
pub mod Eligible
pub mod Partition
pub mod Wired
pub mod Causes
use pantheon.Base.{
  ℕ, Bool, true, false, ◌&&◌, ◌||◌, not, Option, none, some, List, [], ◌∷◌, Text, text, text_eq,
  text_contains, is_nil, any, find?, keep, if◌then◌else◌, Result, ok, err, refuse_if, ◌>>=◌, ◌>>◌,
}
use pantheon.Base.Int.{ℤ, int_lt}
use pantheon.Base.Order.{nat_ord, list_ord}
use pantheon.Base.Sort.{sort}
use pantheon.Base.SortWith.{dedup}
use pantheon.Config.Digest.{Hasher, Digest, digest_eq}
use pantheon.Config.Model.Agents.{
  LogicalAgentVersion, same_agent, Agent, identity, sorted_agents, RoutePolicy, route_digest,
  RuleEffect, permit, forbid, AuthorizationRule,
}
use pantheon.Config.Model.Execution.{SandboxProfile, profile_digest}
use pantheon.Config.Revision.{
  CompiledConfiguration, component_digests, revision_digest, same_components,
}
use pantheon.Planning.Task.{TaskSpec}
use pantheon.Planning.Task
use pantheon.Fabric.Request.{
  ConfigurationBinding, ExecutionRequest, LaunchSafety, keyed_required, observational_allowed,
}

pub record ResolvedAgent : Type 0 where
  pub identity : LogicalAgentVersion
  pub agent : Agent
  pub route_policy : RoutePolicy
  pub sandbox_profile : SandboxProfile

-- the texts that the details of the last two reasons are made of
pub data AgentRejectionReason : Type 0 where
  disabled not_current pinned_out excluded : AgentRejectionReason
  unsupported_task_type : Text → AgentRejectionReason
  missing_competencies : List Text → AgentRejectionReason
  forbidden_action forbidden_effect : Text → AgentRejectionReason
  future_activation : AgentRejectionReason
  unknown_route unknown_profile unsatisfied_profile : Text → AgentRejectionReason

pub record AgentRejection : Type 0 where
  pub agent : LogicalAgentVersion
  pub reason : AgentRejectionReason

pub record AgentResolution : Type 0 where
  pub eligible : List ResolvedAgent
  pub rejected : List AgentRejection

pub data AgentResolutionError : Type 0 where
  configuration_mismatch : Digest → Digest → AgentResolutionError
  no_eligible_agent : Text → List AgentRejection → AgentResolutionError

-- `sorted_difference` and `missing_strings`
unfoldable pub sorted_difference : List Text → List Text → List Text
sorted_difference required available =
    dedup (sort (keep (λ v. not (text_contains available v)) required))

unfoldable pub contains_agent : List LogicalAgentVersion → LogicalAgentVersion → Bool
unfolding same_agent
contains_agent l agent = any (λ a. same_agent a agent) l

unfoldable pub is_forbid : RuleEffect → Bool
is_forbid permit = false
is_forbid forbid = true

unfoldable pub forbids : List AuthorizationRule → Text → Bool
unfolding is_forbid
forbids rules action = any (λ r. text_eq r.action action && is_forbid r.effect) rules

-- the first action that a rule forbids, or else the first effect
unfoldable pub policy_incompatibility :
    TaskSpec → Agent → CompiledConfiguration → Option AgentRejectionReason
unfolding forbids
policy_incompatibility task agent configuration =
    let rules = configuration.authorization.rules in
    elim (find? (forbids rules) agent.actions) [
      | some action ↦ some (forbidden_action action)
      | none ↦ elim (find? (forbids rules) task.scope.permitted_effects) [
        | some effect ↦ some (forbidden_effect effect)
        | none ↦ none
      ]
    ]

-- the checks of one Agent before its route and profile are looked up
unfoldable pub refusal :
    TaskSpec → CompiledConfiguration → ConfigurationBinding → Agent → Option AgentRejectionReason
unfolding sorted_difference contains_agent policy_incompatibility
refusal task configuration binding agent =
    let pins = configuration.routing.agent_pins in
    let exclusions = configuration.routing.agent_exclusions in
    let missing = sorted_difference task.competencies agent.competencies in
    if not agent.enabled
    then some disabled
    else if not agent.current
    then some not_current
    else if not (any (λ accepted. text_eq accepted task.task_type) agent.accepts)
    then some (unsupported_task_type task.task_type)
    else if not (is_nil missing)
    then some (missing_competencies missing)
    else if not (is_nil pins) && not (contains_agent pins (identity agent))
    then some pinned_out
    else if contains_agent exclusions (identity agent)
    then some excluded
    else elim (policy_incompatibility task agent configuration) [
      | some reason ↦ some reason
      | none ↦
          if int_lt binding.activation_sequence task.acceptance.configuration_activation_sequence
          then some future_activation
          else none
    ]

-- one turn of the loop over the Agents
unfoldable pub resolve_agent :
    TaskSpec
    → CompiledConfiguration
    → ConfigurationBinding
    → Agent
    → Result AgentRejectionReason ResolvedAgent
unfolding refusal
resolve_agent task configuration binding agent = elim (refusal task configuration binding agent) [
  | some reason ↦ err reason
  | none ↦ elim (find? (λ p. text_eq p.name agent.route_policy) configuration.routing.policies) [
    | none ↦ err (unknown_route agent.route_policy)
    | some route ↦
        elim (find? (λ p. text_eq p.name agent.sandbox_profile) configuration.execution.profiles) [
          | none ↦ err (unknown_profile agent.sandbox_profile)
          | some profile ↦
              if any (λ r. not (text_contains profile.guarantees r)) agent.sandbox_requirements
              then err (unsatisfied_profile profile.name)
              else ok (record {
                identity = identity agent;
                agent = agent;
                route_policy = route;
                sandbox_profile = profile;
              })
        ]
  ]
]

-- what the outcome of an Agent adds to those of the Agents behind it
unfoldable pub decide :
    Agent → Result AgentRejectionReason ResolvedAgent → AgentResolution → AgentResolution
decide agent (ok r) rest = record { eligible = r ∷ rest.eligible; rejected = rest.rejected }
decide agent (err reason) rest = record {
  eligible = rest.eligible;
  rejected = record { agent = identity agent; reason = reason } ∷ rest.rejected;
}

unfoldable pub resolve_each :
    TaskSpec → CompiledConfiguration → ConfigurationBinding → List Agent → AgentResolution
unfolding resolve_agent decide
resolve_each task configuration binding [] = record { eligible = []; rejected = [] }
resolve_each task configuration binding (agent ∷ agents) =
    decide agent (resolve_agent task configuration binding agent)
      (resolve_each task configuration binding agents)

-- an error when no Agent is eligible
unfoldable pub conclude : Text → AgentResolution → Result AgentResolutionError AgentResolution
conclude task_type resolution =
    if is_nil resolution.eligible
    then err (no_eligible_agent task_type resolution.rejected)
    else ok resolution

-- the configuration is not the one that the binding names
unfoldable pub mismatched : Hasher → CompiledConfiguration → ConfigurationBinding → Bool
unfolding same_components
mismatched hash configuration binding =
    not (digest_eq (revision_digest hash configuration) binding.content_digest)
    || not (same_components (component_digests hash configuration) binding.component_digests)

unfoldable pub resolve_agents :
    Hasher
    → TaskSpec
    → CompiledConfiguration
    → ConfigurationBinding
    → Result AgentResolutionError AgentResolution
unfolding mismatched resolve_each conclude
resolve_agents hash task configuration binding = do
  refuse_if (mismatched hash configuration binding)
      (configuration_mismatch binding.content_digest (revision_digest hash configuration))
  conclude task.task_type
      (resolve_each task configuration binding (sorted_agents configuration.agents.agents))

pub data RequestBuildError : Type 0 where
  configuration_mismatch : RequestBuildError

unfoldable pub build_execution_request :
    Hasher
    → Text
    → TaskSpec
    → ResolvedAgent
    → CompiledConfiguration
    → ConfigurationBinding
    → Result RequestBuildError ExecutionRequest
unfolding mismatched
build_execution_request hash task_id task agent configuration binding = do
  refuse_if (mismatched hash configuration binding) RequestBuildError.configuration_mismatch
  ok (record {
    task_id = task_id;
    task_spec_digest = Task.digest hash task;
    task_type = task.task_type;
    task_competencies = sort task.competencies;
    agent = agent.identity;
    required_execution_features = sort agent.agent.execution_features;
    min_context_tokens = agent.agent.min_context_tokens;
    placement_constraints = [];
    isolation_requirements = sort agent.agent.sandbox_requirements;
    resource_requirements = [];
    required_actions = sort agent.agent.actions;
    configuration = binding;
    route_policy_digest = route_digest hash agent.route_policy;
    execution_profile_digest = binding.component_digests.execution_profile;
    sandbox_profile_digest = profile_digest hash agent.sandbox_profile;
    launch_safety =
        if agent.route_policy.requires_keyed_launch then keyed_required else observational_allowed;
  })
