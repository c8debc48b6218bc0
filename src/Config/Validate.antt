-- ===== src/Config/Validate.antt =====
-- crates/pantheon-core/src/config/validate.rs: the references between compiled components.
pub mod Wiring
pub mod Linked
use pantheon.Base.{
  ℕ, Bool, true, false, ◌&&◌, ◌||◌, not, Option, none, some, List, [], ◌∷◌, ◌++◌, Text, text,
  text_eq, text_contains, any, find?, if◌then◌else◌, Result, ok, err, ok_or, refuse_if, ◌>>=◌, ◌>>◌,
}
use pantheon.Base.Accepts.{each}
use pantheon.Config.Error.{
  ConfigError, duplicate_agent, unknown_agent, unknown_reference, incompatible_combination,
  several_current, missing_guarantee, not_isolating, not_guaranteed, pinned_and_excluded,
  mandatory_dropped,
}
use pantheon.Config.Model.Agents.{LogicalAgentVersion, same_agent, Agent, identity, RoutePolicy}
use pantheon.Config.Model.Execution.{
  SandboxProfile, can_isolate_control_plane, EvaluatorVersion, EvaluatorRef,
}
use pantheon.Config.Model.Context.{ContextComponent}
use pantheon.Config.Revision.{CompiledConfiguration}

abbrev pub control_plane_actions : List Text
control_plane_actions = text "shell.execute" ∷ text "process.spawn" ∷ []

abbrev pub control_plane_guarantee : Text
control_plane_guarantee = text "isolation.control-plane"

unfoldable pub declares : List LogicalAgentVersion → LogicalAgentVersion → Bool
unfolding same_agent
declares l agent = any (λ a. same_agent a agent) l

-- the profile of the name
unfoldable pub profile_of : CompiledConfiguration → Text → Option SandboxProfile
profile_of c name = find? (λ p. text_eq p.name name) c.execution.profiles

unfoldable pub check_guarantee : Agent → SandboxProfile → Text → Result ConfigError Unit
check_guarantee agent profile required =
    refuse_if (not (text_contains profile.guarantees required))
      (incompatible_combination (missing_guarantee agent.name required profile.name))

unfoldable pub check_isolation : Agent → SandboxProfile → Text → Result ConfigError Unit
check_isolation agent profile action = do
  refuse_if (not (can_isolate_control_plane profile.isolation_class))
      (incompatible_combination (not_isolating agent.name action profile.name))
  refuse_if (not (text_contains profile.guarantees control_plane_guarantee))
      (incompatible_combination (not_guaranteed agent.name action profile.name))

-- the check of the first action found, if there is one
unfoldable pub check_found :
    (Text → Result ConfigError Unit) → Option Text → Result ConfigError Unit
check_found check none = ok tt
check_found check (some action) = check action

-- an Agent with a control-plane action is isolated from the control plane
unfoldable pub check_control_plane : Agent → SandboxProfile → Result ConfigError Unit
unfolding check_isolation check_found
check_control_plane agent profile =
    check_found (check_isolation agent profile)
      (find? (text_contains control_plane_actions) agent.actions)

-- the first three rules, of one Agent
unfoldable pub check_wiring : CompiledConfiguration → Agent → Result ConfigError Unit
unfolding profile_of check_guarantee check_control_plane
check_wiring c agent = do
  refuse_if (not (any (λ p. text_eq p.name agent.route_policy) c.routing.policies))
      (unknown_reference agent.name (text "route policy") agent.route_policy)
  profile ←
      ok_or (profile_of c agent.sandbox_profile)
        (unknown_reference agent.name (text "sandbox profile") agent.sandbox_profile)
  each (check_guarantee agent profile) agent.sandbox_requirements
  check_control_plane agent profile

-- the loop over the Agents, with the identities and the current names that it has met
unfoldable pub check_agents :
    CompiledConfiguration
    → List LogicalAgentVersion
    → List Text
    → List Agent
    → Result ConfigError (List LogicalAgentVersion)
unfolding declares check_wiring
check_agents c declared names [] = ok declared
check_agents c declared names (agent ∷ agents) = do
  refuse_if (declares declared (identity agent)) (duplicate_agent (identity agent))
  refuse_if (agent.current && text_contains names agent.name)
      (incompatible_combination (several_current agent.name))
  check_wiring c agent
  check_agents c (declared ++ identity agent ∷ [])
      (if agent.current then names ++ agent.name ∷ [] else names) agents

unfoldable pub validate_agent_references :
    List LogicalAgentVersion → List LogicalAgentVersion → Result ConfigError Unit
unfolding declares
validate_agent_references declared references =
    each (λ r. refuse_if (not (declares declared r)) (unknown_agent r)) references

unfoldable pub check_pin : List LogicalAgentVersion → LogicalAgentVersion → Result ConfigError Unit
unfolding declares
check_pin exclusions pin =
    refuse_if (declares exclusions pin) (incompatible_combination (pinned_and_excluded pin))

unfoldable pub check_version : CompiledConfiguration → EvaluatorVersion → Result ConfigError Unit
check_version c version =
    refuse_if (not (any (λ p. text_eq p.name version.sandbox_profile) c.execution.profiles))
      (unknown_reference version.id (text "sandbox profile") version.sandbox_profile)

unfoldable pub check_ref : CompiledConfiguration → EvaluatorRef → Result ConfigError Unit
check_ref c reference =
    refuse_if (not (any (λ v. text_eq v.id reference.current_version) c.evaluators.versions))
      (unknown_reference reference.reference (text "evaluator version") reference.current_version)

unfoldable pub check_dropped : ContextComponent → Text → Result ConfigError Unit
check_dropped context section =
    refuse_if (text_contains context.mandatory_sections section)
      (incompatible_combination (mandatory_dropped section))

unfoldable pub check_preloaded : ContextComponent → Text → Result ConfigError Unit
check_preloaded context section =
    refuse_if
      (not (text_contains context.mandatory_sections section)
        && not (text_contains context.optional_drop_order section))
      (unknown_reference (text "context preload priority") (text "context section") section)

-- the rules after the loop over the Agents
unfoldable pub check_rest :
    CompiledConfiguration → List LogicalAgentVersion → Result ConfigError Unit
check_rest c declared = do
  validate_agent_references declared c.routing.agent_pins
  validate_agent_references declared c.routing.agent_exclusions
  each (check_pin c.routing.agent_exclusions) c.routing.agent_pins
  each (check_version c) c.evaluators.versions
  each (check_ref c) c.evaluators.refs
  each (check_dropped c.context) c.context.optional_drop_order
  each (check_preloaded c.context) c.context.preload_priority

unfoldable pub cross_references : CompiledConfiguration → Result ConfigError Unit
unfolding check_agents
cross_references c = do declared ← check_agents c [] [] c.agents.agents; check_rest c declared
