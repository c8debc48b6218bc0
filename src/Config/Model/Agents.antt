-- ===== src/Config/Model/Agents.antt =====
-- crates/pantheon-core/src/config/model.rs: Agents, routing and authorization.
use pantheon.Base.{
  ℕ, Bool, ◌&&◌, List, [], ◌∷◌, map, Text, text, text_eq, ◌==◌, text_cmp, compare, Ordering,
}
use pantheon.Base.Int.{ℤ, pos}
use pantheon.Base.Order.{then, nat_ord, list_ord}
use pantheon.Base.Sort.{sort}
use pantheon.Base.SortBy.{sort_by}
use pantheon.Base.SortWith.{sort_with}
use pantheon.Config.Value.{Value, bool, integer, string, array_of, object_of}
use pantheon.Config.Digest.{Hasher, Digest, value_digest}
use pantheon.Config.Fields.{strings}

pub record LogicalAgentVersion : Type 0 where
  pub name : Text
  pub version : ℕ

-- `==` and `cmp` of the identity, field by field
unfoldable pub same_agent : LogicalAgentVersion → LogicalAgentVersion → Bool
same_agent a b = text_eq a.name b.name && a.version == b.version

unfoldable pub agent_cmp : LogicalAgentVersion → LogicalAgentVersion → Ordering
agent_cmp a b = then (text_cmp a.name b.name) (compare a.version b.version)

pub record Agent : Type 0 where
  pub name : Text
  pub version : ℕ
  pub enabled : Bool
  pub current : Bool
  pub accepts : List Text
  pub competencies : List Text
  pub route_policy : Text
  pub execution_features : List Text
  pub min_context_tokens : ℤ
  pub sandbox_profile : Text
  pub sandbox_requirements : List Text
  pub actions : List Text
  pub soul : Text
  pub behavior : Text

unfoldable pub identity : Agent → LogicalAgentVersion
identity a = record { name = a.name; version = a.version }

-- `sort_by_key(Agent::identity)`
unfoldable pub sorted_agents : List Agent → List Agent
unfolding agent_cmp identity
sorted_agents = sort_with (λ a b. agent_cmp (identity a) (identity b))

-- the texts of a set, in order
unfoldable pub set_strings : List Text → Value
set_strings l = strings (sort l)

unfoldable pub reference_value : LogicalAgentVersion → Value
reference_value r =
    object_of ((text "name", string r.name) ∷ (text "version", integer (pos r.version)) ∷ [])

unfoldable pub agent_references : List LogicalAgentVersion → Value
unfolding agent_cmp
agent_references l = array_of (map reference_value (sort_with agent_cmp l))

unfoldable pub agent_value : Agent → Value
agent_value a = object_of (
    (text "name", string a.name)
    ∷ (text "version", integer (pos a.version))
    ∷ (text "enabled", bool a.enabled)
    ∷ (text "current", bool a.current)
    ∷ (text "accepts", set_strings a.accepts)
    ∷ (text "competencies", set_strings a.competencies)
    ∷ (text "routePolicy", string a.route_policy)
    ∷ (text "executionFeatures", set_strings a.execution_features)
    ∷ (text "minContextTokens", integer a.min_context_tokens)
    ∷ (text "sandboxProfile", string a.sandbox_profile)
    ∷ (text "sandboxRequirements", set_strings a.sandbox_requirements)
    ∷ (text "actions", set_strings a.actions)
    ∷ (text "soul", string a.soul)
    ∷ (text "behavior", string a.behavior)
    ∷ [])

pub record AgentComponent : Type 0 where
  pub agents : List Agent

unfoldable pub agents_value : AgentComponent → Value
agents_value c =
    object_of ((text "agents", array_of (map agent_value (sorted_agents c.agents))) ∷ [])

pub record RoutePolicy : Type 0 where
  pub name : Text
  pub priority : ℤ
  pub ordering : List Text
  pub tie_break : Text
  pub requires_keyed_launch : Bool

unfoldable pub route_value : RoutePolicy → Value
route_value p = object_of (
    (text "name", string p.name)
    ∷ (text "priority", integer p.priority)
    ∷ (text "ordering", strings p.ordering)
    ∷ (text "tieBreak", string p.tie_break)
    ∷ (text "requiresKeyedLaunch", bool p.requires_keyed_launch)
    ∷ [])

unfoldable pub route_digest : Hasher → RoutePolicy → Digest
route_digest hash p = value_digest hash (route_value p)

pub record RoutingComponent : Type 0 where
  pub policies : List RoutePolicy
  pub agent_pins : List LogicalAgentVersion
  pub agent_exclusions : List LogicalAgentVersion

unfoldable pub routing_value : RoutingComponent → Value
routing_value c = object_of (
    (text "policies", array_of (map route_value (sort_by (λ p. p.name) c.policies)))
    ∷ (text "agentPins", agent_references c.agent_pins)
    ∷ (text "agentExclusions", agent_references c.agent_exclusions)
    ∷ [])

pub data RuleEffect : Type 0 where
  permit forbid : RuleEffect

unfoldable pub effect_as_str : RuleEffect → Text
effect_as_str permit = text "permit"
effect_as_str forbid = text "forbid"

pub record AuthorizationRule : Type 0 where
  pub action : Text
  pub effect : RuleEffect

pub record AuthorizationComponent : Type 0 where
  pub schema_version : ℕ
  pub rules : List AuthorizationRule

abbrev pub hard_policy_version : Text
hard_policy_version = text "pantheon-hard-policy-v1"

unfoldable pub rule_value : AuthorizationRule → Value
unfolding effect_as_str
rule_value r =
    object_of
      ((text "action", string r.action) ∷ (text "effect", string (effect_as_str r.effect)) ∷ [])

unfoldable pub authorization_value : AuthorizationComponent → Value
unfolding rule_value
authorization_value c = object_of (
    (text "schemaVersion", integer (pos c.schema_version))
    ∷ (text "hardPolicyVersion", string hard_policy_version)
    ∷ (text "rules", array_of (map rule_value c.rules))
    ∷ [])
