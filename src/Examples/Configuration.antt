-- ===== src/Examples/Configuration.antt =====
-- Runs and witnesses on a small configuration document.
use pantheon.Base.{◌≡◌, refl, true, List, [], ◌∷◌, map, Text, text, ok, arith}
use pantheon.Base.Accepts.{IsOk-ok}
use pantheon.Base.Int.{pos}
use pantheon.Config.Value.{Value, string, integer, array_of, object_of, get, IsCanonical}
use pantheon.Config.Canonical.{write_canonical, integer_text}
use pantheon.Config.Roundtrip.Values.{parse-write_canonical}
use pantheon.Config.Revision.{CompiledConfiguration}
use pantheon.Config.Model.Agents.{Agent, RoutePolicy, forbid}
use pantheon.Config.Model.Execution.{
  SandboxProfile, container, no_network, can_isolate_control_plane,
}
use pantheon.Config.Model.Context.{from_canonical_value, from_canonical_value-to_value}
use pantheon.Config.Model.Context
use pantheon.Config.Reader.{
  as_array, field, indexed, non_empty, path, positive, read_entries, read_i64, read_str,
  string_list, unique,
}
use pantheon.Config.Validate.{
  cross_references, check_rest, validate_agent_references, check_dropped, check_preloaded,
}
use pantheon.Config.Validate.Linked.{IsLinked, cross_references-IsLinked}
use pantheon.Config.Compile.Policy.{
  reject_unknown_fields, agent_id, guidance, optional_bool, optional_i64, as_u32, unique_list,
  non_empty_list,
}
use pantheon.Config.Compile.Agents.{agents, agent_entry}
use pantheon.Config.Compile.Routing.{routing}
use pantheon.Config.Compile.Execution.{execution, evaluators}
use pantheon.Config.Compile.Context.{context, authorization}
use pantheon.Config.Compile.{components, compile}
use pantheon.Config.Compile.Compiled.{KeepsPolicy, compile-IsLinked}

abbrev texts : List Text → Value
texts l = array_of (map string l)

abbrev agent_source : Value
agent_source = object_of (
    (text "name", string (text "coder"))
    ∷ (text "version", integer (pos 1))
    ∷ (text "accepts", texts (text "code.change" ∷ []))
    ∷ (text "competencies", texts (text "edit" ∷ []))
    ∷ (text "routePolicy", string (text "main"))
    ∷ (text "executionFeatures", texts (text "tools" ∷ []))
    ∷ (text "minContextTokens", integer (pos 8))
    ∷ (text "sandboxProfile", string (text "box"))
    ∷ (text "sandboxRequirements", texts (text "isolation.control-plane" ∷ []))
    ∷ (text "actions", texts (text "shell.execute" ∷ []))
    ∷ (text "soul", string (text "s"))
    ∷ (text "behavior", string (text "b"))
    ∷ [])

abbrev routing_source : Value
routing_source = object_of (
    (
      text "policies",
      array_of (
          object_of (
            (text "name", string (text "main"))
            ∷ (text "ordering", texts (text "contextCapacity" ∷ []))
            ∷ (text "tieBreak", string (text "backendId"))
            ∷ [])
          ∷ []),
    )
    ∷ [])

abbrev execution_source : Value
execution_source = object_of (
    (
      text "profiles",
      array_of (
          object_of (
            (text "name", string (text "box"))
            ∷ (text "isolationClass", string (text "CONTAINER"))
            ∷ (text "networkMode", string (text "NONE"))
            ∷ (text "environmentIdentity", string (text "e"))
            ∷ (text "guarantees", texts (text "isolation.control-plane" ∷ []))
            ∷ [])
          ∷ []),
    )
    ∷ (text "backends", array_of [])
    ∷ [])

abbrev context_source : Value
context_source = object_of (
    (text "schemaVersion", integer (pos 1))
    ∷ (text "memoryLimitTokens", integer (pos 1))
    ∷ (text "workspaceOrientationLimitTokens", integer (pos 1))
    ∷ (text "safetyMarginTokens", integer (pos 1))
    ∷ (text "mandatorySections", texts (text "task" ∷ []))
    ∷ (text "preloadPriority", texts (text "task" ∷ []))
    ∷ (text "optionalDropOrder", texts [])
    ∷ [])

abbrev authorization_source : Value
authorization_source = object_of (
    (text "schemaVersion", integer (pos 1))
    ∷ (
      text "rules",
      array_of (
          object_of (
            (text "action", string (text "secret.read"))
            ∷ (text "effect", string (text "forbid"))
            ∷ [])
          ∷ []),
    )
    ∷ [])

abbrev pub document : Value
document = object_of (
    (text "agents", array_of (agent_source ∷ []))
    ∷ (text "routing", routing_source)
    ∷ (text "execution", execution_source)
    ∷ (
      text "evaluators",
      object_of ((text "versions", array_of []) ∷ (text "refs", array_of []) ∷ []),
    )
    ∷ (text "context", context_source)
    ∷ (text "authorization", authorization_source)
    ∷ [])

abbrev pub coder : Agent
coder = record {
  name = text "coder";
  version = 1;
  enabled = true;
  current = true;
  accepts = text "code.change" ∷ [];
  competencies = text "edit" ∷ [];
  route_policy = text "main";
  execution_features = text "tools" ∷ [];
  min_context_tokens = pos 8;
  sandbox_profile = text "box";
  sandbox_requirements = text "isolation.control-plane" ∷ [];
  actions = text "shell.execute" ∷ [];
  soul = text "s";
  behavior = text "b";
}

abbrev pub main_policy : RoutePolicy
main_policy = record {
  name = text "main";
  priority = pos 0;
  ordering = text "contextCapacity" ∷ [];
  tie_break = text "backendId";
  requires_keyed_launch = true;
}

abbrev pub box : SandboxProfile
box = record {
  name = text "box";
  isolation_class = container;
  guarantees = text "isolation.control-plane" ∷ [];
  network_mode = no_network;
  environment_identity = text "e";
}

abbrev pub configuration : CompiledConfiguration
configuration = record {
  agents = record { agents = coder ∷ [] };
  routing = record { policies = main_policy ∷ []; agent_pins = []; agent_exclusions = [] };
  execution = record { profiles = box ∷ []; backends = [] };
  evaluators = record { refs = []; versions = [] };
  context = record {
    schema_version = 1;
    mandatory_sections = text "task" ∷ [];
    preload_priority = text "task" ∷ [];
    memory_limit_tokens = pos 1;
    workspace_orientation_limit_tokens = pos 1;
    safety_margin_tokens = pos 1;
    optional_drop_order = [];
  };
  authorization = record {
    schema_version = 1;
    rules = record { action = text "secret.read"; effect = forbid } ∷ [];
  };
}

document-IsCanonical : IsCanonical document
unfolding object_of
document-IsCanonical = ground arith

agents_read : agents (array_of (agent_source ∷ [])) ≡ ok (record { agents = coder ∷ [] })
unfolding agents agent_entry as_array read_entries reject_unknown_fields read_str read_i64 non_empty
    positive unique agent_id integer_text object_of get guidance optional_bool as_u32 string_list
    unique_list non_empty_list
agents_read = refl

routing_read : routing routing_source ≡ ok configuration.routing
unfolding routing field as_array read_entries read_str non_empty unique optional_i64 string_list
    optional_bool get object_of
routing_read = refl

execution_read : execution execution_source ≡ ok configuration.execution
unfolding execution field as_array read_entries read_str non_empty unique string_list get object_of
    unique_list
execution_read = refl

context_read : context context_source ≡ ok configuration.context
unfolding context read_i64 positive as_u32 string_list get object_of path
context_read = refl

authorization_read : authorization authorization_source ≡ ok configuration.authorization
unfolding authorization field as_array read_entries read_str read_i64 positive as_u32 get object_of
    path indexed
authorization_read = refl

validated : cross_references configuration ≡ ok tt
unfolding cross_references check_rest validate_agent_references check_dropped check_preloaded
    can_isolate_control_plane
validated = refl

document_components : components document ≡ ok configuration
unfolding components object_of get evaluators field as_array read_entries
document_components =
    rw (agents_read, routing_read, execution_read, context_read, authorization_read) refl

pub document_compiled : compile (write_canonical document) ≡ ok configuration
unfolding compile
document_compiled =
    rw (parse-write_canonical document document-IsCanonical, document_components, validated) refl

cross_references-IsLinked_example : IsLinked configuration
cross_references-IsLinked_example = cross_references-IsLinked configuration (IsOk-ok tt validated)

compile-IsLinked_example : KeepsPolicy configuration × IsLinked configuration
compile-IsLinked_example =
    compile-IsLinked (write_canonical document) configuration document_compiled

from_canonical_value-to_value_example :
    from_canonical_value (Context.to_value configuration.context) ≡ ok configuration.context
from_canonical_value-to_value_example =
    from_canonical_value-to_value configuration.context (omega arith)
