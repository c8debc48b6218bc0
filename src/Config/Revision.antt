-- ===== src/Config/Revision.antt =====
-- crates/pantheon-core/src/config/revision.rs: the compiled configuration and its identity.
use pantheon.Base.{Bool, ◌&&◌, List, [], ◌∷◌, map, Text, text}
use pantheon.Base.SortBy.{sort_by}
use pantheon.Config.Value.{Value, string, array_of, object_of}
use pantheon.Config.Canonical.{write_canonical}
use pantheon.Config.Digest.{Hasher, Digest, value_digest, display, digest_eq}
use pantheon.Config.Model.Agents.{
  AgentComponent, RoutingComponent, AuthorizationComponent, agents_value, routing_value,
  authorization_value,
}
use pantheon.Config.Model.Execution.{
  ExecutionComponent, EvaluatorComponent, execution_value, evaluators_value,
}
use pantheon.Config.Model.Context.{ContextComponent}
use pantheon.Config.Model.Context

pub record ComponentDigests : Type 0 where
  pub agents : Digest
  pub routing : Digest
  pub execution_profile : Digest
  pub evaluator_registry : Digest
  pub context_policy : Digest
  pub authorization : Digest

-- `==`
unfoldable pub same_components : ComponentDigests → ComponentDigests → Bool
same_components a b =
    digest_eq a.agents b.agents
    && digest_eq a.routing b.routing
    && digest_eq a.execution_profile b.execution_profile
    && digest_eq a.evaluator_registry b.evaluator_registry
    && digest_eq a.context_policy b.context_policy
    && digest_eq a.authorization b.authorization

unfoldable pub components_value : ComponentDigests → Value
components_value d = object_of (
    (text "agents", string (display d.agents))
    ∷ (text "routing", string (display d.routing))
    ∷ (text "executionProfiles", string (display d.execution_profile))
    ∷ (text "evaluators", string (display d.evaluator_registry))
    ∷ (text "context", string (display d.context_policy))
    ∷ (text "authorization", string (display d.authorization))
    ∷ [])

unfoldable pub components_digest : Hasher → Text → ComponentDigests → Digest
unfolding components_value
components_digest hash compiler_version d = value_digest hash (
    object_of (
      (text "compilerVersion", string compiler_version)
      ∷ (text "components", components_value d)
      ∷ []))

abbrev pub compiler_version : Text
compiler_version = text "pantheon-config-v3"

pub record CompiledConfiguration : Type 0 where
  pub agents : AgentComponent
  pub routing : RoutingComponent
  pub execution : ExecutionComponent
  pub evaluators : EvaluatorComponent
  pub context : ContextComponent
  pub authorization : AuthorizationComponent

-- a component's domain, digest and canonical text
unfoldable pub component_record : Hasher → Text → Value → Text × Digest × Text
component_record hash domain value = (domain, value_digest hash value, write_canonical value)

unfoldable pub component_records : Hasher → CompiledConfiguration → List (Text × Digest × Text)
unfolding component_record
component_records hash c =
    component_record hash (text "agents") (agents_value c.agents)
    ∷ component_record hash (text "routing") (routing_value c.routing)
    ∷ component_record hash (text "executionProfiles") (execution_value c.execution)
    ∷ component_record hash (text "evaluators") (evaluators_value c.evaluators)
    ∷ component_record hash (text "context") (Context.to_value c.context)
    ∷ component_record hash (text "authorization") (authorization_value c.authorization)
    ∷ []

unfoldable pub component_digests : Hasher → CompiledConfiguration → ComponentDigests
component_digests hash c = record {
  agents = value_digest hash (agents_value c.agents);
  routing = value_digest hash (routing_value c.routing);
  execution_profile = value_digest hash (execution_value c.execution);
  evaluator_registry = value_digest hash (evaluators_value c.evaluators);
  context_policy = value_digest hash (Context.to_value c.context);
  authorization = value_digest hash (authorization_value c.authorization);
}

unfoldable pub revision_digest : Hasher → CompiledConfiguration → Digest
unfolding component_digests components_digest
revision_digest hash c = components_digest hash compiler_version (component_digests hash c)

unfoldable pub source_value : Hasher → Text × Text → Value
source_value hash (name, source) =
    object_of
      ((text "name", string name) ∷ (text "contentDigest", string (display (hash source))) ∷ [])

unfoldable pub source_set_digest : Hasher → List (Text × Text) → Digest
unfolding source_value
source_set_digest hash sources =
    value_digest hash (array_of (map (source_value hash) (sort_by (λ s. s.0) sources)))
