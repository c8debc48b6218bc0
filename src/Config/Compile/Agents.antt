-- ===== src/Config/Compile/Agents.antt =====
-- crates/pantheon-core/src/config/compile.rs: `agents`.
use pantheon.Base.{
  ℕ, true, not, List, [], ◌∷◌, Text, text, text_eq, text_contains, Result, ok, refuse_if, ◌>>=◌,
  ◌>>◌,
}
use pantheon.Base.Accepts.{each}
use pantheon.Config.Value.{Value}
use pantheon.Config.Error.{ConfigError, invalid_value, not_an_action, agent_declares_denied}
use pantheon.Config.Model.Agents.{Agent, AgentComponent}
use pantheon.Config.Reader.{
  as_array, indexed, non_empty, path, positive, read_entries, read_i64, read_str, string_list,
  unique,
}
use pantheon.Config.Compile.Policy.{
  actions, agent_id, as_u32, guidance, hard_denied_action, non_empty_list, optional_bool,
  reject_unknown_fields, unique_list,
}

abbrev pub agent_fields : List Text
agent_fields =
    text "name"
    ∷ text "version"
    ∷ text "enabled"
    ∷ text "current"
    ∷ text "accepts"
    ∷ text "competencies"
    ∷ text "routePolicy"
    ∷ text "executionFeatures"
    ∷ text "minContextTokens"
    ∷ text "sandboxProfile"
    ∷ text "sandboxRequirements"
    ∷ text "actions"
    ∷ text "soul"
    ∷ text "behavior"
    ∷ []

-- an action of an Agent
unfoldable pub check_action : Text → Text → Text → Result ConfigError Unit
check_action name at action = do
  refuse_if (not (text_contains actions action)) (invalid_value at (not_an_action action))
  refuse_if (text_eq action hard_denied_action) (agent_declares_denied name)

-- a list of texts without doubles
unfoldable pub unique_strings : Value → Text → Text → Text → Result ConfigError (List Text)
unique_strings entry prefix key kind = do
  values ← string_list entry prefix key
  unique_list values kind
  ok values

-- the same, with at least one text
unfoldable pub some_strings : Value → Text → Text → Text → Result ConfigError (List Text)
some_strings entry prefix key kind = do
  values ← string_list entry prefix key
  non_empty_list values (path prefix key)
  unique_list values kind
  ok values

-- the actions of an Agent
unfoldable pub agent_actions : Text → Value → Text → Result ConfigError (List Text)
unfolding check_action
agent_actions name entry prefix = do
  declared ← string_list entry prefix (text "actions")
  unique_list declared (text "agent action")
  each (check_action name (path prefix (text "actions"))) declared
  ok declared

-- one turn of the loop over the entries
unfoldable pub agent_entry : ℕ → List Text → Value → Result ConfigError (Agent × List Text)
unfolding agent_actions some_strings unique_strings
agent_entry index seen entry = do
  let prefix = indexed (text "agents") index
  reject_unknown_fields entry prefix agent_fields
  name ← read_str entry prefix (text "name")
  non_empty name (path prefix (text "name"))
  stated ← read_i64 entry prefix (text "version")
  positive stated (path prefix (text "version"))
  met ← unique seen (text "Agent version") (agent_id name stated)
  min_context_tokens ← read_i64 entry prefix (text "minContextTokens")
  positive min_context_tokens (path prefix (text "minContextTokens"))
  declared ← agent_actions name entry prefix
  accepts ← some_strings entry prefix (text "accepts") (text "accepts entry")
  competencies ← some_strings entry prefix (text "competencies") (text "competency")
  soul ← guidance entry prefix (text "soul")
  behavior ← guidance entry prefix (text "behavior")
  version ← as_u32 stated (path prefix (text "version"))
  enabled ← optional_bool entry prefix (text "enabled") true
  current ← optional_bool entry prefix (text "current") true
  route_policy ← read_str entry prefix (text "routePolicy")
  features ← unique_strings entry prefix (text "executionFeatures") (text "execution feature")
  sandbox_profile ← read_str entry prefix (text "sandboxProfile")
  requirements ←
      unique_strings entry prefix (text "sandboxRequirements") (text "sandbox requirement")
  ok (
    record {
      name = name;
      version = version;
      enabled = enabled;
      current = current;
      accepts = accepts;
      competencies = competencies;
      route_policy = route_policy;
      execution_features = features;
      min_context_tokens = min_context_tokens;
      sandbox_profile = sandbox_profile;
      sandbox_requirements = requirements;
      actions = declared;
      soul = soul;
      behavior = behavior;
    },
    met,
  )

unfoldable pub agents : Value → Result ConfigError AgentComponent
agents value = do
  entries ← as_array value (text "agents")
  read ← read_entries agent_entry 0 [] entries
  ok (record { agents = read })
