-- ===== src/Config/Compile/Routing.antt =====
-- crates/pantheon-core/src/config/compile.rs: `routing` and `agent_references`.
use pantheon.Base.{
  ℕ, ◌++◌, true, not, Option, none, some, List, [], Text, text, text_contains, Result, ok,
  refuse_if, ◌>>=◌, ◌>>◌,
}
use pantheon.Base.Accepts.{each}
use pantheon.Base.Int.{pos}
use pantheon.Config.Value.{Value, get}
use pantheon.Config.Error.{ConfigError, invalid_value, unknown_key, unknown_tie_break}
use pantheon.Config.Model.Agents.{LogicalAgentVersion, RoutePolicy, RoutingComponent}
use pantheon.Config.Reader.{
  as_array, field, indexed, non_empty, path, positive, read_entries, read_i64, read_str,
  string_list, unique,
}
use pantheon.Config.Compile.Policy.{
  agent_id, as_u32, optional_bool, optional_i64, route_preference_keys, route_tie_break_keys,
}

unfoldable pub check_key : Text → Text → Result ConfigError Unit
check_key at key =
    refuse_if (not (text_contains route_preference_keys key)) (invalid_value at (unknown_key key))

unfoldable pub policy_entry : ℕ → List Text → Value → Result ConfigError (RoutePolicy × List Text)
unfolding check_key
policy_entry index seen entry = do
  let prefix = indexed (text "routing.policies") index
  name ← read_str entry prefix (text "name")
  non_empty name (path prefix (text "name"))
  met ← unique seen (text "route policy") name
  priority ← optional_i64 entry prefix (text "priority") (pos 0)
  ordering ← string_list entry prefix (text "ordering")
  each (check_key (path prefix (text "ordering"))) ordering
  tie_break ← read_str entry prefix (text "tieBreak")
  non_empty tie_break (path prefix (text "tieBreak"))
  refuse_if (not (text_contains route_tie_break_keys tie_break))
      (invalid_value (path prefix (text "tieBreak")) (unknown_tie_break tie_break))
  keyed ← optional_bool entry prefix (text "requiresKeyedLaunch") true
  ok (
    record {
      name = name;
      priority = priority;
      ordering = ordering;
      tie_break = tie_break;
      requires_keyed_launch = keyed;
    },
    met,
  )

unfoldable pub reference_entry :
    Text → ℕ → List Text → Value → Result ConfigError (LogicalAgentVersion × List Text)
reference_entry key index seen entry = do
  let prefix = indexed (text "routing." ++ key) index
  name ← read_str entry prefix (text "name")
  non_empty name (path prefix (text "name"))
  stated ← read_i64 entry prefix (text "version")
  positive stated (path prefix (text "version"))
  version ← as_u32 stated (path prefix (text "version"))
  met ← unique seen (text "agent reference") (agent_id name (pos version))
  ok (record { name = name; version = version }, met)

-- the references of a key, none when it is absent
unfoldable pub read_references : Text → Option Value → Result ConfigError (List LogicalAgentVersion)
unfolding reference_entry
read_references key none = ok []
read_references key (some raw) = do
  entries ← as_array raw (path (text "routing") key)
  read_entries (reference_entry key) 0 [] entries

unfoldable pub agent_references : Value → Text → Result ConfigError (List LogicalAgentVersion)
unfolding read_references
agent_references value key = read_references key (get value key)

unfoldable pub routing : Value → Result ConfigError RoutingComponent
unfolding policy_entry agent_references
routing value = do
  stated ← field value (text "routing") (text "policies")
  entries ← as_array stated (text "routing.policies")
  policies ← read_entries policy_entry 0 [] entries
  pins ← agent_references value (text "agentPins")
  exclusions ← agent_references value (text "agentExclusions")
  ok (record { policies = policies; agent_pins = pins; agent_exclusions = exclusions })
