-- ===== src/Config/Compile/Execution.antt =====
-- crates/pantheon-core/src/config/compile.rs: `execution` and `evaluators`.
use pantheon.Base.{
  ℕ, List, [], Text, text, text_eq, is_nil, if◌then◌else◌, Result, ok, err, refuse_if, ◌>>=◌, ◌>>◌,
}
use pantheon.Config.Value.{Value}
use pantheon.Config.Error.{
  ConfigError, invalid_value, unknown_class, unknown_network, unknown_evaluator_kind, no_executable,
}
use pantheon.Config.Model.Execution.{
  IsolationClass, trusted_host, container, NetworkMode, no_network, brokered, SandboxProfile,
  BackendRegistration, ExecutionComponent, EvaluatorKind, check, schema, EvaluatorVersion,
  EvaluatorRef, EvaluatorComponent,
}
use pantheon.Config.Reader.{
  as_array, as_bool, field, indexed, non_empty, path, positive, read_entries, read_i64, read_str,
  string_list, unique,
}
use pantheon.Config.Compile.Policy.{unique_list}

unfoldable pub read_class : Text → Text → Result ConfigError IsolationClass
read_class at t =
    if text_eq t (text "TRUSTED_HOST")
    then ok trusted_host
    else if text_eq t (text "CONTAINER")
    then ok container
    else err (invalid_value at (unknown_class t))

unfoldable pub read_network : Text → Text → Result ConfigError NetworkMode
read_network at t =
    if text_eq t (text "NONE")
    then ok no_network
    else if text_eq t (text "BROKERED")
    then ok brokered
    else err (invalid_value at (unknown_network t))

unfoldable pub read_kind : Text → Text → Result ConfigError EvaluatorKind
read_kind at t =
    if text_eq t (text "check")
    then ok check
    else if text_eq t (text "schema")
    then ok schema
    else err (invalid_value at (unknown_evaluator_kind t))

-- a text that is not empty
unfoldable pub named : Value → Text → Text → Result ConfigError Text
named entry prefix key = do
  value ← read_str entry prefix key
  non_empty value (path prefix key)
  ok value

unfoldable pub profile_entry :
    ℕ → List Text → Value → Result ConfigError (SandboxProfile × List Text)
unfolding named read_class read_network
profile_entry index seen entry = do
  let prefix = indexed (text "execution.profiles") index
  name ← named entry prefix (text "name")
  met ← unique seen (text "sandbox profile") name
  class_text ← read_str entry prefix (text "isolationClass")
  isolation_class ← read_class (path prefix (text "isolationClass")) class_text
  network_text ← read_str entry prefix (text "networkMode")
  network_mode ← read_network (path prefix (text "networkMode")) network_text
  environment ← named entry prefix (text "environmentIdentity")
  guarantees ← string_list entry prefix (text "guarantees")
  unique_list guarantees (text "sandbox guarantee")
  ok (
    record {
      name = name;
      isolation_class = isolation_class;
      guarantees = guarantees;
      network_mode = network_mode;
      environment_identity = environment;
    },
    met,
  )

unfoldable pub backend_entry :
    ℕ → List Text → Value → Result ConfigError (BackendRegistration × List Text)
unfolding named
backend_entry index seen entry = do
  let prefix = indexed (text "execution.backends") index
  backend_id ← named entry prefix (text "backendId")
  met ← unique seen (text "backend") backend_id
  selector ← named entry prefix (text "selector")
  stated ← field entry prefix (text "enabled")
  enabled ← as_bool stated (path prefix (text "enabled"))
  ok (record { backend_id = backend_id; enabled = enabled; selector = selector }, met)

unfoldable pub execution : Value → Result ConfigError ExecutionComponent
unfolding profile_entry backend_entry
execution value = do
  profile_source ← field value (text "execution") (text "profiles")
  profile_entries ← as_array profile_source (text "execution.profiles")
  profiles ← read_entries profile_entry 0 [] profile_entries
  backend_source ← field value (text "execution") (text "backends")
  backend_entries ← as_array backend_source (text "execution.backends")
  backends ← read_entries backend_entry 0 [] backend_entries
  ok (record { profiles = profiles; backends = backends })

unfoldable pub version_entry :
    ℕ → List Text → Value → Result ConfigError (EvaluatorVersion × List Text)
unfolding named read_kind
version_entry index seen entry = do
  let prefix = indexed (text "evaluators.versions") index
  id ← named entry prefix (text "id")
  met ← unique seen (text "evaluator version") id
  kind_text ← read_str entry prefix (text "kind")
  kind ← read_kind (path prefix (text "kind")) kind_text
  argv ← string_list entry prefix (text "argv")
  refuse_if (is_nil argv) (invalid_value (path prefix (text "argv")) no_executable)
  timeout_ms ← read_i64 entry prefix (text "timeoutMs")
  positive timeout_ms (path prefix (text "timeoutMs"))
  result_protocol ← named entry prefix (text "resultProtocol")
  sandbox_profile ← read_str entry prefix (text "sandboxProfile")
  ok (
    record {
      id = id;
      kind = kind;
      argv = argv;
      timeout_ms = timeout_ms;
      sandbox_profile = sandbox_profile;
      result_protocol = result_protocol;
    },
    met,
  )

unfoldable pub ref_entry : ℕ → List Text → Value → Result ConfigError (EvaluatorRef × List Text)
unfolding named
ref_entry index seen entry = do
  let prefix = indexed (text "evaluators.refs") index
  reference ← named entry prefix (text "ref")
  met ← unique seen (text "evaluator ref") reference
  current_version ← read_str entry prefix (text "currentVersion")
  ok (record { reference = reference; current_version = current_version }, met)

unfoldable pub evaluators : Value → Result ConfigError EvaluatorComponent
unfolding version_entry ref_entry
evaluators value = do
  version_source ← field value (text "evaluators") (text "versions")
  version_entries ← as_array version_source (text "evaluators.versions")
  versions ← read_entries version_entry 0 [] version_entries
  ref_source ← field value (text "evaluators") (text "refs")
  ref_entries ← as_array ref_source (text "evaluators.refs")
  refs ← read_entries ref_entry 0 [] ref_entries
  ok (record { refs = refs; versions = versions })
