-- ===== src/Planning/Task/Stored.antt =====
-- crates/pantheon-core/src/planning/task.rs, `from_canonical_json`: a stored Task specification.
use pantheon.Base.{
  ◌≡◌, refl, not, some, List, map, Text, text, text_eq, if◌then◌else◌, Result, ok, err, ok_or,
  refuse_if, ◌>>=◌, ◌>>◌, collect,
}
use pantheon.Base.Int.{IsInt64}
use pantheon.Config.Value.{Value, string, get, object_of, values}
use pantheon.Config.Canonical.{write_canonical}
use pantheon.Config.Parse.Grammar.{parse}
use pantheon.Config.Roundtrip.Values.{parse-write_canonical}
use pantheon.Config.Digest.{IsDigest, from_display, from_display-display}
use pantheon.Config.Fields.{
  DecodeError, missing, malformed, found_non_string, not_array, unknown_severity,
  unsupported_strategy, invalid_digest, readable, kind, as_string, as_bool, as_array, elements,
  entry_string, entry_integer, strings, collect-map, elements-values,
}
use pantheon.Planning.Task.{
  TaskInput, TaskOutput, Severity, required, advisory, severity_as_str, AcceptanceCriterion,
  AcceptanceContract, TaskSpec, input_value, output_value, criterion_value, acceptance_value,
  to_value, to_value-IsCanonical,
}

unfoldable pub read_input : Value → Result DecodeError TaskInput
read_input entry = do
  name ← ok_or (as_string (get entry (text "name"))) (malformed (text "input"))
  reference ← ok_or (as_string (get entry (text "ref"))) (malformed (text "input"))
  ok (record { name = name; reference = reference })

unfoldable pub read_output : Value → Result DecodeError TaskOutput
read_output entry = do
  name ← ok_or (as_string (get entry (text "name"))) (malformed (text "output"))
  kind ← ok_or (as_string (get entry (text "kind"))) (malformed (text "output"))
  is_required ← ok_or (as_bool (get entry (text "required"))) (malformed (text "output"))
  ok (record { name = name; kind = kind; required = is_required })

unfoldable pub read_string : Text → Value → Result DecodeError Text
read_string name (string t) = ok t
read_string name other = err (found_non_string name (kind other))

unfoldable pub string_list : Value → Text → Result DecodeError (List Text)
unfolding as_array read_string
string_list parent name = do
  entries ← ok_or (as_array (get parent name)) (malformed name)
  collect (read_string name) entries

unfoldable pub read_severity : Text → Result DecodeError Severity
read_severity t =
    if text_eq t (text "required")
    then ok required
    else if text_eq t (text "advisory")
    then ok advisory
    else err (unknown_severity t)

unfoldable pub read_criterion : Value → Result DecodeError AcceptanceCriterion
unfolding read_severity entry_string
read_criterion entry = do
  id ← entry_string entry (text "id")
  statement ← entry_string entry (text "statement")
  evaluator_ref ← entry_string entry (text "evaluatorRef")
  evaluator_version ← entry_string entry (text "evaluatorVersion")
  severity_text ← entry_string entry (text "severity")
  severity ← read_severity severity_text
  ok (record {
    id = id;
    statement = statement;
    evaluator_ref = evaluator_ref;
    evaluator_version = evaluator_version;
    severity = severity;
  })

unfoldable pub read_acceptance : Value → Result DecodeError AcceptanceContract
unfolding read_criterion as_array
read_acceptance acceptance = do
  criteria_value ← ok_or (get acceptance (text "criteria")) (missing (text "acceptance.criteria"))
  entries ← ok_or (as_array (some criteria_value)) (not_array (text "acceptance.criteria"))
  criteria ← collect read_criterion entries
  strategy ← entry_string acceptance (text "strategy")
  refuse_if (not (text_eq strategy (text "all"))) (unsupported_strategy strategy)
  digest_text ← entry_string acceptance (text "evaluatorRegistryDigest")
  registry ← ok_or (from_display digest_text) invalid_digest
  sequence ← entry_integer acceptance (text "configurationActivationSequence")
  ok (record {
    criteria = criteria;
    evaluator_registry_digest = registry;
    configuration_activation_sequence = sequence;
  })

-- what is read of the parsed text
unfoldable pub from_value : Value → Result DecodeError TaskSpec
unfolding read_input read_output read_acceptance string_list entry_string entry_integer
from_value value = do
  input_entries ← ok_or (as_array (get value (text "inputs"))) (malformed (text "inputs"))
  inputs ← collect read_input input_entries
  output_entries ← ok_or (as_array (get value (text "outputs"))) (malformed (text "outputs"))
  outputs ← collect read_output output_entries
  scope ← ok_or (get value (text "scope")) (missing (text "scope"))
  contract ← ok_or (get value (text "acceptance")) (missing (text "acceptance"))
  acceptance ← read_acceptance contract
  task_type ← entry_string value (text "type")
  objective ← entry_string value (text "objective")
  competencies ← string_list value (text "competencies")
  resources ← string_list scope (text "resources")
  permitted_effects ← string_list scope (text "permittedEffects")
  forbidden_effects ← string_list scope (text "forbiddenEffects")
  goal_id ← entry_string value (text "goalId")
  goal_revision ← entry_integer value (text "goalRevision")
  ok (record {
    task_type = task_type;
    objective = objective;
    inputs = inputs;
    outputs = outputs;
    competencies = competencies;
    scope = record {
      resources = resources;
      permitted_effects = permitted_effects;
      forbidden_effects = forbidden_effects;
    };
    acceptance = acceptance;
    goal_id = goal_id;
    goal_revision = goal_revision;
  })

unfoldable pub from_canonical_json : Text → Result DecodeError TaskSpec
unfolding readable from_value
from_canonical_json source = readable (parse source) >>= from_value

read_all :
    {A : Type 0} (write : A → Value) (read : Value → Result DecodeError A)
    → ((a : A) → read (write a) ≡ ok a)
    → (l : List A) → collect read (elements (values (map write l))) ≡ ok l
read_all write read back l = rw (elements-values (map write l)) (collect-map write read back l)

read_input-input_value : (i : TaskInput) → read_input (input_value i) ≡ ok i
unfolding read_input input_value object_of get as_string
read_input-input_value i = refl

read_output-output_value : (o : TaskOutput) → read_output (output_value o) ≡ ok o
unfolding read_output output_value object_of get as_string as_bool
read_output-output_value o = refl

read_severity-severity_as_str : (s : Severity) → read_severity (severity_as_str s) ≡ ok s
unfolding read_severity severity_as_str
read_severity-severity_as_str required = refl
read_severity-severity_as_str advisory = refl

read_criterion-criterion_value :
    (c : AcceptanceCriterion) → read_criterion (criterion_value c) ≡ ok c
unfolding read_criterion criterion_value object_of get
read_criterion-criterion_value c = rw (read_severity-severity_as_str c.severity) refl

read_strings :
    (name : Text) (l : List Text)
    → collect (read_string name) (elements (values (map string l))) ≡ ok l
unfolding read_string
read_strings name = read_all string (read_string name) (λ t. refl)

read_acceptance-acceptance_value :
    (a : AcceptanceContract)
    → IsDigest a.evaluator_registry_digest
    → read_acceptance (acceptance_value a) ≡ ok a
unfolding read_acceptance acceptance_value object_of get entry_string entry_integer
read_acceptance-acceptance_value a h =
    rw
      (
        read_all criterion_value read_criterion read_criterion-criterion_value a.criteria,
        from_display-display a.evaluator_registry_digest h,
      )
      refl

from_value-to_value :
    (t : TaskSpec)
    → IsDigest t.acceptance.evaluator_registry_digest
    → from_value (to_value t) ≡ ok t
unfolding from_value to_value object_of strings get as_string as_array
from_value-to_value t h =
    rw
      (
        read_all input_value read_input read_input-input_value t.inputs,
        read_all output_value read_output read_output-output_value t.outputs,
        read_acceptance-acceptance_value t.acceptance h,
        read_strings (text "competencies") t.competencies,
        read_strings (text "resources") t.scope.resources,
        read_strings (text "permittedEffects") t.scope.permitted_effects,
        read_strings (text "forbiddenEffects") t.scope.forbidden_effects,
      )
      refl

-- Reading the stored form of a Task specification returns the specification, its pinned evaluator
-- versions, registry digest and activation sequence included, when the registry digest is
-- thirty-two bytes and the two sequence numbers are 64-bit integers.
pub task_read-to_value :
    (t : TaskSpec)
    → IsInt64 t.goal_revision
    → IsInt64 t.acceptance.configuration_activation_sequence
    → IsDigest t.acceptance.evaluator_registry_digest
    → from_canonical_json (write_canonical (to_value t)) ≡ ok t
unfolding from_canonical_json
task_read-to_value t h k d =
    rw (parse-write_canonical (to_value t) (to_value-IsCanonical t h k)) (from_value-to_value t d)
