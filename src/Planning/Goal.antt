-- ===== src/Planning/Goal.antt =====
-- crates/pantheon-core/src/planning/goal.rs: a Goal revision and its stored form.
pub mod Phase
use pantheon.Base.{
  ◌≡◌, refl, Bool, true, false, not, Option, none, some, List, [], ◌∷◌, map, Text, text, text_eq,
  arith, if◌then◌else◌, Result, ok, err, ok_or, ◌>>=◌, collect, ap, sym, ◌∙◌,
}
use pantheon.Config.Value.{
  Value, bool, string, array, array_of, object_of, get, collect_entries, insert_entry, get_entry,
  values, IsCanonical,
}
use pantheon.Config.Canonical.{write_canonical}
use pantheon.Config.Parse.Grammar.{parse}
use pantheon.Config.Roundtrip.Values.{parse-write_canonical}
use pantheon.Config.Digest.{Hasher, Digest, value_digest}
use pantheon.Config.Fields.{
  DecodeError, missing, malformed, not_strings, not_string, readable, as_string, as_bool, as_array,
  elements, strings, collect-map, elements-values, AreCanonical-values, strings-IsCanonical,
}

pub record GoalInput : Type 0 where
  pub name : Text
  pub reference : Text

pub record Deliverable : Type 0 where
  pub name : Text
  pub kind : Text
  pub required : Bool

pub record GoalConstraints : Type 0 where
  pub permitted_effects : List Text
  pub forbidden_effects : List Text
  pub permitted_resources : List Text

pub record GoalSpec : Type 0 where
  pub objective : Text
  pub inputs : List GoalInput
  pub deliverables : List Deliverable
  pub constraints : GoalConstraints

unfoldable pub input_value : GoalInput → Value
input_value i = object_of ((text "name", string i.name) ∷ (text "ref", string i.reference) ∷ [])

unfoldable pub deliverable_value : Deliverable → Value
deliverable_value d = object_of (
    (text "name", string d.name)
    ∷ (text "kind", string d.kind)
    ∷ (text "required", bool d.required)
    ∷ [])

unfoldable pub constraints_value : GoalConstraints → Value
constraints_value c = object_of (
    (text "permittedEffects", strings c.permitted_effects)
    ∷ (text "forbiddenEffects", strings c.forbidden_effects)
    ∷ (text "permittedResources", strings c.permitted_resources)
    ∷ [])

unfoldable pub to_value : GoalSpec → Value
unfolding input_value deliverable_value constraints_value
to_value g = object_of (
    (text "objective", string g.objective)
    ∷ (text "inputs", array_of (map input_value g.inputs))
    ∷ (text "deliverables", array_of (map deliverable_value g.deliverables))
    ∷ (text "constraints", constraints_value g.constraints)
    ∷ [])

unfoldable pub digest : Hasher → GoalSpec → Digest
digest hash g = value_digest hash (to_value g)

unfoldable pub field : Value → Text → Result DecodeError Value
field value name = ok_or (get value name) (missing name)

unfoldable pub read_input : Value → Result DecodeError GoalInput
read_input entry = do
  name ← ok_or (as_string (get entry (text "name"))) (malformed (text "input"))
  reference ← ok_or (as_string (get entry (text "ref"))) (malformed (text "input"))
  ok (record { name = name; reference = reference })

unfoldable pub read_deliverable : Value → Result DecodeError Deliverable
read_deliverable entry = do
  name ← ok_or (as_string (get entry (text "name"))) (malformed (text "deliverable"))
  kind ← ok_or (as_string (get entry (text "kind"))) (malformed (text "deliverable"))
  required ← ok_or (as_bool (get entry (text "required"))) (malformed (text "deliverable"))
  ok (record { name = name; kind = kind; required = required })

-- `if let Value::Array(entries)`: a field of another kind leaves the list empty
unfoldable pub read_each :
    {A : Type 0} → (Value → Result DecodeError A) → Value → Result DecodeError (List A)
unfolding elements
read_each read (array entries) = collect read (elements entries)
read_each read _ = ok []

unfoldable pub read_string : Text → Value → Result DecodeError Text
read_string name (string t) = ok t
read_string name _ = err (not_strings name)

unfoldable pub list : Value → Text → Result DecodeError (List Text)
unfolding as_array read_string
list constraints name = do
  entries ← ok_or (as_array (get constraints name)) (missing name)
  collect (read_string name) entries

-- what is read of the parsed text
unfoldable pub from_value : Value → Result DecodeError GoalSpec
unfolding field read_input read_deliverable read_each list
from_value value = do
  stated ← field value (text "objective")
  objective ← ok_or (as_string (some stated)) (malformed (text "objective"))
  input_entries ← field value (text "inputs")
  inputs ← read_each read_input input_entries
  deliverable_entries ← field value (text "deliverables")
  deliverables ← read_each read_deliverable deliverable_entries
  constraints ← field value (text "constraints")
  permitted_effects ← list constraints (text "permittedEffects")
  forbidden_effects ← list constraints (text "forbiddenEffects")
  permitted_resources ← list constraints (text "permittedResources")
  ok (record {
    objective = objective;
    inputs = inputs;
    deliverables = deliverables;
    constraints = record {
      permitted_effects = permitted_effects;
      forbidden_effects = forbidden_effects;
      permitted_resources = permitted_resources;
    };
  })

unfoldable pub from_canonical_json : Text → Result DecodeError GoalSpec
unfolding readable from_value
from_canonical_json source = readable (parse source) >>= from_value

unfoldable pub required_deliverable_kinds : List Deliverable → List Text
required_deliverable_kinds [] = []
required_deliverable_kinds (d ∷ l) =
    let rest = required_deliverable_kinds l in if d.required then d.kind ∷ rest else rest

input_value-IsCanonical : (i : GoalInput) → IsCanonical (input_value i)
unfolding input_value object_of
input_value-IsCanonical i = search

deliverable_value-IsCanonical : (d : Deliverable) → IsCanonical (deliverable_value d)
unfolding deliverable_value object_of
deliverable_value-IsCanonical d = search

constraints_value-IsCanonical : (c : GoalConstraints) → IsCanonical (constraints_value c)
unfolding constraints_value object_of
constraints_value-IsCanonical c = search (strings-IsCanonical)

pub to_value-IsCanonical : (g : GoalSpec) → IsCanonical (to_value g)
unfolding to_value object_of
to_value-IsCanonical g = search (
  constraints_value-IsCanonical, AreCanonical-values, input_value-IsCanonical,
  deliverable_value-IsCanonical,
)

read_each-map :
    {A : Type 0} (write : A → Value) (read : Value → Result DecodeError A)
    → ((a : A) → read (write a) ≡ ok a)
    → (l : List A) → read_each read (array_of (map write l)) ≡ ok l
unfolding read_each
read_each-map write read back l = rw (elements-values (map write l)) (collect-map write read back l)

read_input-input_value : (i : GoalInput) → read_input (input_value i) ≡ ok i
unfolding read_input input_value object_of get as_string
read_input-input_value i = refl

read_deliverable-deliverable_value :
    (d : Deliverable) → read_deliverable (deliverable_value d) ≡ ok d
unfolding read_deliverable deliverable_value object_of get as_string as_bool
read_deliverable-deliverable_value d = refl

read_strings :
    (name : Text) (l : List Text)
    → collect (read_string name) (elements (values (map string l))) ≡ ok l
unfolding read_string
read_strings name l =
    rw (elements-values (map string l)) (collect-map string (read_string name) (λ t. refl) l)

from_value-to_value : (g : GoalSpec) → from_value (to_value g) ≡ ok g
unfolding from_value to_value object_of strings get as_string as_array
from_value-to_value g =
    rw
      (
        read_each-map input_value read_input read_input-input_value g.inputs,
        read_each-map deliverable_value read_deliverable read_deliverable-deliverable_value
            g.deliverables,
        read_strings (text "permittedEffects") g.constraints.permitted_effects,
        read_strings (text "forbiddenEffects") g.constraints.forbidden_effects,
        read_strings (text "permittedResources") g.constraints.permitted_resources,
      )
      refl

-- Reading the stored canonical form of a Goal revision returns the revision, so the objective, the
-- deliverables and the ceilings that validation uses are those that were stored.
pub goal_read-to_value : (g : GoalSpec) → from_canonical_json (write_canonical (to_value g)) ≡ ok g
unfolding from_canonical_json
goal_read-to_value g =
    rw (parse-write_canonical (to_value g) (to_value-IsCanonical g)) (from_value-to_value g)
