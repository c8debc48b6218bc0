-- ===== src/Config/Fields.antt =====
-- How the stored documents of crates/pantheon-core/src are read: the values of an array, the fields
-- of an object, and the messages of a refusal (`GoalDecodeError` and `TaskDecodeError` of planning/).
use pantheon.Base.{
  ◌≡◌, refl, ap, Bool, Option, none, some, List, [], ◌∷◌, map, Text, text, Result, ok, err, collect,
}
use pantheon.Base.Int.{ℤ}
use pantheon.Config.Value.{
  Value, Values, null, bool, integer, string, array, object, nil, cons, values, array_of, get,
  IsCanonical, AreCanonical,
}
use pantheon.Config.Parse.Scanner.{ParseError}

pub data DecodeError : Type 0 where
  unreadable : ParseError → DecodeError
  missing malformed not_strings not_array : Text → DecodeError
  not_string not_integer : Text → Text → DecodeError
  found_non_string : Text → Text → DecodeError
  unknown_severity unsupported_strategy : Text → DecodeError
  invalid_digest : DecodeError

-- `Value::kind`
unfoldable pub kind : Value → Text
kind null = text "null"
kind (bool _) = text "boolean"
kind (integer _) = text "integer"
kind (string _) = text "string"
kind (array _) = text "array"
kind (object _) = text "object"

-- `map_err` of `parse`
unfoldable pub readable : Result ParseError Value → Result DecodeError Value
readable (ok v) = ok v
readable (err e) = err (unreadable e)

-- the entries of a `Vec<Value>`
unfoldable pub elements : Values → List Value
elements nil = []
elements (cons v l) = v ∷ elements l

unfoldable pub as_string : Option Value → Option Text
as_string (some (string t)) = some t
as_string _ = none

unfoldable pub as_bool : Option Value → Option Bool
as_bool (some (bool b)) = some b
as_bool _ = none

unfoldable pub as_array : Option Value → Option (List Value)
unfolding elements
as_array (some (array l)) = some (elements l)
as_array _ = none

-- `strings`
unfoldable pub strings : List Text → Value
strings l = array_of (map string l)

unfoldable pub entry_string : Value → Text → Result DecodeError Text
entry_string value name = elim (get value name) [
  | some (string t) ↦ ok t
  | some other ↦ err (not_string name (kind other))
  | none ↦ err (missing name)
]

unfoldable pub entry_integer : Value → Text → Result DecodeError ℤ
entry_integer value name = elim (get value name) [
  | some (integer z) ↦ ok z
  | some other ↦ err (not_integer name (kind other))
  | none ↦ err (missing name)
]

pub elements-values : (l : List Value) → elements (values l) ≡ l
unfolding elements
elements-values [] = refl
elements-values (v ∷ l) = ap (λ k. v ∷ k) (elements-values l)

-- reading an array of written entries returns the entries
pub collect-map {ℓ} :
    {A : Type ℓ} {E : Type ℓ} {V : Type ℓ} (write : A → V) (read : V → Result E A)
    → ((a : A) → read (write a) ≡ ok a)
    → (l : List A) → collect read (map write l) ≡ ok l
collect-map write read back [] = refl
collect-map write read back (a ∷ l) = rw (back a, collect-map write read back l) refl

pub AreCanonical-values {ℓ} :
    {A : Type ℓ} (write : A → Value)
    → ((a : A) → IsCanonical (write a))
    → (l : List A) → AreCanonical (values (map write l))
AreCanonical-values write good [] = tt
AreCanonical-values write good (a ∷ l) = (good a, AreCanonical-values write good l)

pub strings-IsCanonical : (l : List Text) → IsCanonical (strings l)
unfolding strings
strings-IsCanonical l = AreCanonical-values string (λ _. tt) l
