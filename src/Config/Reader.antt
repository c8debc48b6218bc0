-- ===== src/Config/Reader.antt =====
-- crates/pantheon-core/src/config/reader.rs: the fields of a configuration document, with the path
-- that an error names.
use pantheon.Base.{
  ℕ, ◌+◌, Bool, not, List, [], ◌∷◌, ◌++◌, Text, text, text_contains, is_nil, if◌then◌else◌, Result,
  ok, err, ok_or, refuse_if, ◌>>=◌, ◌>>◌, collect,
}
use pantheon.Base.Int.{ℤ, pos, int_lt}
use pantheon.Config.Value.{Value, bool, integer, string, array, get}
use pantheon.Config.Canonical.{decimal}
use pantheon.Config.Fields.{kind, elements}
use pantheon.Config.Error.{
  ConfigError, missing_field, invalid_value, duplicate_identity, expected_kind, empty_text,
  not_positive,
}

unfoldable pub path : Text → Text → Text
path prefix key = if is_nil prefix then key else prefix ++ (b'.' ∷ key)

unfoldable pub field : Value → Text → Text → Result ConfigError Value
unfolding path
field value prefix key = ok_or (get value key) (missing_field (path prefix key))

unfoldable pub as_str : Value → Text → Result ConfigError Text
as_str (string t) path = ok t
as_str other path = err (invalid_value path (expected_kind (text "string") (kind other)))

unfoldable pub as_i64 : Value → Text → Result ConfigError ℤ
as_i64 (integer z) path = ok z
as_i64 other path = err (invalid_value path (expected_kind (text "integer") (kind other)))

unfoldable pub as_bool : Value → Text → Result ConfigError Bool
as_bool (bool b) path = ok b
as_bool other path = err (invalid_value path (expected_kind (text "boolean") (kind other)))

unfoldable pub as_array : Value → Text → Result ConfigError (List Value)
unfolding elements
as_array (array l) path = ok (elements l)
as_array other path = err (invalid_value path (expected_kind (text "array") (kind other)))

unfoldable pub string_list : Value → Text → Text → Result ConfigError (List Text)
unfolding field as_array as_str
string_list parent prefix key = do
  value ← field parent prefix key
  entries ← as_array value (path prefix key)
  collect (λ entry. as_str entry (path prefix key)) entries

unfoldable pub non_empty : Text → Text → Result ConfigError Unit
non_empty t path = refuse_if (is_nil t) (invalid_value path empty_text)

unfoldable pub positive : ℤ → Text → Result ConfigError Unit
positive number path =
    refuse_if (not (int_lt (pos 0) number)) (invalid_value path (not_positive number))

-- the identities that a list has met, with the new one
unfoldable pub unique : List Text → Text → Text → Result ConfigError (List Text)
unique seen kind id =
    refuse_if (text_contains seen id) (duplicate_identity kind id) >> ok (seen ++ id ∷ [])

-- `as_str(field(..)?, path(..))?` and its like
unfoldable pub read_str : Value → Text → Text → Result ConfigError Text
unfolding field as_str path
read_str value prefix key = do found ← field value prefix key; as_str found (path prefix key)

unfoldable pub read_i64 : Value → Text → Text → Result ConfigError ℤ
unfolding field as_i64 path
read_i64 value prefix key = do found ← field value prefix key; as_i64 found (path prefix key)

-- the loop over the entries of an array, with their positions and what the earlier ones left
unfoldable pub read_entries :
    {S A : Type 0}
    → (ℕ → S → Value → Result ConfigError (A × S))
    → ℕ
    → S
    → List Value
    → Result ConfigError (List A)
read_entries read i seen [] = ok []
read_entries read i seen (v ∷ l) = do
  r ← read i seen v
  rest ← read_entries read (1 + i) r.1 l
  ok (r.0 ∷ rest)

-- `format!("{name}[{index}]")`
unfoldable pub indexed : Text → ℕ → Text
indexed name i = name ++ (b'[' ∷ (decimal i ++ b']' ∷ []))
