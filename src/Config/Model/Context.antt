-- ===== src/Config/Model/Context.antt =====
-- crates/pantheon-core/src/config/model.rs: the context policy and its stored form.
use pantheon.Base.{
  ℕ, ◌^◌, ◌≡◌, ◌<◌, refl, Option, none, some, List, [], ◌∷◌, map, Text, text, ltb, arith,
  if◌then◌else◌, Result, ok, err, ok_or, ◌>>=◌, collect,
}
use pantheon.Base.Int.{ℤ, pos, negsuc}
use pantheon.Config.Value.{Value, integer, string, values, object_of, get}
use pantheon.Config.Fields.{
  DecodeError, malformed, found_non_string, kind, as_array, elements, entry_integer, strings,
  collect-map, elements-values,
}

pub record ContextComponent : Type 0 where
  pub schema_version : ℕ
  pub mandatory_sections : List Text
  pub preload_priority : List Text
  pub memory_limit_tokens : ℤ
  pub workspace_orientation_limit_tokens : ℤ
  pub safety_margin_tokens : ℤ
  pub optional_drop_order : List Text

unfoldable pub to_value : ContextComponent → Value
to_value c = object_of (
    (text "schemaVersion", integer (pos c.schema_version))
    ∷ (text "mandatorySections", strings c.mandatory_sections)
    ∷ (text "preloadPriority", strings c.preload_priority)
    ∷ (text "memoryLimitTokens", integer c.memory_limit_tokens)
    ∷ (text "workspaceOrientationLimitTokens", integer c.workspace_orientation_limit_tokens)
    ∷ (text "safetyMarginTokens", integer c.safety_margin_tokens)
    ∷ (text "optionalDropOrder", strings c.optional_drop_order)
    ∷ [])

-- `u32::try_from`
unfoldable pub as_u32 : ℤ → Option ℕ
as_u32 (pos n) = if ltb n (2 ^ 32) then some n else none
as_u32 (negsuc _) = none

unfoldable pub read_string : Text → Value → Result DecodeError Text
read_string name (string t) = ok t
read_string name other = err (found_non_string name (kind other))

unfoldable pub string_list : Value → Text → Result DecodeError (List Text)
unfolding as_array read_string
string_list value name = do
  entries ← ok_or (as_array (get value name)) (malformed name)
  collect (read_string name) entries

unfoldable pub from_canonical_value : Value → Result DecodeError ContextComponent
unfolding as_u32 string_list entry_integer
from_canonical_value value = do
  stated ← entry_integer value (text "schemaVersion")
  schema_version ← ok_or (as_u32 stated) (malformed (text "schemaVersion"))
  mandatory_sections ← string_list value (text "mandatorySections")
  preload_priority ← string_list value (text "preloadPriority")
  memory_limit_tokens ← entry_integer value (text "memoryLimitTokens")
  orientation_tokens ← entry_integer value (text "workspaceOrientationLimitTokens")
  safety_margin_tokens ← entry_integer value (text "safetyMarginTokens")
  optional_drop_order ← string_list value (text "optionalDropOrder")
  ok (record {
    schema_version = schema_version;
    mandatory_sections = mandatory_sections;
    preload_priority = preload_priority;
    memory_limit_tokens = memory_limit_tokens;
    workspace_orientation_limit_tokens = orientation_tokens;
    safety_margin_tokens = safety_margin_tokens;
    optional_drop_order = optional_drop_order;
  })

as_u32-pos : (n : ℕ) → n < 2 ^ 32 → as_u32 (pos n) ≡ some n
unfolding as_u32
as_u32-pos n h = ground arith

read_strings :
    (name : Text) (l : List Text)
    → collect (read_string name) (elements (values (map string l))) ≡ ok l
unfolding read_string
read_strings name l =
    rw (elements-values (map string l)) (collect-map string (read_string name) (λ t. refl) l)

-- A context policy whose schema version fits 32 bits is read back from its canonical value as it
-- was written.
pub from_canonical_value-to_value :
    (c : ContextComponent) → c.schema_version < 2 ^ 32 → from_canonical_value (to_value c) ≡ ok c
unfolding from_canonical_value to_value object_of strings get
from_canonical_value-to_value c h =
    rw
      (
        as_u32-pos c.schema_version h,
        read_strings (text "mandatorySections") c.mandatory_sections,
        read_strings (text "preloadPriority") c.preload_priority,
        read_strings (text "optionalDropOrder") c.optional_drop_order,
      )
      refl
