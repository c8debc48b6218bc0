-- ===== src/Config/Compile/Policy.antt =====
-- crates/pantheon-core/src/config/compile.rs: the actions and keys that a configuration may name,
-- and the helpers of the component compilers.
use pantheon.Base.{
  ℕ, ◌+◌, ◌^◌, Bool, ◌&&◌, not, none, some, List, [], ◌∷◌, ◌++◌, Text, text, text_contains, is_nil,
  find?, ltb, leb, if◌then◌else◌, Result, ok, err, refuse_if, ◌>>=◌, ◌>>◌,
}
use pantheon.Base.Int.{ℤ, pos, negsuc}
use pantheon.Config.Value.{Value, Entries, object, end, entry, get}
use pantheon.Config.Canonical.{integer_text}
use pantheon.Config.Error.{
  ConfigError, invalid_value, no_values, too_long, unfit_version, unknown_field,
}
use pantheon.Config.Reader.{as_bool, as_i64, non_empty, path, read_str, unique}

abbrev pub actions : List Text
actions =
    text "filesystem.read"
    ∷ text "filesystem.write"
    ∷ text "filesystem.delete"
    ∷ text "shell.execute"
    ∷ text "process.spawn"
    ∷ text "artifact.read"
    ∷ text "artifact.seal"
    ∷ text "secret.read"
    ∷ text "secret.use"
    ∷ []

abbrev pub hard_denied_action : Text
hard_denied_action = text "secret.read"

abbrev pub route_preference_keys : List Text
route_preference_keys = text "contextCapacity" ∷ []

abbrev pub route_tie_break_keys : List Text
route_tie_break_keys = text "backendId" ∷ text "agentId" ∷ []

-- `u32::try_from`
unfoldable pub as_u32 : ℤ → Text → Result ConfigError ℕ
as_u32 (pos n) path = if ltb n (2 ^ 32) then ok n else err (invalid_value path unfit_version)
as_u32 (negsuc _) path = err (invalid_value path unfit_version)

-- `format!("{name}@{version}")`
unfoldable pub agent_id : Text → ℤ → Text
agent_id name version = name ++ (b'@' ∷ integer_text version)

-- `chars().count()`: the bytes that do not continue a character
unfoldable pub char_count : Text → ℕ
char_count [] = 0
char_count (b ∷ t) = let rest = char_count t in if leb 0x80 b && ltb b 0xc0 then rest else 1 + rest

abbrev pub max_guidance_chars : ℕ
max_guidance_chars = 8192

unfoldable pub guidance : Value → Text → Text → Result ConfigError Text
unfolding char_count
guidance source prefix key = do
  guide ← read_str source prefix key
  non_empty guide (path prefix key)
  refuse_if (ltb max_guidance_chars (char_count guide)) (invalid_value (path prefix key) too_long)
  ok guide

unfoldable pub optional_bool : Value → Text → Text → Bool → Result ConfigError Bool
optional_bool parent prefix key default = elim (get parent key) [
  | none ↦ ok default
  | some value ↦ as_bool value (path prefix key)
]

unfoldable pub optional_i64 : Value → Text → Text → ℤ → Result ConfigError ℤ
optional_i64 parent prefix key default = elim (get parent key) [
  | none ↦ ok default
  | some value ↦ as_i64 value (path prefix key)
]

unfoldable pub non_empty_list : List Text → Text → Result ConfigError Unit
non_empty_list values path = refuse_if (is_nil values) (invalid_value path no_values)

-- the loop of `unique_list`, from the values that it has met
unfoldable pub unique_from : List Text → Text → List Text → Result ConfigError Unit
unfolding unique
unique_from seen kind [] = ok tt
unique_from seen kind (value ∷ values) = do
  met ← unique seen kind value
  unique_from met kind values

unfoldable pub unique_list : List Text → Text → Result ConfigError Unit
unfolding unique_from
unique_list values kind = unique_from [] kind values

unfoldable pub keys : Entries → List Text
keys end = []
keys (entry k _ m) = k ∷ keys m

unfoldable pub reject_unknown_fields : Value → Text → List Text → Result ConfigError Unit
unfolding keys
reject_unknown_fields (object fields) prefix allowed =
    elim (find? (λ k. not (text_contains allowed k)) (keys fields)) [
      | none ↦ ok tt
      | some unknown ↦ err (invalid_value prefix (unknown_field unknown))
    ]
reject_unknown_fields _ prefix allowed = ok tt
