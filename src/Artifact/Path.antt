-- ===== src/Artifact/Path.antt =====
-- `RepositoryPath::from_bytes` of crates/pantheon-core/src/artifact.rs.
pub mod Split
pub mod Rules
use pantheon.Base.{
  ℕ, suc, ◌+◌, ◌≤◌, ◌≡◌, ◌≢◌, refl, Bool, true, false, ◌&&◌, ◌||◌, not, List, [], ◌∷◌, Text, text,
  ltb, leb, ◌==◌, if◌then◌else◌, length, All, all, all→All, All→all, is_nil, text_eq, text_eq_iff,
  Result, ok, err, ◌>>=◌, ◌>>◌, refuse_if, ◌↔◌, arith, Bool-cases, inl, inr,
}

-- a byte in front of the first component
unfoldable pub grow : ℕ → List Text → List Text
grow b [] = (b ∷ []) ∷ []
grow b (c ∷ l) = (b ∷ c) ∷ l

-- `bytes.split(|b| *b == sep)`: one component more than there are separators
unfoldable pub split : ℕ → Text → List Text
unfolding grow
split sep [] = [] ∷ []
split sep (b ∷ t) = let rest = split sep t in if b == sep then [] ∷ rest else grow b rest

pub data PathReason : Type 0 where
  is_empty too_long has_nul is_absolute empty_component is_dot is_dot_dot component_too_long :
      PathReason

abbrev pub max_path_bytes : ℕ
max_path_bytes = 4096

unfoldable pub check_component : Text → Result PathReason Unit
check_component c = do
  refuse_if (text_eq c []) empty_component
  refuse_if (text_eq c (text ".")) is_dot
  refuse_if (text_eq c (text "..")) is_dot_dot
  refuse_if (ltb 255 (length c)) component_too_long

unfoldable pub check_components : List Text → Result PathReason Unit
check_components [] = ok tt
check_components (c ∷ l) = do check_component c; check_components l

abbrev pub starts_with_byte : ℕ → Text → Bool
starts_with_byte b [] = false
starts_with_byte b (c ∷ _) = c == b

abbrev pub contains_byte : ℕ → Text → Bool
contains_byte b [] = false
contains_byte b (c ∷ t) = c == b || contains_byte b t

unfoldable pub from_bytes : Text → Result PathReason Text
from_bytes bytes = do
  refuse_if (is_nil bytes) is_empty
  refuse_if (ltb max_path_bytes (length bytes)) too_long
  refuse_if (contains_byte 0 bytes) has_nul
  refuse_if (starts_with_byte b'/' bytes) is_absolute
  check_components (split b'/' bytes)
  ok bytes
