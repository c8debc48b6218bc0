-- ===== src/Artifact/Path/Rules.antt =====
-- Which byte strings `from_bytes` accepts.
use pantheon.Base.{
  ◌≤◌, ◌≡◌, ◌≢◌, refl, false, List, [], ◌∷◌, Text, text, ◌==◌, length, All, text_eq_iff, ok, ◌↔◌,
  arith, Bool-cases, inl, inr,
}
use pantheon.Artifact.Path.{
  split, check_component, check_components, starts_with_byte, contains_byte, from_bytes,
  max_path_bytes,
}

pub record IsComponent (c : Text) : Type 0 where
  pub not_empty : c ≢ []
  pub not_dot : c ≢ text "."
  pub not_dot_dot : c ≢ text ".."
  pub short : length c ≤ 255

pub record IsRepositoryPath (bytes : Text) : Type 0 where
  pub not_empty : bytes ≢ []
  pub short : length bytes ≤ max_path_bytes
  pub no_nul : All (λ b. b ≢ 0) bytes
  pub components : All IsComponent (split b'/' bytes)

check_component_iff : (c : Text) → (check_component c ≡ ok tt) ↔ IsComponent c
unfolding check_component
check_component_iff c =
    ground (arith, text_eq_iff c [], text_eq_iff c (text "."), text_eq_iff c (text ".."))

check_components_iff : (l : List Text) → (check_components l ≡ ok tt) ↔ All IsComponent l
unfolding check_components
check_components_iff [] = (λ _. tt, λ _. refl)
check_components_iff (c ∷ l) = ground (arith, check_component_iff c, check_components_iff l)

no_nul_iff : (t : Text) → (contains_byte 0 t ≡ false) ↔ All (λ b. b ≢ 0) t
no_nul_iff [] = (λ _. tt, λ _. refl)
no_nul_iff (b ∷ t) = ground (arith, no_nul_iff t)

-- an absolute path has an empty first component
relative_of_components :
    (t : Text) → All IsComponent (split b'/' t) → starts_with_byte b'/' t ≡ false
unfolding split
relative_of_components [] h = refl
relative_of_components (b ∷ t) h = elim (Bool-cases (b == b'/')) [
  | inl e ↦ absurd ((rw (e, All) at h).0.not_empty refl)
  | inr e ↦ e
]

-- A byte string is accepted, and kept as it is, exactly when it is not empty, has at most 4096
-- bytes and no NUL, and none of its components is empty, `.`, `..` or longer than 255 bytes.
pub from_bytes_iff :
    (bytes path : Text) → (from_bytes bytes ≡ ok path) ↔ ((path ≡ bytes) × IsRepositoryPath bytes)
unfolding from_bytes
from_bytes_iff bytes path =
    ground (
      arith,
      no_nul_iff bytes,
      relative_of_components bytes,
      check_components_iff (split b'/' bytes),
    )
