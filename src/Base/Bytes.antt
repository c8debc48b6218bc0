-- ===== src/Base/Bytes.antt =====
-- `String` and byte strings. A Rust `String` is its UTF-8 bytes, so both are lists of numbers:
-- `==`, `cmp`, `len`, `starts_with` and `split` of `str` are those of the bytes.
use Prim.Native.Nat.{ℕ, Ordering}
use Prim.Native.Char.{code}
use Prim.Native.String.{String}
use mathlib.Core.Path.{◌≡◌, refl}
use mathlib.Core.Bool.{Bool, true, false, ◌&&◌}
use mathlib.Core.Logic.{◌↔◌}
use mathlib.Core.Option.{Option, none, some}
use mathlib.Core.List.{List, [], ◌∷◌, ◌++◌}
use native.Mathlib.Omega.{arith}
use pantheon.Base.Tests.{◌==◌, if◌then◌else◌}
use pantheon.Base.Order.{IsTotal, list_cmp, list_cmp-IsTotal, nat_ord}

abbrev pub Text : Type 0
Text = List ℕ

-- an ASCII literal
abbrev pub text : String → Text
text String.[] = []
text (String.◌∷◌ c s) = code c ∷ text s

abbrev pub text_cmp : Text → Text → Ordering
text_cmp = list_cmp

abbrev pub text_eq : Text → Text → Bool
text_eq [] [] = true
text_eq [] (_ ∷ _) = false
text_eq (_ ∷ _) [] = false
text_eq (a ∷ s) (b ∷ t) = (a == b) && text_eq s t

text_eq→ : (s t : Text) → text_eq s t ≡ true → s ≡ t
text_eq→ [] [] h = refl
text_eq→ [] (_ ∷ _) h = cc
text_eq→ (_ ∷ _) [] h = cc
text_eq→ (a ∷ s) (b ∷ t) h = ground (arith, text_eq→ s t)

pub text_eq_refl : (s : Text) → text_eq s s ≡ true
text_eq_refl [] = refl
text_eq_refl (a ∷ s) = ground (arith, text_eq_refl s)

pub text_eq_iff : (s t : Text) → (text_eq s t ≡ true) ↔ (s ≡ t)
text_eq_iff s t = (text_eq→ s t, λ e. subst_eq e)
  where
    subst_eq : s ≡ t → text_eq s t ≡ true
    subst_eq e = rw e (text_eq_refl t)

-- `contains` of a `Vec<String>`
abbrev pub text_contains : List Text → Text → Bool
text_contains [] t = false
text_contains (s ∷ l) t = if text_eq s t then true else text_contains l t

-- `strip_prefix`
abbrev pub strip_prefix : Text → Text → Option Text
strip_prefix [] t = some t
strip_prefix (_ ∷ _) [] = none
strip_prefix (p ∷ ps) (c ∷ t) = if p == c then strip_prefix ps t else none

pub strip_prefix_append : (p t : Text) → strip_prefix p (p ++ t) ≡ some t
strip_prefix_append [] t = refl
strip_prefix_append (c ∷ p) t = ground (arith, strip_prefix_append p t)

pub strip_prefix_inv : (p t r : Text) → strip_prefix p t ≡ some r → t ≡ p ++ r
strip_prefix_inv [] t r h = ground arith
strip_prefix_inv (_ ∷ _) [] r h = cc
strip_prefix_inv (c ∷ p) (d ∷ t) r h = ground (arith, strip_prefix_inv p t r)

pub text_order : IsTotal text_cmp
text_order = list_cmp-IsTotal
