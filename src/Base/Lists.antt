-- ===== src/Base/Lists.antt =====
-- Lists measured by native numbers, the iterator methods that the source uses, and predicates.
use Prim.Native.Nat.{ℕ, suc, ◌+◌}
use mathlib.Core.Path.{◌≡◌, refl}
use mathlib.Core.Bool.{Bool, true, false, ◌||◌, ◌&&◌}
use mathlib.Core.Logic.{◌⊎◌, inl, inr}
use mathlib.Core.Option.{Option, none, some}
use mathlib.Core.List.{List, [], ◌∷◌, ◌++◌}
use native.Mathlib.Omega.{arith}
use pantheon.Base.Tests.{if◌then◌else◌, Bool-cases}

module _ {ℓ} {A : Type ℓ} where
  abbrev pub length : List A → ℕ
  length [] = 0
  length (x ∷ xs) = suc (length xs)

  pub length-append : (xs ys : List A) → length (xs ++ ys) ≡ length xs + length ys
  length-append [] ys = omega arith
  length-append (x ∷ xs) ys = omega (arith, length-append xs ys)

  -- `is_empty`
  abbrev pub is_nil : List A → Bool
  is_nil [] = true
  is_nil (_ ∷ _) = false

  abbrev pub any : (A → Bool) → List A → Bool
  any p [] = false
  any p (x ∷ xs) = p x || any p xs

  abbrev pub all : (A → Bool) → List A → Bool
  all p [] = true
  all p (x ∷ xs) = p x && all p xs

  abbrev pub find? : (A → Bool) → List A → Option A
  find? p [] = none
  find? p (x ∷ xs) = if p x then some x else find? p xs

  -- `filter` by a test
  abbrev pub keep : (A → Bool) → List A → List A
  keep p [] = []
  keep p (x ∷ xs) = if p x then x ∷ keep p xs else keep p xs

  abbrev pub last? : List A → Option A
  last? [] = none
  last? (x ∷ []) = some x
  last? (_ ∷ y ∷ ys) = last? (y ∷ ys)

  abbrev pub All {κ} : (A → Type κ) → List A → Type κ
  All P [] = Unit
  All P (x ∷ xs) = P x × All P xs

  abbrev pub Any : (A → Type 0) → List A → Type 0
  Any P [] = ⊥
  Any P (x ∷ xs) = P x ⊎ Any P xs

  pub All-map {κ μ} :
      {P : A → Type κ} {Q : A → Type μ} (l : List A) → ((a : A) → P a → Q a) → All P l → All Q l
  All-map [] f h = tt
  All-map (x ∷ xs) f h = (f x h.0, All-map xs f h.1)

  pub all→All :
      {P : A → Type 0} (p : A → Bool) (l : List A)
      → ((a : A) → p a ≡ true → P a)
      → all p l ≡ true
      → All P l
  all→All p [] f h = tt
  all→All p (x ∷ xs) f h = (f x (ground arith), all→All p xs f (ground arith))

  pub All→all :
      {P : A → Type 0} (p : A → Bool) (l : List A)
      → ((a : A) → P a → p a ≡ true)
      → All P l
      → all p l ≡ true
  All→all p [] f h = refl
  All→all p (x ∷ xs) f h = ground (arith, f x h.0, All→all p xs f h.1)

  pub any→Any :
      {P : A → Type 0} (p : A → Bool) (l : List A)
      → ((a : A) → p a ≡ true → P a)
      → any p l ≡ true
      → Any P l
  any→Any p [] f h = cc
  any→Any p (x ∷ xs) f h = elim (Bool-cases (p x)) [
    | inl e ↦ inl (f x e)
    | inr e ↦ inr (any→Any p xs f (ground arith))
  ]

  pub Any→any :
      {P : A → Type 0} (p : A → Bool) (l : List A)
      → ((a : A) → P a → p a ≡ true)
      → Any P l
      → any p l ≡ true
  Any→any p [] f h = absurd h
  Any→any p (x ∷ xs) f (inl h) = ground (arith, f x h)
  Any→any p (x ∷ xs) f (inr h) = ground (arith, Any→any p xs f h)

-- the first hit of a list that grows at its end
pub find?-append {ℓ} :
    {A : Type ℓ} (p : A → Bool) (l : List A) (x : A)
    → any p l ≡ false
    → p x ≡ true
    → find? p (l ++ x ∷ []) ≡ some x
find?-append p [] x h e = ground arith
find?-append p (y ∷ l) x h e = ground (arith, find?-append p l x)
