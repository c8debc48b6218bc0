-- ===== src/Base/Order.antt =====
-- `std::cmp::Ord` as an interface: a comparison with the laws of a total order.
use Prim.Native.Nat.{ℕ, compare, Ordering}
use Prim.Native.Nat.Ordering.{lt, eq, gt}
use mathlib.Core.Path.{◌≡◌, refl}
use mathlib.Core.List.{List, [], ◌∷◌}
use native.Mathlib.Omega.{arith}

pub record IsTotal {ℓ} {A : Type ℓ} (cmp : A → A → Ordering) : Type ℓ where
  pub same : (a : A) → cmp a a ≡ eq
  pub equal : (a b : A) → cmp a b ≡ eq → a ≡ b
  pub flip_lt : (a b : A) → cmp a b ≡ lt → cmp b a ≡ gt
  pub flip_gt : (a b : A) → cmp a b ≡ gt → cmp b a ≡ lt
  pub chain : (a b c : A) → cmp a b ≡ lt → cmp b c ≡ lt → cmp a c ≡ lt

pub record Ord {ℓ} (A : Type ℓ) : Type ℓ where
  pub cmp : A → A → Ordering
  pub total : IsTotal cmp
  pub open total use *

-- `Ordering::then`
abbrev pub then : Ordering → Ordering → Ordering
then eq b = b
then a _ = a

pub compare-IsTotal : IsTotal compare
compare-IsTotal = ground arith

instance abbrev pub nat_ord : Ord ℕ
nat_ord = record { cmp = compare; total = compare-IsTotal }

-- pairs, and so tuples nested to the right, compare lexicographically
module _ {ℓ κ} {A : Type ℓ} {B : Type κ} ⦃a : Ord A⦄ ⦃b : Ord B⦄ where
  abbrev pub pair_cmp : A × B → A × B → Ordering
  pair_cmp x y = then (a.cmp x.0 y.0) (b.cmp x.1 y.1)

  pub pair_cmp-IsTotal : IsTotal {A = A × B} pair_cmp
  pair_cmp-IsTotal = record {
    same = λ x. simp (a.same, b.same);
    equal = λ x y. ground (arith, a.equal x.0 y.0, b.equal x.1 y.1);
    flip_lt =
        λ x y. ground (arith, a.equal x.0 y.0, a.same x.0, a.flip_lt x.0 y.0, b.flip_lt x.1 y.1);
    flip_gt =
        λ x y. ground (arith, a.equal x.0 y.0, a.same x.0, a.flip_gt x.0 y.0, b.flip_gt x.1 y.1);
    chain = λ x y z. grind (arith, a.equal x.0 y.0, a.equal y.0 z.0, a.chain, b.chain);
  }

  instance abbrev pub pair_ord : Ord (A × B)
  pair_ord = record { cmp = pair_cmp; total = pair_cmp-IsTotal }

module _ {ℓ} {A : Type ℓ} ⦃a : Ord A⦄ where
  abbrev pub list_cmp : List A → List A → Ordering
  list_cmp [] [] = eq
  list_cmp [] (_ ∷ _) = lt
  list_cmp (_ ∷ _) [] = gt
  list_cmp (x ∷ xs) (y ∷ ys) = then (a.cmp x y) (list_cmp xs ys)

  list_cmp-same : (l : List A) → list_cmp l l ≡ eq
  list_cmp-same [] = refl
  list_cmp-same (x ∷ xs) = ground (arith, a.same x, list_cmp-same xs)

  list_cmp-equal : (l m : List A) → list_cmp l m ≡ eq → l ≡ m
  list_cmp-equal [] [] h = refl
  list_cmp-equal [] (_ ∷ _) h = cc
  list_cmp-equal (_ ∷ _) [] h = cc
  list_cmp-equal (x ∷ xs) (y ∷ ys) h = ground (arith, a.equal x y, list_cmp-equal xs ys)

  list_cmp-flip_lt : (l m : List A) → list_cmp l m ≡ lt → list_cmp m l ≡ gt
  list_cmp-flip_lt [] [] h = cc
  list_cmp-flip_lt [] (_ ∷ _) h = refl
  list_cmp-flip_lt (_ ∷ _) [] h = cc
  list_cmp-flip_lt (x ∷ xs) (y ∷ ys) h =
      ground (arith, a.equal x y, a.same x, a.flip_lt x y, list_cmp-flip_lt xs ys)

  list_cmp-flip_gt : (l m : List A) → list_cmp l m ≡ gt → list_cmp m l ≡ lt
  list_cmp-flip_gt [] [] h = cc
  list_cmp-flip_gt [] (_ ∷ _) h = cc
  list_cmp-flip_gt (_ ∷ _) [] h = refl
  list_cmp-flip_gt (x ∷ xs) (y ∷ ys) h =
      ground (arith, a.equal x y, a.same x, a.flip_gt x y, list_cmp-flip_gt xs ys)

  list_cmp-chain : (l m n : List A) → list_cmp l m ≡ lt → list_cmp m n ≡ lt → list_cmp l n ≡ lt
  list_cmp-chain [] [] _ h k = cc
  list_cmp-chain [] (_ ∷ _) [] h k = cc
  list_cmp-chain [] (_ ∷ _) (_ ∷ _) h k = refl
  list_cmp-chain (_ ∷ _) [] _ h k = cc
  list_cmp-chain (_ ∷ _) (_ ∷ _) [] h k = cc
  list_cmp-chain (x ∷ l) (y ∷ m) (z ∷ n) h k = ground (
    arith,
    a.equal x y,
    a.equal y z,
    a.equal x z,
    a.same x,
    a.same y,
    a.chain x y z,
    list_cmp-chain l m n,
  )

  pub list_cmp-IsTotal : IsTotal list_cmp
  list_cmp-IsTotal = record {
    same = list_cmp-same;
    equal = list_cmp-equal;
    flip_lt = list_cmp-flip_lt;
    flip_gt = list_cmp-flip_gt;
    chain = list_cmp-chain;
  }

  instance abbrev pub list_ord : Ord (List A)
  list_ord = record { cmp = list_cmp; total = list_cmp-IsTotal }
