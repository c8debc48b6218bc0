-- ===== src/Base/Sort.antt =====
-- `slice::sort` as a stable insertion sort. The library promises the outcome alone, and for a total
-- order whose equal elements are the same there is one sorted rearrangement of a list.
use Prim.Native.Nat.{Ordering}
use Prim.Native.Nat.Ordering.{lt, eq, gt}
use mathlib.Core.Path.{◌≡◌, refl, sym, ap, subst, ◌∙◌}
use mathlib.Core.Logic.{◌≢◌, inl, inr}
use mathlib.Core.List.{List, [], ◌∷◌, map, Permᴰ}
use native.Mathlib.Omega.{arith}
use pantheon.Base.Order.{Ord}
use pantheon.Base.Lists.{All, Any}

module _ {A : Type 0} ⦃o : Ord A⦄ where
  abbrev pub insert : A → List A → List A
  insert x [] = x ∷ []
  insert x (y ∷ l) = elim (o.cmp x y) [ gt ↦ y ∷ insert x l | _ ↦ x ∷ y ∷ l ]

  abbrev pub sort : List A → List A
  sort [] = []
  sort (x ∷ l) = insert x (sort l)

  -- the head is before or at every later element
  abbrev pub IsSorted : List A → Type 0
  IsSorted [] = Unit
  IsSorted (x ∷ l) = All (λ y. o.cmp x y ≢ gt) l × IsSorted l

  -- the two places of an insertion at a list's head
  put : Ordering → A → A → List A → List A → List A
  put gt x y l m = y ∷ m
  put lt x y l m = x ∷ y ∷ l
  put eq x y l m = x ∷ y ∷ l

  perm_refl : (l : List A) → Permᴰ l l
  perm_refl [] = Permᴰ.nil
  perm_refl (x ∷ l) = Permᴰ.cons refl (perm_refl l)

  put-Perm :
      (c : Ordering) (x y : A) (l m : List A) → Permᴰ m (x ∷ l) → Permᴰ (put c x y l m) (x ∷ y ∷ l)
  unfolding put
  put-Perm gt x y l m p = Permᴰ.trans (Permᴰ.cons refl p) (Permᴰ.swap refl refl)
  put-Perm lt x y l m p = perm_refl (x ∷ y ∷ l)
  put-Perm eq x y l m p = perm_refl (x ∷ y ∷ l)

  insert-put : (x y : A) (l : List A) → insert x (y ∷ l) ≡ put (o.cmp x y) x y l (insert x l)
  unfolding put
  insert-put x y l = ground arith

  insert-Perm : (x : A) (l : List A) → Permᴰ (insert x l) (x ∷ l)
  insert-Perm x [] = perm_refl (x ∷ [])
  insert-Perm x (y ∷ l) =
      rw (insert-put x y l) (put-Perm (o.cmp x y) x y l (insert x l) (insert-Perm x l))

  pub sort-Perm : (l : List A) → Permᴰ (sort l) l
  sort-Perm [] = Permᴰ.nil
  sort-Perm (x ∷ l) = Permᴰ.trans (insert-Perm x (sort l)) (Permᴰ.cons refl (sort-Perm l))

  le_chain : (x y z : A) → o.cmp x y ≢ gt → o.cmp y z ≢ gt → o.cmp x z ≢ gt
  le_chain x y z p q = ground (arith, o.equal x y, o.equal y z, o.chain x y z, o.same x, p, q)

  All-chain :
      (x y : A) (l : List A)
      → o.cmp x y ≢ gt
      → All (λ z. o.cmp y z ≢ gt) l
      → All (λ z. o.cmp x z ≢ gt) l
  All-chain x y [] p h = tt
  All-chain x y (z ∷ l) p h = (le_chain x y z p h.0, All-chain x y l p h.1)

  put-All :
      (P : A → Type 0) (c : Ordering) (x y : A) (l m : List A)
      → P x
      → All P (y ∷ l)
      → All P m
      → All P (put c x y l m)
  unfolding put
  put-All P gt x y l m p h k = (h.0, k)
  put-All P lt x y l m p h k = (p, h)
  put-All P eq x y l m p h k = (p, h)

  insert-All : (P : A → Type 0) (x : A) (l : List A) → P x → All P l → All P (insert x l)
  insert-All P x [] p h = (p, tt)
  insert-All P x (y ∷ l) p h =
      rw (insert-put x y l) (put-All P (o.cmp x y) x y l (insert x l) p h (insert-All P x l p h.1))

  put-IsSorted :
      (c : Ordering) (x y : A) (l : List A)
      → o.cmp x y ≡ c
      → IsSorted (y ∷ l)
      → IsSorted (insert x l)
      → IsSorted (put c x y l (insert x l))
  unfolding put
  put-IsSorted gt x y l e h k =
      (insert-All (λ z. o.cmp y z ≢ gt) x l (ground (arith, o.flip_gt x y e)) h.0, k)
  put-IsSorted lt x y l e h k = ((ground (arith, e), All-chain x y l (ground (arith, e)) h.0), h)
  put-IsSorted eq x y l e h k = ((ground (arith, e), All-chain x y l (ground (arith, e)) h.0), h)

  insert-IsSorted : (x : A) (l : List A) → IsSorted l → IsSorted (insert x l)
  insert-IsSorted x [] h = (tt, tt)
  insert-IsSorted x (y ∷ l) h =
      rw (insert-put x y l) (put-IsSorted (o.cmp x y) x y l refl h (insert-IsSorted x l h.1))

  pub sort-IsSorted : (l : List A) → IsSorted (sort l)
  sort-IsSorted [] = tt
  sort-IsSorted (x ∷ l) = insert-IsSorted x (sort l) (sort-IsSorted l)

  insert-insert : (x y : A) (l : List A) → insert x (insert y l) ≡ insert y (insert x l)
  insert-insert x y [] =
      ground (
        arith,
        o.equal x y,
        o.equal y x,
        o.flip_lt x y,
        o.flip_gt x y,
        o.flip_lt y x,
        o.flip_gt y x,
      )
  insert-insert x y (z ∷ l) = ground (
    arith,
    o.equal x y,
    o.flip_lt x y,
    o.flip_gt x y,
    o.equal x z,
    o.flip_lt x z,
    o.flip_gt x z,
    o.equal y z,
    o.flip_lt y z,
    o.flip_gt y z,
    o.chain x z y,
    o.chain y z x,
    o.same x,
    o.same y,
    insert-insert x y l,
  )

  -- the outcome does not depend on the arrangement of the input
  pub sort-perm : {l m : List A} → Permᴰ l m → sort l ≡ sort m
  sort-perm Permᴰ.nil = refl
  sort-perm (Permᴰ.cons {a = a} {l₂ = m} e p) = rw (e, sort-perm p) refl
  sort-perm (Permᴰ.swap {a = a} {b = b} {l = l} e e') =
      rw (sym e, sym e') (insert-insert a b (sort l))
  sort-perm (Permᴰ.trans p q) = sort-perm p ∙ sort-perm q

module _ {A : Type 0} where
  pub All-perm : (P : A → Type 0) {l m : List A} → Permᴰ l m → All P l → All P m
  All-perm P Permᴰ.nil h = tt
  All-perm P (Permᴰ.cons e p) h = (subst P e h.0, All-perm P p h.1)
  All-perm P (Permᴰ.swap e e') h = (subst P e' h.1.0, (subst P e h.0, h.1.1))
  All-perm P (Permᴰ.trans p q) h = All-perm P q (All-perm P p h)

  pub Any-perm : (P : A → Type 0) {l m : List A} → Permᴰ l m → Any P l → Any P m
  Any-perm P Permᴰ.nil h = h
  Any-perm P (Permᴰ.cons e p) (inl h) = inl (subst P e h)
  Any-perm P (Permᴰ.cons e p) (inr h) = inr (Any-perm P p h)
  Any-perm P (Permᴰ.swap e e') (inl h) = inr (inl (subst P e h))
  Any-perm P (Permᴰ.swap e e') (inr (inl h)) = inl (subst P e' h)
  Any-perm P (Permᴰ.swap e e') (inr (inr h)) = inr (inr h)
  Any-perm P (Permᴰ.trans p q) h = Any-perm P q (Any-perm P p h)

  pub map-Perm : {B : Type 0} (f : A → B) {l m : List A} → Permᴰ l m → Permᴰ (map f l) (map f m)
  map-Perm f Permᴰ.nil = Permᴰ.nil
  map-Perm f (Permᴰ.cons e p) = Permᴰ.cons (ap f e) (map-Perm f p)
  map-Perm f (Permᴰ.swap e e') = Permᴰ.swap (ap f e) (ap f e')
  map-Perm f (Permᴰ.trans p q) = Permᴰ.trans (map-Perm f p) (map-Perm f q)
