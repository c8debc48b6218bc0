-- ===== src/Base/SortBy.antt =====
-- `slice::sort_by` on a text key, stable: of two elements with one key the earlier stays in front.
use Prim.Native.Nat.{Ordering}
use Prim.Native.Nat.Ordering.{lt, eq, gt}
use mathlib.Core.Path.{◌≡◌, refl, sym, subst, ◌∙◌}
use mathlib.Core.Logic.{◌≢◌}
use mathlib.Core.List.{List, [], ◌∷◌, Permᴰ}
use native.Mathlib.Omega.{arith}
use pantheon.Base.Lists.{All}
use pantheon.Base.Bytes.{Text, text_cmp, text_order}
use pantheon.Base.Sort.{All-perm}

module _ {A : Type 0} (key : A → Text) where
  abbrev pub insert_by : A → List A → List A
  insert_by x [] = x ∷ []
  insert_by x (y ∷ l) = elim (text_cmp (key x) (key y)) [ gt ↦ y ∷ insert_by x l | _ ↦ x ∷ y ∷ l ]

  abbrev pub sort_by : List A → List A
  sort_by [] = []
  sort_by (x ∷ l) = insert_by x (sort_by l)

  -- no two elements have one key
  abbrev pub IsDistinct : List A → Type 0
  IsDistinct [] = Unit
  IsDistinct (x ∷ l) = All (λ y. key x ≢ key y) l × IsDistinct l

  insert_by-insert_by :
      (x y : A) (l : List A)
      → key x ≢ key y
      → insert_by x (insert_by y l) ≡ insert_by y (insert_by x l)
  insert_by-insert_by x y [] d = ground (
    arith,
    text_order.equal (key x) (key y),
    text_order.flip_lt (key x) (key y),
    text_order.flip_gt (key x) (key y),
    d,
  )
  insert_by-insert_by x y (z ∷ l) d = ground (
    arith,
    text_order.equal (key x) (key y),
    text_order.flip_lt (key x) (key y),
    text_order.flip_gt (key x) (key y),
    d,
    text_order.equal (key x) (key z),
    text_order.flip_lt (key x) (key z),
    text_order.flip_gt (key x) (key z),
    text_order.equal (key y) (key z),
    text_order.flip_lt (key y) (key z),
    text_order.flip_gt (key y) (key z),
    text_order.chain (key x) (key z) (key y),
    text_order.chain (key y) (key z) (key x),
    insert_by-insert_by x y l d,
  )

  -- distinct keys stay distinct
  pub IsDistinct-perm : {l m : List A} → Permᴰ l m → IsDistinct l → IsDistinct m
  IsDistinct-perm Permᴰ.nil h = tt
  IsDistinct-perm (Permᴰ.cons {l₂ = m} e p) h =
      (subst (λ a. All (λ y. key a ≢ key y) m) e (All-perm _ p h.0), IsDistinct-perm p h.1)
  IsDistinct-perm (Permᴰ.swap {a = a} {b = b} {b' = b'} {l = l} e e') h =
      subst (λ c. IsDistinct (c ∷ b' ∷ l)) e'
        (subst (λ c. IsDistinct (b ∷ c ∷ l)) e (((λ q. h.0.0 (sym q)), h.1.0), (h.0.1, h.1.1)))
  IsDistinct-perm (Permᴰ.trans p q) h = IsDistinct-perm q (IsDistinct-perm p h)

  -- with distinct keys the outcome does not depend on the arrangement of the input
  pub sort_by-perm : {l m : List A} → Permᴰ l m → IsDistinct l → sort_by l ≡ sort_by m
  sort_by-perm Permᴰ.nil h = refl
  sort_by-perm (Permᴰ.cons e p) h = rw (e, sort_by-perm p h.1) refl
  sort_by-perm (Permᴰ.swap {a = a} {b = b} {l = l} e e') h =
      rw (sym e, sym e') (insert_by-insert_by a b (sort_by l) h.0.0)
  sort_by-perm (Permᴰ.trans p q) h = sort_by-perm p h ∙ sort_by-perm q (IsDistinct-perm p h)

  -- the two places of an insertion at a list's head
  place : Ordering → A → A → List A → List A → List A
  place gt x y l m = y ∷ m
  place lt x y l m = x ∷ y ∷ l
  place eq x y l m = x ∷ y ∷ l

  insert_by-place :
      (x y : A) (l : List A)
      → insert_by x (y ∷ l) ≡ place (text_cmp (key x) (key y)) x y l (insert_by x l)
  unfolding place
  insert_by-place x y l = ground arith

  same_list : (l : List A) → Permᴰ l l
  same_list [] = Permᴰ.nil
  same_list (x ∷ l) = Permᴰ.cons refl (same_list l)

  place-Perm :
      (c : Ordering) (x y : A) (l m : List A)
      → Permᴰ m (x ∷ l)
      → Permᴰ (place c x y l m) (x ∷ y ∷ l)
  unfolding place
  place-Perm gt x y l m p = Permᴰ.trans (Permᴰ.cons refl p) (Permᴰ.swap refl refl)
  place-Perm lt x y l m p = same_list (x ∷ y ∷ l)
  place-Perm eq x y l m p = same_list (x ∷ y ∷ l)

  insert_by-Perm : (x : A) (l : List A) → Permᴰ (insert_by x l) (x ∷ l)
  insert_by-Perm x [] = same_list (x ∷ [])
  insert_by-Perm x (y ∷ l) =
      rw (insert_by-place x y l)
        (place-Perm (text_cmp (key x) (key y)) x y l (insert_by x l) (insert_by-Perm x l))

  pub sort_by-Perm : (l : List A) → Permᴰ (sort_by l) l
  sort_by-Perm [] = Permᴰ.nil
  sort_by-Perm (x ∷ l) =
      Permᴰ.trans (insert_by-Perm x (sort_by l)) (Permᴰ.cons refl (sort_by-Perm l))

  pub perm_sym : {l m : List A} → Permᴰ l m → Permᴰ m l
  perm_sym Permᴰ.nil = Permᴰ.nil
  perm_sym (Permᴰ.cons e p) = Permᴰ.cons (sym e) (perm_sym p)
  perm_sym (Permᴰ.swap e e') = Permᴰ.swap (sym e') (sym e)
  perm_sym (Permᴰ.trans p q) = Permᴰ.trans (perm_sym q) (perm_sym p)

  -- the head is in front of the next element at most
  abbrev pub IsChain : List A → Type 0
  IsChain [] = Unit
  IsChain (x ∷ []) = Unit
  IsChain (x ∷ y ∷ l) = (text_cmp (key x) (key y) ≢ gt) × IsChain (y ∷ l)

  insert_by-IsChain : (x : A) (l : List A) → IsChain l → IsChain (insert_by x l)
  insert_by-IsChain x [] h = tt
  insert_by-IsChain x (y ∷ []) h = ground (arith, text_order.flip_gt (key x) (key y))
  insert_by-IsChain x (y ∷ z ∷ l) h =
      let rest = insert_by-IsChain x (z ∷ l) h.1 in
      ground (arith, text_order.flip_gt (key x) (key y), h, rest)

  pub sort_by-IsChain : (l : List A) → IsChain (sort_by l)
  sort_by-IsChain [] = tt
  sort_by-IsChain (x ∷ l) = insert_by-IsChain x (sort_by l) (sort_by-IsChain l)
