-- ===== src/Base/SortWith.antt =====
-- `slice::sort_by` with a comparison, stable, and `Vec::dedup` of texts.
use Prim.Native.Nat.{Ordering}
use Prim.Native.Nat.Ordering.{lt, eq, gt}
use mathlib.Core.Path.{refl}
use mathlib.Core.List.{List, [], ◌∷◌, Permᴰ}
use pantheon.Base.Tests.{if◌then◌else◌}
use pantheon.Base.Bytes.{Text, text_eq}

pub perm_same : {A : Type 0} (l : List A) → Permᴰ l l
perm_same [] = Permᴰ.nil
perm_same (x ∷ l) = Permᴰ.cons refl (perm_same l)

module _ {A : Type 0} (cmp : A → A → Ordering) where
  abbrev pub insert_with : A → List A → List A
  insert_with x [] = x ∷ []
  insert_with x (y ∷ l) = elim (cmp x y) [ gt ↦ y ∷ insert_with x l | _ ↦ x ∷ y ∷ l ]

  abbrev pub sort_with : List A → List A
  sort_with [] = []
  sort_with (x ∷ l) = insert_with x (sort_with l)

  placed :
      (o : Ordering) (x y : A) (l : List A)
      → Permᴰ (insert_with x l) (x ∷ l)
      → Permᴰ (elim o [ gt ↦ y ∷ insert_with x l | _ ↦ x ∷ y ∷ l ]) (x ∷ y ∷ l)
  placed gt x y l p = Permᴰ.trans (Permᴰ.cons refl p) (Permᴰ.swap refl refl)
  placed lt x y l p = perm_same (x ∷ y ∷ l)
  placed eq x y l p = perm_same (x ∷ y ∷ l)

  insert_with-Perm : (x : A) (l : List A) → Permᴰ (insert_with x l) (x ∷ l)
  insert_with-Perm x [] = perm_same (x ∷ [])
  insert_with-Perm x (y ∷ l) = placed (cmp x y) x y l (insert_with-Perm x l)

  pub sort_with-Perm : (l : List A) → Permᴰ (sort_with l) l
  sort_with-Perm [] = Permᴰ.nil
  sort_with-Perm (x ∷ l) =
      Permᴰ.trans (insert_with-Perm x (sort_with l)) (Permᴰ.cons refl (sort_with-Perm l))

-- a text goes when the one in front of it is the same
abbrev pub dedup : List Text → List Text
dedup [] = []
dedup (s ∷ []) = s ∷ []
dedup (s ∷ t ∷ l) = let rest = dedup (t ∷ l) in if text_eq s t then rest else s ∷ rest
