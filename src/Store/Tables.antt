-- ===== src/Store/Tables.antt =====
-- A table is the list of its rows, in the order of insertion. Its key column holds no value twice,
-- so an `UPDATE … WHERE key = ?` changes one row at most.
use pantheon.Base.{
  ◌≡◌, refl, Option, none, some, List, [], ◌∷◌, ◌++◌, Text, text_eq, text_eq_iff, if◌then◌else◌,
  All, arith, Bool-cases, inl, inr,
}

module _ {A : Type 0} (key : A → Text) where
  -- `SELECT … WHERE key = ?`
  unfoldable pub find_row : Text → List A → Option A
  find_row k [] = none
  find_row k (r ∷ l) = if text_eq (key r) k then some r else find_row k l

  -- `UPDATE … WHERE key = ?`
  unfoldable pub update_row : Text → (A → A) → List A → List A
  update_row k f [] = []
  update_row k f (r ∷ l) = if text_eq (key r) k then f r ∷ l else r ∷ update_row k f l

  pub find_row-append :
      (k : Text) (l : List A) (r : A)
      → find_row k (l ++ r ∷ []) ≡ elim (find_row k l) [
        | some s ↦ some s
        | none ↦ if text_eq (key r) k then some r else none
      ]
  unfolding find_row
  find_row-append k [] r = refl
  find_row-append k (s ∷ l) r = ground (arith, find_row-append k l r)

  -- an update that keeps the key is seen at its key alone
  pub find_row-update :
      (k j : Text) (f : A → A) (l : List A)
      → ((r : A) → key (f r) ≡ key r)
      → find_row j (update_row k f l)
        ≡ elim (find_row j l) [ none ↦ none | some r ↦ if text_eq k j then some (f r) else some r ]
  unfolding find_row update_row
  find_row-update k j f [] same = refl
  find_row-update k j f (r ∷ l) same = ground (
    arith,
    same r,
    text_eq_iff (key r) k,
    text_eq_iff (key r) j,
    text_eq_iff (key (f r)) j,
    text_eq_iff k j,
    find_row-update k j f l same,
  )

  pub All-update :
      {P : A → Type 0} (k : Text) (f : A → A) (l : List A)
      → ((r : A) → P r → P (f r))
      → All P l
      → All P (update_row k f l)
  unfolding update_row
  All-update k f [] step h = tt
  All-update k f (r ∷ l) step h = elim (Bool-cases (text_eq (key r) k)) [
    | inl e ↦ rw e (step r h.0, h.1)
    | inr e ↦ rw e (h.0, All-update k f l step h.1)
  ]

  -- an update touches the row that its key finds, and no other
  pub All-update-found :
      (P : A → Type 0) (k : Text) (f : A → A) (l : List A) (s : A)
      → find_row k l ≡ some s
      → P (f s)
      → All P l
      → All P (update_row k f l)
  unfolding update_row find_row
  All-update-found P k f [] s e h p = tt
  All-update-found P k f (r ∷ l) s e h p = elim (Bool-cases (text_eq (key r) k)) [
    | inl t ↦ let same : r ≡ s = ground (arith, t, e) in rw t (rw same h, p.1)
    | inr t ↦ rw t (p.0, All-update-found P k f l s (ground (arith, t, e)) h p.1)
  ]
