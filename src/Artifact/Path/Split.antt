-- ===== src/Artifact/Path/Split.antt =====
-- Splitting a text at a separator, and joining the components again.
use pantheon.Base.{
  ℕ, ◌≡◌, refl, ap, ap₂, sym, ◌∙◌, ==_iff, false, List, [], ◌∷◌, ◌++◌, Text, ◌==◌, All, arith,
  Bool-cases, inl, inr,
}
use pantheon.Artifact.Path.{grow, split, contains_byte}

-- the components with a separator between them
unfoldable pub join : ℕ → List Text → Text
join sep [] = []
join sep (c ∷ []) = c
join sep (c ∷ d ∷ l) = c ++ (sep ∷ join sep (d ∷ l))

join_empty : (sep : ℕ) (d : Text) (l : List Text) → join sep ([] ∷ d ∷ l) ≡ sep ∷ join sep (d ∷ l)
unfolding join
join_empty sep d l = refl

pub split_nonempty : (sep : ℕ) (t : Text) → (c : Text) × (l : List Text) × (split sep t ≡ c ∷ l)
unfolding split
split_nonempty sep [] = ([], [], refl)
split_nonempty sep (b ∷ t) =
    let (c, l, e) = split_nonempty sep t in
    elim (Bool-cases (b == sep)) [ inl h ↦ ([], c ∷ l, rw (h, e)) | inr h ↦ (b ∷ c, l, rw (h, e)) ]

join_cons : (sep b : ℕ) (c : Text) (l : List Text) → join sep ((b ∷ c) ∷ l) ≡ b ∷ join sep (c ∷ l)
unfolding join
join_cons sep b c [] = refl
join_cons sep b c (_ ∷ _) = refl

join-split_step :
    (sep b : ℕ) (t c : Text) (l : List Text)
    → split sep t ≡ c ∷ l
    → join sep (c ∷ l) ≡ t
    → join sep (split sep (b ∷ t)) ≡ b ∷ t
unfolding split
join-split_step sep b t c l e ih = elim (Bool-cases (b == sep)) [
  | inl h ↦ rw (h, e) (unfold join in ap₂ ◌∷◌ (sym ((==_iff b sep).0 h)) ih)
  | inr h ↦ rw (h, e) (join_cons sep b c l ∙ ap (◌∷◌ b) ih)
]

-- The components of a text, joined by the separator, are the text.
pub join-split : (sep : ℕ) (t : Text) → join sep (split sep t) ≡ t
join-split sep [] = unfold join split in refl
join-split sep (b ∷ t) =
    let (c, l, e) = split_nonempty sep t in
    join-split_step sep b t c l e (rw e at (join-split sep t))

split-grow : (sep b : ℕ) (t : Text) → (b == sep) ≡ false → split sep (b ∷ t) ≡ grow b (split sep t)
unfolding split
split-grow sep b t h = rw h

split_sep : (sep : ℕ) (t : Text) → split sep (sep ∷ t) ≡ [] ∷ split sep t
unfolding split
split_sep sep t = rw ((==_iff sep sep).1 refl)

abbrev pub AllWithout : ℕ → List Text → Type 0
AllWithout sep = All (λ c. contains_byte sep c ≡ false)

grow_without :
    (sep b : ℕ) (l : List Text) → (b == sep) ≡ false → AllWithout sep l → AllWithout sep (grow b l)
unfolding grow
grow_without sep b [] h k = (ground arith, tt)
grow_without sep b (c ∷ l) h k = (ground (arith, k.0), k.1)

-- No component of a split text holds the separator.
pub split_without : (sep : ℕ) (t : Text) → AllWithout sep (split sep t)
split_without sep [] = unfold split in (refl, tt)
split_without sep (b ∷ t) = without_step (split_without sep t)
  where
    without_step : AllWithout sep (split sep t) → AllWithout sep (split sep (b ∷ t))
    without_step ih = elim (Bool-cases (b == sep)) [
      | inl e ↦ rw ((==_iff b sep).0 e, split_sep) (refl, ih)
      | inr e ↦ rw (split-grow sep b t e) (grow_without sep b (split sep t) e ih)
    ]

-- Components without the separator are what splits their joined text.
pub split-join :
    (sep : ℕ) (c : Text) (l : List Text)
    → AllWithout sep (c ∷ l)
    → split sep (join sep (c ∷ l)) ≡ c ∷ l
split-join sep [] [] h = unfold split join in refl
split-join sep [] (d ∷ l) h =
    rw (join_empty sep d l)
      (split_sep sep (join sep (d ∷ l)) ∙ ap (◌∷◌ []) (split-join sep d l h.1))
split-join sep (b ∷ c) l h = rw (join_cons sep b c l) (
    split-grow sep b (join sep (c ∷ l)) (ground arith)
    ∙ rw (split-join sep c l (ground arith, h.1)) (grow_cons b c l))
  where
    grow_cons : (b : ℕ) (c : Text) (l : List Text) → grow b (c ∷ l) ≡ (b ∷ c) ∷ l
    grow_cons b c l = unfold grow in refl
