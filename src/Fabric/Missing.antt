-- ===== src/Fabric/Missing.antt =====
-- crates/pantheon-core/src/execution.rs: what it means that nothing is missing, and that two
-- identities are the same.
use pantheon.Base.{
  ℕ, ◌≡◌, ◌≢◌, ◌↔◌, inl, inr, refl, ap₂, Bool, true, false, ◌||◌, not, List, [], ◌∷◌, Text, text_eq,
  text_eq_iff, text_eq_refl, text_contains, keep, ==_iff, All, arith, Bool-cases,
}
use pantheon.Base.Accepts.{iff_trans, All-iff, not-false_iff, Has, text_contains_iff}
use pantheon.Base.Order.{list_ord, nat_ord}
use pantheon.Base.Sort.{insert, sort}
use pantheon.Base.SortWith.{dedup}
use pantheon.Config.Model.Agents.{LogicalAgentVersion, same_agent}
use pantheon.Fabric.Resolution.{sorted_difference}

-- every text of the first list is in the second
abbrev pub Provides : List Text → List Text → Type 0
Provides required available = All (Has available) required

dedup-nil : (l : List Text) → dedup l ≡ [] → l ≡ []
dedup-nil [] h = refl
dedup-nil (s ∷ []) h = cc
dedup-nil (s ∷ t ∷ l) h = ground (arith, dedup-nil (t ∷ l))

insert-nil : (x : Text) (l : List Text) → insert x l ≢ []
insert-nil x [] h = cc
insert-nil x (y ∷ l) h = ground arith

sort-nil : (l : List Text) → sort l ≡ [] → l ≡ []
sort-nil [] h = refl
sort-nil (x ∷ l) h = absurd (insert-nil x (sort l) h)

pub keep-nil_iff :
    {A : Type 0} (p : A → Bool) (l : List A) → (keep p l ≡ []) ↔ All (λ a. p a ≡ false) l
keep-nil_iff p [] = (λ h. tt, λ h. refl)
keep-nil_iff p (x ∷ l) =
    let (to, from) = keep-nil_iff p l in
    (
      λ h. elim (Bool-cases (p x)) [ inl e ↦ ground arith | inr e ↦ (e, to (ground arith)) ],
      λ h. ground (arith, h.0, from h.1),
    )

pub sorted_difference-nil_iff :
    (required available : List Text)
    → (sorted_difference required available ≡ []) ↔ Provides required available
unfolding sorted_difference
sorted_difference-nil_iff required available =
    iff_trans (λ h. sort-nil _ (dedup-nil _ h), λ h. rw h refl)
      (iff_trans (keep-nil_iff _ required) (
        All-iff
          (λ v.
            iff_trans (not-false_iff (text_contains available v)) (text_contains_iff available v))
          required))

pub same_iff : (a b : Text) → (not (text_eq a b) ≡ false) ↔ (a ≡ b)
same_iff a b = iff_trans (not-false_iff (text_eq a b)) (text_eq_iff a b)

pub neither_iff :
    {P Q : Type 0} (a b : Bool) → (a ≡ false) ↔ P → (b ≡ false) ↔ Q → ((a || b) ≡ false) ↔ (P × Q)
neither_iff true b f g = (λ h. cc, λ h. f.1 h.0)
neither_iff false b f g = (λ h. (f.0 refl, g.0 h), λ h. g.1 h.1)

abbrev the_agent : Text → ℕ → LogicalAgentVersion
the_agent n v = record { name = n; version = v }

agent_ext : (a b : LogicalAgentVersion) → a.name ≡ b.name → a.version ≡ b.version → a ≡ b
agent_ext a b e f = ap₂ (λ (n : Text) (v : ℕ). the_agent n v) e f

pub same_agent_iff : (a b : LogicalAgentVersion) → (not (same_agent a b) ≡ false) ↔ (a ≡ b)
unfolding same_agent
same_agent_iff a b = (
  λ h.
      agent_ext a b ((text_eq_iff a.name b.name).0 (ground arith))
        ((==_iff a.version b.version).0 (ground arith)),
  λ h. rw h (ground (arith, text_eq_refl b.name)),
)
