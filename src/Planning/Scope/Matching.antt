-- ===== src/Planning/Scope/Matching.antt =====
-- What a scope authorizes, against the meaning of the pattern grammar.
use pantheon.Base.{
  ◌≡◌, refl, ap, true, List, [], ◌∷◌, ◌++◌, Text, Any, any→Any, Any→any, text_eq_iff, ◌↔◌,
  Bool-cases, inl, inr, arith,
}
use pantheon.Artifact.Path.{split}
use pantheon.Planning.Scope.{literal, one, many, Pattern, WorkspaceScope, matches_from, authorizes}

-- The meaning of a pattern: a literal stands for itself, `*` for any one component, `**` for any
-- components.
pub data Covers : Pattern → List Text → Type 0 where
  done : Covers [] []
  same :
      {l c : Text} {p : Pattern} {cs : List Text}
      → c ≡ l
      → Covers p cs
      → Covers (literal l ∷ p) (c ∷ cs)
  any_one : {c : Text} {p : Pattern} {cs : List Text} → Covers p cs → Covers (one ∷ p) (c ∷ cs)
  run :
      {p : Pattern} (front : List Text) {back cs : List Text}
      → cs ≡ front ++ back
      → Covers p back
      → Covers (many ∷ p) cs

matches→Covers : (p : Pattern) (cs : List Text) → matches_from p cs ≡ true → Covers p cs
unfolding matches_from
matches→Covers [] [] h = done
matches→Covers [] (_ ∷ _) h = cc
matches→Covers (literal l ∷ p) [] h = cc
matches→Covers (literal l ∷ p) (c ∷ cs) h =
    same ((text_eq_iff c l).0 (ground arith)) (matches→Covers p cs (ground arith))
matches→Covers (one ∷ p) [] h = cc
matches→Covers (one ∷ p) (c ∷ cs) h = any_one (matches→Covers p cs h)
matches→Covers (many ∷ p) [] h = run [] refl (matches→Covers p [] h)
matches→Covers (many ∷ p) (c ∷ cs) h = elim (Bool-cases (matches_from p (c ∷ cs))) [
  | inl e ↦ run [] refl (matches→Covers p (c ∷ cs) e)
  | inr e ↦ longer c (matches→Covers (many ∷ p) cs (ground arith))
]
  where
    longer : (c : Text) {cs : List Text} → Covers (many ∷ p) cs → Covers (many ∷ p) (c ∷ cs)
    longer c (run front e d) = run (c ∷ front) (ap (◌∷◌ c) e) d

many_run :
    (p : Pattern) (front back : List Text)
    → matches_from p back ≡ true
    → matches_from (many ∷ p) (front ++ back) ≡ true
unfolding matches_from
many_run p [] [] h = h
many_run p [] (c ∷ cs) h = ground arith
many_run p (c ∷ front) back h = ground (arith, many_run p front back)

Covers→matches : {p : Pattern} {cs : List Text} → Covers p cs → matches_from p cs ≡ true
unfolding matches_from
Covers→matches done = refl
Covers→matches (same {l} {c} e d) = rw ((text_eq_iff c l).1 e) (Covers→matches d)
Covers→matches (any_one d) = Covers→matches d
Covers→matches (run {p} front {back} e d) = rw e (many_run p front back (Covers→matches d))

-- The matcher decides the meaning of the grammar.
pub matches_from_iff : (p : Pattern) (cs : List Text) → (matches_from p cs ≡ true) ↔ Covers p cs
matches_from_iff p cs = (matches→Covers p cs, Covers→matches)

-- A scope authorizes a path exactly when one of its patterns covers the path's components.
pub authorizes_iff :
    (scope : WorkspaceScope) (path : Text)
    → (authorizes scope path ≡ true) ↔ Any (λ p. Covers p (split b'/' path)) scope
unfolding authorizes
authorizes_iff scope path = (
  any→Any _ scope (λ p. matches→Covers p (split b'/' path)),
  Any→any _ scope (λ p. Covers→matches),
)
