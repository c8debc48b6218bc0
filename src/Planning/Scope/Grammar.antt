-- ===== src/Planning/Scope/Grammar.antt =====
-- Which patterns compile, and to what.
use pantheon.Base.{
  ◌≡◌, ◌≢◌, refl, ap, ap₂, sym, ◌∙◌, false, some, none, List, [], ◌∷◌, ◌++◌, map, Text, text, All,
  ◌↔◌, ok, collect, text_eq_iff, strip_prefix, strip_prefix_inv, Option-cases, is_nil, inl, inr,
  arith, collect_cons, collect_nil,
}
use pantheon.Artifact.Path.{split, contains_byte}
use pantheon.Artifact.Path.Split.{
  join, join-split, split-join, split_without, split_nonempty, AllWithout,
}
use pantheon.Planning.Scope.{
  Segment, literal, one, many, Pattern, scheme, compile_piece, compile_pattern,
}

-- how a segment is written
pub spell : Segment → Text
spell (literal l) = l
spell one = text "*"
spell many = text "**"

-- a literal is a component without a wildcard
pub record IsLiteral (l : Text) : Type 0 where
  pub not_empty : l ≢ []
  pub no_star : contains_byte b'*' l ≡ false
  pub no_slash : contains_byte b'/' l ≡ false

abbrev pub IsSegment : Segment → Type 0
IsSegment (literal l) = IsLiteral l
IsSegment one = Unit
IsSegment many = Unit

compile_piece-spell : (s : Segment) → IsSegment s → compile_piece (spell s) ≡ ok s
unfolding compile_piece spell
compile_piece-spell (literal l) h =
    ground (arith, text_eq_iff l [], text_eq_iff l (text "*"), text_eq_iff l (text "**"), h.no_star)
compile_piece-spell one h = refl
compile_piece-spell many h = refl

spell_compiled :
    (piece : Text) (s : Segment)
    → compile_piece piece ≡ ok s
    → contains_byte b'/' piece ≡ false
    → (piece ≡ spell s) × IsSegment s
unfolding compile_piece spell
spell_compiled piece (literal l) h k = ground (arith, text_eq_iff piece [])
spell_compiled piece one h k = ground (arith, text_eq_iff piece (text "*"))
spell_compiled piece many h k = ground (arith, text_eq_iff piece (text "**"))

collect-spell : (l : Pattern) → All IsSegment l → collect compile_piece (map spell l) ≡ ok l
collect-spell [] h = refl
collect-spell (s ∷ l) h = rw (compile_piece-spell s h.0, collect-spell l h.1)

collect_compiled :
    (pieces : List Text) (l : Pattern)
    → AllWithout b'/' pieces
    → collect compile_piece pieces ≡ ok l
    → (pieces ≡ map spell l) × All IsSegment l
collect_compiled [] l k h = rw (collect_nil compile_piece l h) (refl, tt)
collect_compiled (c ∷ pieces) l k h =
    let (s, m, e, e', shape) = collect_cons compile_piece c pieces l h in
    let (spelt, is_segment) = spell_compiled c s e k.0 in
    let (rest, are_segments) = collect_compiled pieces m k.1 e' in
    rw shape (ap₂ ◌∷◌ spelt rest, (is_segment, are_segments))

spell-AllWithout : (l : Pattern) → All IsSegment l → AllWithout b'/' (map spell l)
unfolding spell
spell-AllWithout [] h = tt
spell-AllWithout (literal l ∷ p) h = (h.0.no_slash, spell-AllWithout p h.1)
spell-AllWithout (one ∷ p) h = (refl, spell-AllWithout p h.1)
spell-AllWithout (many ∷ p) h = (refl, spell-AllWithout p h.1)

join_nonempty :
    (s : Segment) (l : Pattern) → IsSegment s → is_nil (join b'/' (map spell (s ∷ l))) ≡ false
unfolding join spell
join_nonempty (literal []) l h = absurd (h.not_empty refl)
join_nonempty (literal (_ ∷ _)) [] h = refl
join_nonempty (literal (_ ∷ _)) (_ ∷ _) h = refl
join_nonempty one [] h = refl
join_nonempty one (_ ∷ _) h = refl
join_nonempty many [] h = refl
join_nonempty many (_ ∷ _) h = refl

-- the text of a pattern
pub spell_pattern : Pattern → Text
spell_pattern p = scheme ++ join b'/' (map spell p)

compile-spell :
    (s : Segment) (p : Pattern)
    → All IsSegment (s ∷ p)
    → compile_pattern (spell_pattern (s ∷ p)) ≡ ok (s ∷ p)
unfolding compile_pattern spell_pattern
compile-spell s p h =
    rw (join_nonempty s p h.0, compile_pattern)
      (rw (
        split-join b'/' (spell s) (map spell p) (spell-AllWithout (s ∷ p) h),
        collect-spell (s ∷ p) h,
        compile_pattern,
      ))

compile_prefix : (t : Text) (p : Pattern) → compile_pattern t ≡ ok p → strip_prefix scheme t ≢ none
unfolding compile_pattern
compile_prefix t p h e = ground arith

compile_rest :
    (t rest : Text) (p : Pattern)
    → strip_prefix scheme t ≡ some rest
    → compile_pattern t ≡ ok p
    → collect compile_piece (split b'/' rest) ≡ ok p
unfolding compile_pattern
compile_rest t rest p e h = ground arith

compile_parts :
    (t : Text) (p : Pattern)
    → compile_pattern t ≡ ok p
    → (rest : Text) × (strip_prefix scheme t ≡ some rest)
      × (collect compile_piece (split b'/' rest) ≡ ok p)
compile_parts t p h = elim (Option-cases (strip_prefix scheme t)) [
  | inl e ↦ absurd (compile_prefix t p h e)
  | inr (rest, e) ↦ (rest, e, compile_rest t rest p e h)
]

split-ne-nil : (t : Text) → split b'/' t ≢ []
split-ne-nil t h = let (c, l, e) = split_nonempty b'/' t in cc (e, h)

compiled-spell :
    (t : Text) (p : Pattern)
    → compile_pattern t ≡ ok p
    → (t ≡ spell_pattern p) × (p ≢ []) × All IsSegment p
unfolding spell_pattern
compiled-spell t p h =
    let (rest, e, compiled) = compile_parts t p h in
    let (pieces, segments) =
      collect_compiled (split b'/' rest) p (split_without b'/' rest) compiled in
    (
      strip_prefix_inv scheme t rest e
          ∙ ap (λ r. scheme ++ r) (sym (join-split b'/' rest) ∙ ap (join b'/') pieces),
      (λ nil. split-ne-nil rest (pieces ∙ ap (map spell) nil)),
      segments,
    )

-- A text compiles to a pattern exactly when it is the pattern's spelling behind `workspace://`, the
-- pattern is not empty, and its literals are components without a wildcard.
pub compile_pattern_iff :
    (t : Text) (p : Pattern)
    → (compile_pattern t ≡ ok p) ↔ ((t ≡ spell_pattern p) × (p ≢ []) × All IsSegment p)
compile_pattern_iff t p = (compiled-spell t p, spelt p)
  where
    spelt :
        (p : Pattern)
        → ((t ≡ spell_pattern p) × (p ≢ []) × All IsSegment p)
        → compile_pattern t ≡ ok p
    spelt [] (e, h, k) = absurd (h refl)
    spelt (s ∷ p) (e, h, k) = rw e (compile-spell s p k)
