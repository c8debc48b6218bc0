-- ===== src/Config/Roundtrip/Values.antt =====
-- The canonical encoding of a value is read back by `value`.
use mathlib.Core.List.{append_assoc, append-nil}
use Prim.Native.Nat.Ordering.{lt}
use pantheon.Base.{
  ℕ, zero, suc, ◌+◌, ◌*◌, ◌≤◌, ◌≡◌, refl, ap, ◌∙◌, true, false, [], ◌∷◌, ◌++◌, Text, text_cmp, ok,
  length, length-append, arith, text_order,
}
use pantheon.Base.Int.{pos, negsuc}
use pantheon.Config.Value.{
  Value, Values, Entries, null, bool, integer, string, array, object, nil, cons, end, entry,
  IsCanonical, AreCanonical, IsMap, AllAbove,
}
use pantheon.Config.Canonical.{
  integer_text, write_canonical_string, write_canonical, write_elements, write_entries,
}
use pantheon.Config.Parse.Scanner.{Parser, skip_whitespace}
use pantheon.Config.Parse.Grammar.{push, parse_key, parse_value, parse_array, parse_object, parse}
use pantheon.Config.Roundtrip.Position.{same_offset}
use pantheon.Config.Roundtrip.Number.{IsDelimited, decimal_head}
use pantheon.Config.Roundtrip.Steps.{
  at, IsTight, skip_whitespace_tight, parse_array_more, parse_array_last, parse_object_more,
  parse_object_last,
}
use pantheon.Config.Roundtrip.Containers.{
  ◌⊕◌, ◌⊞◌, push-⊕, push-eq-⊕, ⊞_entry, AllBelow, insert_entry-eq-⊞, AllBelow-chain, AllBelow-⊞,
}
use pantheon.Config.Roundtrip.Heads.{
  elements-IsDelimited, entries-IsDelimited, parse_key-write, write-IsTight, parse-null, parse-bool,
  parse-string, parse-integer, parse-empty_array, parse-empty_object, parse-array, parse-object,
}

-- the fuel that reading a value takes
mutual
  pub weight : Value → ℕ
  weight (array l) = 1 + weight_of l
  weight (object m) = 1 + weight_in m
  weight _ = 1

  weight_of : Values → ℕ
  weight_of nil = 0
  weight_of (cons v l) = 1 + (weight v + weight_of l)

  weight_in : Entries → ℕ
  weight_in end = 0
  weight_in (entry _ v m) = 1 + (weight v + weight_in m)

weight_pos : (v : Value) → 1 ≤ weight v
unfolding weight
weight_pos null = omega arith
weight_pos (bool _) = omega arith
weight_pos (integer _) = omega arith
weight_pos (string _) = omega arith
weight_pos (array l) = omega arith
weight_pos (object m) = omega arith

-- reading a value, with whatever fuel is at least its weight
abbrev ReadsBack : Value → Type 0
ReadsBack v =
    (f : ℕ) (t : Text) (o : ℕ)
    → weight v ≤ f
    → IsDelimited t
    → parse_value f (at (write_canonical v ++ t) o) ≡ ok (v, at t (o + length (write_canonical v)))

module _ (v : Value) (o : ℕ) where
  array_length :
      (l : Values)
      → o + 1 + length (write_canonical v) + length (write_elements l)
        ≡ o + length (write_canonical (array (cons v l)))
  unfolding write_canonical
  array_length l = omega (arith, length-append (write_canonical v) (write_elements l))

  elements_length :
      (l : Values)
      → o + 1 + length (write_canonical v) + length (write_elements l)
        ≡ o + length (write_elements (cons v l))
  unfolding write_elements
  elements_length l = omega (arith, length-append (write_canonical v) (write_elements l))

module _ (k : Text) (v : Value) (m : Entries) (o : ℕ) where
  entry_length :
      length (write_canonical_string k ++ (b':' ∷ (write_canonical v ++ write_entries m)))
      ≡ length (write_canonical_string k)
        + (1 + (length (write_canonical v) + length (write_entries m)))
  entry_length = omega (
    arith,
    length-append (write_canonical_string k) (b':' ∷ (write_canonical v ++ write_entries m)),
    length-append (write_canonical v) (write_entries m),
  )

  object_length :
      o
        + 1
        + length (write_canonical_string k)
        + 1
        + length (write_canonical v)
        + length (write_entries m)
      ≡ o + length (write_canonical (object (entry k v m)))
  unfolding write_canonical
  object_length = omega (arith, entry_length)

  entries_length :
      o
        + 1
        + length (write_canonical_string k)
        + 1
        + length (write_canonical v)
        + length (write_entries m)
      ≡ o + length (write_entries (entry k v m))
  unfolding write_entries
  entries_length = omega (arith, entry_length)

entries_text :
    (k : Text) (v : Value) (m : Entries) (t : Text)
    → write_entries (entry k v m) ++ t
      ≡ b',' ∷ (write_canonical_string k ++ (b':' ∷ (write_canonical v ++ (write_entries m ++ t))))
unfolding write_entries
entries_text k v m t = rw (
  append_assoc (write_canonical_string k) (b':' ∷ (write_canonical v ++ write_entries m)) t,
  append_assoc (write_canonical v) (write_entries m) t,
)

elements_end : (t : Text) → write_elements nil ++ t ≡ b']' ∷ t
unfolding write_elements
elements_end t = refl

elements_text :
    (v : Value) (l : Values) (t : Text)
    → write_elements (cons v l) ++ t ≡ b',' ∷ (write_canonical v ++ (write_elements l ++ t))
unfolding write_elements
elements_text v l t = rw (append_assoc (write_canonical v) (write_elements l) t)

ends_length : (length (write_elements nil) ≡ 1) × (length (write_entries end) ≡ 1)
unfolding write_elements
ends_length = (refl, refl)

entries_end : (t : Text) → write_entries end ++ t ≡ b'}' ∷ t
unfolding write_entries
entries_end t = refl

-- the keys that are in the map are below the next one
below :
    (m : Entries) (k : Text) (v : Value) (j : Text)
    → text_cmp k j ≡ lt
    → AllBelow k m
    → AllBelow j (m ⊞ entry k v end)
below m k v j e b = AllBelow-⊞ j k v m (text_order.flip_lt k j e) (AllBelow-chain k j m e b)

mutual
  unfolding weight

  value_back : (v : Value) → IsCanonical v → ReadsBack v
  value_back null h zero t o w k = absurd (omega arith)
  value_back null h (suc f) t o w k = parse-null f t o
  value_back (bool b) h zero t o w k = absurd (omega arith)
  value_back (bool b) h (suc f) t o w k = parse-bool f t o b
  value_back (integer z) h zero t o w k = absurd (omega arith)
  value_back (integer z) h (suc f) t o w k = parse-integer f t o z h k
  value_back (string s) h zero t o w k = absurd (omega arith)
  value_back (string s) h (suc f) t o w k = parse-string f t o s
  value_back (array l) h zero t o w k = absurd (omega arith)
  value_back (array nil) h (suc f) t o w k = parse-empty_array f t o
  value_back (array (cons v l)) h (suc zero) t o w k = absurd (omega arith)
  value_back (array (cons v l)) h (suc (suc f)) t o w k =
      parse-array (suc f) t o v l
      ∙ elements_back l v f nil (at (write_canonical v ++ (write_elements l ++ t)) (o + 1)) t
          (o + 1 + length (write_canonical v)) h.1 (omega arith)
          (rw (skip_whitespace_tight _ (o + 1) (write-IsTight v (write_elements l ++ t)))
            (value_back v h.0 f _ (o + 1) (omega arith) (elements-IsDelimited l t)))
      ∙ same_offset _ t (array_length v o l)
  value_back (object m) h zero t o w k = absurd (omega arith)
  value_back (object end) h (suc f) t o w k = parse-empty_object f t o
  value_back (object (entry j v m)) h (suc zero) t o w k = absurd (omega arith)
  value_back (object (entry j v m)) h (suc (suc f)) t o w k =
      parse-object (suc f) t o j v m
      ∙ entries_back m j v f end _ _ t _ h.2 h.0 tt (omega arith)
          (parse_key-write end j _ (o + 1) tt (write-IsTight v (write_entries m ++ t)))
          (value_back v h.1 f _ _ (omega arith) (entries-IsDelimited m t))
      ∙ same_offset _ t (object_length j v m o)

  elements_back :
      (l : Values) (v : Value) (f : ℕ) (acc : Values) (p : Parser) (t : Text) (o : ℕ)
      → AreCanonical l
      → weight_of l ≤ f
      → parse_value f (skip_whitespace p) ≡ ok (v, at (write_elements l ++ t) o)
      → parse_array (suc f) acc p
        ≡ ok (array (acc ⊕ cons v l), at t (o + length (write_elements l)))
  elements_back nil v f acc p t o h w e =
      parse_array_last f p v t o acc (rw (← elements_end t) e)
      ∙ rw (push-eq-⊕ acc v) (same_offset _ t (omega (arith, ends_length)))
  elements_back (cons u l) v zero acc p t o h w e = absurd (omega arith)
  elements_back (cons u l) v (suc f) acc p t o h w e =
      parse_array_more (suc f) p v (write_canonical u ++ (write_elements l ++ t)) o acc
        (rw (← elements_text u l t) e)
      ∙ elements_back l u f (push acc v) (at (write_canonical u ++ (write_elements l ++ t)) (o + 1))
          t (o + 1 + length (write_canonical u)) h.1 (omega arith)
          (rw (skip_whitespace_tight _ (o + 1) (write-IsTight u (write_elements l ++ t)))
            (value_back u h.0 f _ (o + 1) (omega arith) (elements-IsDelimited l t)))
      ∙ rw (push-⊕ acc v (cons u l)) (same_offset _ t (elements_length u o l))

  entries_back :
      (n : Entries) (k : Text) (v : Value) (f : ℕ) (m : Entries) (p q : Parser) (t : Text) (o : ℕ)
      → IsMap n
      → AllAbove k n
      → AllBelow k m
      → weight_in n ≤ f
      → parse_key m (skip_whitespace p) ≡ ok (k, q)
      → parse_value f q ≡ ok (v, at (write_entries n ++ t) o)
      → parse_object (suc f) m p
        ≡ ok (object (m ⊞ entry k v n), at t (o + length (write_entries n)))
  entries_back end k v f m p q t o h a b w e e' =
      parse_object_last f p q k v m t o e (rw (← entries_end t) e')
      ∙ rw (insert_entry-eq-⊞ k v m b) (same_offset _ t (omega (arith, ends_length)))
  entries_back (entry j u n) k v zero m p q t o h a b w e e' = absurd (omega arith)
  entries_back (entry j u n) k v (suc f) m p q t o h a b w e e' =
      parse_object_more (suc f) p q k v m
        (write_canonical_string j ++ (b':' ∷ (write_canonical u ++ (write_entries n ++ t)))) o e
        (rw (← entries_text j u n t) e')
      ∙ rw (insert_entry-eq-⊞ k v m b) (
          entries_back n j u f (m ⊞ entry k v end) _ _ t _ h.2 h.0 (below m k v j a.0 b)
            (omega arith)
            (parse_key-write (m ⊞ entry k v end) j _ (o + 1) (below m k v j a.0 b)
              (write-IsTight u (write_entries n ++ t)))
            (value_back u h.1 f _ _ (omega arith) (entries-IsDelimited n t))
          ∙ rw (⊞_entry m k v (entry j u n)) (same_offset _ t (entries_length j u n o)))

write_canonical_nonempty : (v : Value) → 1 ≤ length (write_canonical v)
unfolding write_canonical integer_text
write_canonical_nonempty null = omega arith
write_canonical_nonempty (bool true) = omega arith
write_canonical_nonempty (bool false) = omega arith
write_canonical_nonempty (integer (pos n)) =
    let (c, t, shape, _) = decimal_head n in omega (arith, ap length shape)
write_canonical_nonempty (integer (negsuc n)) = omega arith
write_canonical_nonempty (string s) = unfold write_canonical_string in omega arith
write_canonical_nonempty (array nil) = omega arith
write_canonical_nonempty (array (cons _ _)) = omega arith
write_canonical_nonempty (object end) = omega arith
write_canonical_nonempty (object (entry _ _ _)) = omega arith

-- two for each byte and one is fuel enough
mutual
  unfolding weight

  weight_le : (v : Value) → weight v ≤ 2 * length (write_canonical v)
  weight_le null = omega (arith, write_canonical_nonempty null)
  weight_le (bool b) = omega (arith, write_canonical_nonempty (bool b))
  weight_le (integer z) = omega (arith, write_canonical_nonempty (integer z))
  weight_le (string s) = omega (arith, write_canonical_nonempty (string s))
  weight_le (array nil) = omega (arith, write_canonical_nonempty (array nil))
  weight_le (array (cons v l)) = omega (arith, weight_le v, weight_of_le l, array_length v 0 l)
  weight_le (object end) = omega (arith, write_canonical_nonempty (object end))
  weight_le (object (entry k v m)) =
      omega (arith, weight_le v, weight_in_le m, object_length k v m 0)

  weight_of_le : (l : Values) → 2 + weight_of l ≤ 2 * length (write_elements l)
  weight_of_le nil = omega (arith, ends_length)
  weight_of_le (cons v l) = omega (arith, weight_le v, weight_of_le l, elements_length v 0 l)

  weight_in_le : (m : Entries) → 2 + weight_in m ≤ 2 * length (write_entries m)
  weight_in_le end = omega (arith, ends_length)
  weight_in_le (entry k v m) = omega (arith, weight_le v, weight_in_le m, entries_length k v m 0)

parse_whole :
    (s : Text) (v : Value) (n : ℕ)
    → IsTight s
    → parse_value (2 * length s + 1) (at s 0) ≡ ok (v, at [] n)
    → parse s ≡ ok v
unfolding parse
parse_whole s v n tight h = rw (skip_whitespace_tight s 0 tight, h, skip_whitespace_tight [] n tt)

-- Reading what the canonical encoding of a value writes gives the value back, for every value whose
-- integers are `i64`s and whose objects have ascending keys.
pub parse-write_canonical : (v : Value) → IsCanonical v → parse (write_canonical v) ≡ ok v
parse-write_canonical v h =
    parse_whole (write_canonical v) v _ (rw append-nil at (write-IsTight v [])) (
      rw append-nil at
        (value_back v h (2 * length (write_canonical v) + 1) [] 0 (omega (arith, weight_le v)) tt))
