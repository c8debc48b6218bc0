-- ===== src/Config/Roundtrip/Steps.antt =====
-- One round of the loops of `array` and `object`.
use pantheon.Base.{ℕ, suc, ◌+◌, ◌≡◌, refl, false, [], ◌∷◌, Text, ok, arith}
use pantheon.Config.Value.{Value, Values, Entries, array, object, nil, end, insert_entry}
use pantheon.Config.Parse.Scanner.{peek_is, Parser, skip_whitespace, is_whitespace}
use pantheon.Config.Parse.Grammar.{push, parse_key, parse_value, parse_array, parse_object}

abbrev pub at : Text → ℕ → Parser
at t o = record { rest = t; offset = o }

-- no value begins with whitespace
abbrev pub IsTight : Text → Type 0
IsTight [] = Unit
IsTight (c ∷ _) = is_whitespace c ≡ false

pub skip_whitespace_tight : (t : Text) (o : ℕ) → IsTight t → skip_whitespace (at t o) ≡ at t o
unfolding skip_whitespace
skip_whitespace_tight [] o h = refl
skip_whitespace_tight (c ∷ t) o h = ground arith

module _ (f : ℕ) (p : Parser) (v : Value) (t : Text) (o : ℕ) where
  pub parse_array_more :
      (l : Values)
      → parse_value f (skip_whitespace p) ≡ ok (v, at (b',' ∷ t) o)
      → parse_array (suc f) l p ≡ parse_array f (push l v) (at t (o + 1))
  unfolding parse_array
  parse_array_more l h = rw (h, parse_array) (unfold skip_whitespace is_whitespace in refl)

  pub parse_array_last :
      (l : Values)
      → parse_value f (skip_whitespace p) ≡ ok (v, at (b']' ∷ t) o)
      → parse_array (suc f) l p ≡ ok (array (push l v), at t (o + 1))
  unfolding parse_array
  parse_array_last l h = rw (h, parse_array) (unfold skip_whitespace is_whitespace in refl)

module _ (f : ℕ) (p q : Parser) (k : Text) (v : Value) (m : Entries) (t : Text) (o : ℕ)
    (key : parse_key m (skip_whitespace p) ≡ ok (k, q)) where
  pub parse_object_more :
      parse_value f q ≡ ok (v, at (b',' ∷ t) o)
      → parse_object (suc f) m p ≡ parse_object f (insert_entry k v m) (at t (o + 1))
  unfolding parse_object
  parse_object_more h = rw (key, h, parse_object) (unfold skip_whitespace is_whitespace in refl)

  pub parse_object_last :
      parse_value f q ≡ ok (v, at (b'}' ∷ t) o)
      → parse_object (suc f) m p ≡ ok (object (insert_entry k v m), at t (o + 1))
  unfolding parse_object
  parse_object_last h = rw (key, h, parse_object) (unfold skip_whitespace is_whitespace in refl)

module _ (f o : ℕ) (t : Text) (tight : IsTight t) where
  pub parse_value-bracket :
      peek_is (at t (o + 1)) b']' ≡ false
      → parse_value (suc f) (at (b'[' ∷ t) o) ≡ parse_array f nil (at t (o + 1))
  unfolding parse_value skip_whitespace
  parse_value-bracket h = simp (skip_whitespace_tight t (o + 1) tight, h)

  pub parse_value-brace :
      peek_is (at t (o + 1)) b'}' ≡ false
      → parse_value (suc f) (at (b'{' ∷ t) o) ≡ parse_object f end (at t (o + 1))
  unfolding parse_value skip_whitespace
  parse_value-brace h = simp (skip_whitespace_tight t (o + 1) tight, h)
