-- ===== src/Config/Roundtrip/Heads.antt =====
-- How `value` and `parse_key` begin on a written text.
use mathlib.Core.List.{append_assoc}
use pantheon.Base.{
  ℕ, suc, ◌+◌, ◌≡◌, refl, Bool, true, false, ◌∷◌, ◌++◌, Text, ◌==◌, ok, length, arith,
}
use pantheon.Base.Int.{ℤ, pos, negsuc, IsInt64}
use pantheon.Config.Value.{
  Value, Values, Entries, null, bool, integer, string, array, object, nil, cons, end, entry,
}
use pantheon.Config.Canonical.{
  integer_text, write_canonical_string, write_canonical, write_elements, write_entries,
}
use pantheon.Config.Parse.Scanner.{skip_whitespace, is_whitespace, peek_is, literal}
use pantheon.Config.Parse.Number.{is_digit}
use pantheon.Config.Parse.Grammar.{
  lead, lead_of, number, quote, parse_key, parse_value, parse_array, parse_object,
}
use pantheon.Config.Roundtrip.Position.{same_offset}
use pantheon.Config.Roundtrip.Number.{IsDelimited, decimal_head, parse_integer-integer_text}
use pantheon.Config.Roundtrip.Strings.{parse_string-write}
use pantheon.Config.Roundtrip.Steps.{
  at, IsTight, skip_whitespace_tight, parse_value-bracket, parse_value-brace,
}
use pantheon.Config.Roundtrip.Containers.{AllBelow, get_entry_below}

lead_integer : (z : ℤ) (t : Text) → lead (integer_text z ++ t) ≡ number
unfolding integer_text lead
lead_integer (pos n) t = let (c, s, shape, digit) = decimal_head n in rw shape (lead_digit c digit)
  where
    lead_digit : (c : ℕ) → is_digit c ≡ true → lead_of c ≡ number
    lead_digit c h = unfold is_digit in ground arith
lead_integer (negsuc n) t = refl

IsTight-integer : (z : ℤ) (t : Text) → IsTight (integer_text z ++ t)
unfolding integer_text is_whitespace
IsTight-integer (pos n) t = let (c, s, shape, digit) = decimal_head n in rw shape (no_space c digit)
  where
    no_space : (c : ℕ) → is_digit c ≡ true → is_whitespace c ≡ false
    no_space c h = unfold is_digit in ground arith
IsTight-integer (negsuc n) t = refl

-- a written value begins tight, whatever follows it
pub write-IsTight : (v : Value) (t : Text) → IsTight (write_canonical v ++ t)
unfolding write_canonical is_whitespace write_canonical_string
write-IsTight null t = refl
write-IsTight (bool true) t = refl
write-IsTight (bool false) t = refl
write-IsTight (integer z) t = IsTight-integer z t
write-IsTight (string s) t = refl
write-IsTight (array nil) t = refl
write-IsTight (array (cons _ _)) t = refl
write-IsTight (object end) t = refl
write-IsTight (object (entry _ _ _)) t = refl

pub elements-IsDelimited : (l : Values) (t : Text) → IsDelimited (write_elements l ++ t)
unfolding write_elements
elements-IsDelimited nil t = refl
elements-IsDelimited (cons _ _) t = refl

pub entries-IsDelimited : (m : Entries) (t : Text) → IsDelimited (write_entries m ++ t)
unfolding write_entries
entries-IsDelimited end t = refl
entries-IsDelimited (entry _ _ _) t = refl

pub quote-IsTight : (k t : Text) → IsTight (write_canonical_string k ++ t)
unfolding write_canonical_string is_whitespace
quote-IsTight k t = refl

colon_tight : is_whitespace b':' ≡ false
unfolding is_whitespace
colon_tight = refl

pub parse_key-write :
    (m : Entries) (k t : Text) (o : ℕ)
    → AllBelow k m
    → IsTight t
    → parse_key m (skip_whitespace (at (write_canonical_string k ++ (b':' ∷ t)) o))
      ≡ ok (k, at t (o + length (write_canonical_string k) + 1))
unfolding parse_key
parse_key-write m k t o h tight = rw (
  skip_whitespace_tight (write_canonical_string k ++ (b':' ∷ t)) o (quote-IsTight k (b':' ∷ t)),
  parse_string-write k (b':' ∷ t) o,
  get_entry_below k m h,
  skip_whitespace_tight (b':' ∷ t) (o + length (write_canonical_string k)) colon_tight,
  skip_whitespace_tight t (o + length (write_canonical_string k) + 1) tight,
)

module _ (f : ℕ) (t : Text) (o : ℕ) where
  pub parse-null :
      parse_value (suc f) (at (write_canonical null ++ t) o)
      ≡ ok (null, at t (o + length (write_canonical null)))
  unfolding parse_value write_canonical literal
  parse-null = refl

  pub parse-bool :
      (b : Bool)
      → parse_value (suc f) (at (write_canonical (bool b) ++ t) o)
        ≡ ok (bool b, at t (o + length (write_canonical (bool b))))
  unfolding parse_value write_canonical literal
  parse-bool true = refl
  parse-bool false = refl

  pub parse-string :
      (s : Text)
      → parse_value (suc f) (at (write_canonical (string s) ++ t) o)
        ≡ ok (string s, at t (o + length (write_canonical (string s))))
  unfolding parse_value write_canonical
  parse-string s = rw (lead_string s, parse_value) (rw (parse_string-write s t o))
    where
      lead_string : (s : Text) → lead (write_canonical_string s ++ t) ≡ quote
      lead_string s = unfold write_canonical_string in refl

  pub parse-integer :
      (z : ℤ)
      → IsInt64 z
      → IsDelimited t
      → parse_value (suc f) (at (write_canonical (integer z) ++ t) o)
        ≡ ok (integer z, at t (o + length (write_canonical (integer z))))
  unfolding parse_value write_canonical
  parse-integer z h k = rw (lead_integer z t, parse_value) (parse_integer-integer_text z t o h k)

  pub parse-empty_array :
      parse_value (suc f) (at (write_canonical (array nil) ++ t) o)
      ≡ ok (array nil, at t (o + length (write_canonical (array nil))))
  unfolding parse_value write_canonical skip_whitespace is_whitespace
  parse-empty_array = same_offset (array nil) t (omega arith)

  pub parse-empty_object :
      parse_value (suc f) (at (write_canonical (object end) ++ t) o)
      ≡ ok (object end, at t (o + length (write_canonical (object end))))
  unfolding parse_value write_canonical skip_whitespace is_whitespace
  parse-empty_object = same_offset (object end) t (omega arith)

  peek_integer : (z : ℤ) → peek_is (at (integer_text z ++ t) o) b']' ≡ false
  unfolding integer_text
  peek_integer (pos n) = let (c, s, shape, digit) = decimal_head n in rw shape (no_bracket c digit)
    where
      no_bracket : (c : ℕ) → is_digit c ≡ true → (c == b']') ≡ false
      no_bracket c h = unfold is_digit in ground arith
  peek_integer (negsuc n) = refl

  pub peek-write : (v : Value) → peek_is (at (write_canonical v ++ t) o) b']' ≡ false
  unfolding write_canonical write_canonical_string
  peek-write null = refl
  peek-write (bool true) = refl
  peek-write (bool false) = refl
  peek-write (integer z) = peek_integer z
  peek-write (string s) = refl
  peek-write (array nil) = refl
  peek-write (array (cons _ _)) = refl
  peek-write (object end) = refl
  peek-write (object (entry _ _ _)) = refl

module _ (f : ℕ) (t : Text) (o : ℕ) where
  pub parse-array :
      (v : Value) (l : Values)
      → parse_value (suc f) (at (write_canonical (array (cons v l)) ++ t) o)
        ≡ parse_array f nil (at (write_canonical v ++ (write_elements l ++ t)) (o + 1))
  unfolding write_canonical
  parse-array v l = rw (append_assoc (write_canonical v) (write_elements l) t) (
      parse_value-bracket f o _ (write-IsTight v (write_elements l ++ t))
        (peek-write f (write_elements l ++ t) (o + 1) v))

  pub parse-object :
      (k : Text) (v : Value) (m : Entries)
      → parse_value (suc f) (at (write_canonical (object (entry k v m)) ++ t) o)
        ≡ parse_object f end (
            at
              (write_canonical_string k ++ (b':' ∷ (write_canonical v ++ (write_entries m ++ t))))
              (o + 1))
  unfolding write_canonical
  parse-object k v m =
      rw
        (
          append_assoc (write_canonical_string k) (b':' ∷ (write_canonical v ++ write_entries m)) t,
          append_assoc (write_canonical v) (write_entries m) t,
        )
        (parse_value-brace f o _
          (quote-IsTight k (b':' ∷ (write_canonical v ++ (write_entries m ++ t)))) (peek_quote k))
    where
      peek_quote :
          (k : Text)
          → peek_is
              (at
                (write_canonical_string k ++ (b':' ∷ (write_canonical v ++ (write_entries m ++ t))))
                (o + 1))
              b'}'
            ≡ false
      peek_quote k = unfold write_canonical_string in refl
