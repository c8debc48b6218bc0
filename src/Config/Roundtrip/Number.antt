-- ===== src/Config/Roundtrip/Number.antt =====
-- The decimal form of an integer is read back by `integer`.
use pantheon.Base.{
  ℕ, zero, suc, ◌+◌, ◌-◌, ◌*◌, ◌/◌, ◌%◌, ◌<◌, ◌≡◌, refl, subst, ◌∙◌, Bool, true, false, ◌||◌, [],
  ◌∷◌, ◌++◌, Text, ltb, ◌==◌, ok, length, All, arith, inl, inr, Bool-cases, is_nil, some,
}
use pantheon.Base.Int.{ℤ, pos, negsuc, IsInt64}
use pantheon.Config.Value.{integer}
use pantheon.Config.Canonical.{decimal, decimal_digits, integer_text}
use pantheon.Config.Parse.Scanner.{peek_is}
use pantheon.Config.Parse.Number.{
  is_digit, span_digits, decimal_value, parse_int64, read_integer, parse_integer, starts_fraction,
  has_leading_zero,
}

-- what may follow a value inside an array or an object, or at the end
abbrev pub is_delimiter : ℕ → Bool
is_delimiter c = c == b',' || c == b']' || c == b'}'

abbrev pub IsDelimited : Text → Type 0
IsDelimited [] = Unit
IsDelimited (c ∷ _) = is_delimiter c ≡ true

abbrev IsDigits : Text → Type 0
IsDigits = All (λ c. is_digit c ≡ true)

decimal_value-append :
    (n : ℕ) (s t : Text) → decimal_value n (s ++ t) ≡ decimal_value (decimal_value n s) t
unfolding decimal_value
decimal_value-append n [] t = refl
decimal_value-append n (d ∷ s) t = decimal_value-append (n * 10 + (d - 48)) s t

decimal_value-decimal_digits : (f n : ℕ) → n < f → decimal_value 0 (decimal_digits f n) ≡ n
unfolding decimal_digits decimal_value
decimal_value-decimal_digits zero n h = absurd (omega arith)
decimal_value-decimal_digits (suc f) n h = elim (Bool-cases (ltb n 10)) [
  | inl e ↦ ground arith
  | inr e ↦ ground (
    arith,
    decimal_value-append 0 (decimal_digits f (n / 10)) ((48 + n % 10) ∷ []),
    decimal_value-decimal_digits f (n / 10),
  )
]

IsDigits-append : (s t : Text) → IsDigits s → IsDigits t → IsDigits (s ++ t)
IsDigits-append [] t h k = k
IsDigits-append (c ∷ s) t h k = (h.0, IsDigits-append s t h.1 k)

decimal_digits-IsDigits : (f n : ℕ) → IsDigits (decimal_digits f n)
unfolding decimal_digits is_digit
decimal_digits-IsDigits zero n = tt
decimal_digits-IsDigits (suc f) n = elim (Bool-cases (ltb n 10)) [
  | inl e ↦ rw e (ground arith, tt)
  | inr e ↦ rw e (
      IsDigits-append (decimal_digits f (n / 10)) _ (decimal_digits-IsDigits f (n / 10))
        (ground arith, tt))
]

-- a positive number starts with a digit other than 0
decimal_digits_first :
    (f n : ℕ) → n < f → 0 < n → (c : ℕ) × (t : Text) × (decimal_digits f n ≡ c ∷ t) × (48 < c)
unfolding decimal_digits
decimal_digits_first zero n h k = absurd (omega arith)
decimal_digits_first (suc f) n h k = elim (Bool-cases (ltb n 10)) [
  | inl e ↦ (48 + n, [], rw e, omega arith)
  | inr e ↦
      let (c, t, shape, big) = decimal_digits_first f (n / 10) (ground arith) (ground arith) in
      (c, t ++ (48 + n % 10) ∷ [], rw (e, shape), big)
]

-- the decimal form begins with a digit
pub decimal_head : (n : ℕ) → (c : ℕ) × (t : Text) × (decimal n ≡ c ∷ t) × (is_digit c ≡ true)
unfolding decimal decimal_digits is_digit
decimal_head zero = (48, [], refl, refl)
decimal_head (suc n) =
    let (c, t, shape, _) = decimal_digits_first (suc (suc n)) (suc n) (omega arith) (omega arith) in
    (c, t, shape, first_digit c t shape)
  where
    first_digit : (c : ℕ) (t : Text) → decimal (suc n) ≡ c ∷ t → is_digit c ≡ true
    first_digit c t e = (subst IsDigits e (decimal_digits-IsDigits (suc (suc n)) (suc n))).0

decimal_no_leading_zero : (n : ℕ) → has_leading_zero (decimal n) ≡ false
unfolding decimal decimal_digits
decimal_no_leading_zero zero = refl
decimal_no_leading_zero (suc n) =
    let (c, t, shape, big) =
      decimal_digits_first (suc (suc n)) (suc n) (omega arith) (omega arith) in
    rw shape (no_zero c t big)
  where
    no_zero : (c : ℕ) (t : Text) → 48 < c → has_leading_zero (c ∷ t) ≡ false
    no_zero c [] h = refl
    no_zero c (_ ∷ _) h = ground arith

is_nil-append : (s : Text) (c : ℕ) → is_nil (s ++ c ∷ []) ≡ false
is_nil-append [] c = refl
is_nil-append (_ ∷ _) c = refl

is_nil-decimal : (n : ℕ) → is_nil (decimal n) ≡ false
unfolding decimal decimal_digits
is_nil-decimal n = ground (arith, is_nil-append (decimal_digits n (n / 10)) (48 + n % 10))

span_digits_delimited : (t : Text) → IsDelimited t → span_digits t ≡ ([], t)
unfolding span_digits is_digit
span_digits_delimited [] h = refl
span_digits_delimited (c ∷ t) h = ground arith

span_digits-append : (s t : Text) → IsDigits s → IsDelimited t → span_digits (s ++ t) ≡ (s, t)
unfolding span_digits
span_digits-append [] t h k = span_digits_delimited t k
span_digits-append (c ∷ s) t h k = rw (span_digits-append s t h.1 k, h.0)

starts_fraction_delimited : (t : Text) → IsDelimited t → starts_fraction t ≡ false
starts_fraction_delimited [] h = refl
starts_fraction_delimited (c ∷ t) h = ground arith

module _ (negative : Bool) (n : ℕ) (z : ℤ) (t : Text) (o : ℕ) where
  read_integer-decimal :
      parse_int64 negative n ≡ some z
      → IsDelimited t
      → read_integer negative (record { rest = decimal n ++ t; offset = o })
        ≡ ok (integer z, record { rest = t; offset = o + length (decimal n) })
  unfolding read_integer decimal
  read_integer-decimal e k = simp (
    span_digits-append (decimal n) t (decimal_digits-IsDigits (suc n) n) k,
    is_nil-decimal n,
    starts_fraction_delimited t k,
    decimal_no_leading_zero n,
    decimal_value-decimal_digits (suc n) n (omega arith),
    e,
  )

-- a digit in front is no minus sign
peek_digit :
    (n : ℕ) (t : Text) (o : ℕ) → peek_is (record { rest = decimal n ++ t; offset = o }) 45 ≡ false
unfolding decimal decimal_digits
peek_digit zero t o = refl
peek_digit (suc n) t o =
    let (c, s, shape, big) =
      decimal_digits_first (suc (suc n)) (suc n) (omega arith) (omega arith) in
    rw shape (ground arith)

pub parse_integer-integer_text :
    (z : ℤ) (t : Text) (o : ℕ)
    → IsInt64 z
    → IsDelimited t
    → parse_integer (record { rest = integer_text z ++ t; offset = o })
      ≡ ok (integer z, record { rest = t; offset = o + length (integer_text z) })
unfolding parse_integer integer_text
parse_integer-integer_text (pos n) t o h k =
    rw (peek_digit n t o)
      (read_integer-decimal false n (pos n) t o (unfold parse_int64 in ground arith) k)
parse_integer-integer_text (negsuc n) t o h k =
    read_integer-decimal true (suc n) (negsuc n) t (o + 1) (unfold parse_int64 in ground arith) k
    ∙ ground arith
