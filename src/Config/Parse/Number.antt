-- ===== src/Config/Parse/Number.antt =====
-- config/parse.rs, `integer`.
use pantheon.Base.{
  ℕ, zero, suc, ◌+◌, ◌-◌, ◌*◌, ◌^◌, Bool, true, false, ◌&&◌, ◌||◌, Option, none, some, [], ◌∷◌,
  Text, ltb, leb, ◌==◌, if◌then◌else◌, ok, length, is_nil,
}
use pantheon.Base.Int.{ℤ, pos, negsuc}
use pantheon.Config.Value.{Value, integer}
use pantheon.Config.Parse.Scanner.{
  Parser, Parsed, fail, head?, advance, peek_is, expected_digit, fraction, leading_zeros,
  out_of_range,
}

unfoldable pub is_digit : ℕ → Bool
is_digit c = leb b'0' c && leb c b'9'

-- the digits in front, and what follows them
unfoldable pub span_digits : Text → Text × Text
unfolding is_digit
span_digits [] = ([], [])
span_digits (c ∷ t) =
    let (digits, rest) = span_digits t in if is_digit c then (c ∷ digits, rest) else ([], c ∷ t)

unfoldable pub decimal_value : ℕ → Text → ℕ
decimal_value n [] = n
decimal_value n (d ∷ t) = decimal_value (n * 10 + (d - 48)) t

-- `text.parse::<i64>()` of a sign and digits
unfoldable pub parse_int64 : Bool → ℕ → Option ℤ
parse_int64 false n = if ltb n (2 ^ 63) then some (pos n) else none
parse_int64 true zero = some (pos 0)
parse_int64 true (suc n) = if ltb n (2 ^ 63) then some (negsuc n) else none

abbrev pub starts_fraction : Text → Bool
starts_fraction t = elim (head? t) [ none ↦ false | some c ↦ c == b'.' || c == b'e' || c == b'E' ]

abbrev pub has_leading_zero : Text → Bool
has_leading_zero [] = false
has_leading_zero (_ ∷ []) = false
has_leading_zero (c ∷ _ ∷ _) = c == b'0'

unfoldable pub read_integer : Bool → Parser → Parsed Value
unfolding span_digits decimal_value parse_int64
read_integer negative p =
    let (digits, rest) = span_digits p.rest in
    let q : Parser = record { rest = rest; offset = p.offset + length digits } in
    if is_nil digits
    then fail q expected_digit
    else if starts_fraction rest
    then fail q fraction
    else if has_leading_zero digits
    then fail q leading_zeros
    else elim (parse_int64 negative (decimal_value 0 digits)) [
      | none ↦ fail q out_of_range
      | some z ↦ ok (integer z, q)
    ]

unfoldable pub parse_integer : Parser → Parsed Value
unfolding read_integer
parse_integer p = if peek_is p b'-' then read_integer true (advance 1 p) else read_integer false p
