-- ===== src/Config/Parse/Strings.antt =====
-- config/parse.rs, `string` and `unicode_escape`. The loop that copies a string goes byte by byte:
-- no byte of a longer character is a quote, a backslash or a control character, and a `&str` is
-- valid UTF-8, so the source's steps over whole characters copy the same bytes.
use pantheon.Base.{
  ℕ, zero, suc, ◌+◌, ◌-◌, ◌*◌, ◌/◌, ◌%◌, ◌&&◌, Option, none, some, [], ◌∷◌, ◌++◌, Text, ltb, leb,
  ◌==◌, if◌then◌else◌, Result, ok, err, ◌>>=◌, length,
}
use pantheon.Config.Parse.Scanner.{
  ParseError, Parser, Parsed, fail, expect, unterminated_string, unterminated_escape,
  control_character, truncated_escape, invalid_escape, invalid_utf8, not_scalar, out_of_fuel,
  unknown_escape,
}
use pantheon.Config.Parse.Utf8.{is_utf8}

-- `char::to_digit(16)`
unfoldable pub hex_digit : ℕ → Option ℕ
hex_digit c =
    if leb b'0' c && leb c b'9'
    then some (c - 48)
    else if leb b'a' c && leb c b'f'
    then some (c - 87)
    else if leb b'A' c && leb c b'F'
    then some (c - 55)
    else none

-- the digits of `u32::from_str_radix(_, 16)`; four of them do not overflow
unfoldable pub hex_value : ℕ → Text → Option ℕ
unfolding hex_digit
hex_value n [] = some n
hex_value n (c ∷ t) = elim (hex_digit c) [ none ↦ none | some d ↦ hex_value (n * 16 + d) t ]

-- it takes a plus sign in front of at least one digit
unfoldable pub radix_16 : Text → Option ℕ
unfolding hex_value
radix_16 [] = none
radix_16 (c ∷ []) = hex_value 0 (c ∷ [])
radix_16 (c ∷ d ∷ t) = if c == b'+' then hex_value 0 (d ∷ t) else hex_value 0 (c ∷ d ∷ t)

-- the UTF-8 bytes of a character below 2^16
unfoldable pub encode_utf8 : ℕ → Text
encode_utf8 n =
    if ltb n 0x80
    then n ∷ []
    else if ltb n 0x800
    then (0xc0 + n / 64) ∷ (0x80 + n % 64) ∷ []
    else (0xe0 + n / 4096) ∷ (0x80 + n / 64 % 64) ∷ (0x80 + n % 64) ∷ []

-- at the four bytes behind `\\u`. Bytes that are a number are ASCII, so their form is asked for when
-- they are none.
unfoldable pub escape_at : Text → ℕ → Parsed Text
unfolding radix_16 encode_utf8 is_utf8
escape_at (a ∷ b ∷ c ∷ d ∷ t) o = elim (radix_16 (a ∷ b ∷ c ∷ d ∷ [])) [
  | none ↦ err (record {
    offset = o;
    detail = if is_utf8 (a ∷ b ∷ c ∷ d ∷ []) then invalid_escape else invalid_utf8;
  })
  | some n ↦
      let q : Parser = record { rest = t; offset = o + 4 } in
      if leb 0xd800 n && leb n 0xdfff then fail q not_scalar else ok (encode_utf8 n, q)
]
escape_at _ o = err (record { offset = o; detail = truncated_escape })

unfoldable pub unicode_escape : Parser → Parsed Text
unfolding escape_at
unicode_escape p = escape_at p.rest p.offset

-- what one round of the loop in `string` does: it ends, or pushes a text
pub data Round : Type 0 where
  closed : Parser → Round
  pushed : Text → Parser → Round

unfoldable pub short_escape : ℕ → Option ℕ
short_escape c =
    if c == b'"'
    then some b'"'
    else if c == b'\\'
    then some b'\\'
    else if c == b'/'
    then some b'/'
    else if c == b'n'
    then some 10
    else if c == b'r'
    then some 13
    else if c == b't'
    then some 9
    else if c == b'b'
    then some 8
    else if c == b'f'
    then some 12
    else none

-- behind the backslash
unfoldable pub read_escape : Text → ℕ → Result ParseError Round
unfolding short_escape unicode_escape
read_escape [] o = err (record { offset = o; detail = unterminated_escape })
read_escape (c ∷ t) o =
    let q : Parser = record { rest = t; offset = o + 1 } in
    if c == b'u'
    then unicode_escape q >>= (λ (r : Text × Parser). ok (pushed r.0 r.1))
    else elim (short_escape c) [
      | none ↦ fail q (unknown_escape c)
      | some d ↦ ok (pushed (d ∷ []) q)
    ]

unfoldable pub read_round : Text → ℕ → Result ParseError Round
unfolding read_escape
read_round [] o = err (record { offset = o; detail = unterminated_string })
read_round (c ∷ t) o =
    let q : Parser = record { rest = t; offset = o + 1 } in
    if c == b'"'
    then ok (closed q)
    else if c == b'\\'
    then read_escape t (o + 1)
    else if ltb c 0x20
    then err (record { offset = o; detail = control_character })
    else ok (pushed (c ∷ []) q)

-- every round takes a byte, so the length of the rest is fuel enough
unfoldable pub string_loop : ℕ → Text → Parser → Parsed Text
string_loop zero out p = fail p out_of_fuel
string_loop (suc f) out p = elim (read_round p.rest p.offset) [
  | err e ↦ err e
  | ok r ↦ elim r [ closed q ↦ ok (out, q) | pushed t q ↦ string_loop f (out ++ t) q ]
]

unfoldable pub parse_string : Parser → Parsed Text
unfolding expect
parse_string p = do q ← expect b'"' p; string_loop (suc (length q.rest)) [] q
