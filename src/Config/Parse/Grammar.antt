-- ===== src/Config/Parse/Grammar.antt =====
-- config/parse.rs, `value`, `array`, `object` and `parse`. The recursion takes fuel: two for each
-- byte, and one.
use pantheon.Base.{
  ℕ, zero, suc, ◌+◌, ◌*◌, Bool, true, false, ◌||◌, [], ◌∷◌, Text, text, ◌==◌, if◌then◌else◌, Result,
  ok, ◌>>=◌, ◌>>◌, refuse_if, length, is_nil, is_some,
}
use pantheon.Config.Value.{
  Value, Values, Entries, null, bool, string, array, object, nil, cons, end, insert_entry,
  get_entry,
}
use pantheon.Config.Parse.Scanner.{
  ParseError, Parser, Parsed, fail, advance, peek_is, skip_whitespace, expect, literal,
  trailing_content, unexpected_end, expected_comma_or_bracket, expected_comma_or_brace, out_of_fuel,
  unexpected_byte, duplicate_key,
}
use pantheon.Config.Parse.Number.{is_digit, parse_integer}
use pantheon.Config.Parse.Strings.{parse_string}

-- how `value` reads the byte ahead
pub data Lead : Type 0 where
  nothing : Lead
  null_word true_word false_word quote bracket brace number : Lead
  other : ℕ → Lead

unfoldable pub lead_of : ℕ → Lead
unfolding is_digit
lead_of c =
    if c == b'n'
    then null_word
    else if c == b't'
    then true_word
    else if c == b'f'
    then false_word
    else if c == b'"'
    then quote
    else if c == b'['
    then bracket
    else if c == b'{'
    then brace
    else if c == b'-' || is_digit c
    then number
    else other c

unfoldable pub lead : Text → Lead
unfolding lead_of
lead [] = nothing
lead (c ∷ _) = lead_of c

-- `values.push`
abbrev pub push : Values → Value → Values
push nil v = cons v nil
push (cons w l) v = cons w (push l v)

-- `entries.contains_key`
abbrev pub contains_key : Text → Entries → Bool
contains_key k m = is_some (get_entry k m)

-- `key`, with the test for a duplicate, and the colon
unfoldable pub parse_key : Entries → Parser → Parsed Text
unfolding expect
parse_key m p = do
  r ← parse_string p
  refuse_if (contains_key r.0 m) (record { offset = p.offset; detail = duplicate_key r.0 })
  q ← expect b':' (skip_whitespace r.1)
  ok (r.0, skip_whitespace q)

unfoldable mutual
  unfolding lead expect

  pub parse_value : ℕ → Parser → Parsed Value
  parse_value zero p = fail p out_of_fuel
  parse_value (suc f) p = elim (lead p.rest) [
    | nothing ↦ fail p unexpected_end
    | null_word ↦ literal (text "null") null p
    | true_word ↦ literal (text "true") (bool true) p
    | false_word ↦ literal (text "false") (bool false) p
    | quote ↦ parse_string p >>= (λ (r : Text × Parser). ok (string r.0, r.1))
    | bracket ↦ expect b'[' p >>= λ (o : Parser).
        let q = skip_whitespace o in
        elim (peek_is q b']') [ true ↦ ok (array nil, advance 1 q) | false ↦ parse_array f nil q ]
    | brace ↦ expect b'{' p >>= λ (o : Parser).
        let q = skip_whitespace o in
        elim (peek_is q b'}') [ true ↦ ok (object end, advance 1 q) | false ↦ parse_object f end q ]
    | number ↦ parse_integer p
    | other c ↦ fail p (unexpected_byte c)
  ]

  -- the loop of `array`
  pub parse_array : ℕ → Values → Parser → Parsed Value
  parse_array zero l p = fail p out_of_fuel
  parse_array (suc f) l p = parse_value f (skip_whitespace p) >>= λ (r : Value × Parser).
      let q = skip_whitespace r.1 in
      elim (peek_is q b',') [
        | true ↦ parse_array f (push l r.0) (advance 1 q)
        | false ↦ elim (peek_is q b']') [
          | true ↦ ok (array (push l r.0), advance 1 q)
          | false ↦ fail q expected_comma_or_bracket
        ]
      ]

  -- the loop of `object`
  pub parse_object : ℕ → Entries → Parser → Parsed Value
  parse_object zero m p = fail p out_of_fuel
  parse_object (suc f) m p = parse_key m (skip_whitespace p) >>= λ (k : Text × Parser).
      parse_value f k.1 >>= λ (r : Value × Parser).
      let q = skip_whitespace r.1 in
      let m' = insert_entry k.0 r.0 m in
      elim (peek_is q b',') [
        | true ↦ parse_object f m' (advance 1 q)
        | false ↦ elim (peek_is q b'}') [
          | true ↦ ok (object m', advance 1 q)
          | false ↦ fail q expected_comma_or_brace
        ]
      ]

unfoldable pub parse : Text → Result ParseError Value
parse source = do
  r ← parse_value (2 * length source + 1) (skip_whitespace (record { rest = source; offset = 0 }))
  let p = skip_whitespace r.1
  if is_nil p.rest then ok r.0 else fail p trailing_content
