-- ===== src/Config/Parse/Scanner.antt =====
-- config/parse.rs, the cursor. `rest` is `bytes[offset..]`. A message is a constructor of `Detail`.
use pantheon.Base.{
  ℕ, zero, suc, ◌+◌, Bool, false, ◌||◌, Option, none, some, [], ◌∷◌, Text, ◌==◌, if◌then◌else◌,
  Result, ok, err, length, strip_prefix,
}
use pantheon.Config.Value.{Value}

pub data Detail : Type 0 where
  trailing_content unexpected_end expected_digit fraction leading_zeros out_of_range : Detail
  unterminated_string unterminated_escape control_character truncated_escape : Detail
  invalid_escape invalid_utf8 not_scalar expected_comma_or_bracket expected_comma_or_brace
        out_of_fuel :
      Detail
  unexpected_byte unknown_escape expected_byte : ℕ → Detail
  expected_word duplicate_key : Text → Detail

pub record ParseError : Type 0 where
  pub offset : ℕ
  pub detail : Detail

pub record Parser : Type 0 where
  pub rest : Text
  pub offset : ℕ

abbrev pub Parsed : Type 0 → Type 0
Parsed A = Result ParseError (A × Parser)

abbrev pub fail : {A : Type 0} → Parser → Detail → Result ParseError A
fail p d = err (record { offset = p.offset; detail = d })

abbrev pub head? : Text → Option ℕ
head? [] = none
head? (c ∷ _) = some c

abbrev pub drop : ℕ → Text → Text
drop zero t = t
drop (suc n) [] = []
drop (suc n) (_ ∷ t) = drop n t

-- `self.offset += n`
abbrev pub advance : ℕ → Parser → Parser
advance n p = record { rest = drop n p.rest; offset = p.offset + n }

abbrev pub peek_is : Parser → ℕ → Bool
peek_is p b = elim (head? p.rest) [ none ↦ false | some c ↦ c == b ]

unfoldable pub is_whitespace : ℕ → Bool
is_whitespace c = c == b' ' || c == 9 || c == 10 || c == 13

unfoldable pub skip_from : Text → ℕ → Parser
unfolding is_whitespace
skip_from [] o = record { rest = []; offset = o }
skip_from (c ∷ t) o =
    let onward = skip_from t (o + 1) in
    if is_whitespace c then onward else record { rest = c ∷ t; offset = o }

unfoldable pub skip_whitespace : Parser → Parser
unfolding skip_from
skip_whitespace p = skip_from p.rest p.offset

unfoldable pub expect : ℕ → Parser → Result ParseError Parser
expect b p = if peek_is p b then ok (advance 1 p) else fail p (expected_byte b)

unfoldable pub literal : Text → Value → Parser → Parsed Value
literal word v p = elim (strip_prefix word p.rest) [
  | none ↦ fail p (expected_word word)
  | some t ↦ ok (v, record { rest = t; offset = p.offset + length word })
]
