-- ===== src/Config/Roundtrip/Strings.antt =====
-- The canonical form of a string is read back by `string`.
use mathlib.Core.List.{append_assoc, append-nil}
use pantheon.Base.{
  ℕ, zero, suc, ◌+◌, ◌/◌, ◌%◌, ◌<◌, ◌≤◌, ◌≡◌, ◌∙◌, Bool, true, false, ◌||◌, [], ◌∷◌, ◌++◌, Text,
  ltb, ◌==◌, ok, length, length-append, arith, inl, inr, Bool-cases,
}
use pantheon.Config.Canonical.{
  escape, from_digit, unicode_text, write_characters, write_canonical_string,
}
use pantheon.Config.Parse.Scanner.{Parser}
use pantheon.Config.Roundtrip.Position.{same_offset}
use pantheon.Config.Parse.Strings.{
  escape_at, pushed, short_escape, read_round, string_loop, parse_string,
}

-- the four digits of a control character give it back
escape_at-control :
    (c o : ℕ) (t : Text)
    → c < 32
    → escape_at
        (from_digit (c / 4096 % 16)
          ∷ from_digit (c / 256 % 16)
          ∷ from_digit (c / 16 % 16)
          ∷ from_digit (c % 16)
          ∷ t)
        o
      ≡ ok (c ∷ [], record { rest = t; offset = o + 4 })
unfolding escape_at from_digit
escape_at-control c o t h = ground arith

abbrev ReadsBack : ℕ → ℕ → Text → Type 0
ReadsBack c o t =
    read_round (escape c ++ t) o
    ≡ ok (pushed (c ∷ []) (record { rest = t; offset = o + length (escape c) }))

read_round-printable : (c o : ℕ) (t : Text) → 32 ≤ c → ReadsBack c o t
unfolding read_round short_escape escape
read_round-printable c o t h = ground arith

-- the control characters without a short form
abbrev is_short : ℕ → Bool
is_short c = c == 10 || c == 13 || c == 9

escape-control : (c : ℕ) → c < 32 → is_short c ≡ false → escape c ≡ unicode_text c
unfolding escape
escape-control c h k = ground arith

read_round-control : (c o : ℕ) (t : Text) → c < 32 → is_short c ≡ false → ReadsBack c o t
read_round-control c o t h k =
    rw (escape-control c h k)
      (unfold read_round unicode_text in rw (escape_at-control c (o + 1 + 1) t h) (ground arith))

read_round-short : (c o : ℕ) (t : Text) → is_short c ≡ true → ReadsBack c o t
unfolding read_round short_escape escape
read_round-short c o t h = ground arith

read_round-escape : (c o : ℕ) (t : Text) → ReadsBack c o t
read_round-escape c o t = elim (Bool-cases (ltb c 32)) [
  | inr e ↦ read_round-printable c o t (ground arith)
  | inl e ↦ elim (Bool-cases (is_short c)) [
    | inl k ↦ read_round-short c o t k
    | inr k ↦ read_round-control c o t (ground arith) k
  ]
]

length-escape : (c : ℕ) → 1 ≤ length (escape c)
unfolding escape
length-escape c = ground arith

string_loop_pushed :
    (f : ℕ) (out t : Text) (p q : Parser)
    → read_round p.rest p.offset ≡ ok (pushed t q)
    → string_loop (suc f) out p ≡ string_loop f (out ++ t) q
unfolding string_loop
string_loop_pushed f out t p q h = rw (h, string_loop)

string_loop-write_characters :
    (f : ℕ) (s out t : Text) (o : ℕ)
    → length s < f
    → string_loop f out (record { rest = write_characters s ++ (b'"' ∷ t); offset = o })
      ≡ ok (out ++ s, record { rest = t; offset = o + length (write_characters s) + 1 })
unfolding write_characters
string_loop-write_characters zero s out t o h = absurd (omega arith)
string_loop-write_characters (suc f) [] out t o h =
    unfold string_loop read_round in simp append-nil (ground arith)
string_loop-write_characters (suc f) (c ∷ s) out t o h =
    rw (append_assoc (escape c) (write_characters s) (b'"' ∷ t)) (
      string_loop_pushed f out (c ∷ []) _ _
        (read_round-escape c o (write_characters s ++ (b'"' ∷ t)))
      ∙ string_loop-write_characters f s (out ++ c ∷ []) t (o + length (escape c)) (omega arith)
      ∙ rw (append_assoc out (c ∷ []) s) (
          same_offset (out ++ c ∷ s) t
            (omega (arith, length-append (escape c) (write_characters s)))))

length-write_characters : (s : Text) → length s ≤ length (write_characters s)
unfolding write_characters
length-write_characters [] = omega arith
length-write_characters (c ∷ s) = omega (
  arith,
  length-append (escape c) (write_characters s),
  length-escape c,
  length-write_characters s,
)

pub parse_string-write :
    (s t : Text) (o : ℕ)
    → parse_string (record { rest = write_canonical_string s ++ t; offset = o })
      ≡ ok (s, record { rest = t; offset = o + length (write_canonical_string s) })
unfolding parse_string write_canonical_string
parse_string-write s t o = rw (append_assoc (write_characters s) (b'"' ∷ []) t) (
    string_loop-write_characters _ s [] t (o + 1)
      (omega (arith, length-write_characters s, length-append (write_characters s) (b'"' ∷ t)))
    ∙ same_offset s t (omega (arith, length-append (write_characters s) (b'"' ∷ []))))
