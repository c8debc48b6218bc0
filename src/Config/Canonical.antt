-- ===== src/Config/Canonical.antt =====
-- crates/pantheon-core/src/config/canonical.rs, the encoding. `out.push_str` is `++`. A loop over
-- the characters of a string is one over its bytes: those that it escapes are single bytes, and all
-- others are emitted as they are.
use pantheon.Base.{
  ℕ, zero, suc, ◌+◌, ◌/◌, ◌%◌, true, false, [], ◌∷◌, ◌++◌, Text, text, ltb, ◌==◌, if◌then◌else◌,
}
use pantheon.Base.Int.{ℤ, pos, negsuc}
use pantheon.Config.Value.{
  Value, Values, Entries, null, bool, integer, string, array, object, nil, cons, end, entry,
}

-- a decimal or hexadecimal digit, `char::from_digit`
unfoldable pub from_digit : ℕ → ℕ
from_digit d = if ltb d 10 then 48 + d else 87 + d

unfoldable pub decimal_digits : ℕ → ℕ → Text
decimal_digits zero n = []
decimal_digits (suc f) n =
    let front = decimal_digits f (n / 10) in
    if ltb n 10 then (48 + n) ∷ [] else front ++ (48 + n % 10) ∷ []

-- `to_string` of an unsigned number: one digit more than its value is fuel enough
unfoldable pub decimal : ℕ → Text
unfolding decimal_digits
decimal n = decimal_digits (suc n) n

-- `i64::to_string`
unfoldable pub integer_text : ℤ → Text
integer_text (pos n) = decimal n
integer_text (negsuc n) = b'-' ∷ decimal (suc n)

-- the four nibbles of the code, from the top
unfoldable pub unicode_text : ℕ → Text
unfolding from_digit
unicode_text code =
    b'\\'
    ∷ b'u'
    ∷ from_digit (code / 4096 % 16)
    ∷ from_digit (code / 256 % 16)
    ∷ from_digit (code / 16 % 16)
    ∷ from_digit (code % 16)
    ∷ []

unfoldable pub escape : ℕ → Text
unfolding unicode_text
escape c =
    if c == b'"'
    then b'\\' ∷ b'"' ∷ []
    else if c == b'\\'
    then b'\\' ∷ b'\\' ∷ []
    else if c == 10
    then b'\\' ∷ b'n' ∷ []
    else if c == 13
    then b'\\' ∷ b'r' ∷ []
    else if c == 9
    then b'\\' ∷ b't' ∷ []
    else if ltb c 0x20
    then unicode_text c
    else c ∷ []

unfoldable pub write_characters : Text → Text
unfolding escape
write_characters [] = []
write_characters (c ∷ s) = escape c ++ write_characters s

unfoldable pub write_canonical_string : Text → Text
unfolding write_characters
write_canonical_string s = b'"' ∷ (write_characters s ++ b'"' ∷ [])

-- the elements and the entries behind the first one are preceded by a comma
unfoldable mutual
  pub write_canonical : Value → Text
  write_canonical null = text "null"
  write_canonical (bool true) = text "true"
  write_canonical (bool false) = text "false"
  write_canonical (integer z) = integer_text z
  write_canonical (string s) = write_canonical_string s
  write_canonical (array nil) = b'[' ∷ b']' ∷ []
  write_canonical (array (cons v l)) = b'[' ∷ (write_canonical v ++ write_elements l)
  write_canonical (object end) = b'{' ∷ b'}' ∷ []
  write_canonical (object (entry k v m)) =
      b'{' ∷ (write_canonical_string k ++ (b':' ∷ (write_canonical v ++ write_entries m)))

  pub write_elements : Values → Text
  write_elements nil = b']' ∷ []
  write_elements (cons v l) = b',' ∷ (write_canonical v ++ write_elements l)

  pub write_entries : Entries → Text
  write_entries end = b'}' ∷ []
  write_entries (entry k v m) =
      b',' ∷ (write_canonical_string k ++ (b':' ∷ (write_canonical v ++ write_entries m)))
