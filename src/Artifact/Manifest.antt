-- ===== src/Artifact/Manifest.antt =====
-- The manifest spelling of a path: `encode_path`, `decode_manifest_string`, `to_manifest_string` and
-- `from_manifest_string` of crates/pantheon-core/src/artifact.rs.
pub mod Roundtrip
use pantheon.Base.{
  ℕ, zero, suc, ◌+◌, ◌*◌, ◌/◌, ◌%◌, ◌≡◌, Bool, true, false, ◌&&◌, not, Option, none, some, List, [],
  ◌∷◌, Text, ltb, leb, ◌==◌, if◌then◌else◌, length, Result, ok, err,
}
use pantheon.Config.Canonical.{from_digit}
use pantheon.Config.Parse.Strings.{hex_digit}
use pantheon.Artifact.Path.{PathReason, from_bytes, contains_byte}

-- the ranges of the bytes that follow a first byte of `std::str::from_utf8`, or none
unfoldable pub continuation : ℕ → Option (List (ℕ × ℕ))
continuation b =
    if ltb b 0x80
    then some []
    else if leb 0xc2 b && leb b 0xdf
    then some (tail ∷ [])
    else if b == 0xe0
    then some ((0xa0, 0xbf) ∷ tail ∷ [])
    else if b == 0xed
    then some ((0x80, 0x9f) ∷ tail ∷ [])
    else if leb 0xe1 b && leb b 0xef
    then some (tail ∷ tail ∷ [])
    else if b == 0xf0
    then some ((0x90, 0xbf) ∷ tail ∷ tail ∷ [])
    else if leb 0xf1 b && leb b 0xf3
    then some (tail ∷ tail ∷ tail ∷ [])
    else if b == 0xf4
    then some ((0x80, 0x8f) ∷ tail ∷ tail ∷ [])
    else none
  where
    tail : ℕ × ℕ
    tail = (0x80, 0xbf)

unfoldable pub is_utf8_from : List (ℕ × ℕ) → Text → Bool
unfolding continuation
is_utf8_from [] [] = true
is_utf8_from (_ ∷ _) [] = false
is_utf8_from [] (b ∷ t) = elim (continuation b) [ none ↦ false | some r ↦ is_utf8_from r t ]
is_utf8_from ((lo, hi) ∷ r) (b ∷ t) =
    let rest = is_utf8_from r t in if leb lo b && leb b hi then rest else false

unfoldable pub is_utf8 : Text → Bool
unfolding is_utf8_from
is_utf8 = is_utf8_from []

-- `{byte:02x}` of every byte
unfoldable pub hex_pairs : Text → Text
hex_pairs [] = []
hex_pairs (b ∷ t) = from_digit (b / 16) ∷ from_digit (b % 16) ∷ hex_pairs t

unfoldable pub encode_path : Text → Text
encode_path bytes =
    if is_utf8 bytes && not (contains_byte b'%' bytes) then bytes else b'%' ∷ hex_pairs bytes

-- the pairs of hexadecimal digits, none on an odd count; `(high << 4) | low` is `* 16 +`
unfoldable pub decode_pairs : Text → Option Text
decode_pairs [] = some []
decode_pairs (_ ∷ []) = none
decode_pairs (high ∷ low ∷ t) = elim (hex_digit high) [
  | none ↦ none
  | some h ↦ elim (hex_digit low) [
    | none ↦ none
    | some l ↦ elim (decode_pairs t) [ none ↦ none | some bytes ↦ some ((h * 16 + l) ∷ bytes) ]
  ]
]

unfoldable pub decode_manifest_string : Text → Option Text
decode_manifest_string [] = some []
decode_manifest_string (c ∷ t) = if c == b'%' then decode_pairs t else some (c ∷ t)

pub data ManifestError : Type 0 where
  invalid_spelling : ManifestError
  invalid_path : PathReason → ManifestError

unfoldable pub from_manifest_string : Text → Result ManifestError Text
from_manifest_string t = elim (decode_manifest_string t) [
  | none ↦ err invalid_spelling
  | some bytes ↦ elim (from_bytes bytes) [ ok p ↦ ok p | err e ↦ err (invalid_path e) ]
]

abbrev pub to_manifest_string : Text → Text
to_manifest_string = encode_path
