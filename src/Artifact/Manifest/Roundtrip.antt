-- ===== src/Artifact/Manifest/Roundtrip.antt =====
-- The manifest spelling names exactly one path.
use pantheon.Base.{
  ℕ, ◌+◌, ◌*◌, ◌/◌, ◌%◌, ◌<◌, ◌≡◌, refl, ap, false, ◌&&◌, not, some, [], ◌∷◌, Text, All, ok,
  Bool-cases, inl, inr, arith,
}
use pantheon.Config.Canonical.{from_digit}
use pantheon.Config.Parse.Strings.{hex_digit}
use pantheon.Artifact.Path.{from_bytes, contains_byte}
use pantheon.Artifact.Manifest.{
  is_utf8, hex_pairs, encode_path, decode_pairs, decode_manifest_string, from_manifest_string,
  to_manifest_string,
}

hex_digit-from_digit : (n : ℕ) → n < 16 → hex_digit (from_digit n) ≡ some n
unfolding hex_digit from_digit
hex_digit-from_digit n h = ground arith

decode_pairs-cons :
    (b : ℕ) (t s : Text)
    → decode_pairs s ≡ some t
    → b < 256
    → decode_pairs (from_digit (b / 16) ∷ from_digit (b % 16) ∷ s) ≡ some (b ∷ t)
unfolding decode_pairs
decode_pairs-cons b t s e h =
    rw
      (
        hex_digit-from_digit (b / 16) (omega arith),
        hex_digit-from_digit (b % 16) (omega arith),
        e,
        decode_pairs,
      )
      (ap (λ x. some (x ∷ t)) (byte_of_nibbles b))
  where
    byte_of_nibbles : (b : ℕ) → b / 16 * 16 + b % 16 ≡ b
    byte_of_nibbles b = omega arith

decode_pairs-hex_pairs : (t : Text) → All (λ b. b < 256) t → decode_pairs (hex_pairs t) ≡ some t
unfolding hex_pairs
decode_pairs-hex_pairs [] h = unfold decode_pairs in refl
decode_pairs-hex_pairs (b ∷ t) h =
    decode_pairs-cons b t (hex_pairs t) (decode_pairs-hex_pairs t h.1) h.0

-- a literal spelling never begins with the mark of the escaped form
decode_literal : (t : Text) → contains_byte b'%' t ≡ false → decode_manifest_string t ≡ some t
unfolding decode_manifest_string
decode_literal [] h = refl
decode_literal (b ∷ t) h = ground arith

-- The manifest spelling of any bytes, valid UTF-8 or not, decodes to exactly these bytes.
pub decode-encode_path :
    (bytes : Text)
    → All (λ b. b < 256) bytes
    → decode_manifest_string (encode_path bytes) ≡ some bytes
unfolding encode_path
decode-encode_path bytes h = elim (Bool-cases (is_utf8 bytes && not (contains_byte b'%' bytes))) [
  | inl e ↦ rw e (decode_literal bytes (ground arith))
  | inr e ↦ rw e (unfold decode_manifest_string in decode_pairs-hex_pairs bytes h)
]

-- A path that capture accepted is read back, and accepted, from its manifest spelling.
pub from_manifest-to_manifest :
    (path : Text)
    → All (λ b. b < 256) path
    → from_bytes path ≡ ok path
    → from_manifest_string (to_manifest_string path) ≡ ok path
unfolding from_manifest_string
from_manifest-to_manifest path h e = rw (decode-encode_path path h, e, from_manifest_string)
