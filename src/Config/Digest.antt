-- ===== src/Config/Digest.antt =====
-- crates/pantheon-core/src/config/digest.rs. SHA-256 is the parameter `sha256` of what digests; a
-- digest is its 32 bytes.
use pantheon.Base.{
  ℕ, zero, suc, ◌+◌, ◌-◌, ◌*◌, ◌/◌, ◌%◌, ◌<◌, ◌≡◌, refl, ap, subst, Bool, ◌&&◌, Option, none, some,
  List, [], ◌∷◌, ◌++◌, Text, text, leb, ◌==◌, if◌then◌else◌, length, strip_prefix, text_eq, All,
  arith,
}
use pantheon.Config.Canonical.{from_digit, write_canonical}
use pantheon.Config.Value.{Value}

abbrev pub Digest : Type 0
Digest = List ℕ

abbrev pub digest_eq : Digest → Digest → Bool
digest_eq = text_eq

abbrev pub Hasher : Type 0
Hasher = Text → Digest

-- `Value::digest`
unfoldable pub value_digest : Hasher → Value → Digest
value_digest sha256 v = sha256 (write_canonical v)

unfoldable pub hex_nibble : ℕ → Option ℕ
hex_nibble b =
    if leb b'0' b && leb b b'9'
    then some (b - b'0')
    else if leb b'a' b && leb b b'f'
    then some (b - b'a' + 10)
    else if leb b'A' b && leb b b'F'
    then some (b - b'A' + 10)
    else none

unfoldable pub to_hex : Digest → Text
to_hex [] = []
to_hex (b ∷ d) = from_digit (b / 16) ∷ from_digit (b % 16) ∷ to_hex d

-- `Display`
unfoldable pub display : Digest → Text
display d = text "sha256:" ++ to_hex d

-- the loop over the 32 pairs; `<< 4 |` of two nibbles is `* 16 +`
unfoldable pub from_hex : ℕ → Text → Option Digest
from_hex zero t = some []
from_hex (suc n) (high ∷ low ∷ t) = elim (hex_nibble high) [
  | none ↦ none
  | some h ↦ elim (hex_nibble low) [
    | none ↦ none
    | some l ↦ elim (from_hex n t) [ none ↦ none | some d ↦ some ((h * 16 + l) ∷ d) ]
  ]
]
from_hex (suc n) _ = none

unfoldable pub from_display : Text → Option Digest
from_display t = elim (strip_prefix (text "sha256:") t) [
  | none ↦ none
  | some hex ↦ if length hex == 64 then from_hex 32 hex else none
]

-- 32 bytes
pub record IsDigest (d : Digest) : Type 0 where
  pub width : length d ≡ 32
  pub bytes : All (λ b. b < 256) d

hex_nibble-from_digit : (n : ℕ) → n < 16 → hex_nibble (from_digit n) ≡ some n
unfolding hex_nibble from_digit
hex_nibble-from_digit n h = ground arith

byte_of_nibbles : (b : ℕ) → b / 16 * 16 + b % 16 ≡ b
byte_of_nibbles b = omega arith

from_hex-cons :
    (b : ℕ) (d : Digest) (n : ℕ) (t : Text)
    → b < 256
    → from_hex n t ≡ some d
    → from_hex (suc n) (from_digit (b / 16) ∷ from_digit (b % 16) ∷ t) ≡ some (b ∷ d)
from_hex-cons b d n t h e =
    step (hex_nibble-from_digit (b / 16) (omega arith))
      (hex_nibble-from_digit (b % 16) (omega arith))
  where
    step :
        hex_nibble (from_digit (b / 16)) ≡ some (b / 16)
        → hex_nibble (from_digit (b % 16)) ≡ some (b % 16)
        → from_hex (suc n) (from_digit (b / 16) ∷ from_digit (b % 16) ∷ t) ≡ some (b ∷ d)
    step p q =
        unfold from_hex in rw (p, q, e, from_hex) (ap (λ x. some (x ∷ d)) (byte_of_nibbles b))

from_hex-to_hex : (d : Digest) → All (λ b. b < 256) d → from_hex (length d) (to_hex d) ≡ some d
unfolding to_hex
from_hex-to_hex [] h = unfold from_hex in refl
from_hex-to_hex (b ∷ d) h = from_hex-cons b d (length d) (to_hex d) h.0 (from_hex-to_hex d h.1)

length-to_hex : (d : Digest) → length (to_hex d) ≡ 2 * length d
unfolding to_hex
length-to_hex [] = refl
length-to_hex (b ∷ d) = omega (arith, length-to_hex d)

-- The displayed form of a digest is read back: `sha256:` and 64 digits name exactly its 32 bytes.
pub from_display-display : (d : Digest) → IsDigest d → from_display (display d) ≡ some d
unfolding from_display display
from_display-display d h =
    rw (length-to_hex d, h.width)
      (subst (λ n. from_hex n (to_hex d) ≡ some d) h.width (from_hex-to_hex d h.bytes))
