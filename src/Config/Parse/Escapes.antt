-- ===== src/Config/Parse/Escapes.antt =====
-- crates/pantheon-core/src/config/parse.rs, `unicode_escape`: which spellings name a character.
use pantheon.Base.{ℕ, ◌≡◌, refl, ◌∷◌, Text}
use pantheon.Config.Parse.Strings.{hex_digit, hex_value, radix_16, escape_at}
use pantheon.Config.Parse.Utf8.{is_utf8}

-- A plus sign stands for a zero at the first of the four places of a `\u` escape: both texts have the
-- same outcome, an error or a character, whatever the other bytes are.
pub escape_at-plus :
    (a b c : ℕ) (t : Text) (offset : ℕ)
    → escape_at (b'+' ∷ a ∷ b ∷ c ∷ t) offset ≡ escape_at (b'0' ∷ a ∷ b ∷ c ∷ t) offset
unfolding escape_at radix_16 hex_value hex_digit is_utf8
escape_at-plus a b c t offset = refl
