-- ===== src/Config/Parse/Utf8.antt =====
-- config/parse.rs, `unicode_escape`: the test of `std::str::from_utf8` on the four bytes. They may end
-- inside a character of the source.
use pantheon.Base.{ℕ, Bool, true, ◌&&◌, ◌||◌, [], ◌∷◌, Text, leb, ltb, ◌==◌}

abbrev pub within : ℕ → ℕ → ℕ → Bool
within a b c = leb a c && leb c b

-- the first two bytes of a character of three or four bytes: no longer spelling than needed, no
-- surrogate, nothing above U+10FFFF
unfoldable pub opens_triple : ℕ → ℕ → Bool
opens_triple a b =
    (a == 0xe0 && within 0xa0 0xbf b)
    || (((within 0xe1 0xec a || within 0xee 0xef a) && within 0x80 0xbf b)
        || (a == 0xed && within 0x80 0x9f b))

unfoldable pub opens_quadruple : ℕ → ℕ → Bool
opens_quadruple a b =
    (a == 0xf0 && within 0x90 0xbf b)
    || ((within 0xf1 0xf3 a && within 0x80 0xbf b) || (a == 0xf4 && within 0x80 0x8f b))

unfoldable pub is_utf8 : Text → Bool
unfolding opens_triple opens_quadruple
is_utf8 [] = true
is_utf8 (a ∷ []) = ltb a 0x80
is_utf8 (a ∷ b ∷ []) =
    let rest = is_utf8 (b ∷ []) in
    (ltb a 0x80 && rest) || (within 0xc2 0xdf a && within 0x80 0xbf b)
is_utf8 (a ∷ b ∷ c ∷ []) =
    let rest = is_utf8 (b ∷ c ∷ []) in
    let rest₂ = is_utf8 (c ∷ []) in
    (ltb a 0x80 && rest)
    || ((within 0xc2 0xdf a && within 0x80 0xbf b && rest₂)
        || (opens_triple a b && within 0x80 0xbf c))
is_utf8 (a ∷ b ∷ c ∷ d ∷ t) =
    let rest = is_utf8 (b ∷ c ∷ d ∷ t) in
    let rest₂ = is_utf8 (c ∷ d ∷ t) in
    let rest₃ = is_utf8 (d ∷ t) in
    let rest₄ = is_utf8 t in
    (ltb a 0x80 && rest)
    || ((within 0xc2 0xdf a && within 0x80 0xbf b && rest₂)
        || ((opens_triple a b && within 0x80 0xbf c && rest₃)
            || (opens_quadruple a b && within 0x80 0xbf c && within 0x80 0xbf d && rest₄)))
