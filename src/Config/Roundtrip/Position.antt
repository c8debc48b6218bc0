-- ===== src/Config/Roundtrip/Position.antt =====
-- Two successful results are equal when their offsets are.
use pantheon.Base.{ℕ, ◌≡◌, ap, Text, ok}
use pantheon.Config.Parse.Scanner.{Parsed}

pub same_offset :
    {A : Type 0} (a : A) (t : Text) {o o' : ℕ}
    → o ≡ o'
    → ◌≡◌ {A = Parsed A}
        (ok (a, record { rest = t; offset = o }))
        (ok (a, record { rest = t; offset = o' }))
same_offset {A} a t e = ap {B = Parsed A} (λ o. ok (a, record { rest = t; offset = o })) e
