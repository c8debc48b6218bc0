-- ===== src/Base/Fallible.antt =====
-- Rust's `Result`, with `?` as bind.
use mathlib.Core.Path.{◌≡◌, refl, sym}
use mathlib.Core.Bool.{Bool, true, false}
use mathlib.Core.Option.{Option, none, some}
use mathlib.Core.List.{List, [], ◌∷◌}

pub data Result {ℓ} (E A : Type ℓ) : Type ℓ where
  ok : A → Result E A
  err : E → Result E A

infixl 5 ◌>>=◌ ◌>>◌
abbrev pub ◌>>=◌ {ℓ} : {E A B : Type ℓ} → Result E A → (A → Result E B) → Result E B
ok a >>= f = f a
err e >>= f = err e

abbrev pub ◌>>◌ {ℓ} : {E A B : Type ℓ} → Result E A → Result E B → Result E B
m >> k = m >>= λ _. k

-- an early `return Err(e)` under a test
abbrev pub refuse_if {ℓ} : {E : Type ℓ} → Bool → E → Result E Unit
refuse_if true e = err e
refuse_if false e = ok tt

-- `ok_or`
abbrev pub ok_or {ℓ} : {E A : Type ℓ} → Option A → E → Result E A
ok_or none e = err e
ok_or (some a) e = ok a

-- `map(f).collect::<Result<Vec<_>, _>>()`
abbrev pub collect {ℓ} : {E A B : Type ℓ} → (A → Result E B) → List A → Result E (List B)
collect f [] = ok []
collect f (x ∷ xs) = f x >>= λ y. collect f xs >>= λ ys. ok (y ∷ ys)

-- a chain that succeeds went through a value
pub >>=-eq-ok {ℓ} :
    {E A B : Type ℓ} (m : Result E A) (next : A → Result E B) {out : B}
    → (m >>= next) ≡ ok out
    → (value : A) × (m ≡ ok value) × (next value ≡ ok out)
>>=-eq-ok (err _) next whole = cc
>>=-eq-ok (ok value) next whole = (value, refl, whole)

pub ok_injective {ℓ} : {E A : Type ℓ} {a b : A} → ◌≡◌ {A = Result E A} (ok a) (ok b) → a ≡ b
ok_injective h = cc

pub collect_cons {ℓ} :
    {E A B : Type ℓ} (f : A → Result E B) (x : A) (xs : List A) (l : List B)
    → collect f (x ∷ xs) ≡ ok l
    → (y : B) × (ys : List B) × (f x ≡ ok y) × (collect f xs ≡ ok ys) × (l ≡ y ∷ ys)
collect_cons f x xs l h =
    let (y, e, h') = >>=-eq-ok (f x) _ h in
    let (ys, e', h'') = >>=-eq-ok (collect f xs) _ h' in (y, ys, e, e', sym (ok_injective h''))

pub collect_nil {ℓ} :
    {E A B : Type ℓ} (f : A → Result E B) (l : List B) → collect f [] ≡ ok l → l ≡ []
collect_nil f l h = sym (ok_injective h)
