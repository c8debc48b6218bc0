-- ===== src/Base/Accepts.antt =====
-- When a fallible computation returns a value: the lemmas that take a chain of checks apart.
use mathlib.Core.Path.{◌≡◌, refl, sym, subst}
use mathlib.Core.Logic.{◌↔◌, ◌≢◌, inl, inr}
use mathlib.Core.Bool.{Bool, true, false, not}
use mathlib.Core.Option.{Option, none, some}
use mathlib.Core.List.{List, [], ◌∷◌}
use native.Mathlib.Omega.{arith}
use pantheon.Base.Tests.{Bool-cases}
use pantheon.Base.Lists.{All, Any, All-map, is_nil}
use pantheon.Base.Bytes.{Text, text_eq, text_eq_iff, text_contains}
use pantheon.Base.Fallible.{Result, ok, err, ◌>>=◌, ◌>>◌, refuse_if, ok_or, collect, ok_injective}

-- a loop that returns at the first refusal
abbrev pub each {ℓ} : {E A : Type ℓ} → (A → Result E Unit) → List A → Result E Unit
each f [] = ok tt
each f (x ∷ xs) = f x >> each f xs

unfoldable pub IsOk {ℓ} : {E A : Type ℓ} → Result E A → Type 0
IsOk (ok _) = Unit
IsOk (err _) = ⊥

pub IsOk-ok {ℓ} : {E A : Type ℓ} {m : Result E A} (a : A) → m ≡ ok a → IsOk m
unfolding IsOk
IsOk-ok {m = m} a e = rw e tt

pub IsOk-value {ℓ} : {E A : Type ℓ} (m : Result E A) → IsOk m → (a : A) × (m ≡ ok a)
unfolding IsOk
IsOk-value (ok a) h = (a, refl)
IsOk-value (err _) h = absurd h

pub IsOk-bind {ℓ} :
    {E A B : Type ℓ} (m : Result E A) (f : A → Result E B)
    → IsOk (m >>= f)
    → IsOk m × ((a : A) → m ≡ ok a → IsOk (f a))
unfolding IsOk
IsOk-bind (ok a) f h = (tt, λ b e. subst (λ x. IsOk (f x)) (ok_injective e) h)
IsOk-bind (err _) f h = absurd h

pub IsOk->>= {ℓ} :
    {E A B : Type ℓ} (m : Result E A) (f : A → Result E B)
    → IsOk m
    → ((a : A) → m ≡ ok a → IsOk (f a))
    → IsOk (m >>= f)
unfolding IsOk
IsOk->>= (ok a) f h k = k a refl
IsOk->>= (err _) f h k = absurd h

pub IsOk-then {ℓ} :
    {E A B : Type ℓ} (m : Result E A) (k : Result E B) → IsOk (m >> k) ↔ (IsOk m × IsOk k)
unfolding IsOk
IsOk-then (ok a) k = (λ h. (tt, h), λ h. h.1)
IsOk-then (err e) k = (λ h. absurd h, λ h. h.0)

pub IsOk-refuse_if {ℓ} : {E : Type ℓ} (b : Bool) (e : E) → IsOk (refuse_if b e) ↔ (b ≡ false)
unfolding IsOk
IsOk-refuse_if true e = (λ h. absurd h, λ h. cc)
IsOk-refuse_if false e = (λ h. refl, λ h. tt)

pub IsOk-ok_or {ℓ} :
    {E A : Type ℓ} (o : Option A) (e : E) → IsOk (ok_or o e) → (a : A) × (o ≡ some a)
unfolding IsOk
IsOk-ok_or none e h = absurd h
IsOk-ok_or (some a) e h = (a, refl)

pub IsOk-each {ℓ} :
    {E A : Type ℓ} (f : A → Result E Unit) (l : List A) → IsOk (each f l) ↔ All (λ a. IsOk (f a)) l
unfolding IsOk
IsOk-each f [] = (λ h. h, λ h. h)
IsOk-each f (x ∷ xs) =
    let (to, from) = IsOk-then (f x) (each f xs) in
    let (to', from') = IsOk-each f xs in (λ h. ((to h).0, to' (to h).1), λ h. from (h.0, from' h.1))

pub IsOk-collect {ℓ} :
    {E A B : Type ℓ} (f : A → Result E B) (l : List A)
    → IsOk (collect f l) ↔ All (λ a. IsOk (f a)) l
unfolding IsOk
IsOk-collect f [] = (λ h. tt, λ h. tt)
IsOk-collect f (x ∷ xs) =
    let (to, from) = IsOk-collect f xs in
    (
      λ h.
          let (ha, next) = IsOk-bind (f x) _ h in
          let (y, e) = IsOk-value (f x) ha in (ha, to ((IsOk-bind (collect f xs) _ (next y e)).0)),
      λ h. IsOk->>= (f x) _ h.0 (λ y e. IsOk->>= (collect f xs) _ (from h.1) (λ ys e'. tt)),
    )

pub iff_trans {ℓ κ μ} : {A : Type ℓ} {B : Type κ} {C : Type μ} → A ↔ B → B ↔ C → A ↔ C
iff_trans f g = (λ a. g.0 (f.0 a), λ c. f.1 (g.1 c))

pub All-iff {ℓ κ μ} :
    {A : Type ℓ} {P : A → Type κ} {Q : A → Type μ}
    → ((a : A) → P a ↔ Q a)
    → (l : List A) → All P l ↔ All Q l
All-iff h l = (All-map l (λ a. (h a).0), All-map l (λ a. (h a).1))

-- a chain of checks passes when each of them does, said of the conditions that they stand for
pub refuse_if_iff {ℓ κ} :
    {E : Type ℓ} {P : Type κ} {b : Bool} (e : E) → (b ≡ false) ↔ P → IsOk (refuse_if b e) ↔ P
refuse_if_iff {b = b} e h = iff_trans (IsOk-refuse_if b e) h

pub then_iff {ℓ κ μ} :
    {E A B : Type ℓ} {P : Type κ} {Q : Type μ} (m : Result E A) (k : Result E B)
    → IsOk m ↔ P
    → IsOk k ↔ Q
    → IsOk (m >> k) ↔ (P × Q)
then_iff m k f g =
    let (to, from) = IsOk-then m k in
    (λ h. (f.0 (to h).0, g.0 (to h).1), λ h. from (f.1 h.0, g.1 h.1))

pub each_iff {ℓ κ} :
    {E A : Type ℓ} {P : A → Type κ} (f : A → Result E Unit)
    → ((a : A) → IsOk (f a) ↔ P a)
    → (l : List A) → IsOk (each f l) ↔ All P l
each_iff f h l = iff_trans (IsOk-each f l) (All-iff h l)

pub not-false_iff : (b : Bool) → (not b ≡ false) ↔ (b ≡ true)
not-false_iff true = (λ h. refl, λ h. refl)
not-false_iff false = (λ h. cc, λ h. cc)

pub is_nil-false_iff {ℓ} : {A : Type ℓ} (l : List A) → (is_nil l ≡ false) ↔ (l ≢ [])
is_nil-false_iff [] = (λ h. cc, λ h. absurd (h refl))
is_nil-false_iff (x ∷ l) = (λ h e. cc, λ h. refl)

pub is_nil_iff {ℓ} : {A : Type ℓ} (l : List A) → (not (is_nil l) ≡ false) ↔ (l ≡ [])
is_nil_iff [] = (λ h. refl, λ h. refl)
is_nil_iff (x ∷ l) = (λ h. cc, λ h. cc)

-- `contains` of a `Vec<String>`, said of the list
abbrev pub Has : List Text → Text → Type 0
Has l t = Any (λ s. s ≡ t) l

pub text_contains_iff : (l : List Text) (t : Text) → (text_contains l t ≡ true) ↔ Has l t
text_contains_iff [] t = (λ h. cc, λ h. absurd h)
text_contains_iff (s ∷ l) t =
    let (to, from) = text_contains_iff l t in
    let (to', from') = text_eq_iff s t in
    (
      λ h. elim (Bool-cases (text_eq s t)) [
        | inl e ↦ inl (to' e)
        | inr e ↦ inr (to (ground arith))
      ],
      λ h. elim h [ inl e ↦ ground (arith, from' e) | inr k ↦ ground (arith, from k) ],
    )

pub text_contains-false_iff : (l : List Text) (t : Text) → (text_contains l t ≡ false) ↔ (¬ Has l t)
text_contains-false_iff l t =
    let (to, from) = text_contains_iff l t in
    (
      λ h k. ground (arith, from k),
      λ h. elim (Bool-cases (text_contains l t)) [ inl e ↦ absurd (h (to e)) | inr e ↦ e ],
    )

pub ok_or-eq-ok {ℓ} : {E A : Type ℓ} (o : Option A) (e : E) (a : A) → ok_or o e ≡ ok a → o ≡ some a
ok_or-eq-ok none e a h = cc
ok_or-eq-ok (some x) e a h = cc

pub then-eq-ok {ℓ} :
    {E A B : Type ℓ} (m : Result E A) (k : Result E B) {out : B} → (m >> k) ≡ ok out → k ≡ ok out
then-eq-ok (ok a) k h = h
then-eq-ok (err e) k h = cc

pub err_injective {ℓ} : {E A : Type ℓ} {a b : E} → ◌≡◌ {A = Result E A} (err a) (err b) → a ≡ b
err_injective h = cc

pub ok_or_iff {ℓ κ} :
    {E A B : Type ℓ} {P : A → Type κ} (o : Option A) (e : E) (f : A → Result E B)
    → ((a : A) → IsOk (f a) ↔ P a)
    → IsOk (ok_or o e >>= f) ↔ ((a : A) × ((o ≡ some a) × P a))
unfolding IsOk
ok_or_iff none e f h = (λ k. absurd k, λ k. cc)
ok_or_iff {A = A} {P = P} (some x) e f h =
    (λ k. (x, (refl, (h x).0 k)), λ w. (h x).1 (subst P (sym (some_injective w.1.0)) w.1.1))
  where
    some_injective : {a : A} → ◌≡◌ {A = Option A} (some x) (some a) → x ≡ a
    some_injective h = cc

-- whatever the computation returns satisfies the predicate
pub record Ensures {ℓ} {E A : Type ℓ} (P : A → Type 0) (m : Result E A) : Type ℓ where
  pub holds : (a : A) → m ≡ ok a → P a

pub after {ℓ} :
    {E A B : Type ℓ} {P : B → Type 0} (m : Result E A) (f : A → Result E B)
    → ((a : A) → m ≡ ok a → Ensures P (f a))
    → Ensures P (m >>= f)
after (ok a) f h = h a refl
after (err e) f h = record { holds = λ b k. cc }

pub returns {ℓ} : {E A : Type ℓ} {P : A → Type 0} (a : A) → P a → Ensures {E = E} P (ok a)
returns {P = P} a h = record { holds = λ b e. subst P (ok_injective e) h }
