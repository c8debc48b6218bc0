-- ===== src/Base/Weak.antt =====
-- comparisons in which different elements may be equal: their laws, and how they compose.
use Prim.Native.Nat.{Ordering}
use Prim.Native.Nat.Ordering.{lt, eq, gt}
use mathlib.Core.Path.{◌≡◌, refl, sym, ap}
use mathlib.Core.Logic.{◌≢◌}
use native.Mathlib.Omega.{arith}
use pantheon.Base.Order.{IsTotal, then}

-- `Ordering::reverse`
abbrev pub reverse : Ordering → Ordering
reverse lt = gt
reverse eq = eq
reverse gt = lt

pub record IsWeak {A : Type 0} (cmp : A → A → Ordering) : Type 0 where
  pub swap : (a b : A) → cmp b a ≡ reverse (cmp a b)
  pub chain_lt : (a b c : A) → cmp a b ≡ lt → cmp b c ≡ lt → cmp a c ≡ lt
  pub chain_left : (a b c : A) → cmp a b ≡ eq → cmp a c ≡ cmp b c

-- a total order on a key
pub key-IsWeak :
    {A B : Type 0} (cmp : B → B → Ordering)
    → IsTotal cmp
    → (key : A → B) → IsWeak (λ a b. cmp (key a) (key b))
key-IsWeak cmp t key = record {
  swap = λ a b. ground (
    arith,
    t.flip_lt (key a) (key b),
    t.flip_gt (key a) (key b),
    t.flip_lt (key b) (key a),
    t.flip_gt (key b) (key a),
  );
  chain_lt = λ a b c. t.chain (key a) (key b) (key c);
  chain_left = λ a b c e. ap (λ k. cmp k (key c)) (t.equal (key a) (key b) e);
}

pub reverse-IsWeak : {A : Type 0} (cmp : A → A → Ordering) → IsWeak cmp → IsWeak (λ a b. cmp b a)
reverse-IsWeak cmp w = record {
  swap = λ a b. w.swap b a;
  chain_lt = λ a b c h k. w.chain_lt c b a k h;
  chain_left = λ a b c h. ground (arith, w.swap a c, w.swap b c, w.swap b a, w.chain_left a b c);
}

pub equal-IsWeak : {A : Type 0} → IsWeak {A = A} (λ a b. eq)
equal-IsWeak = record {
  swap = λ a b. refl;
  chain_lt = λ a b c h k. h;
  chain_left = λ a b c h. refl;
}

-- the second comparison may depend on the first element, as long as it does not change with it
-- where the first comparison says equal
pub then-IsWeak :
    {A : Type 0} (p : A → A → Ordering) (q : A → A → A → Ordering)
    → IsWeak p
    → ((a : A) → IsWeak (q a))
    → ((a b : A) → p a b ≡ eq → q a ≡ q b)
    → IsWeak (λ a b. (then) (p a b) (q a a b))
then-IsWeak {A = A} p q w v same = record {
  swap = λ a b. ground (arith, w.swap a b, (v a).swap a b, keyed a b b a);
  chain_lt = λ a b c h k. ground (
    arith,
    w.swap a b,
    w.swap a c,
    w.swap b c,
    w.chain_lt a b c,
    w.chain_left a b c,
    w.chain_left b c a,
    (v a).chain_lt a b c,
    keyed a b b c,
  );
  chain_left = λ a b c h. ground (arith, w.chain_left a b c, (v a).chain_left a b c, keyed a b b c);
}
  where
    keyed : (a b c d : A) → p a b ≡ eq → q b c d ≡ q a c d
    keyed a b c d e = ap (λ f. f c d) (sym (same a b e))

pub le_chain :
    {A : Type 0} (cmp : A → A → Ordering)
    → IsWeak cmp
    → (a b c : A) → cmp a b ≢ gt
    → cmp b c ≢ gt
    → cmp a c ≢ gt
le_chain cmp w a b c h k = ground (
  arith,
  h,
  k,
  w.swap a b,
  w.swap a c,
  w.swap b c,
  w.chain_lt a b c,
  w.chain_left a b c,
  w.chain_left b c a,
)

pub gt_le :
    {A : Type 0} (cmp : A → A → Ordering) → IsWeak cmp → (a b : A) → cmp a b ≡ gt → cmp b a ≢ gt
gt_le cmp w a b h = ground (arith, w.swap a b)
