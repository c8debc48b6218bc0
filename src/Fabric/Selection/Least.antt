-- ===== src/Fabric/Selection/Least.antt =====
-- crates/pantheon-core/src/execution.rs: the selected candidate is a candidate, and no candidate
-- comes before it.
use pantheon.Base.{
  ◌≡◌, ◌≢◌, inl, inr, refl, sym, ap, subst, ◌∙◌, List, [], ◌∷◌, Text, text, text_eq, text_cmp,
  text_order, compare, Ordering, if◌then◌else◌, All, Any, All-map, ok, ok_injective, Bool, true,
  false, arith,
}
use Prim.Native.Nat.Ordering.{lt, eq, gt}
use pantheon.Base.Int.{int_cmp, int_cmp-IsTotal}
use pantheon.Base.Order.{then, compare-IsTotal}
use pantheon.Base.Weak.{
  IsWeak, le_chain, gt_le, key-IsWeak, reverse-IsWeak, equal-IsWeak, then-IsWeak,
}
use pantheon.Config.Digest.{Hasher}
use pantheon.Config.Model.Agents.{agent_cmp, RoutePolicy}
use pantheon.Fabric.Request.{offer_digest}
use pantheon.Fabric.Candidate.{ExecutionCandidate}
use pantheon.Fabric.Selection.{
  keys_cmp, tie_break_cmp, identity_cmp, compare_candidates, min_by, select_execution_candidate,
}

then_same-IsWeak :
    {A : Type 0} (p q : A → A → Ordering)
    → IsWeak p
    → IsWeak q
    → IsWeak (λ a b. (then) (p a b) (q a b))
then_same-IsWeak p q w v = then-IsWeak p (λ _. q) w (λ _. v) (λ a b e. refl)

agent_cmp-IsWeak : IsWeak (λ (a b : ExecutionCandidate). agent_cmp a.agent b.agent)
unfolding agent_cmp
agent_cmp-IsWeak =
    then_same-IsWeak _ _ (key-IsWeak text_cmp text_order (λ c. c.agent.name))
      (key-IsWeak compare compare-IsTotal (λ c. c.agent.version))

keys_cmp-IsWeak : (keys : List Text) → IsWeak (keys_cmp keys)
unfolding keys_cmp
keys_cmp-IsWeak [] = equal-IsWeak
keys_cmp-IsWeak (key ∷ keys) =
    then_same-IsWeak _ _ (chosen (text_eq key (text "contextCapacity"))) (keys_cmp-IsWeak keys)
  where
    chosen :
        (b : Bool)
        → IsWeak (λ (left right : ExecutionCandidate).
          if b
          then int_cmp right.offer.context_capacity_tokens left.offer.context_capacity_tokens
          else eq)
    chosen true =
        reverse-IsWeak _ (key-IsWeak int_cmp int_cmp-IsTotal (λ c. c.offer.context_capacity_tokens))
    chosen false = equal-IsWeak

tie_break_cmp-IsWeak : (tie_break : Text) → IsWeak (tie_break_cmp tie_break)
unfolding tie_break_cmp
tie_break_cmp-IsWeak tie_break =
    chosen (text_eq tie_break (text "backendId")) (text_eq tie_break (text "agentId"))
  where
    chosen :
        (b c : Bool)
        → IsWeak (λ (left right : ExecutionCandidate).
          if b
          then text_cmp left.offer.backend_id right.offer.backend_id
          else if c
          then agent_cmp left.agent right.agent
          else eq)
    chosen true c = key-IsWeak text_cmp text_order (λ x. x.offer.backend_id)
    chosen false true = agent_cmp-IsWeak
    chosen false false = equal-IsWeak

identity_cmp-IsWeak : (hash : Hasher) → IsWeak (identity_cmp hash)
unfolding identity_cmp
identity_cmp-IsWeak hash = then_same-IsWeak _ _ agent_cmp-IsWeak (
    then_same-IsWeak _ _ (key-IsWeak text_cmp text_order (λ c. c.offer.backend_id)) (
      then_same-IsWeak _ _ (key-IsWeak compare compare-IsTotal (λ c. c.offer.descriptor_revision))
        (key-IsWeak text_cmp text_order (λ c. offer_digest hash c.offer))))

-- the comparison of candidates whose policies are those that the configuration names
policy_cmp : Hasher → (Text → RoutePolicy) → ExecutionCandidate → ExecutionCandidate → Ordering
policy_cmp hash policy left right =
    (then) (int_cmp right.route_policy.priority left.route_policy.priority) (
      (then) (text_cmp left.route_policy.name right.route_policy.name) (
        (then) (keys_cmp (policy left.route_policy.name).ordering left right) (
          (then) (tie_break_cmp (policy left.route_policy.name).tie_break left right)
            (identity_cmp hash left right))))

policy_cmp-IsWeak : (hash : Hasher) (policy : Text → RoutePolicy) → IsWeak (policy_cmp hash policy)
unfolding policy_cmp
policy_cmp-IsWeak hash policy =
    then_same-IsWeak _ _
      (reverse-IsWeak _ (key-IsWeak int_cmp int_cmp-IsTotal (λ c. c.route_policy.priority)))
      (then-IsWeak _ keyed (key-IsWeak text_cmp text_order (λ c. c.route_policy.name))
        (λ c. then_same-IsWeak _ _ (keys_cmp-IsWeak (policy c.route_policy.name).ordering) (
          then_same-IsWeak _ _ (tie_break_cmp-IsWeak (policy c.route_policy.name).tie_break)
            (identity_cmp-IsWeak hash)))
        (λ a b e. ap by_name (text_order.equal a.route_policy.name b.route_policy.name e)))
  where
    by_name : Text → ExecutionCandidate → ExecutionCandidate → Ordering
    by_name name left right =
        (then) (keys_cmp (policy name).ordering left right)
          ((then) (tie_break_cmp (policy name).tie_break left right) (identity_cmp hash left right))

    keyed : ExecutionCandidate → ExecutionCandidate → ExecutionCandidate → Ordering
    keyed c = by_name c.route_policy.name

compare_candidates-policy_cmp :
    (hash : Hasher) (policy : Text → RoutePolicy) (left right : ExecutionCandidate)
    → left.route_policy ≡ policy left.route_policy.name
    → compare_candidates hash left right ≡ policy_cmp hash policy left right
unfolding compare_candidates policy_cmp
compare_candidates-policy_cmp hash policy left right e = ap by_policy e
  where
    by_policy : RoutePolicy → Ordering
    by_policy r = (then) (int_cmp right.route_policy.priority left.route_policy.priority) (
        (then) (text_cmp left.route_policy.name right.route_policy.name) (
          (then) (keys_cmp r.ordering left right)
            ((then) (tie_break_cmp r.tie_break left right) (identity_cmp hash left right))))

module _ {A : Type 0} (cmp : A → A → Ordering) where
  -- one comparison of `min_by`
  picked : Ordering → A → A → List A → A
  unfolding min_by
  picked gt best c cs = min_by cmp c cs
  picked lt best c cs = min_by cmp best cs
  picked eq best c cs = min_by cmp best cs

  min_by-picked :
      (best c : A) (cs : List A) → min_by cmp best (c ∷ cs) ≡ picked (cmp best c) best c cs
  unfolding min_by picked
  min_by-picked best c cs = ground arith

  picked-Any :
      (o : Ordering) (best c : A) (cs : List A)
      → Any (λ x. x ≡ min_by cmp c cs) (c ∷ cs)
      → Any (λ x. x ≡ min_by cmp best cs) (best ∷ cs)
      → Any (λ x. x ≡ picked o best c cs) (best ∷ c ∷ cs)
  unfolding picked
  picked-Any gt best c cs h k = inr h
  picked-Any lt best c cs h (inl k) = inl k
  picked-Any lt best c cs h (inr k) = inr (inr k)
  picked-Any eq best c cs h (inl k) = inl k
  picked-Any eq best c cs h (inr k) = inr (inr k)

  min_by-Any : (best : A) (l : List A) → Any (λ c. c ≡ min_by cmp best l) (best ∷ l)
  unfolding min_by
  min_by-Any best [] = inl refl
  min_by-Any best (c ∷ cs) =
      subst (λ m. Any (λ x. x ≡ m) (best ∷ c ∷ cs)) (sym (min_by-picked best c cs))
        (picked-Any (cmp best c) best c cs (min_by-Any c cs) (min_by-Any best cs))

  min_by-All :
      (w : IsWeak cmp) (best : A) (l : List A)
      → All (λ c. cmp (min_by cmp best l) c ≢ gt) (best ∷ l)
  unfolding min_by picked
  min_by-All w best [] = (λ e. ground (arith, w.swap best best), tt)
  min_by-All w best (c ∷ cs) =
      subst (λ m. All (λ x. cmp m x ≢ gt) (best ∷ c ∷ cs)) (sym (min_by-picked best c cs))
        (least (cmp best c) refl (min_by-All w c cs) (min_by-All w best cs))
    where
      least :
          (o : Ordering)
          → cmp best c ≡ o
          → All (λ x. cmp (min_by cmp c cs) x ≢ gt) (c ∷ cs)
          → All (λ x. cmp (min_by cmp best cs) x ≢ gt) (best ∷ cs)
          → All (λ x. cmp (picked o best c cs) x ≢ gt) (best ∷ c ∷ cs)
      least gt e h k = (le_chain cmp w _ c best h.0 (gt_le cmp w best c e), h)
      least lt e h k = (k.0, (le_chain cmp w _ best c k.0 (λ g. ground arith), k.1))
      least eq e h k = (k.0, (le_chain cmp w _ best c k.0 (λ g. ground arith), k.1))

-- `min_by` asks no more of the comparison than its outcomes on the elements of the list
min_by-same :
    {A : Type 0} (cmp cmp' : A → A → Ordering) (P : A → Type 0)
    → ((a b : A) → P a → cmp a b ≡ cmp' a b)
    → (best : A) (l : List A) → All P (best ∷ l)
    → min_by cmp best l ≡ min_by cmp' best l
unfolding min_by picked
min_by-same cmp cmp' P same best [] h = refl
min_by-same cmp cmp' P same best (c ∷ cs) h =
    min_by-picked cmp best c cs
    ∙ (alike (min_by-same cmp cmp' P same c cs h.1)
          (min_by-same cmp cmp' P same best cs (h.0, h.1.1)) (cmp best c)
        ∙ (ap (λ o. picked cmp' o best c cs) (same best c h.0)
            ∙ sym (min_by-picked cmp' best c cs)))
  where
    alike :
        min_by cmp c cs ≡ min_by cmp' c cs
        → min_by cmp best cs ≡ min_by cmp' best cs
        → (o : Ordering) → picked cmp o best c cs ≡ picked cmp' o best c cs
    alike e f gt = e
    alike e f lt = f
    alike e f eq = f

All-Any : {A : Type 0} (P : A → Type 0) (l : List A) (x : A) → All P l → Any (λ y. y ≡ x) l → P x
All-Any P [] x h k = absurd k
All-Any P (y ∷ l) x h (inl e) = subst P e h.0
All-Any P (y ∷ l) x h (inr k) = All-Any P l x h.1 k

-- the candidates carry the policies of one configuration: there is one of each name
abbrev pub IsCoherent : (Text → RoutePolicy) → List ExecutionCandidate → Type 0
IsCoherent policy l =
    All (λ (c : ExecutionCandidate). c.route_policy ≡ policy c.route_policy.name) l

-- Of candidates whose route policies are those that a configuration names, the selected one is one
-- of them and no candidate compares before it.
pub select_execution_candidate-least :
    (hash : Hasher) (policy : Text → RoutePolicy) (l : List ExecutionCandidate)
    (chosen : ExecutionCandidate)
    → IsCoherent policy l
    → select_execution_candidate hash l ≡ ok chosen
    → Any (λ c. c ≡ chosen) l × All (λ c. compare_candidates hash chosen c ≢ gt) l
unfolding select_execution_candidate
select_execution_candidate-least hash policy [] chosen h e = cc
select_execution_candidate-least hash policy (c ∷ cs) chosen h e =
    subst (λ m. Any (λ x. x ≡ m) (c ∷ cs) × All (λ x. compare_candidates hash m x ≢ gt) (c ∷ cs))
      (ok_injective e)
      (member, All-map (c ∷ cs) (λ x k. subst (λ o. o ≢ gt) (sym (agrees x)) k) before)
  where
    cmp : ExecutionCandidate → ExecutionCandidate → Ordering
    cmp = compare_candidates hash

    member : Any (λ x. x ≡ min_by cmp c cs) (c ∷ cs)
    member = min_by-Any cmp c cs

    agrees :
        (x : ExecutionCandidate)
        → cmp (min_by cmp c cs) x ≡ policy_cmp hash policy (min_by cmp c cs) x
    agrees x =
        compare_candidates-policy_cmp hash policy (min_by cmp c cs) x
          (All-Any _ (c ∷ cs) _ h member)

    before : All (λ x. policy_cmp hash policy (min_by cmp c cs) x ≢ gt) (c ∷ cs)
    before =
        subst (λ m. All (λ x. policy_cmp hash policy m x ≢ gt) (c ∷ cs))
          (sym (
            min_by-same cmp (policy_cmp hash policy)
              (λ x. x.route_policy ≡ policy x.route_policy.name)
              (compare_candidates-policy_cmp hash policy) c cs h))
          (min_by-All (policy_cmp hash policy) (policy_cmp-IsWeak hash policy) c cs)
