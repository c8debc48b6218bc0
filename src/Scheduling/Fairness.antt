-- ===== src/Scheduling/Fairness.antt =====
-- crates/pantheon-core/src/scheduling.rs: the service order is a function of the set of the Tasks.
use pantheon.Base.{
  ◌≡◌, ◌≢◌, refl, sym, ap, subst, none, some, List, [], ◌∷◌, map, Text, Ordering, Any, All, All-map,
  inl, inr, ◌⊎◌, arith, Bool-cases, Option, text_eq, text_eq_iff,
}
use mathlib.Core.List.{Permᴰ}
use pantheon.Base.Int.{ℤ, int_min, int_ord}
use pantheon.Base.Order.{Ord, pair_ord, list_ord, nat_ord}
use pantheon.Base.Sort.{
  sort, IsSorted, sort-IsSorted, sort-Perm, sort-perm, All-perm, Any-perm, map-Perm,
}
use pantheon.Scheduling.{
  GoalFairness, SchedulableTask, Candidate, candidate, named, last_served, unwrap_or, first,
  service_order, select_service,
}

-- the order of the decision records: least recently served, Goal, oldest eligibility, Task
abbrev pub text_ord : Ord Text
text_ord = list_ord

abbrev pub candidate_ord : Ord Candidate
candidate_ord = pair_ord

-- The service order does not depend on how the caller collected the Tasks: two arrangements of the same
-- Tasks have the same service order.
pub service_order-perm :
    (goals : List GoalFairness) {tasks tasks' : List SchedulableTask}
    → Permᴰ tasks tasks'
    → service_order goals tasks ≡ service_order goals tasks'
unfolding service_order
service_order-perm goals p = ap (map named) (sort-perm (map-Perm (candidate goals) p))

named-candidate :
    (goals : List GoalFairness) (tasks : List SchedulableTask)
    → map named (map (candidate goals) tasks) ≡ map (λ t. (t.goal_id, t.task_id)) tasks
unfolding candidate
named-candidate goals [] = refl
named-candidate goals (t ∷ tasks) =
    ap (λ l. (t.goal_id, t.task_id) ∷ l) (named-candidate goals tasks)

-- The service order serves every Task once: it is an arrangement of the pairs of the Tasks' own Goal and
-- Task ids.
pub service_order-Perm :
    (goals : List GoalFairness) (tasks : List SchedulableTask)
    → Permᴰ (service_order goals tasks) (map (λ t. (t.goal_id, t.task_id)) tasks)
unfolding service_order
service_order-Perm goals tasks =
    subst (Permᴰ (service_order goals tasks)) (named-candidate goals tasks)
      (map-Perm named (sort-Perm (map (candidate goals) tasks)))

Any-map :
    {A B : Type 0} (P : B → Type 0) (f : A → B) (l : List A)
    → Any P (map f l)
    → Any (λ a. P (f a)) l
Any-map P f [] x = elim x [ ]
Any-map P f (x ∷ l) (inl h) = inl h
Any-map P f (x ∷ l) (inr h) = inr (Any-map P f l h)

All-unmap :
    {A B : Type 0} (P : B → Type 0) (f : A → B) (l : List A)
    → All P (map f l)
    → All (λ a. P (f a)) l
All-unmap P f [] h = tt
All-unmap P f (x ∷ l) h = (h.0, All-unmap P f l h.1)

Any-each : {A : Type 0} {P Q : A → Type 0} (l : List A) → ((a : A) → P a → Q a) → Any P l → Any Q l
Any-each [] step h = elim h [ ]
Any-each (x ∷ l) step (inl h) = inl (step x h)
Any-each (x ∷ l) step (inr h) = inr (Any-each l step h)

-- the head of a sorted arrangement is least
sorted-least :
    (s l : List Candidate) (n : Text × Text)
    → Permᴰ s l
    → IsSorted s
    → first (map named s) ≡ some n
    → Any (λ c. (named c ≡ n) × All (λ d. candidate_ord.cmp c d ≢ Ordering.gt) l) l
sorted-least [] l n p o h = cc
sorted-least (c ∷ s) l n p o h =
    Any-perm _ p (inl (cc, All-perm _ p (ground (arith, candidate_ord.same c), o.0)))

-- what a row's sequence says
abbrev pub IsSequence : Option ℤ → ℤ → Type 0
IsSequence none z = z ≡ int_min
IsSequence (some sequence) z = z ≡ sequence

-- the sequence at which the Goal was last served: of the first row of the Goal, and the least `i64` when
-- there is no row or the row has no sequence
abbrev pub IsServed : List GoalFairness → Text → ℤ → Type 0
IsServed [] goal_id z = z ≡ int_min
IsServed (row ∷ rows) goal_id z =
    ((row.goal_id ≡ goal_id) × IsSequence row.last_served_sequence z)
    ⊎ ((row.goal_id ≢ goal_id) × IsServed rows goal_id z)

-- the Task is served first: its Goal was served longer ago, or else its Goal's id is less, or else it is
-- eligible for longer, or else its id is less
abbrev pub IsBefore : List GoalFairness → SchedulableTask → SchedulableTask → Type 0
IsBefore goals u t =
    (a : ℤ) × (b : ℤ) × IsServed goals u.goal_id a
    × IsServed goals t.goal_id b
    × ((int_ord.cmp a b ≡ Ordering.lt)
        ⊎ ((a ≡ b)
            × ((text_ord.cmp u.goal_id t.goal_id ≡ Ordering.lt)
                ⊎ ((u.goal_id ≡ t.goal_id)
                    × ((int_ord.cmp u.eligible_since t.eligible_since ≡ Ordering.lt)
                        ⊎ ((u.eligible_since ≡ t.eligible_since)
                            × (text_ord.cmp u.task_id t.task_id ≡ Ordering.lt)))))))

unwrapped : (o : Option ℤ) (z : ℤ) → IsSequence o z → unwrap_or o int_min ≡ z
unwrapped none z h = sym h
unwrapped (some sequence) z h = sym h

served_position :
    (goals : List GoalFairness) (goal_id : Text) (z : ℤ)
    → IsServed goals goal_id z
    → unwrap_or (last_served goals goal_id) int_min ≡ z
unfolding last_served
served_position [] goal_id z h = sym h
served_position (row ∷ rows) goal_id z (inl (e, h)) =
    ground (arith, (text_eq_iff row.goal_id goal_id).1 e, unwrapped row.last_served_sequence z h)
served_position (row ∷ rows) goal_id z (inr (n, h)) =
    elim (Bool-cases (text_eq row.goal_id goal_id)) [
      | inl e ↦ absurd (n ((text_eq_iff row.goal_id goal_id).0 e))
      | inr e ↦ ground (arith, e, served_position rows goal_id z h)
    ]

IsBefore-cmp :
    (goals : List GoalFairness) (u t : SchedulableTask)
    → IsBefore goals u t
    → candidate_ord.cmp (candidate goals u) (candidate goals t) ≡ Ordering.lt
unfolding candidate
IsBefore-cmp goals u t (a, b, p, q, h) =
    let e = served_position goals u.goal_id a p in
    let e' = served_position goals t.goal_id b q in
    rw (e, e')
      elim h [
        | inl k ↦ rw k refl
        | inr (same, inl k) ↦ rw (same, int_ord.same b, k) refl
        | inr (same, inr (goal, inl k)) ↦
            rw (same, int_ord.same b, goal, text_ord.same t.goal_id, k) refl
        | inr (same, inr (goal, inr (since, k))) ↦
            rw
              (
                same,
                int_ord.same b,
                goal,
                text_ord.same t.goal_id,
                since,
                int_ord.same t.eligible_since,
                k,
              )
              refl
      ]

-- The Task that is selected is one of the Tasks, and no Task is to be served before it: none whose Goal
-- was served longer ago (a Goal that was never served counts as served at the least `i64`), or else whose
-- Goal's id is less, or else that is eligible for longer, or else whose id is less.
pub select_service-least :
    (goals : List GoalFairness) (tasks : List SchedulableTask) (n : Text × Text)
    → select_service goals tasks ≡ some n
    → Any (λ t. ((t.goal_id, t.task_id) ≡ n) × All (λ u. ¬ IsBefore goals u t) tasks) tasks
unfolding select_service service_order candidate
select_service-least goals tasks n h =
    let all = map (candidate goals) tasks in
    Any-each tasks
      (λ t p. (
        p.0,
        All-map tasks
            (λ u k b. k (
              candidate_ord.flip_lt (candidate goals u) (candidate goals t)
                (IsBefore-cmp goals u t b)))
            (All-unmap _ (candidate goals) tasks p.1),
      ))
      (Any-map (λ c. (named c ≡ n) × All (λ d. candidate_ord.cmp c d ≢ Ordering.gt) all)
        (candidate goals) tasks
        (sorted-least (sort all) all n (sort-Perm all) (sort-IsSorted all) h))
