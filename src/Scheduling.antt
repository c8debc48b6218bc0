-- ===== src/Scheduling.antt =====
-- crates/pantheon-core/src/scheduling.rs: which Task is served next.
pub mod Fairness
use pantheon.Base.{ℕ, ◌≡◌, Option, none, some, List, [], ◌∷◌, map, Text, text_eq, find?}
use pantheon.Base.Int.{ℤ, int_min}
use pantheon.Base.Order.{pair_ord, list_ord, nat_ord}
use pantheon.Base.Int.{int_ord}
use pantheon.Base.Sort.{sort}

pub record GoalFairness : Type 0 where
  pub goal_id : Text
  pub last_served_sequence : Option ℤ

pub record SchedulableTask : Type 0 where
  pub task_id : Text
  pub goal_id : Text
  pub eligible_since : ℤ

-- the decision record: served, goal, eligible since, task
abbrev pub Candidate : Type 0
Candidate = ℤ × (Text × (ℤ × Text))

unfoldable pub last_served : List GoalFairness → Text → Option ℤ
last_served goals goal_id = elim (find? (λ g. text_eq g.goal_id goal_id) goals) [
  | none ↦ none
  | some g ↦ g.last_served_sequence
]

abbrev pub unwrap_or : {A : Type 0} → Option A → A → A
unwrap_or none b = b
unwrap_or (some a) b = a

unfoldable pub candidate : List GoalFairness → SchedulableTask → Candidate
candidate goals task = (
  unwrap_or (last_served goals task.goal_id) int_min,
  (task.goal_id, (task.eligible_since, task.task_id)),
)

abbrev pub named : Candidate → Text × Text
named c = (c.1.0, c.1.1.1)

unfoldable pub service_order : List GoalFairness → List SchedulableTask → List (Text × Text)
service_order goals tasks = map named (sort (map (candidate goals) tasks))

abbrev pub first : {A : Type 0} → List A → Option A
first [] = none
first (x ∷ _) = some x

unfoldable pub select_service : List GoalFairness → List SchedulableTask → Option (Text × Text)
select_service goals tasks = first (service_order goals tasks)
