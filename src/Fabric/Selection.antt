-- ===== src/Fabric/Selection.antt =====
-- crates/pantheon-core/src/execution.rs: `compare_candidates` and `select_execution_candidate`.
pub mod Least
use pantheon.Base.{
  ℕ, Bool, not, Option, none, some, List, [], ◌∷◌, Text, text, text_eq, text_cmp, compare, Ordering,
  if◌then◌else◌, Result, ok, err, ok_or,
}
use Prim.Native.Nat.Ordering.{lt, eq, gt}
use pantheon.Base.Int.{ℤ, int_cmp}
use pantheon.Base.Order.{then}
use pantheon.Config.Digest.{Hasher, Digest}
use pantheon.Config.Model.Agents.{LogicalAgentVersion, agent_cmp}
use pantheon.Fabric.Request.{ConfigurationBinding, matches, ExecutionRequest, offer_digest}
use pantheon.Fabric.Candidate.{ExecutionCandidate}

-- one key of the route policy's ordering: a larger context comes first
unfoldable pub key_cmp : Text → ExecutionCandidate → ExecutionCandidate → Ordering
key_cmp key left right =
    if text_eq key (text "contextCapacity")
    then int_cmp right.offer.context_capacity_tokens left.offer.context_capacity_tokens
    else eq

unfoldable pub keys_cmp : List Text → ExecutionCandidate → ExecutionCandidate → Ordering
unfolding key_cmp
keys_cmp [] left right = eq
keys_cmp (key ∷ keys) left right = (then) (key_cmp key left right) (keys_cmp keys left right)

unfoldable pub tie_break_cmp : Text → ExecutionCandidate → ExecutionCandidate → Ordering
unfolding agent_cmp
tie_break_cmp tie_break left right =
    if text_eq tie_break (text "backendId")
    then text_cmp left.offer.backend_id right.offer.backend_id
    else if text_eq tie_break (text "agentId")
    then agent_cmp left.agent right.agent
    else eq

-- the tuple of the last comparison; a digest compares as its bytes
unfoldable pub identity_cmp : Hasher → ExecutionCandidate → ExecutionCandidate → Ordering
unfolding agent_cmp
identity_cmp hash left right = (then) (agent_cmp left.agent right.agent) (
    (then) (text_cmp left.offer.backend_id right.offer.backend_id) (
      (then) (compare left.offer.descriptor_revision right.offer.descriptor_revision)
        (text_cmp (offer_digest hash left.offer) (offer_digest hash right.offer))))

unfoldable pub compare_candidates : Hasher → ExecutionCandidate → ExecutionCandidate → Ordering
unfolding keys_cmp tie_break_cmp identity_cmp
compare_candidates hash left right =
    (then) (int_cmp right.route_policy.priority left.route_policy.priority) (
      (then) (text_cmp left.route_policy.name right.route_policy.name) (
        (then) (keys_cmp left.route_policy.ordering left right) (
          (then) (tie_break_cmp left.route_policy.tie_break left right)
            (identity_cmp hash left right))))

pub data SelectionError : Type 0 where
  no_candidates : SelectionError

-- `min_by`: the first of the least, compared from the left
unfoldable pub min_by : {A : Type 0} → (A → A → Ordering) → A → List A → A
min_by cmp best [] = best
min_by cmp best (c ∷ cs) = elim (cmp best c) [ gt ↦ min_by cmp c cs | _ ↦ min_by cmp best cs ]

unfoldable pub select_execution_candidate :
    Hasher → List ExecutionCandidate → Result SelectionError ExecutionCandidate
unfolding min_by
select_execution_candidate hash [] = err no_candidates
select_execution_candidate hash (c ∷ cs) = ok (min_by (compare_candidates hash) c cs)

pub record RoutingResult : Type 0 where
  pub task_id : Text
  pub task_revision : ℤ
  pub task_spec_digest : Digest
  pub configuration : ConfigurationBinding
  pub request : ExecutionRequest
  pub candidate : ExecutionCandidate

unfoldable pub is_stale_against : RoutingResult → ConfigurationBinding → Bool
is_stale_against r current = not (matches r.configuration current)
