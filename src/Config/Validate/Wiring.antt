-- ===== src/Config/Validate/Wiring.antt =====
-- crates/pantheon-core/src/config/validate.rs: the route policy and the sandbox profile of one Agent.
use pantheon.Base.{
  ◌≡◌, ◌≢◌, ◌↔◌, inl, inr, refl, Bool, true, false, not, Option, none, some, List, [], ◌∷◌, Text,
  text_eq, text_eq_iff, text_contains, any, find?, All, Any, any→Any, Any→any, arith, Bool-cases,
  Result,
}
use pantheon.Base.Accepts.{
  IsOk, IsOk-ok, iff_trans, refuse_if_iff, then_iff, each_iff, not-false_iff, ok_or_iff, Has,
  text_contains_iff,
}
use pantheon.Config.Error.{ConfigError}
use pantheon.Config.Model.Agents.{Agent, RoutePolicy}
use pantheon.Config.Model.Execution.{
  SandboxProfile, IsolationClass, trusted_host, container, can_isolate_control_plane,
}
use pantheon.Config.Revision.{CompiledConfiguration}
use pantheon.Config.Validate.{
  control_plane_actions, control_plane_guarantee, profile_of, check_isolation, check_found,
  check_control_plane, check_wiring,
}

-- an Agent that runs shell commands or spawns processes does so behind an isolating profile
abbrev pub IsConfined : Agent → SandboxProfile → Type 0
IsConfined agent profile =
    Any (Has control_plane_actions) agent.actions
    → (profile.isolation_class ≡ container) × Has profile.guarantees control_plane_guarantee

-- the Agent's route policy and sandbox profile are there, and the profile serves the Agent
abbrev pub IsWired : CompiledConfiguration → Agent → Type 0
IsWired c agent =
    Any (λ (p : RoutePolicy). p.name ≡ agent.route_policy) c.routing.policies
    × ((profile : SandboxProfile) × ((profile_of c agent.sandbox_profile ≡ some profile)
          × (All (Has profile.guarantees) agent.sandbox_requirements × IsConfined agent profile)))

pub any_iff :
    {A : Type 0} {P : A → Type 0} (p : A → Bool) (l : List A)
    → ((a : A) → (p a ≡ true) ↔ P a)
    → (any p l ≡ true) ↔ Any P l
any_iff p l h = (any→Any p l (λ a. (h a).0), Any→any p l (λ a. (h a).1))

pub named_iff :
    {A : Type 0} (name : A → Text) (l : List A) (t : Text)
    → (not (any (λ a. text_eq (name a) t) l) ≡ false) ↔ Any (λ a. name a ≡ t) l
named_iff name l t = iff_trans (not-false_iff _) (any_iff _ l (λ a. text_eq_iff (name a) t))

held_iff : (l : List Text) (t : Text) → (not (text_contains l t) ≡ false) ↔ Has l t
held_iff l t = iff_trans (not-false_iff _) (text_contains_iff l t)

container_iff : (k : IsolationClass) → (not (can_isolate_control_plane k) ≡ false) ↔ (k ≡ container)
unfolding can_isolate_control_plane
container_iff container = (λ h. refl, λ h. refl)
container_iff trusted_host = (λ h. cc, λ h. cc)

find?-met_iff :
    {A : Type 0} (p : A → Bool) (l : List A) → (find? p l ≢ none) ↔ Any (λ a. p a ≡ true) l
find?-met_iff p [] = (λ h. absurd (h refl), λ h. absurd h)
find?-met_iff p (x ∷ l) =
    let (to, from) = find?-met_iff p l in
    (
      λ h. elim (Bool-cases (p x)) [ inl e ↦ inl e | inr e ↦ inr (to (λ k. h (later e k))) ],
      λ h. elim h [
        | inl e ↦ λ k. ground arith
        | inr r ↦
            λ k. elim (Bool-cases (p x)) [ inl e ↦ ground arith | inr e ↦ from r (ground arith) ]
      ],
    )
  where
    later : p x ≡ false → find? p l ≡ none → find? p (x ∷ l) ≡ none
    later e k = ground arith

Any-iff : {A : Type 0} {P Q : A → Type 0} (l : List A) → ((a : A) → P a ↔ Q a) → Any P l ↔ Any Q l
Any-iff [] h = (λ k. k, λ k. k)
Any-iff (x ∷ l) h =
    let (to, from) = Any-iff l h in
    (
      λ k. elim k [ inl e ↦ inl ((h x).0 e) | inr r ↦ inr (to r) ],
      λ k. elim k [ inl e ↦ inl ((h x).1 e) | inr r ↦ inr (from r) ],
    )

check_found_iff :
    {P : Type 0} (check : Text → Result ConfigError Unit) (o : Option Text)
    → ((a : Text) → IsOk (check a) ↔ P)
    → IsOk (check_found check o) ↔ (o ≢ none → P)
unfolding check_found
check_found_iff check none h = (λ k n. absurd (n refl), λ k. IsOk-ok tt refl)
check_found_iff check (some a) h = (λ k n. (h a).0 k, λ k. (h a).1 (k (λ e. cc)))

check_isolation_iff :
    (agent : Agent) (profile : SandboxProfile) (action : Text)
    → IsOk (check_isolation agent profile action)
      ↔ ((profile.isolation_class ≡ container) × Has profile.guarantees control_plane_guarantee)
unfolding check_isolation
check_isolation_iff agent profile action =
    then_iff _ _ (refuse_if_iff _ (container_iff profile.isolation_class))
      (refuse_if_iff _ (held_iff profile.guarantees control_plane_guarantee))

control_plane_iff :
    (actions : List Text)
    → (find? (text_contains control_plane_actions) actions ≢ none)
      ↔ Any (Has control_plane_actions) actions
control_plane_iff actions =
    iff_trans (find?-met_iff _ actions) (Any-iff actions (text_contains_iff control_plane_actions))

check_control_plane_iff :
    (agent : Agent) (profile : SandboxProfile)
    → IsOk (check_control_plane agent profile) ↔ IsConfined agent profile
unfolding check_control_plane
check_control_plane_iff agent profile =
    let (to, from) = control_plane_iff agent.actions in
    iff_trans
      (check_found_iff _ (find? (text_contains control_plane_actions) agent.actions)
        (check_isolation_iff agent profile))
      (λ h k. h (from k), λ h k. h (to k))

pub check_wiring_iff :
    (c : CompiledConfiguration) (agent : Agent) → IsOk (check_wiring c agent) ↔ IsWired c agent
unfolding check_wiring
check_wiring_iff c agent =
    then_iff _ _ (refuse_if_iff _ (named_iff (λ p. p.name) c.routing.policies agent.route_policy)) (
      ok_or_iff (profile_of c agent.sandbox_profile) _ _ (λ profile.
        then_iff _ _
          (each_iff _ (λ r. refuse_if_iff _ (held_iff profile.guarantees r))
            agent.sandbox_requirements)
          (check_control_plane_iff agent profile)))
