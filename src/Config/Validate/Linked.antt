-- ===== src/Config/Validate/Linked.antt =====
-- crates/pantheon-core/src/config/validate.rs: what holds of a validated configuration.
use pantheon.Base.{
  ◌≡◌, ◌≢◌, ◌↔◌, ◌⊎◌, inl, inr, refl, sym, subst, ◌∙◌, Bool, true, false, ◌&&◌, not, List, [], ◌∷◌,
  ◌++◌, map, Text, text_contains, if◌then◌else◌, All, Any, arith, Bool-cases, ok, refuse_if,
  ok_injective,
}
use mathlib.Core.List.{append_assoc, append-nil}
use pantheon.Base.Accepts.{
  IsOk, IsOk-ok, IsOk-value, IsOk-bind, IsOk-then, IsOk-refuse_if, iff_trans, refuse_if_iff,
  then_iff, each_iff, not-false_iff, then-eq-ok, Has, text_contains_iff, text_contains-false_iff,
}
use pantheon.Config.Error.{unknown_agent}
use pantheon.Config.Model.Agents.{LogicalAgentVersion, same_agent, Agent, identity}
use pantheon.Config.Model.Execution.{SandboxProfile, EvaluatorVersion, EvaluatorRef}
use pantheon.Config.Revision.{CompiledConfiguration}
use pantheon.Fabric.Missing.{same_agent_iff}
use pantheon.Config.Validate.Wiring.{IsWired, any_iff, named_iff, check_wiring_iff}
use pantheon.Config.Validate.{
  declares, check_wiring, check_agents, validate_agent_references, check_pin, check_version,
  check_ref, check_dropped, check_preloaded, check_rest, cross_references,
}

-- no Agent of the list has an identity of the first list or of an Agent in front of it
abbrev pub IsFresh : List LogicalAgentVersion → List Agent → Type 0
IsFresh seen [] = Unit
IsFresh seen (a ∷ l) = (¬ Any (λ x. x ≡ identity a) seen) × IsFresh (seen ++ identity a ∷ []) l

-- no current Agent of the list has a name of the first list or of a current Agent in front of it
abbrev pub IsUnnamed : List Text → List Agent → Type 0
IsUnnamed names [] = Unit
IsUnnamed names (a ∷ l) =
    (a.current ≡ true → ¬ Has names a.name)
    × IsUnnamed (if a.current then names ++ a.name ∷ [] else names) l

declares_iff :
    (l : List LogicalAgentVersion) (a : LogicalAgentVersion)
    → (declares l a ≡ true) ↔ Any (λ x. x ≡ a) l
unfolding declares
declares_iff l a = any_iff _ l (λ x. iff_trans (not_not x) (same_agent_iff x a))
  where
    not_not : (x : LogicalAgentVersion) → (same_agent x a ≡ true) ↔ (not (same_agent x a) ≡ false)
    not_not x = let (to, from) = not-false_iff (same_agent x a) in (from, to)

declares-false_iff :
    (l : List LogicalAgentVersion) (a : LogicalAgentVersion)
    → (declares l a ≡ false) ↔ (¬ Any (λ x. x ≡ a) l)
declares-false_iff l a =
    let (to, from) = declares_iff l a in
    (
      λ h k. ground (arith, from k),
      λ h. elim (Bool-cases (declares l a)) [ inl e ↦ absurd (h (to e)) | inr e ↦ e ],
    )

not_named :
    (a : Agent) (names : List Text)
    → (a.current && text_contains names a.name) ≡ false
    → a.current ≡ true
    → ¬ Has names a.name
not_named a names h e k = ground (arith, (text_contains_iff names a.name).1 k)

-- what the loop over the Agents establishes
check_agents-eq-ok :
    (c : CompiledConfiguration) (l : List Agent) (seen : List LogicalAgentVersion)
    (names : List Text) (declared : List LogicalAgentVersion)
    → check_agents c seen names l ≡ ok declared
    → All (IsWired c) l × IsFresh seen l × IsUnnamed names l × (declared ≡ seen ++ map identity l)
unfolding check_agents
check_agents-eq-ok c [] seen names declared h =
    (tt, tt, tt, sym (ok_injective h) ∙ sym (append-nil seen))
check_agents-eq-ok c (a ∷ l) seen names declared h =
    let h₁ = then-eq-ok (refuse_if (declares seen (identity a)) _) _ h in
    let h₂ = then-eq-ok (refuse_if (a.current && text_contains names a.name) _) _ h₁ in
    let h₃ = then-eq-ok (check_wiring c a) _ h₂ in
    let (wired, fresh, unnamed, same) =
      check_agents-eq-ok c l (seen ++ identity a ∷ [])
        (if a.current then names ++ a.name ∷ [] else names) declared h₃ in
    let (unseen, _) =
      (IsOk-then (refuse_if (declares seen (identity a)) _) _).0 (IsOk-ok declared h) in
    let (sole, _) =
      (IsOk-then (refuse_if (a.current && text_contains names a.name) _) _).0
        (IsOk-ok declared h₁) in
    let (fits, _) = (IsOk-then (check_wiring c a) _).0 (IsOk-ok declared h₂) in
    (
      ((check_wiring_iff c a).0 fits, wired),
      ((declares-false_iff seen (identity a)).0 ((IsOk-refuse_if _ _).0 unseen), fresh),
      (not_named a names ((IsOk-refuse_if _ _).0 sole), unnamed),
      same ∙ append_assoc seen (identity a ∷ []) (map identity l),
    )

Any-left : {A : Type 0} (P : A → Type 0) (l m : List A) → Any P l → Any P (l ++ m)
Any-left P [] m h = absurd h
Any-left P (x ∷ l) m (inl e) = inl e
Any-left P (x ∷ l) m (inr r) = inr (Any-left P l m r)

Any-right : {A : Type 0} (P : A → Type 0) (l m : List A) → Any P m → Any P (l ++ m)
Any-right P [] m h = h
Any-right P (x ∷ l) m h = inr (Any-right P l m h)

fresh-apart :
    (l : List Agent) (seen : List LogicalAgentVersion) (x : LogicalAgentVersion)
    → Any (λ y. y ≡ x) seen
    → IsFresh seen l
    → All (λ a. x ≢ identity a) l
fresh-apart [] seen x k h = tt
fresh-apart (a ∷ l) seen x k h = (
  λ e. h.0 (subst (λ z. Any (λ y. y ≡ z) seen) e k),
  fresh-apart l (seen ++ identity a ∷ []) x (Any-left _ seen _ k) h.1,
)

-- no two Agents of the list have one identity
abbrev pub AreDistinct : List Agent → Type 0
AreDistinct [] = Unit
AreDistinct (a ∷ l) = All (λ b. identity a ≢ identity b) l × AreDistinct l

fresh-AreDistinct :
    (l : List Agent) (seen : List LogicalAgentVersion) → IsFresh seen l → AreDistinct l
fresh-AreDistinct [] seen h = tt
fresh-AreDistinct (a ∷ l) seen h = (
  fresh-apart l (seen ++ identity a ∷ []) (identity a) (Any-right _ seen _ (inl refl)) h.1,
  fresh-AreDistinct l (seen ++ identity a ∷ []) h.1,
)

unnamed-apart :
    (l : List Agent) (names : List Text) (name : Text)
    → Has names name
    → IsUnnamed names l
    → All (λ b. b.current ≡ true → name ≢ b.name) l
unnamed-apart [] names name k h = tt
unnamed-apart (a ∷ l) names name k h = (
  λ e same. h.0 e (subst (Has names) same k),
  unnamed-apart l (if a.current then names ++ a.name ∷ [] else names) name (kept a.current) h.1,
)
  where
    kept : (b : Bool) → Has (if b then names ++ a.name ∷ [] else names) name
    kept true = Any-left _ names _ k
    kept false = k

-- no two current Agents of the list have one name
abbrev pub AreSingle : List Agent → Type 0
AreSingle [] = Unit
AreSingle (a ∷ l) =
    (a.current ≡ true → All (λ b. b.current ≡ true → a.name ≢ b.name) l) × AreSingle l

unnamed-AreSingle : (l : List Agent) (names : List Text) → IsUnnamed names l → AreSingle l
unnamed-AreSingle [] names h = tt
unnamed-AreSingle (a ∷ l) names h = (
  λ e.
      unnamed-apart l (names ++ a.name ∷ []) a.name (Any-right _ names _ (inl refl))
        (subst (λ b. IsUnnamed (if b then names ++ a.name ∷ [] else names) l) e h.1),
  unnamed-AreSingle l (if a.current then names ++ a.name ∷ [] else names) h.1,
)

-- the configuration declares the Agent version
abbrev pub IsDeclared : CompiledConfiguration → LogicalAgentVersion → Type 0
IsDeclared c r = Any (λ x. x ≡ r) (map identity c.agents.agents)

-- what the references between the components satisfy
pub record IsLinked (c : CompiledConfiguration) : Type 0 where
  pub wired : All (IsWired c) c.agents.agents
  pub distinct : AreDistinct c.agents.agents
  pub single : AreSingle c.agents.agents
  pub pins_declared : All (IsDeclared c) c.routing.agent_pins
  pub exclusions_declared : All (IsDeclared c) c.routing.agent_exclusions
  pub pins_kept : All (λ p. ¬ Any (λ x. x ≡ p) c.routing.agent_exclusions) c.routing.agent_pins
  pub versions_placed :
      All
        (λ (v : EvaluatorVersion).
          Any (λ (p : SandboxProfile). p.name ≡ v.sandbox_profile) c.execution.profiles)
        c.evaluators.versions
  pub refs_resolved :
      All
        (λ (r : EvaluatorRef).
          Any (λ (v : EvaluatorVersion). v.id ≡ r.current_version) c.evaluators.versions)
        c.evaluators.refs
  pub mandatory_kept : All (λ s. ¬ Has c.context.mandatory_sections s) c.context.optional_drop_order
  pub preload_known :
      All
        (λ s. Has c.context.mandatory_sections s ⊎ Has c.context.optional_drop_order s)
        c.context.preload_priority

either_iff :
    {P Q : Type 0} (a b : Bool)
    → (a ≡ true) ↔ P
    → (b ≡ true) ↔ Q
    → ((not a && not b) ≡ false) ↔ (P ⊎ Q)
either_iff true b f g = (λ h. inl (f.0 refl), λ h. refl)
either_iff false true f g = (λ h. inr (g.0 refl), λ h. refl)
either_iff false false f g = (λ h. cc, λ h. elim h [ inl p ↦ sym (f.1 p) | inr q ↦ sym (g.1 q) ])

check_rest_iff :
    (c : CompiledConfiguration) (declared : List LogicalAgentVersion)
    → IsOk (check_rest c declared) ↔ (
        All (λ r. Any (λ x. x ≡ r) declared) c.routing.agent_pins
        × (All (λ r. Any (λ x. x ≡ r) declared) c.routing.agent_exclusions
            × (All (λ p. ¬ Any (λ x. x ≡ p) c.routing.agent_exclusions) c.routing.agent_pins
                × (All
                      (λ (v : EvaluatorVersion).
                        Any
                          (λ (p : SandboxProfile). p.name ≡ v.sandbox_profile)
                          c.execution.profiles)
                      c.evaluators.versions
                    × (All
                          (λ (r : EvaluatorRef).
                            Any
                              (λ (v : EvaluatorVersion). v.id ≡ r.current_version)
                              c.evaluators.versions)
                          c.evaluators.refs
                        × (All
                              (λ s. ¬ Has c.context.mandatory_sections s)
                              c.context.optional_drop_order
                            × All
                                (λ s.
                                  Has c.context.mandatory_sections s
                                  ⊎ Has c.context.optional_drop_order s)
                                c.context.preload_priority))))))
unfolding check_rest validate_agent_references check_pin check_version check_ref check_dropped
    check_preloaded
check_rest_iff c declared = then_iff _ _ (each_iff _ declared_iff c.routing.agent_pins) (
    then_iff _ _ (each_iff _ declared_iff c.routing.agent_exclusions) (
      then_iff _ _
        (each_iff _ (λ p. refuse_if_iff _ (declares-false_iff c.routing.agent_exclusions p))
          c.routing.agent_pins)
        (then_iff _ _
          (each_iff _
            (λ v. refuse_if_iff _ (named_iff (λ p. p.name) c.execution.profiles v.sandbox_profile))
            c.evaluators.versions)
          (then_iff _ _
            (each_iff _
              (λ r. refuse_if_iff _ (named_iff (λ v. v.id) c.evaluators.versions r.current_version))
              c.evaluators.refs)
            (then_iff _ _
              (each_iff _
                (λ s. refuse_if_iff _ (text_contains-false_iff c.context.mandatory_sections s))
                c.context.optional_drop_order)
              (each_iff _
                (λ s. refuse_if_iff _ (
                  either_iff _ _ (text_contains_iff c.context.mandatory_sections s)
                    (text_contains_iff c.context.optional_drop_order s)))
                c.context.preload_priority))))))
  where
    declared_iff :
        (r : LogicalAgentVersion)
        → IsOk (refuse_if (not (declares declared r)) (unknown_agent r)) ↔ Any (λ x. x ≡ r) declared
    declared_iff r = refuse_if_iff _ (iff_trans (not-false_iff _) (declares_iff declared r))

-- Validation lets a configuration through only when every Agent has its route policy and a sandbox
-- profile that gives each guarantee it requires, is in a container with the control-plane
-- guarantee if it takes a control-plane action, no two Agents share an identity and no two current
-- ones a name, pins and exclusions name declared Agents and no pin is excluded, evaluator versions
-- and references resolve, no mandatory context section may be dropped, and each preloaded section
-- is known.
pub cross_references-IsLinked : (c : CompiledConfiguration) → IsOk (cross_references c) → IsLinked c
unfolding cross_references
cross_references-IsLinked c h =
    let (found, next) = IsOk-bind (check_agents c [] [] c.agents.agents) _ h in
    let (declared, e) = IsOk-value (check_agents c [] [] c.agents.agents) found in
    let (wired, fresh, unnamed, same) = check_agents-eq-ok c c.agents.agents [] [] declared e in
    let (pins, (exclusions, (kept, (versions, (refs, (dropped, known)))))) =
      (check_rest_iff c declared).0 (next declared e) in
    record {
      wired = wired;
      distinct = fresh-AreDistinct c.agents.agents [] fresh;
      single = unnamed-AreSingle c.agents.agents [] unnamed;
      pins_declared = subst (λ d. All (λ r. Any (λ x. x ≡ r) d) c.routing.agent_pins) same pins;
      exclusions_declared =
          subst (λ d. All (λ r. Any (λ x. x ≡ r) d) c.routing.agent_exclusions) same exclusions;
      pins_kept = kept;
      versions_placed = versions;
      refs_resolved = refs;
      mandatory_kept = dropped;
      preload_known = known;
    }
