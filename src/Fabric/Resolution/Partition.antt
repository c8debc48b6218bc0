-- ===== src/Fabric/Resolution/Partition.antt =====
-- crates/pantheon-core/src/execution.rs: resolution decides on every Agent of the configuration.
use pantheon.Base.{
  ◌≡◌, ◌≢◌, refl, ap, subst, Bool, true, false, List, [], ◌∷◌, ◌++◌, map, is_nil, All, arith,
  Bool-cases, Result, ok, err, Text, refuse_if, ◌>>◌, inl, inr,
}
use pantheon.Base.Accepts.{is_nil-false_iff, then-eq-ok, err_injective}
use pantheon.Base.Sort.{map-Perm}
use pantheon.Base.SortWith.{perm_same, sort_with-Perm}
use mathlib.Core.List.{Permᴰ}
use pantheon.Config.Digest.{Hasher}
use pantheon.Config.Model.Agents.{LogicalAgentVersion, Agent, identity, sorted_agents}
use pantheon.Config.Revision.{CompiledConfiguration}
use pantheon.Planning.Task.{TaskSpec}
use pantheon.Fabric.Request.{ConfigurationBinding}
use pantheon.Fabric.Resolution.{
  ResolvedAgent, AgentRejection, AgentRejectionReason, AgentResolution, no_eligible_agent,
  resolve_agent, decide, resolve_each, conclude, mismatched, resolve_agents,
}
use pantheon.Fabric.Resolution.Eligible.{
  IsEligible, resolve_agent-IsEligible, resolve_agent-identity,
}

-- the identities that a resolution decides on
abbrev pub decided : AgentResolution → List LogicalAgentVersion
decided r = map (λ x. identity x.agent) r.eligible ++ map (λ x. x.agent) r.rejected

middle : {A : Type 0} (x : A) (l m : List A) → Permᴰ (l ++ x ∷ m) (x ∷ l ++ m)
middle x [] m = perm_same (x ∷ m)
middle x (y ∷ l) m = Permᴰ.trans (Permᴰ.cons refl (middle x l m)) (Permᴰ.swap refl refl)

decide-Perm :
    (agent : Agent) (o : Result AgentRejectionReason ResolvedAgent) (rest : AgentResolution)
    (l : List LogicalAgentVersion)
    → ((r : ResolvedAgent) → o ≡ ok r → r.agent ≡ agent)
    → Permᴰ (decided rest) l
    → Permᴰ (decided (decide agent o rest)) (identity agent ∷ l)
unfolding decide
decide-Perm agent (ok r) rest l same p = Permᴰ.cons (ap identity (same r refl)) p
decide-Perm agent (err reason) rest l same p =
    Permᴰ.trans (middle (identity agent) (map (λ x. identity x.agent) rest.eligible) _)
      (Permᴰ.cons refl p)

resolve_each-Perm :
    (task : TaskSpec) (configuration : CompiledConfiguration) (binding : ConfigurationBinding)
    (agents : List Agent)
    → Permᴰ (decided (resolve_each task configuration binding agents)) (map identity agents)
unfolding resolve_each
resolve_each-Perm task configuration binding [] = Permᴰ.nil
resolve_each-Perm task configuration binding (agent ∷ agents) =
    decide-Perm agent (resolve_agent task configuration binding agent)
      (resolve_each task configuration binding agents) (map identity agents)
      (resolve_agent-identity task configuration binding agent)
      (resolve_each-Perm task configuration binding agents)

decide-IsEligible :
    (P : ResolvedAgent → Type 0) (agent : Agent) (o : Result AgentRejectionReason ResolvedAgent)
    (rest : AgentResolution)
    → ((r : ResolvedAgent) → o ≡ ok r → P r)
    → All P rest.eligible
    → All P (decide agent o rest).eligible
unfolding decide
decide-IsEligible P agent (ok r) rest h k = (h r refl, k)
decide-IsEligible P agent (err reason) rest h k = k

resolve_each-IsEligible :
    (task : TaskSpec) (configuration : CompiledConfiguration) (binding : ConfigurationBinding)
    (agents : List Agent)
    → All
        (IsEligible task configuration binding)
        (resolve_each task configuration binding agents).eligible
unfolding resolve_each
resolve_each-IsEligible task configuration binding [] = tt
resolve_each-IsEligible task configuration binding (agent ∷ agents) =
    decide-IsEligible (IsEligible task configuration binding) agent
      (resolve_agent task configuration binding agent)
      (resolve_each task configuration binding agents)
      (resolve_agent-IsEligible task configuration binding agent)
      (resolve_each-IsEligible task configuration binding agents)

-- the resolution that `resolve_agents` makes before it asks whether an Agent is eligible
abbrev pub resolution : TaskSpec → CompiledConfiguration → ConfigurationBinding → AgentResolution
resolution task configuration binding =
    resolve_each task configuration binding (sorted_agents configuration.agents.agents)

pub sorted_agents-Perm : (l : List Agent) → Permᴰ (sorted_agents l) l
unfolding sorted_agents
sorted_agents-Perm l = sort_with-Perm _ l

resolution-Perm :
    (task : TaskSpec) (configuration : CompiledConfiguration) (binding : ConfigurationBinding)
    → Permᴰ
        (decided (resolution task configuration binding))
        (map identity configuration.agents.agents)
resolution-Perm task configuration binding =
    Permᴰ.trans (resolve_each-Perm task configuration binding _)
      (map-Perm identity (sorted_agents-Perm configuration.agents.agents))

conclude-eq-ok :
    (task_type : Text) (x r : AgentResolution)
    → conclude task_type x ≡ ok r
    → (r.eligible ≢ []) × (x ≡ r)
unfolding conclude
conclude-eq-ok task_type x r h = elim (Bool-cases (is_nil x.eligible)) [
  | inl e ↦ ground arith
  | inr e ↦
      let same = ended e in
      (subst (λ y. y.eligible ≢ []) same ((is_nil-false_iff x.eligible).0 e), same)
]
  where
    ended : is_nil x.eligible ≡ false → x ≡ r
    ended e = ground arith

conclude-no_eligible_agent :
    (task_type named : Text) (x : AgentResolution) (causes : List AgentRejection)
    → conclude task_type x ≡ err (no_eligible_agent named causes)
    → (x.eligible ≡ []) × (x.rejected ≡ causes)
unfolding conclude
conclude-no_eligible_agent task_type named x causes h = elim (Bool-cases (is_nil x.eligible)) [
  | inl e ↦ (nil_is x.eligible e, ground arith)
  | inr e ↦ ground arith
]
  where
    nil_is : (l : List ResolvedAgent) → is_nil l ≡ true → l ≡ []
    nil_is [] e = refl
    nil_is (_ ∷ _) e = cc

-- an early refusal is not the later error
refuse_if-eq-err :
    {E A : Type 0} (b : Bool) (e e' : E) (k : Result E A)
    → e ≢ e'
    → (refuse_if b e >> k) ≡ err e'
    → k ≡ err e'
refuse_if-eq-err true e e' k n h = absurd (n (err_injective h))
refuse_if-eq-err false e e' k n h = h

resolve_agents-eq-ok :
    (hash : Hasher) (task : TaskSpec) (configuration : CompiledConfiguration)
    (binding : ConfigurationBinding) (r : AgentResolution)
    → resolve_agents hash task configuration binding ≡ ok r
    → (r.eligible ≢ []) × (resolution task configuration binding ≡ r)
unfolding resolve_agents
resolve_agents-eq-ok hash task configuration binding r h =
    conclude-eq-ok task.task_type (resolution task configuration binding) r
      (then-eq-ok (refuse_if (mismatched hash configuration binding) _) _ h)

-- Every Agent that resolution finds eligible is enabled and current, accepts the type of the Task,
-- has its competencies, is among the pins when there are any and not among the exclusions, takes
-- no action and needs no Task effect that a rule forbids, and has a route policy and a sandbox
-- profile of the configuration, of the names it gives, whose guarantees cover its requirements;
-- the Task's activation is not in the future; and a resolution that is returned has an eligible
-- Agent.
pub resolve_agents-IsEligible :
    (hash : Hasher) (task : TaskSpec) (configuration : CompiledConfiguration)
    (binding : ConfigurationBinding) (r : AgentResolution)
    → resolve_agents hash task configuration binding ≡ ok r
    → (r.eligible ≢ []) × All (IsEligible task configuration binding) r.eligible
resolve_agents-IsEligible hash task configuration binding r h =
    let (some_agent, same) = resolve_agents-eq-ok hash task configuration binding r h in
    (
      some_agent,
      subst (λ x. All (IsEligible task configuration binding) x.eligible) same
          (resolve_each-IsEligible task configuration binding _),
    )

-- A resolution decides on each Agent of the configuration, and on nothing else: the identities of
-- the eligible and the rejected are those of the configuration's Agents, rearranged.
pub resolve_agents-Perm :
    (hash : Hasher) (task : TaskSpec) (configuration : CompiledConfiguration)
    (binding : ConfigurationBinding) (r : AgentResolution)
    → resolve_agents hash task configuration binding ≡ ok r
    → Permᴰ (decided r) (map identity configuration.agents.agents)
resolve_agents-Perm hash task configuration binding r h =
    let (_, same) = resolve_agents-eq-ok hash task configuration binding r h in
    subst (λ x. Permᴰ (decided x) (map identity configuration.agents.agents)) same
      (resolution-Perm task configuration binding)

-- a refusal for want of an eligible Agent has the rejections of the resolution
pub resolve_agents-eq-err :
    (hash : Hasher) (task : TaskSpec) (configuration : CompiledConfiguration)
    (binding : ConfigurationBinding) (task_type : Text) (causes : List AgentRejection)
    → resolve_agents hash task configuration binding ≡ err (no_eligible_agent task_type causes)
    → ((resolution task configuration binding).eligible ≡ [])
      × ((resolution task configuration binding).rejected ≡ causes)
unfolding resolve_agents
resolve_agents-eq-err hash task configuration binding task_type causes h =
    conclude-no_eligible_agent task.task_type task_type (resolution task configuration binding)
      causes (refuse_if-eq-err (mismatched hash configuration binding) _ _ _ (λ e. cc) h)

pub rejected_alone :
    (task : TaskSpec) (configuration : CompiledConfiguration) (binding : ConfigurationBinding)
    (causes : List AgentRejection)
    → (resolution task configuration binding).eligible ≡ []
    → (resolution task configuration binding).rejected ≡ causes
    → Permᴰ (map (λ x. x.agent) causes) (map identity configuration.agents.agents)
rejected_alone task configuration binding causes e same =
    subst (λ l. Permᴰ (map (λ x. x.agent) l) (map identity configuration.agents.agents)) same
      (subst
        (λ (l : List ResolvedAgent).
          Permᴰ
            (map (λ x. identity x.agent) l
              ++ map (λ x. x.agent) (resolution task configuration binding).rejected)
            (map identity configuration.agents.agents))
        e (resolution-Perm task configuration binding))
