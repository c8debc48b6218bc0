-- ===== src/Config/Compile/Compiled.antt =====
-- crates/pantheon-core/src/config/compile.rs: the hard policy and the references of whatever
-- `compile` returns.
use pantheon.Base.{
  ℕ, ◌≡◌, refl, false, not, ◌&&◌, [], Text, text, text_eq, text_eq_iff, text_contains, All, arith,
  ok, refuse_if,
}
use pantheon.Base.Accepts.{
  IsOk-ok, IsOk-refuse_if, iff_trans, not-false_iff, Has, text_contains_iff, Ensures, after,
  returns,
}
use pantheon.Config.Value.{Value}
use pantheon.Config.Parse.Grammar.{parse}
use pantheon.Config.Model.Agents.{AuthorizationRule, RuleEffect, permit, forbid}
use pantheon.Config.Reader.{as_array, field, indexed, read_entries, read_str}
use pantheon.Config.Revision.{CompiledConfiguration}
use pantheon.Config.Validate.{cross_references}
use pantheon.Config.Validate.Linked.{IsLinked, cross_references-IsLinked}
use pantheon.Config.Compile.Policy.{actions, hard_denied_action, as_u32}
use pantheon.Config.Compile.Agents.{agents, agent_entry}
use pantheon.Config.Compile.Routing.{routing}
use pantheon.Config.Compile.Execution.{execution, evaluators}
use pantheon.Config.Compile.Context.{
  context, read_positive, read_effect, is_permit, rule_entry, authorization,
}
use pantheon.Config.Compile.Safe.{IsSound, read_entries-All, agent_entry-IsSound}
use pantheon.Config.Compile.{from_parse_error, components, compile}

-- a rule that leaves the built-in policy in force
abbrev pub IsBinding : AuthorizationRule → Type 0
IsBinding r = Has actions r.action × (r.action ≡ hard_denied_action → r.effect ≡ forbid)

kept_forbid :
    (action : Text) (effect : RuleEffect)
    → (text_eq action hard_denied_action && is_permit effect) ≡ false
    → action ≡ hard_denied_action
    → effect ≡ forbid
unfolding is_permit
kept_forbid action forbid h e = refl
kept_forbid action permit h e = ground (arith, (text_eq_iff action hard_denied_action).1 e)

rule_entry-IsBinding :
    (i : ℕ) (nothing : Unit {0}) (v : Value) → Ensures (λ r. IsBinding r.0) (rule_entry i nothing v)
unfolding rule_entry
rule_entry-IsBinding i nothing v =
    after (read_str v (indexed (text "authorization.rules") i) (text "action")) _ (λ action _.
      after (refuse_if (not (text_contains actions action)) _) _ (λ _ known.
        after (read_str v (indexed (text "authorization.rules") i) (text "effect")) _
          (λ effect_text _. after (read_effect _ effect_text) _ (λ effect _.
            after (refuse_if (text_eq action hard_denied_action && is_permit effect) _) _ (λ _ kept.
              returns _ (
                (iff_trans (not-false_iff (text_contains actions action))
                      (text_contains_iff actions action)).0
                    ((IsOk-refuse_if _ _).0 (IsOk-ok tt known)),
                kept_forbid action effect ((IsOk-refuse_if _ _).0 (IsOk-ok tt kept)),
              ))))))

authorization-IsBinding : (v : Value) → Ensures (λ c. All IsBinding c.rules) (authorization v)
unfolding authorization
authorization-IsBinding v =
    after (read_positive v (text "authorization") (text "schemaVersion")) _ (λ stated _.
      after (field v (text "authorization") (text "rules")) _ (λ source _.
        after (as_array source (text "authorization.rules")) _ (λ entries _.
          after (read_entries rule_entry 0 tt entries) _ (λ rules read.
            after (as_u32 stated _) _ (λ version _. returns _ (
              (read_entries-All IsBinding rule_entry rule_entry-IsBinding entries 0 tt).holds rules
                read))))))

agents-IsSound : (v : Value) → Ensures (λ c. All IsSound c.agents) (agents v)
unfolding agents
agents-IsSound v = after (as_array v (text "agents")) _ (λ entries _.
    after (read_entries agent_entry 0 [] entries) _ (λ l read.
      returns _
        ((read_entries-All IsSound agent_entry agent_entry-IsSound entries 0 []).holds l read)))

-- what the configuration keeps of the built-in policy
abbrev pub KeepsPolicy : CompiledConfiguration → Type 0
KeepsPolicy c = All IsSound c.agents.agents × All IsBinding c.authorization.rules

components-KeepsPolicy : (root : Value) → Ensures KeepsPolicy (components root)
unfolding components
components-KeepsPolicy root = after (field root [] (text "agents")) _ (λ agents_source _.
    after (agents agents_source) _ (λ agents_part sound.
      after (field root [] (text "routing")) _ (λ routing_source _.
        after (routing routing_source) _ (λ routing_part _.
          after (field root [] (text "execution")) _ (λ execution_source _.
            after (execution execution_source) _ (λ execution_part _.
              after (field root [] (text "evaluators")) _ (λ evaluators_source _.
                after (evaluators evaluators_source) _ (λ evaluators_part _.
                  after (field root [] (text "context")) _ (λ context_source _.
                    after (context context_source) _ (λ context_part _.
                      after (field root [] (text "authorization")) _ (λ authorization_source _.
                        after (authorization authorization_source) _ (λ authorization_part binding.
                          returns _ (
                            (agents-IsSound agents_source).holds agents_part sound,
                            (authorization-IsBinding authorization_source).holds authorization_part
                                binding,
                          )))))))))))))

compile-Ensures : (source : Text) → Ensures (λ c. KeepsPolicy c × IsLinked c) (compile source)
unfolding compile
compile-Ensures source = after (from_parse_error (parse source)) _ (λ root _.
    after (components root) _ (λ c read. after (cross_references c) _ (λ _ linked. returns c (
      (components-KeepsPolicy root).holds c read,
      cross_references-IsLinked c (IsOk-ok tt linked),
    ))))

-- A configuration that compiles has Agents that declare only canonical actions and never the
-- hard-denied one, each with a positive context and a version of 32 bits, and no rule that permits
-- the hard-denied action; and its references between components hold.
pub compile-IsLinked :
    (source : Text) (c : CompiledConfiguration) → compile source ≡ ok c → KeepsPolicy c × IsLinked c
compile-IsLinked source c h = (compile-Ensures source).holds c h
