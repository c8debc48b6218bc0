-- ===== src/Config/Compile/Safe.antt =====
-- crates/pantheon-core/src/config/compile.rs: what every compiled configuration satisfies.
use pantheon.Base.{
  ℕ, ◌+◌, ◌^◌, ◌<◌, ◌≡◌, ◌≢◌, ◌↔◌, inl, inr, Bool-cases, true, false, List, [], ◌∷◌, Text, text,
  text_eq, text_eq_iff, All, arith, Result,
}
use pantheon.Base.Accepts.{
  each, IsOk, IsOk-ok, iff_trans, refuse_if_iff, then_iff, each_iff, not-false_iff,
  is_nil-false_iff, Has, text_contains_iff, Ensures, after, returns,
}
use pantheon.Base.Int.{ℤ, pos, negsuc, int_lt}
use pantheon.Config.Value.{Value}
use pantheon.Config.Error.{ConfigError}
use pantheon.Config.Model.Agents.{Agent}
use pantheon.Config.Reader.{
  path, positive, read_entries, indexed, read_str, read_i64, non_empty, unique, string_list,
}
use pantheon.Config.Compile.Policy.{
  actions, hard_denied_action, as_u32, non_empty_list, unique_list, guidance, optional_bool,
  agent_id, reject_unknown_fields,
}
use pantheon.Config.Compile.Agents.{
  agent_fields, unique_strings, check_action, agent_actions, some_strings, agent_entry,
}

-- an action that an Agent may declare
abbrev pub IsAllowed : Text → Type 0
IsAllowed action = Has actions action × (action ≢ hard_denied_action)

pub record IsSound (a : Agent) : Type 0 where
  pub version_bound : a.version < 2 ^ 32
  pub context_positive : int_lt (pos 0) a.min_context_tokens ≡ true
  pub accepts_some : a.accepts ≢ []
  pub competent : a.competencies ≢ []
  pub actions_allowed : All IsAllowed a.actions

pub read_entries-All :
    {S A : Type 0} (P : A → Type 0) (read : ℕ → S → Value → Result ConfigError (A × S))
    → ((i : ℕ) (s : S) (v : Value) → Ensures (λ r. P r.0) (read i s v))
    → (l : List Value) (i : ℕ) (s : S) → Ensures (All P) (read_entries read i s l)
unfolding read_entries
read_entries-All P read h [] i s = returns [] tt
read_entries-All P read h (v ∷ l) i s = after (read i s v) _ (λ r e.
    after (read_entries read (1 + i) r.1 l) _ (λ rest e'.
      returns (r.0 ∷ rest)
        ((h i s v).holds r e, (read_entries-All P read h l (1 + i) r.1).holds rest e')))

text_neq_iff : (a b : Text) → (text_eq a b ≡ false) ↔ (a ≢ b)
text_neq_iff a b =
    let (to, from) = text_eq_iff a b in
    (
      λ h e. ground (arith, from e),
      λ h. elim (Bool-cases (text_eq a b)) [ inl e ↦ absurd (h (to e)) | inr e ↦ e ],
    )

check_action-IsAllowed : (name at a : Text) → IsOk (check_action name at a) ↔ IsAllowed a
unfolding check_action
check_action-IsAllowed name at a =
    then_iff _ _ (refuse_if_iff _ (iff_trans (not-false_iff _) (text_contains_iff actions a)))
      (refuse_if_iff _ (text_neq_iff a hard_denied_action))

agent_actions-IsAllowed :
    (name : Text) (v : Value) (prefix : Text)
    → Ensures (All IsAllowed) (agent_actions name v prefix)
unfolding agent_actions
agent_actions-IsAllowed name v prefix =
    after (string_list v prefix (text "actions")) _ (λ declared _.
      after (unique_list declared (text "agent action")) _ (λ _ _.
        after (each (check_action name (path prefix (text "actions"))) declared) _ (λ _ e.
          returns declared
            ((each_iff _ (check_action-IsAllowed name _) declared).0 (IsOk-ok tt e)))))

filled_iff : (l : List Text) (at : Text) → IsOk (non_empty_list l at) ↔ (l ≢ [])
unfolding non_empty_list
filled_iff l at = refuse_if_iff _ (is_nil-false_iff l)

some_strings-filled :
    (v : Value) (prefix key kind : Text) → Ensures (λ l. l ≢ []) (some_strings v prefix key kind)
unfolding some_strings
some_strings-filled v prefix key kind = after (string_list v prefix key) _ (λ l _.
    after (non_empty_list l (path prefix key)) _
      (λ _ e. after (unique_list l kind) _ (λ _ _. returns l ((filled_iff l _).0 (IsOk-ok tt e)))))

as_u32-bound : (z : ℤ) (at : Text) → Ensures (λ n. n < 2 ^ 32) (as_u32 z at)
unfolding as_u32
as_u32-bound (pos n) at = record { holds = λ a e. ground arith }
as_u32-bound (negsuc n) at = record { holds = λ a e. cc }

positive_iff : (z : ℤ) (at : Text) → IsOk (positive z at) ↔ (int_lt (pos 0) z ≡ true)
unfolding positive
positive_iff z at = refuse_if_iff _ (not-false_iff (int_lt (pos 0) z))

pub agent_entry-IsSound :
    (i : ℕ) (seen : List Text) (v : Value) → Ensures (λ r. IsSound r.0) (agent_entry i seen v)
unfolding agent_entry
agent_entry-IsSound i seen v =
    after (reject_unknown_fields v (indexed (text "agents") i) agent_fields) _ (λ _ _.
      after (read_str v (indexed (text "agents") i) (text "name")) _ (λ name _.
        after (non_empty name (path (indexed (text "agents") i) (text "name"))) _ (λ _ _.
          after (read_i64 v (indexed (text "agents") i) (text "version")) _ (λ stated _.
            after (positive stated (path (indexed (text "agents") i) (text "version"))) _ (λ _ _.
              after (unique seen (text "Agent version") (agent_id name stated)) _ (λ met _.
                after (read_i64 v (indexed (text "agents") i) (text "minContextTokens")) _
                  (λ min_context_tokens _.
                    after
                      (positive min_context_tokens
                        (path (indexed (text "agents") i) (text "minContextTokens")))
                      _
                      (λ _ positive_tokens.
                        after (agent_actions name v (indexed (text "agents") i)) _
                          (λ declared allowed.
                            after
                              (some_strings v (indexed (text "agents") i) (text "accepts")
                                (text "accepts entry"))
                              _
                              (λ accepts accepts_some.
                                after
                                  (some_strings v (indexed (text "agents") i) (text "competencies")
                                    (text "competency"))
                                  _
                                  (λ competencies competent.
                                    after (guidance v (indexed (text "agents") i) (text "soul")) _
                                      (λ soul _.
                                        after
                                          (guidance v (indexed (text "agents") i) (text "behavior"))
                                          _
                                          (λ behavior _.
                                            after
                                              (as_u32 stated
                                                (path (indexed (text "agents") i) (text "version")))
                                              _
                                              (λ version bound.
                                                after
                                                  (optional_bool v (indexed (text "agents") i)
                                                    (text "enabled") true)
                                                  _
                                                  (λ enabled _.
                                                    after
                                                      (optional_bool v (indexed (text "agents") i)
                                                        (text "current") true)
                                                      _
                                                      (λ current _.
                                                        after
                                                          (read_str v (indexed (text "agents") i)
                                                            (text "routePolicy"))
                                                          _
                                                          (λ route_policy _.
                                                            after
                                                            (unique_strings v
                                                            (indexed (text "agents") i)
                                                            (text "executionFeatures")
                                                            (text "execution feature"))
                                                            _
                                                            (λ features _.
                                                            after
                                                            (read_str v (indexed (text "agents") i)
                                                            (text "sandboxProfile"))
                                                            _
                                                            (λ sandbox_profile _.
                                                            after
                                                            (unique_strings v
                                                            (indexed (text "agents") i)
                                                            (text "sandboxRequirements")
                                                            (text "sandbox requirement"))
                                                            _
                                                            (λ requirements _. returns _ (record {
                                                            version_bound =
                                                            (as_u32-bound stated _).holds version
                                                            bound;
                                                            context_positive =
                                                            (positive_iff min_context_tokens _).0
                                                            (IsOk-ok tt positive_tokens);
                                                            accepts_some =
                                                            (some_strings-filled v _ _ _).holds
                                                            accepts accepts_some;
                                                            competent =
                                                            (some_strings-filled v _ _ _).holds
                                                            competencies competent;
                                                            actions_allowed =
                                                            (agent_actions-IsAllowed name v _).holds
                                                            declared allowed;
                                                            })))))))))))))))))))))
