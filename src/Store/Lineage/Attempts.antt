-- ===== src/Store/Lineage/Attempts.antt =====
-- crates/pantheon-store/src/execution.rs: which Attempts of a Run are live or ended, along every
-- sequence of operations on lineages.
use pantheon.Base.{
  ℕ, ◌+◌, ◌≤◌, ◌≡◌, refl, sym, ◌∙◌, true, false, List, [], ◌∷◌, ◌++◌, Text, All, arith, any,
  text_eq_iff, if◌then◌else◌,
}
use pantheon.Store.Tables.{update_row, All-update, All-update-found}
use pantheon.Store.Database.{Database, AttemptStatus, Session}
use pantheon.Store.Lineage.Creation.{is_live_of}
use pantheon.Store.Lineage.Stable.{Stable, IsAdvance, is_marked, attempt_of}
use pantheon.Store.Lineage.Fencing.{Steps, Steps-keeps}

-- every terminal Attempt has its contact marker
abbrev pub IsProven : List AttemptStatus → List Session → Type 0
IsProven l ss = All (λ s. s.terminal ≡ true → is_marked s ≡ true) l

All-append :
    {A : Type 0} (P : A → Type 0) (l : List A) (x : A) → All P l → P x → All P (l ++ x ∷ [])
All-append P [] x h p = (p, tt)
All-append P (y ∷ l) x h p = (h.0, All-append P l x h.1 p)

IsProven-Stable : Stable IsProven
IsProven-Stable = record {
  inserts_status = λ l ss s _ t p. All-append _ l s p (λ u. ground (arith, t, u));
  inserts_session = λ l ss s p. p;
  advances = λ l ss k f adv same p.
      All-update attempt_of k f l (λ r h t. (adv r).2 (h (sym (same r) ∙ t))) p;
  finishes = λ l ss k f s found marked adv p.
      All-update-found attempt_of _ k f l s found (λ _. (adv s).2 marked) p;
  revokes = λ l ss k g _ p. p;
  rekeys = λ l ss k g s _ _ _ p. p;
}

-- No Attempt ends without its contact marker: when every terminal Attempt has one, this holds after every
-- sequence of operations.
pub Steps-IsProven :
    {a b : Database} → Steps a b → IsProven a.statuses a.sessions → IsProven b.statuses b.sessions
Steps-IsProven = Steps-keeps IsProven IsProven-Stable

-- the nonterminal Attempts of a Run
unfoldable pub live : Text → List AttemptStatus → ℕ
live run_id [] = 0
live run_id (s ∷ l) = if is_live_of run_id s then live run_id l + 1 else live run_id l

abbrev pub IsSingle : List AttemptStatus → List Session → Type 0
IsSingle l ss = (run_id : Text) → live run_id l ≤ 1

live-append :
    (run_id : Text) (l : List AttemptStatus) (s : AttemptStatus)
    → live run_id (l ++ s ∷ []) ≡ (if is_live_of run_id s then live run_id l + 1 else live run_id l)
unfolding live
live-append run_id [] s = refl
live-append run_id (t ∷ l) s = ground (arith, live-append run_id l s)

live-none :
    (run_id : Text) (l : List AttemptStatus) → any (is_live_of run_id) l ≡ false → live run_id l ≡ 0
unfolding live
live-none run_id [] h = refl
live-none run_id (t ∷ l) h = ground (arith, live-none run_id l)

live-update :
    (run_id k : Text) (f : AttemptStatus → AttemptStatus) (l : List AttemptStatus)
    → IsAdvance f
    → live run_id (update_row attempt_of k f l) ≤ live run_id l
unfolding live update_row
live-update run_id k f [] adv = ground arith
live-update run_id k f (s ∷ l) adv =
    let (_, same, _, ends) = adv s in
    let rest = live-update run_id k f l adv in ground (arith, same, ends, rest)

IsSingle-inserts :
    (l : List AttemptStatus) (ss : List Session) (s : AttemptStatus)
    → any (is_live_of s.run_id) l ≡ false
    → s.terminal ≡ false
    → IsSingle l ss
    → IsSingle (l ++ s ∷ []) ss
IsSingle-inserts l ss s n t p run_id =
    ground
      (arith, live-append run_id l s, live-none s.run_id l n, text_eq_iff s.run_id run_id, p run_id)

IsSingle-Stable : Stable IsSingle
IsSingle-Stable = record {
  inserts_status = λ l ss s n t p. IsSingle-inserts l ss s n t p;
  inserts_session = λ l ss s p. p;
  advances = λ l ss k f adv same p run_id. ground (arith, live-update run_id k f l adv, p run_id);
  finishes = λ l ss k f s _ _ adv p run_id. ground (arith, live-update run_id k f l adv, p run_id);
  revokes = λ l ss k g _ p. p;
  rekeys = λ l ss k g s _ _ _ p. p;
}

-- At most one nonterminal Attempt: when no Run has two nonterminal Attempts, none has two after any
-- sequence of operations.
pub Steps-IsSingle :
    {a b : Database} → Steps a b → IsSingle a.statuses a.sessions → IsSingle b.statuses b.sessions
Steps-IsSingle = Steps-keeps IsSingle IsSingle-Stable
