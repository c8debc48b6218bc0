-- ===== src/Store/Lineage/Fencing.antt =====
-- crates/pantheon-store/src/execution.rs: sequences of operations on lineages, and what a launch contact
-- fences along them.
use pantheon.Base.{
  ℕ, ◌≡◌, refl, ◌∙◌, true, false, Option, some, List, Text, ok, text_eq, text_eq_iff, Bool-cases,
  inl, inr,
}
use pantheon.Store.Tables.{find_row, update_row, find_row-append, find_row-update}
use pantheon.Store.Database.{Database, AttemptStatus, Session}
use pantheon.Store.Keeps.{OnRows}
use pantheon.Store.Journal.{Command, Committed}
use pantheon.Store.Lineage.Creation.{AttemptCreation, AttemptCreated, create_attempt}
use pantheon.Store.Lineage.Authority.{rekey_agent_control_session, mark_launch_contact}
use pantheon.Store.Lineage.Outcome.{ObservationUpdate, record_execution_observation, conclude_run}
use pantheon.Store.Lineage.Stable.{Stable, IsAdvance, is_marked, attempt_of, holder, credential}
use pantheon.Store.Lineage.Preserved.{
  create_attempt-Keeps, rekey-Keeps, mark_launch_contact-Keeps, observation-Keeps,
  conclude_run-Keeps,
}

-- one operation that committed, or time that passed
pub data Step : Database → Database → Type 0 where
  created :
      (command : Command) (c : AttemptCreation) {db : Database}
      (r : Committed AttemptCreated × Database)
      → create_attempt command c db ≡ ok r
      → Step db r.1
  rekeyed :
      (attempt_id verifier : Text) (expected : ℕ) {db : Database} (r : ℕ × Database)
      → rekey_agent_control_session attempt_id verifier expected db ≡ ok r
      → Step db r.1
  contacted :
      (run_id attempt_id epoch : Text) (expected credential : ℕ) {db : Database}
      (r : Unit × Database)
      → mark_launch_contact run_id attempt_id epoch expected credential db ≡ ok r
      → Step db r.1
  observed :
      (attempt_id : Text) (expected : ℕ) (u : ObservationUpdate) {db : Database} (r : ℕ × Database)
      → record_execution_observation attempt_id expected u db ≡ ok r
      → Step db r.1
  concluded :
      (run_id target : Text) (expected : ℕ) {db : Database} (r : Unit × Database)
      → conclude_run run_id target expected db ≡ ok r
      → Step db r.1
  ticked : (now : ℕ) {db : Database} → Step db (record db { now = now })

pub data Steps : Database → Database → Type 0 where
  done : {db : Database} → Steps db db
  step : {a b c : Database} → Step a b → Steps b c → Steps a c

Step-keeps :
    (Q : List AttemptStatus → List Session → Type 0)
    → Stable Q
    → {a b : Database} → Step a b
    → OnRows Q a
    → OnRows Q b
Step-keeps Q st (created command c r h) p = create_attempt-Keeps Q st command c _ r h p
Step-keeps Q st (rekeyed k v e r h) p = rekey-Keeps Q st k v e _ r h p
Step-keeps Q st (contacted run_id k epoch e c r h) p =
    mark_launch_contact-Keeps Q st run_id k epoch e c _ r h p
Step-keeps Q st (observed k e u r h) p = observation-Keeps Q st k e u _ r h p
Step-keeps Q st (concluded run_id t e r h) p = conclude_run-Keeps Q st run_id t e _ r h p
Step-keeps Q st (ticked now) p = p

pub Steps-keeps :
    (Q : List AttemptStatus → List Session → Type 0)
    → Stable Q
    → {a b : Database} → Steps a b
    → OnRows Q a
    → OnRows Q b
Steps-keeps Q st done p = p
Steps-keeps Q st (step s t) p = Steps-keeps Q st t (Step-keeps Q st s p)

-- the Attempt has its contact marker, and its session this credential
abbrev pub IsFrozen : Text → ℕ × Text → List AttemptStatus → List Session → Type 0
IsFrozen k x l ss =
    ((s : AttemptStatus) × (find_row attempt_of k l ≡ some s) × (is_marked s ≡ true))
    × ((t : Session) × (find_row holder k ss ≡ some t) × (credential t ≡ x))

IsFrozen-advances :
    (k : Text) (x : ℕ × Text) (l : List AttemptStatus) (ss : List Session) (j : Text)
    (f : AttemptStatus → AttemptStatus)
    → IsAdvance f
    → IsFrozen k x l ss
    → IsFrozen k x (update_row attempt_of j f l) ss
IsFrozen-advances k x l ss j f adv ((s, found, marked), t) = elim (Bool-cases (text_eq j k)) [
  | inl e ↦ (
    (
      f s,
      rw (find_row-update attempt_of j k f l (λ r. (adv r).0), found, e) refl,
      (adv s).2 marked,
    ),
    t,
  )
  | inr e ↦
      ((s, rw (find_row-update attempt_of j k f l (λ r. (adv r).0), found, e) refl, marked), t)
]

IsFrozen-revokes :
    (k : Text) (x : ℕ × Text) (l : List AttemptStatus) (ss : List Session) (j : Text)
    (g : Session → Session)
    → ((s : Session) → ((g s).attempt_id ≡ s.attempt_id) × (credential (g s) ≡ credential s))
    → IsFrozen k x l ss
    → IsFrozen k x l (update_row holder j g ss)
IsFrozen-revokes k x l ss j g same (h, (t, found, c)) = elim (Bool-cases (text_eq j k)) [
  | inl e ↦ (
    h,
    (g t, rw (find_row-update holder j k g ss (λ r. (same r).0), found, e) refl, (same t).1 ∙ c),
  )
  | inr e ↦ (h, (t, rw (find_row-update holder j k g ss (λ r. (same r).0), found, e) refl, c))
]

absurd_rows :
    {A : Type 0} {o : Option AttemptStatus} {s u : AttemptStatus}
    → o ≡ some s
    → o ≡ some u
    → is_marked s ≡ false
    → is_marked u ≡ true
    → A
absurd_rows p q f t = cc

-- a rekey is of another Attempt, as this one has its marker
IsFrozen-rekeys :
    (k : Text) (x : ℕ × Text) (l : List AttemptStatus) (ss : List Session) (j : Text)
    (g : Session → Session) (s : AttemptStatus)
    → find_row attempt_of j l ≡ some s
    → is_marked s ≡ false
    → ((s : Session) → (g s).attempt_id ≡ s.attempt_id)
    → IsFrozen k x l ss
    → IsFrozen k x l (update_row holder j g ss)
IsFrozen-rekeys k x l ss j g s at_j fresh keep ((u, at_k, marked), (t, found, c)) =
    elim (Bool-cases (text_eq j k)) [
      | inl e ↦
          let same = (text_eq_iff j k).0 e in
          absurd_rows {s = s} {u = u} at_j (rw same at_k) fresh marked
      | inr e ↦
          ((u, at_k, marked), (t, rw (find_row-update holder j k g ss keep, found, e) refl, c))
    ]

IsFrozen-Stable : (k : Text) (x : ℕ × Text) → Stable (IsFrozen k x)
IsFrozen-Stable k x = record {
  inserts_status =
      λ l ss s _ _ p. ((p.0.0, rw (find_row-append attempt_of k l s, p.0.1) refl, p.0.2), p.1);
  inserts_session =
      λ l ss s p. (p.0, (p.1.0, rw (find_row-append holder k ss s, p.1.1) refl, p.1.2));
  advances = λ l ss j f adv _ p. IsFrozen-advances k x l ss j f adv p;
  finishes = λ l ss j f s _ _ adv p. IsFrozen-advances k x l ss j f adv p;
  revokes = λ l ss j g same p. IsFrozen-revokes k x l ss j g same p;
  rekeys = λ l ss j g s at fresh keep p. IsFrozen-rekeys k x l ss j g s at fresh keep p;
}

-- The launch boundary freezes the credential. Once an Attempt has its contact marker, every sequence of
-- creations, rekeys, contacts, observations and conclusions leaves the marker in its place, and its session
-- with the same credential revision and the same verifier.
pub Steps-IsFrozen :
    (k : Text) (x : ℕ × Text) {a b : Database}
    → Steps a b
    → IsFrozen k x a.statuses a.sessions
    → IsFrozen k x b.statuses b.sessions
Steps-IsFrozen k x = Steps-keeps (IsFrozen k x) (IsFrozen-Stable k x)
