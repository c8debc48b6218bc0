-- ===== src/Store/Lineage/Rows.antt =====
-- What each part of an operation on a lineage (crates/pantheon-store/src/execution.rs) does to the rows
-- of the Attempts and of their sessions, when it succeeds.
use pantheon.Base.{
  ℕ, ◌+◌, ◌≡◌, refl, ◌∙◌, true, false, Option, none, some, [], ◌∷◌, ◌++◌, Text, ok, arith, any,
  Option-cases, inl, inr,
}
use pantheon.Store.Tables.{find_row, update_row}
use pantheon.Store.Database.{Database, Attempt, AttemptStatus, Session}
use pantheon.Store.Effects.{>>=-eq-ok, fail_if-eq-ok}
use pantheon.Store.Journal.{current_generation}
use pantheon.Store.Lineage.Creation.{
  AttemptCreation, active_run, is_live_of, forbid_live, insert_attempt, insert_status,
  insert_session, check_launch_ready,
}
use pantheon.Store.Lineage.Authority.{
  status_of, session_of, current_attempt, owner_attempt, require_precontact, require_session,
  forbid_rekey_unless_precontact, swap_credential, live_revision, require_authority,
}
use pantheon.Store.Lineage.Outcome.{require_contact}
use pantheon.Store.Lineage.Stable.{is_marked, attempt_of, holder}

SameRows : Database → Database → Type 0
SameRows db e = (e.statuses ≡ db.statuses) × (e.sessions ≡ db.sessions)

pub insert_attempt-rows :
    (a : Attempt) (db : Database) {r : Unit × Database}
    → insert_attempt a db ≡ ok r
    → (r.1.statuses ≡ db.statuses) × (r.1.sessions ≡ db.sessions)
unfolding insert_attempt
insert_attempt-rows a db h = ground arith

pub insert_status-rows :
    (s : AttemptStatus) (db : Database) {r : Unit × Database}
    → s.terminal ≡ false
    → insert_status s db ≡ ok r
    → (any (is_live_of s.run_id) db.statuses ≡ false)
      × (r.1.statuses ≡ db.statuses ++ s ∷ [])
      × (r.1.sessions ≡ db.sessions)
unfolding insert_status
insert_status-rows s db t h = ground arith

pub insert_session-rows :
    (s : Session) (db : Database) {r : Unit × Database}
    → insert_session s db ≡ ok r
    → (r.1.statuses ≡ db.statuses) × (r.1.sessions ≡ db.sessions ++ s ∷ [])
unfolding insert_session
insert_session-rows s db h = ground arith

pub check_launch_ready-same :
    (c : AttemptCreation) (db : Database) {r : Unit × Database}
    → check_launch_ready c db ≡ ok r
    → r.1 ≡ db
unfolding check_launch_ready active_run forbid_live
check_launch_ready-same c db h = ground arith

pub current_generation-same :
    (db : Database) {r : Text × Database} → current_generation db ≡ ok r → r.1 ≡ db
unfolding current_generation
current_generation-same db h = ground arith

pub require_precontact-facts :
    (k : Text) (db : Database) {r : Unit × Database}
    → require_precontact k db ≡ ok r
    → (r.1 ≡ db)
      × (s : AttemptStatus) × (find_row attempt_of k db.statuses ≡ some s)
      × (is_marked s ≡ false)
unfolding require_precontact status_of
require_precontact-facts k db h = elim (Option-cases (find_row attempt_of k db.statuses)) [
  | inl n ↦ ground (arith, n)
  | inr s ↦ (ground (arith, s.1), s.0, s.1, ground (arith, s.1))
]

pub require_session-same :
    (k : Text) (db : Database) {r : Unit × Database} → require_session k db ≡ ok r → r.1 ≡ db
unfolding require_session session_of current_generation
require_session-same k db h = ground arith

pub owner_attempt-same :
    (k : Text) (db : Database) {r : Option Text × Database} → owner_attempt k db ≡ ok r → r.1 ≡ db
unfolding owner_attempt current_attempt active_run
owner_attempt-same k db h = ground arith

-- a rekey is let through before any contact alone
pub forbid_rekey-facts :
    (k : Text) (db : Database) {r : Unit × Database}
    → forbid_rekey_unless_precontact k db ≡ ok r
    → (r.1 ≡ db)
      × (s : AttemptStatus) × (find_row attempt_of k r.1.statuses ≡ some s)
      × (is_marked s ≡ false)
unfolding forbid_rekey_unless_precontact
forbid_rekey-facts k db {r = r} h =
    let (r1, e1, h1) = >>=-eq-ok (require_precontact k) _ db h in
    let (r2, e2, h2) = >>=-eq-ok (require_session k) _ r1.1 h1 in
    let (r3, e3, h3) = >>=-eq-ok (owner_attempt k) _ r2.1 h2 in
    let (same1, s, found, fresh) = require_precontact-facts k db e1 in
    let same : r.1 ≡ db =
      (fail_if-eq-ok _ _ r3.1 h3).1
      ∙ owner_attempt-same k r2.1 e3
      ∙ require_session-same k r1.1 e2
      ∙ same1 in
    (same, s, rw same found, fresh)

pub require_authority-same :
    (run_id k : Text) (e : ℕ) (db : Database) {r : Unit × Database}
    → require_authority run_id k e db ≡ ok r
    → r.1 ≡ db
unfolding require_authority current_attempt active_run live_revision session_of
require_authority-same run_id k e db h = ground arith

pub require_contact-facts :
    (k : Text) (o : Option AttemptStatus) (db : Database) {r : Unit × Database}
    → require_contact k o db ≡ ok r
    → (r.1 ≡ db) × (s : AttemptStatus) × (o ≡ some s) × (is_marked s ≡ true)
unfolding require_contact
require_contact-facts k none db h = cc
require_contact-facts k (some s) db h = (ground arith, s, refl, ground arith)

-- a credential changes at the Attempt's own session
pub swap_credential-rows :
    (k v : Text) (e : ℕ) (o : Option Session) (db : Database) {r : Unit × Database}
    → swap_credential k v e o db ≡ ok r
    → (r.1.statuses ≡ db.statuses)
      × (r.1.sessions
          ≡ update_row holder k
              (λ s. record s {
                credential_revision = s.credential_revision + 1;
                credential_hash = v;
                credential_rekeyed_at = some db.now;
              })
              db.sessions)
unfolding swap_credential
swap_credential-rows k v e none db h = cc
swap_credential-rows k v e (some s) db h = ground arith
