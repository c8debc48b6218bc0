-- ===== src/Store/Lineage/Boundary.antt =====
-- crates/pantheon-store/src/execution.rs: what a launch contact and a rekey leave in the tables.
use pantheon.Base.{
  ℕ, ◌+◌, ◌≡◌, refl, ap, ◌∙◌, Bool, true, false, Option, none, some, List, Text, text, ok,
  text_eq_iff, text_eq_refl, arith, if◌then◌else◌,
}
use pantheon.Store.Tables.{find_row, update_row, find_row-update}
use pantheon.Store.Database.{Database, AttemptStatus, Session, stale_authority, pure, some_or}
use pantheon.Store.Effects.{>>=-eq-ok, some_or-eq-ok, append_internal_event-rows}
use pantheon.Store.Journal.{append_internal_event}
use pantheon.Store.Lineage.Revisioned.{
  StatusAssignment, attempt_status, advance, update_revisioned_by,
}
use pantheon.Store.Lineage.Authority.{
  is_open, status_of, session_of, forbid_rekey_unless_precontact, swap_credential,
  rekey_agent_control_session, require_authority, first_contact, eligible, mark_launch_contact,
}
use pantheon.Store.Lineage.Stable.{
  is_marked, attempt_of, holder, credential, update_revisioned_by-eq-ok,
}
use pantheon.Store.Lineage.Rows.{require_authority-same, swap_credential-rows}

eligible-some :
    (run_id : Text) (o : Option AttemptStatus) (s : AttemptStatus)
    → eligible run_id o ≡ some s
    → (o ≡ some s) × (s.run_id ≡ run_id) × (s.terminal ≡ false)
unfolding eligible
eligible-some run_id none s h = cc
eligible-some run_id (some t) s h = ground (arith, h, text_eq_iff t.run_id run_id)

-- the row of the Attempt, at the Run, nonterminal and with its marker
abbrev pub IsCrossed : Text → Text → Database → Type 0
IsCrossed run_id k db =
    (s : AttemptStatus) × (find_row attempt_of k db.statuses ≡ some s)
    × (s.run_id ≡ run_id)
    × (s.terminal ≡ false)
    × (is_marked s ≡ true)

-- the row that a swap leaves at its key
updated_row :
    (k : Text) (e : ℕ) (l : List StatusAssignment) (s : AttemptStatus) (db : Database)
    {r : ℕ × Database}
    → find_row attempt_of k db.statuses ≡ some s
    → ((a : AttemptStatus) → (advance attempt_status l a).attempt_id ≡ a.attempt_id)
    → update_revisioned_by attempt_status k e l db ≡ ok r
    → find_row attempt_of k r.1.statuses ≡ some (advance attempt_status l s)
updated_row k e l s db found keep h =
    let (_, _, _, shape, _) = update_revisioned_by-eq-ok attempt_status k e l db h in
    rw
      (
        shape,
        find_row-update attempt_of k k (advance attempt_status l) db.statuses keep,
        found,
        text_eq_refl k,
      )
      refl

pure_statuses : (d : Database) (r : Unit × Database) → pure tt d ≡ ok r → r.1.statuses ≡ d.statuses
pure_statuses d r h = ground arith

crossed :
    (run_id k : Text) (u : AttemptStatus) (d d' : Database)
    → d'.statuses ≡ d.statuses
    → find_row attempt_of k d.statuses ≡ some u
    → u.run_id ≡ run_id
    → u.terminal ≡ false
    → is_marked u ≡ true
    → IsCrossed run_id k d'
crossed run_id k u d d' same found at alive marked = (u, rw same found, at, alive, marked)

first_contact-IsCrossed :
    (run_id k epoch : Text) (e c : ℕ) (s : AttemptStatus) (db : Database) (r : Unit × Database)
    → find_row attempt_of k db.statuses ≡ some s
    → s.run_id ≡ run_id
    → s.terminal ≡ false
    → first_contact run_id k epoch e c db ≡ ok r
    → IsCrossed run_id k r.1
unfolding first_contact
first_contact-IsCrossed run_id k epoch e c s db r found at alive h =
    let (r1, e1, h1) = >>=-eq-ok (require_authority run_id k c) _ db h in
    let same = require_authority-same run_id k c db e1 in
    let (r2, e2, h2) = >>=-eq-ok (update_revisioned_by attempt_status k e _) _ r1.1 h1 in
    let now_found = updated_row k e _ s r1.1 (rw same found) (λ _. refl) e2 in
    let (r3, e3, h3) = >>=-eq-ok (append_internal_event _) _ r2.1 h2 in
    let (_, _, kept, _) = append_internal_event-rows _ r2.1 e3 in
    crossed run_id k _ r2.1 r.1 (pure_statuses r3.1 r h3 ∙ kept) now_found at alive refl

-- A launch contact that succeeds leaves the Attempt's row at the Run, nonterminal and with its contact
-- marker, also when the marker was there before.
pub mark_launch_contact-IsCrossed :
    (run_id k epoch : Text) (e c : ℕ) (db : Database) (r : Unit × Database)
    → mark_launch_contact run_id k epoch e c db ≡ ok r
    → IsCrossed run_id k r.1
unfolding mark_launch_contact status_of
mark_launch_contact-IsCrossed run_id k epoch e c db r h =
    let (r1, e1, h1) =
      >>=-eq-ok
        (some_or (eligible run_id (find_row attempt_of k db.statuses))
          (stale_authority k (text "the Attempt is absent, foreign to the Run, or terminal")))
        _ db h in
    let (chosen, same) = some_or-eq-ok _ _ db e1 in
    let (found, at, alive) = eligible-some run_id _ r1.0 chosen in
    branch (is_marked r1.0) r1.0 r1.1 refl (rw same found) at alive h1
  where
    branch :
        (b : Bool) (s : AttemptStatus) (d : Database)
        → is_marked s ≡ b
        → find_row attempt_of k d.statuses ≡ some s
        → s.run_id ≡ run_id
        → s.terminal ≡ false
        → (if b then pure tt else first_contact run_id k epoch e c) d ≡ ok r
        → IsCrossed run_id k r.1
    branch true s d m found at alive h = (s, rw (pure_statuses d r h) found, at, alive, m)
    branch false s d m found at alive h =
        first_contact-IsCrossed run_id k epoch e c s d r found at alive h

-- a swap that succeeds found the session open, at the expected credential revision
swap_credential-found :
    (k v : Text) (e : ℕ) (o : Option Session) (db : Database) {r : Unit × Database}
    → swap_credential k v e o db ≡ ok r
    → (s : Session) × (o ≡ some s) × (s.credential_revision ≡ e) × (is_open s.state ≡ true)
unfolding swap_credential
swap_credential-found k v e none db h = cc
swap_credential-found k v e (some s) db h = (s, refl, ground (arith, h), ground (arith, h))

-- the Attempt's session is open, with this credential
abbrev pub IsCurrent : Text → ℕ × Text → Database → Type 0
IsCurrent k x db =
    (s : Session) × (find_row holder k db.sessions ≡ some s)
    × (credential s ≡ x)
    × (is_open s.state ≡ true)

returned_sessions :
    (n : ℕ) (d : Database) (r : ℕ × Database)
    → pure n d ≡ ok r
    → (r.0 ≡ n) × (r.1.sessions ≡ d.sessions)
returned_sessions n d r h = ground arith

rekeyed_at :
    (k v : Text) (e now : ℕ) (s : Session) (l : List Session) (d : Database)
    → d.sessions
      ≡ update_row holder k
          (λ s. record s {
            credential_revision = s.credential_revision + 1;
            credential_hash = v;
            credential_rekeyed_at = some now;
          })
          l
    → find_row holder k l ≡ some s
    → s.credential_revision ≡ e
    → is_open s.state ≡ true
    → IsCurrent k (e + 1, v) d
rekeyed_at k v e now s l d same found revision is_active = (
  record s {
    credential_revision = s.credential_revision + 1;
    credential_hash = v;
    credential_rekeyed_at = some now;
  },
  rw
      (
        same,
        find_row-update holder k k
            (λ s. record s {
              credential_revision = s.credential_revision + 1;
              credential_hash = v;
              credential_rekeyed_at = some now;
            })
            l (λ _. refl),
        found,
        text_eq_refl k,
      )
      refl,
  ap (λ n. (n + 1, v)) revision,
  is_active,
)

-- A rekey that succeeds returns the credential revision after the expected one, and leaves the Attempt's
-- session open with this revision and the new verifier.
pub rekey-IsCurrent :
    (k v : Text) (e : ℕ) (db : Database) (r : ℕ × Database)
    → rekey_agent_control_session k v e db ≡ ok r
    → (r.0 ≡ e + 1) × IsCurrent k (e + 1, v) r.1
unfolding rekey_agent_control_session session_of
rekey-IsCurrent k v e db r h =
    let (r0, e0, h0) = >>=-eq-ok (forbid_rekey_unless_precontact k) _ db h in
    let (r1, e1, h1) = >>=-eq-ok (swap_credential k v e _) _ r0.1 h0 in
    let (_, rows) = swap_credential-rows k v e _ r0.1 e1 in
    let (s, found, revision, is_live) = swap_credential-found k v e _ r0.1 e1 in
    let (r2, e2, h2) = >>=-eq-ok (append_internal_event _) _ r1.1 h1 in
    let (_, _, _, kept) = append_internal_event-rows _ r1.1 e2 in
    let (returned, sessions) = returned_sessions (e + 1) r2.1 r h2 in
    (
      returned,
      rekeyed_at k v e r0.1.now s r0.1.sessions r.1 (sessions ∙ kept ∙ rows) found revision is_live,
    )
