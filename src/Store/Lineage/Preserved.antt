-- ===== src/Store/Lineage/Preserved.antt =====
-- Every operation on a lineage (crates/pantheon-store/src/execution.rs) keeps a stable assertion.
use pantheon.Base.{ℕ, ◌≡◌, refl, false, List, ◌++◌, Text, text, arith}
use pantheon.Store.Tables.{find_row}
use pantheon.Store.Database.{
  Attempt, AttemptStatus, Session, Observation, invariant_violated, stale_authority, fail_if,
  some_or,
}
use pantheon.Store.Effects.{>>=-eq-ok}
use pantheon.Store.Keeps.{
  Keeps, Keeps-pure, Keeps-modify, Keeps-fail_if, Keeps-if, Keeps-some_or, OnRows,
  Keeps-append_internal_event, Keeps-execute,
}
use pantheon.Store.Journal.{Command, current_generation, append_internal_event}
use pantheon.Store.Lineage.Revisioned.{
  RunAssignment, StatusAssignment, run_status, attempt_status, advance, update_revisioned_by,
}
use pantheon.Store.Lineage.Creation.{
  AttemptCreation, insert_attempt, insert_status, insert_session, check_launch_ready,
  insert_lineage, apply_attempt_creation, create_attempt,
}
use pantheon.Store.Lineage.Authority.{
  status_of, session_of, forbid_rekey_unless_precontact, swap_credential,
  rekey_agent_control_session, require_authority, first_contact, eligible, mark_launch_contact,
}
use pantheon.Store.Lineage.Outcome.{
  ObservationUpdate, observe, terminal_with, is_exited, is_alive, stamp_started, revoke_session,
  apply_observe, require_contact, apply_terminal, record_execution_observation, direct_phase,
  conclude_run,
}
use pantheon.Store.Lineage.Stable.{
  Stable, IsAdvance, SameTerminal, is_marked, attempt_of, update_revisioned_by-eq-ok,
}
use pantheon.Store.Lineage.Rows.{
  insert_attempt-rows, insert_status-rows, insert_session-rows, check_launch_ready-same,
  current_generation-same, forbid_rekey-facts, require_authority-same, require_contact-facts,
  swap_credential-rows,
}

module _ (Q : List AttemptStatus → List Session → Type 0) (st : Stable Q) where
  run_update-Keeps :
      (k : Text) (e : ℕ) (l : List RunAssignment)
      → Keeps (OnRows Q) (update_revisioned_by run_status k e l)
  run_update-Keeps k e l db r h p =
      let (_, _, _, same, _) = update_revisioned_by-eq-ok run_status k e l db h in rw same p

  advance-Keeps :
      (k : Text) (e : ℕ) (l : List StatusAssignment)
      → IsAdvance (advance attempt_status l)
      → SameTerminal (advance attempt_status l)
      → Keeps (OnRows Q) (update_revisioned_by attempt_status k e l)
  advance-Keeps k e l adv same db r h p =
      let (_, _, _, q, _) = update_revisioned_by-eq-ok attempt_status k e l db h in
      rw q (st.advances db.statuses db.sessions k _ adv same p)

  insert_attempt-Keeps : (a : Attempt) → Keeps (OnRows Q) (insert_attempt a)
  insert_attempt-Keeps a db r h p = let (e, e') = insert_attempt-rows a db h in rw (e, e') p

  insert_status-Keeps :
      (s : AttemptStatus) → s.terminal ≡ false → Keeps (OnRows Q) (insert_status s)
  insert_status-Keeps s t db r h p =
      let (n, e, e') = insert_status-rows s db t h in
      rw (e, e') (st.inserts_status db.statuses db.sessions s n t p)

  insert_session-Keeps : (s : Session) → Keeps (OnRows Q) (insert_session s)
  insert_session-Keeps s db r h p =
      let (e, e') = insert_session-rows s db h in
      rw (e, e') (st.inserts_session db.statuses db.sessions s p)

  insert_lineage-Keeps : (c : AttemptCreation) → Keeps (OnRows Q) (insert_lineage c)
  unfolding insert_lineage
  insert_lineage-Keeps c db r h p =
      let (r1, e1, h1) = >>=-eq-ok current_generation _ db h in
      let (r2, e2, h2) = >>=-eq-ok (insert_attempt _) _ r1.1 h1 in
      let (r3, e3, h3) = >>=-eq-ok (insert_status _) _ r2.1 h2 in
      let (r4, e4, h4) = >>=-eq-ok (insert_session _) _ r3.1 h3 in
      let (r5, e5, h5) = >>=-eq-ok (update_revisioned_by run_status _ _ _) _ r4.1 h4 in
      Keeps-pure (OnRows Q) _ r5.1 r h5 (
        run_update-Keeps _ _ _ r4.1 r5 e5 (
          insert_session-Keeps _ r3.1 r4 e4 (
            insert_status-Keeps _ refl r2.1 r3 e3
              (insert_attempt-Keeps _ r1.1 r2 e2 (rw (current_generation-same db e1) p)))))

  pub create_attempt-Keeps :
      (command : Command) (c : AttemptCreation) → Keeps (OnRows Q) (create_attempt command c)
  unfolding create_attempt apply_attempt_creation
  create_attempt-Keeps command c = Keeps-execute Q command (apply_attempt_creation c) λ db r h p.
      let (r1, e1, h1) = >>=-eq-ok (check_launch_ready c) _ db h in
      insert_lineage-Keeps c r1.1 r h1 (rw (check_launch_ready-same c db e1) p)

  pub rekey-Keeps : (k v : Text) (e : ℕ) → Keeps (OnRows Q) (rekey_agent_control_session k v e)
  unfolding rekey_agent_control_session session_of
  rekey-Keeps k v e db r h p =
      let (r0, e0, h0) = >>=-eq-ok (forbid_rekey_unless_precontact k) _ db h in
      let (same, s, found, fresh) = forbid_rekey-facts k db e0 in
      let (r1, e1, h1) = >>=-eq-ok (swap_credential k v e _) _ r0.1 h0 in
      let (a, b) = swap_credential-rows k v e _ r0.1 e1 in
      let (r2, e2, h2) = >>=-eq-ok (append_internal_event _) _ r1.1 h1 in
      Keeps-pure (OnRows Q) _ r2.1 r h2 (
        Keeps-append_internal_event Q _ r1.1 r2 e2 (
          rw (a, b)
            (st.rekeys r0.1.statuses r0.1.sessions k _ s found fresh (λ _. refl) (rw same p))))

  first_contact-Keeps :
      (run_id k epoch : Text) (e c : ℕ) → Keeps (OnRows Q) (first_contact run_id k epoch e c)
  unfolding first_contact
  first_contact-Keeps run_id k epoch e c db r h p =
      let (r1, e1, h1) = >>=-eq-ok (require_authority run_id k c) _ db h in
      let (r2, e2, h2) = >>=-eq-ok (update_revisioned_by attempt_status k e _) _ r1.1 h1 in
      let (r3, e3, h3) = >>=-eq-ok (append_internal_event _) _ r2.1 h2 in
      Keeps-pure (OnRows Q) _ r3.1 r h3 (
        Keeps-append_internal_event Q _ r2.1 r3 e3 (
          advance-Keeps k e _ (λ s. (refl, refl, λ _. refl, λ t. t)) (λ _. refl) r1.1 r2 e2
            (rw (require_authority-same run_id k c db e1) p)))

  pub mark_launch_contact-Keeps :
      (run_id k epoch : Text) (e c : ℕ) → Keeps (OnRows Q) (mark_launch_contact run_id k epoch e c)
  unfolding mark_launch_contact status_of
  mark_launch_contact-Keeps run_id k epoch e c db r h p =
      let (r1, e1, h1) =
        >>=-eq-ok
          (some_or (eligible run_id (find_row attempt_of k db.statuses))
            (stale_authority k (text "the Attempt is absent, foreign to the Run, or terminal")))
          _ db h in
      Keeps-if (OnRows Q) (is_marked r1.0) _ _ (Keeps-pure (OnRows Q) tt)
        (first_contact-Keeps run_id k epoch e c) r1.1 r h1 (Keeps-some_or (OnRows Q) _ _ db r1 e1 p)

  stamp_started-Keeps : (k : Text) (o : Observation) → Keeps (OnRows Q) (stamp_started k o)
  unfolding stamp_started
  stamp_started-Keeps k o =
      Keeps-if (OnRows Q) (is_alive o) _ _
        (Keeps-modify (OnRows Q) _ λ db p.
          st.advances db.statuses db.sessions k _ (λ s. (refl, refl, λ m. m, λ t. t)) (λ _. refl) p)
        (Keeps-pure (OnRows Q) tt)

  revoke_session-Keeps : (k : Text) → Keeps (OnRows Q) (revoke_session k)
  unfolding revoke_session
  revoke_session-Keeps k =
      Keeps-modify (OnRows Q) _
        λ db p. st.revokes db.statuses db.sessions k _ (λ s. (ground arith, ground arith)) p

  apply_observe-Keeps :
      (k : Text) (e : ℕ) (o : Observation) → Keeps (OnRows Q) (apply_observe k e o)
  unfolding apply_observe
  apply_observe-Keeps k e o db r h p =
      let (r1, e1, h1) =
        >>=-eq-ok
          (fail_if (is_exited o)
            (invariant_violated (text "EXITED is definitive; use the terminal update")))
          _ db h in
      let (r2, e2, h2) = >>=-eq-ok (update_revisioned_by attempt_status k e _) _ r1.1 h1 in
      let (r3, e3, h3) = >>=-eq-ok (stamp_started k o) _ r2.1 h2 in
      Keeps-pure (OnRows Q) _ r3.1 r h3 (
        stamp_started-Keeps k o r2.1 r3 e3 (
          advance-Keeps k e _ (λ s. (refl, refl, λ m. m, λ t. t)) (λ _. refl) r1.1 r2 e2
            (Keeps-fail_if (OnRows Q) _ _ db r1 e1 p)))

  apply_terminal-Keeps :
      (k : Text) (e : ℕ) (o : Observation) → Keeps (OnRows Q) (apply_terminal k e o)
  unfolding apply_terminal status_of
  apply_terminal-Keeps k e o db r h p =
      let (r1, e1, h1) = >>=-eq-ok (require_contact k _) _ db h in
      let (same, s, found, marked) = require_contact-facts k _ db e1 in
      let (r2, e2, h2) = >>=-eq-ok (update_revisioned_by attempt_status k e _) _ r1.1 h1 in
      let (_, _, _, q, _) = update_revisioned_by-eq-ok attempt_status k e _ r1.1 e2 in
      let (r3, e3, h3) = >>=-eq-ok (revoke_session k) _ r2.1 h2 in
      let (r4, e4, h4) = >>=-eq-ok (append_internal_event _) _ r3.1 h3 in
      Keeps-pure (OnRows Q) _ r4.1 r h4 (
        Keeps-append_internal_event Q _ r3.1 r4 e4 (
          revoke_session-Keeps k r2.1 r3 e3 (
            rw (q, same)
              (st.finishes db.statuses db.sessions k _ s found marked
                (λ s. (refl, refl, λ m. m, λ _. refl)) p))))

  pub observation-Keeps :
      (k : Text) (e : ℕ) (u : ObservationUpdate)
      → Keeps (OnRows Q) (record_execution_observation k e u)
  unfolding record_execution_observation
  observation-Keeps k e (observe o) = apply_observe-Keeps k e o
  observation-Keeps k e (terminal_with o) = apply_terminal-Keeps k e o

  pub conclude_run-Keeps : (run_id t : Text) (e : ℕ) → Keeps (OnRows Q) (conclude_run run_id t e)
  unfolding conclude_run
  conclude_run-Keeps run_id t e db r h p =
      let (r1, e1, h1) =
        >>=-eq-ok
          (some_or (direct_phase t) (
            invariant_violated
              (text "terminal target " ++ t ++ text " cannot conclude a Run directly")))
          _ db h in
      let (r2, e2, h2) = >>=-eq-ok (update_revisioned_by run_status run_id e _) _ r1.1 h1 in
      let (r3, e3, h3) = >>=-eq-ok (append_internal_event _) _ r2.1 h2 in
      Keeps-pure (OnRows Q) _ r3.1 r h3 (
        Keeps-append_internal_event Q _ r2.1 r3 e3
          (run_update-Keeps _ _ _ r1.1 r2 e2 (Keeps-some_or (OnRows Q) _ _ db r1 e1 p)))
