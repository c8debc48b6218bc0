-- ===== src/Store/Lineage/Swap.antt =====
-- crates/pantheon-store/src/transaction.rs: what `update_revisioned_by` promises to two writers.
use pantheon.Base.{
  ℕ, ◌+◌, ◌≡◌, ◌≢◌, refl, ap, ◌∙◌, true, false, some, List, [], ◌∷◌, All, ◌⊎◌, Text, ok, err, arith,
  text_eq_refl, ◌==◌, ==_iff, Bool-cases, inl, inr,
}
use pantheon.Store.Tables.{find_row, find_row-update}
use pantheon.Store.Database.{Database, revision_conflict}
use pantheon.Store.Lineage.Revisioned.{
  Table, RunAssignment, StatusAssignment, set_run_id, set_attempt_id, run_status, attempt_status,
  same_column, is_protected, check_assignments, assign, advance, update_found, update_revisioned_by,
}
use pantheon.Store.Lineage.Stable.{update_revisioned_by-eq-ok, update_revisioned_by-names}

-- the assignment names the key column, or keeps the key
abbrev pub IsApart : {A B : Type 0} → Table A B → B → Type 0
IsApart {A = A} t b =
    (same_column (t.column b) t.key_column ≡ true) ⊎ ((a : A) → t.key (t.write b a) ≡ t.key a)

-- the rows of the table, as SQL keeps them: they are the ones put there, a revision that is written is the
-- revision, and the key and the revision are columns of their own, which an assignment changes only when
-- it names them
pub record IsColumnar {A B : Type 0} (t : Table A B) : Type 0 where
  pub rows_put : (l : List A) (db : Database) → t.rows (t.put l db) ≡ l
  pub revision_written : (n : ℕ) (a : A) → t.revision (t.with_revision n a) ≡ n
  pub key_kept : (n : ℕ) (a : A) → t.key (t.with_revision n a) ≡ t.key a
  pub key_named : (b : B) → IsApart t b

status-IsApart : (b : StatusAssignment) → IsApart attempt_status b
status-IsApart (set_attempt_id _) = inl refl
status-IsApart _ = inr (λ a. refl)

run-IsApart : (b : RunAssignment) → IsApart run_status b
run-IsApart (set_run_id _) = inl refl
run-IsApart _ = inr (λ a. refl)

pub attempt_status-IsColumnar : IsColumnar attempt_status
attempt_status-IsColumnar = record {
  rows_put = λ l db. refl;
  revision_written = λ n a. refl;
  key_kept = λ n a. refl;
  key_named = status-IsApart;
}

run_status-IsColumnar : IsColumnar run_status
run_status-IsColumnar = record {
  rows_put = λ l db. refl;
  revision_written = λ n a. refl;
  key_kept = λ n a. refl;
  key_named = run-IsApart;
}

-- assignments that are let through keep the key
assign-key :
    {A B : Type 0} (t : Table A B) (l : List B) (a : A)
    → IsColumnar t
    → All (λ b. is_protected t.key_column (t.column b) ≡ false) l
    → t.key (assign t l a) ≡ t.key a
assign-key t [] a table h = refl
assign-key t (b ∷ l) a table h = elim (table.key_named b) [
  | inl named ↦ ground (arith, named, h.0)
  | inr keeps ↦ assign-key t l (t.write b a) table h.1 ∙ keeps a
]

stale :
    {A B : Type 0} (t : Table A B) (key : Text) (expected : ℕ) (l : List B) (row : A)
    (db : Database)
    → t.revision row ≢ expected
    → update_found t key expected l (some row) db
      ≡ err (revision_conflict t.name key expected (some (t.revision row)))
unfolding update_found
stale t key expected l row db n = elim (Bool-cases (t.revision row == expected)) [
  | inl e ↦ let same = (==_iff (t.revision row) expected).0 e in ground (arith, same, n)
  | inr e ↦ rw e refl
]

-- No lost update: of two writers that read one revision of a row, the second is refused. When an update
-- at revision `expected` has committed, another update at that revision, whose assignments are let
-- through, fails with the conflict that names the row's new revision, one more. The table keeps its key
-- and its revision in columns of their own.
pub update_revisioned_by-twice :
    {A B : Type 0} (t : Table A B) (key : Text) (expected : ℕ) (l m : List B) (db : Database)
    (r : ℕ × Database)
    → IsColumnar t
    → update_revisioned_by t key expected l db ≡ ok r
    → check_assignments t m r.1 ≡ ok (tt, r.1)
    → update_revisioned_by t key expected m r.1
      ≡ err (revision_conflict t.name key expected (some (expected + 1)))
unfolding update_revisioned_by
update_revisioned_by-twice {A = A} t key expected l m db r table h open_columns =
    let (row, found, at, shape, allowed) = update_revisioned_by-eq-ok t key expected l db h in
    let (plain, plain_key) = update_revisioned_by-names t key expected l db h in
    let next : A = advance t l row in
    let revision : t.revision next ≡ expected + 1 =
      table.revision_written (t.revision row + 1) (assign t l row) ∙ ap (λ n. n + 1) at in
    let now_found : find_row t.key key (t.rows r.1) ≡ some next =
      rw
        (
          shape,
          table.rows_put _ db,
          find_row-update t.key key key (advance t l) (t.rows db)
              (λ s. table.key_kept _ (assign t l s) ∙ assign-key t l s table allowed),
          found,
          text_eq_refl key,
        )
        refl in
    rw (plain r.1, plain_key r.1, open_columns, now_found)
      (rw (stale t key expected m next r.1 (ground (arith, revision)), revision) refl)
