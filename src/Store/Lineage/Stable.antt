-- ===== src/Store/Lineage/Stable.antt =====
-- What an assertion on the rows of the Attempts must withstand, for every operation on a lineage
-- (crates/pantheon-store/src/execution.rs) to keep it.
use pantheon.Base.{
  ℕ, ◌+◌, ◌≡◌, refl, ◌∙◌, subst, text, All, not, Bool, true, false, Option, none, some, List, [],
  ◌∷◌, ◌++◌, Text, ok, arith, any, ◌==◌, ==_iff, Bool-cases, inl, inr,
}
use pantheon.Store.Tables.{find_row, update_row}
use pantheon.Store.Database.{Database, AttemptStatus, Session, fail_if}
use pantheon.Store.Effects.{>>=-eq-ok, fail_if-eq-ok}
use pantheon.Store.Lineage.Revisioned.{
  Table, is_plain, ensure_plain_identifier, is_protected, check_assignments, advance, update_found,
  update_revisioned_by,
}
use pantheon.Store.Lineage.Creation.{is_live_of}
use pantheon.Store.Lineage.Authority.{is_contacted}

abbrev pub is_marked : AttemptStatus → Bool
is_marked s = is_contacted s.launch_contact_state

-- the row keeps its keys, and its contact marker if it has one
abbrev pub IsAdvance : (AttemptStatus → AttemptStatus) → Type 0
IsAdvance f =
    (s : AttemptStatus)
    → ((f s).attempt_id ≡ s.attempt_id)
      × ((f s).run_id ≡ s.run_id)
      × (is_marked s ≡ true → is_marked (f s) ≡ true)
      × (s.terminal ≡ true → (f s).terminal ≡ true)

abbrev pub SameTerminal : (AttemptStatus → AttemptStatus) → Type 0
SameTerminal f = (s : AttemptStatus) → (f s).terminal ≡ s.terminal

abbrev pub attempt_of : AttemptStatus → Text
attempt_of s = s.attempt_id

abbrev pub holder : Session → Text
holder s = s.attempt_id

abbrev pub credential : Session → ℕ × Text
credential s = (s.credential_revision, s.credential_hash)

pub record Stable (Q : List AttemptStatus → List Session → Type 0) : Type 0 where
  pub inserts_status :
      (l : List AttemptStatus) (ss : List Session) (s : AttemptStatus)
      → any (is_live_of s.run_id) l ≡ false
      → s.terminal ≡ false
      → Q l ss
      → Q (l ++ s ∷ []) ss
  pub inserts_session :
      (l : List AttemptStatus) (ss : List Session) (s : Session) → Q l ss → Q l (ss ++ s ∷ [])
  pub advances :
      (l : List AttemptStatus) (ss : List Session) (k : Text) (f : AttemptStatus → AttemptStatus)
      → IsAdvance f
      → SameTerminal f
      → Q l ss
      → Q (update_row attempt_of k f l) ss
  pub finishes :
      (l : List AttemptStatus) (ss : List Session) (k : Text) (f : AttemptStatus → AttemptStatus)
      (s : AttemptStatus)
      → find_row attempt_of k l ≡ some s
      → is_marked s ≡ true
      → IsAdvance f
      → Q l ss
      → Q (update_row attempt_of k f l) ss
  pub revokes :
      (l : List AttemptStatus) (ss : List Session) (k : Text) (g : Session → Session)
      → ((s : Session) → ((g s).attempt_id ≡ s.attempt_id) × (credential (g s) ≡ credential s))
      → Q l ss
      → Q l (update_row holder k g ss)
  pub rekeys :
      (l : List AttemptStatus) (ss : List Session) (k : Text) (g : Session → Session)
      (s : AttemptStatus)
      → find_row attempt_of k l ≡ some s
      → is_marked s ≡ false
      → ((s : Session) → (g s).attempt_id ≡ s.attempt_id)
      → Q l ss
      → Q l (update_row holder k g ss)

update_found-eq-ok :
    {A B : Type 0} (t : Table A B) (key : Text) (expected : ℕ) (l : List B) (o : Option A)
    (db : Database) {r : ℕ × Database}
    → update_found t key expected l o db ≡ ok r
    → (row : A) × (o ≡ some row)
      × (t.revision row ≡ expected)
      × (r ≡ (expected + 1, t.put (update_row t.key key (advance t l) (t.rows db)) db))
unfolding update_found
update_found-eq-ok t key expected l none db h = cc
update_found-eq-ok t key expected l (some s) db h = elim (Bool-cases (t.revision s == expected)) [
  | inl e ↦ (s, refl, (==_iff (t.revision s) expected).0 e, ground (arith, e))
  | inr e ↦ ground (arith, e)
]

ensure_plain-same :
    (kind name : Text) (db : Database) {r : Unit × Database}
    → ensure_plain_identifier kind name db ≡ ok r
    → r.1 ≡ db
unfolding ensure_plain_identifier
ensure_plain-same kind name db h = (fail_if-eq-ok _ _ db h).1

-- assignments that are let through leave the tables, and none is to a protected column
pub check_assignments-eq-ok :
    {A B : Type 0} (t : Table A B) (l : List B) (db : Database) {r : Unit × Database}
    → check_assignments t l db ≡ ok r
    → (r.1 ≡ db) × All (λ b. is_protected t.key_column (t.column b) ≡ false) l
unfolding check_assignments
check_assignments-eq-ok t [] db h = (ground (arith, h), tt)
check_assignments-eq-ok t (b ∷ l) db h =
    let (r1, e1, h1) = >>=-eq-ok (ensure_plain_identifier (text "column") (t.column b)) _ db h in
    let (r2, e2, h2) = >>=-eq-ok (fail_if (is_protected t.key_column (t.column b)) _) _ r1.1 h1 in
    let (open_column, same) = fail_if-eq-ok _ _ r1.1 e2 in
    let (rest, others) = check_assignments-eq-ok t l r2.1 h2 in
    (rest ∙ same ∙ ensure_plain-same (text "column") (t.column b) db e1, (open_column, others))

-- a successful compare-and-swap found the row at the revision, and assigned no protected column
pub update_revisioned_by-eq-ok :
    {A B : Type 0} (t : Table A B) (key : Text) (expected : ℕ) (l : List B) (db : Database)
    {r : ℕ × Database}
    → update_revisioned_by t key expected l db ≡ ok r
    → (row : A) × (find_row t.key key (t.rows db) ≡ some row)
      × (t.revision row ≡ expected)
      × (r ≡ (expected + 1, t.put (update_row t.key key (advance t l) (t.rows db)) db))
      × All (λ b. is_protected t.key_column (t.column b) ≡ false) l
unfolding update_revisioned_by
update_revisioned_by-eq-ok t key expected l db {r = r} h =
    let (r1, e1, h1) = >>=-eq-ok (ensure_plain_identifier (text "table") t.name) _ db h in
    let (r2, e2, h2) = >>=-eq-ok (ensure_plain_identifier (text "column") t.key_column) _ r1.1 h1 in
    let (r3, e3, h3) = >>=-eq-ok (check_assignments t l) _ r2.1 h2 in
    let (same, allowed) = check_assignments-eq-ok t l r2.1 e3 in
    let back =
      same
      ∙ ensure_plain-same (text "column") t.key_column r1.1 e2
      ∙ ensure_plain-same (text "table") t.name db e1 in
    let k =
      subst (λ d. update_found t key expected l (find_row t.key key (t.rows d)) d ≡ ok r) back h3 in
    let (row, found, at, shape) =
      update_found-eq-ok t key expected l (find_row t.key key (t.rows db)) db k in
    (row, found, at, shape, allowed)

ensure_plain-always :
    (kind name : Text) (db : Database) {r : Unit × Database}
    → ensure_plain_identifier kind name db ≡ ok r
    → (d : Database) → ensure_plain_identifier kind name d ≡ ok (tt, d)
unfolding ensure_plain_identifier
ensure_plain-always kind name db h d = rw (fail_if-eq-ok (not (is_plain name)) _ db h).0 refl

-- the names of the table and of its key are then plain
pub update_revisioned_by-names :
    {A B : Type 0} (t : Table A B) (key : Text) (expected : ℕ) (l : List B) (db : Database)
    {r : ℕ × Database}
    → update_revisioned_by t key expected l db ≡ ok r
    → ((d : Database) → ensure_plain_identifier (text "table") t.name d ≡ ok (tt, d))
      × ((d : Database) → ensure_plain_identifier (text "column") t.key_column d ≡ ok (tt, d))
unfolding update_revisioned_by
update_revisioned_by-names t key expected l db h =
    let (r1, e1, h1) = >>=-eq-ok (ensure_plain_identifier (text "table") t.name) _ db h in
    let (r2, e2, h2) = >>=-eq-ok (ensure_plain_identifier (text "column") t.key_column) _ r1.1 h1 in
    (
      ensure_plain-always (text "table") t.name db e1,
      ensure_plain-always (text "column") t.key_column r1.1 e2,
    )
