-- ===== src/Store/Keeps.antt =====
-- Assertions on the tables that a transaction keeps when it succeeds, and their composition along the
-- body of a transaction (crates/pantheon-store/src/transaction.rs).
use pantheon.Base.{
  ℕ, ◌≡◌, if◌then◌else◌, subst, Bool, true, false, Option, none, some, List, Text, text_eq, Result,
  ok, arith,
}
use pantheon.Store.Database.{
  Database, AttemptStatus, Session, LedgerEntry, StoreError, Tx, pure, fail, gets, modify, fail_if,
  some_or, ◌>>=◌,
}
use pantheon.Store.Effects.{>>=-eq-ok, append_internal_event-rows}
use pantheon.Store.Journal.{
  Command, executed, current_generation, fence_epoch, lookup, allocate_sequence, insert_event,
  append_event, record_command, run_new, classify, execute, append_internal_event,
}

abbrev pub Keeps : {A : Type 0} → (Database → Type 0) → Tx A → Type 0
Keeps {A} P m = (db : Database) (r : A × Database) → m db ≡ ok r → P db → P r.1

pub Keeps->>= :
    {A B : Type 0} (P : Database → Type 0) (m : Tx A) (f : A → Tx B)
    → Keeps P m
    → ((a : A) → Keeps P (f a))
    → Keeps P (m >>= f)
Keeps->>= P m f km kf db r h p = let (s, e, k) = >>=-eq-ok m f db h in kf s.0 s.1 r k (km db s e p)

ok_injective_pair :
    {A : Type 0} {a b : A} {d e : Database}
    → ◌≡◌ {A = Result StoreError (A × Database)} (ok (a, d)) (ok (b, e))
    → d ≡ e
ok_injective_pair h = cc

pub Keeps-pure : {A : Type 0} (P : Database → Type 0) (a : A) → Keeps P (pure a)
Keeps-pure P a db r h p = subst P (ok_injective_pair h) p

pub Keeps-fail : {A : Type 0} (P : Database → Type 0) (e : StoreError) → Keeps {A = A} P (fail e)
Keeps-fail P e db r h p = cc

pub Keeps-gets : {A : Type 0} (P : Database → Type 0) (f : Database → A) → Keeps P (gets f)
Keeps-gets P f db r h p = subst P (ok_injective_pair h) p

pub Keeps-modify :
    (P : Database → Type 0) (f : Database → Database)
    → ((db : Database) → P db → P (f db))
    → Keeps P (modify f)
Keeps-modify P f step db r h p = subst P (ok_injective_pair h) (step db p)

pub Keeps-fail_if : (P : Database → Type 0) (b : Bool) (e : StoreError) → Keeps P (fail_if b e)
Keeps-fail_if P true e = Keeps-fail P e
Keeps-fail_if P false e = Keeps-pure P tt

pub Keeps-some_or :
    {A : Type 0} (P : Database → Type 0) (o : Option A) (e : StoreError) → Keeps P (some_or o e)
Keeps-some_or P none e = Keeps-fail P e
Keeps-some_or P (some a) e = Keeps-pure P a

fence_epoch-same :
    (e : Text) (db : Database) {r : Unit × Database} → fence_epoch e db ≡ ok r → r.1 ≡ db
unfolding fence_epoch current_generation
fence_epoch-same e db h = ground arith

allocate_sequence-rows :
    (db : Database) {r : ℕ × Database}
    → allocate_sequence db ≡ ok r
    → (r.1.statuses ≡ db.statuses) × (r.1.sessions ≡ db.sessions)
unfolding allocate_sequence
allocate_sequence-rows db h = ground arith

append_event-rows :
    (c : Command) (s : ℕ) (db : Database) {r : ℕ × Database}
    → append_event c s db ≡ ok r
    → (r.1.statuses ≡ db.statuses) × (r.1.sessions ≡ db.sessions)
unfolding append_event insert_event
append_event-rows c s db h = ground arith

record_command-rows :
    (c : Command) (s t : ℕ) (db : Database) {r : Unit × Database}
    → record_command c s t db ≡ ok r
    → (r.1.statuses ≡ db.statuses) × (r.1.sessions ≡ db.sessions)
unfolding record_command
record_command-rows c s t db h = ground arith

pub Keeps-if :
    {A : Type 0} (P : Database → Type 0) (b : Bool) (m k : Tx A)
    → Keeps P m
    → Keeps P k
    → Keeps P (if b then m else k)
Keeps-if P true m k km kk = km
Keeps-if P false m k km kk = kk

-- an assertion that the steps of a first execution keep, its body among them, is kept by the execution
module _ {A : Type 0} (P : Database → Type 0) (c : Command) (m : Tx A)
    (allocates : Keeps P allocate_sequence) (appends : (s : ℕ) → Keeps P (append_event c s))
    (records : (s t : ℕ) → Keeps P (record_command c s t)) (body : Keeps P m) where
  run_new-Keeps : Keeps P (run_new c m)
  unfolding run_new
  run_new-Keeps = Keeps->>= P m _ body λ v. Keeps->>= P allocate_sequence _ allocates λ s.
      Keeps->>= P (append_event c s) _ (appends s)
        λ t. Keeps->>= P (record_command c s t) _ (records s t) λ _. Keeps-pure P (executed v s)

  classify-Keeps : (e : Option LedgerEntry) → Keeps P (classify c m e)
  unfolding classify
  classify-Keeps none = run_new-Keeps
  classify-Keeps (some e) =
      Keeps-if P (text_eq e.request_hash c.request_hash.bytes) _ _ (Keeps-pure P _) (Keeps-fail P _)

  pub Keeps-any_execute : Keeps P (execute c m)
  unfolding execute lookup
  Keeps-any_execute db r h p =
      let (r1, e1, h1) = >>=-eq-ok (fence_epoch c.epoch) _ db h in
      classify-Keeps _ r1.1 r h1 (rw (fence_epoch-same c.epoch db e1) p)

-- an assertion on the rows of the Attempts, for which the journal is no matter
module _ (Q : List AttemptStatus → List Session → Type 0) where
  abbrev pub OnRows : Database → Type 0
  OnRows db = Q db.statuses db.sessions

  pub Keeps-append_internal_event : (t : Text) → Keeps OnRows (append_internal_event t)
  Keeps-append_internal_event t db r h p =
      let (_, _, e, e') = append_internal_event-rows t db h in rw (e, e') p

  pub Keeps-execute :
      {A : Type 0} (c : Command) (m : Tx A) → Keeps OnRows m → Keeps OnRows (execute c m)
  Keeps-execute c m km =
      Keeps-any_execute OnRows c m
        (λ db r h p. let (e, e') = allocate_sequence-rows db h in rw (e, e') p)
        (λ s db r h p. let (e, e') = append_event-rows c s db h in rw (e, e') p)
        (λ s t db r h p. let (e, e') = record_command-rows c s t db h in rw (e, e') p) km
