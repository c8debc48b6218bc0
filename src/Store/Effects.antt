-- ===== src/Store/Effects.antt =====
-- Inversion of the transactions that succeed (crates/pantheon-store/src/transaction.rs, command.rs).
use pantheon.Base.{ℕ, ◌≡◌, refl, Bool, false, Option, some, Text, Result, ok, err, arith}
use pantheon.Store.Database.{Database, StoreError, Tx, and_then, fail_if, some_or, ◌>>=◌}
use pantheon.Store.Journal.{append_internal_event, allocate_sequence, insert_event}

and_then-eq-ok :
    {A B : Type 0} (n : Result StoreError (A × Database)) (f : A → Tx B) {r : B × Database}
    → and_then n f ≡ ok r
    → (s : A × Database) × (n ≡ ok s) × (f s.0 s.1 ≡ ok r)
and_then-eq-ok (ok s) f h = (s, refl, h)
and_then-eq-ok (err e) f h = cc

pub >>=-eq-ok :
    {A B : Type 0} (m : Tx A) (f : A → Tx B) (db : Database) {r : B × Database}
    → (m >>= f) db ≡ ok r
    → (s : A × Database) × (m db ≡ ok s) × (f s.0 s.1 ≡ ok r)
>>=-eq-ok m f db h = and_then-eq-ok (m db) f h

pub fail_if-eq-ok :
    (b : Bool) (e : StoreError) (db : Database) {r : Unit × Database}
    → fail_if b e db ≡ ok r
    → (b ≡ false) × (r.1 ≡ db)
fail_if-eq-ok b e db h = ground arith

pub some_or-eq-ok :
    {A : Type 0} (o : Option A) (e : StoreError) (db : Database) {r : A × Database}
    → some_or o e db ≡ ok r
    → (o ≡ some r.0) × (r.1 ≡ db)
some_or-eq-ok o e db h = ground arith

-- an event of the controller touches the journal alone
pub append_internal_event-rows :
    (t : Text) (db : Database) {r : ℕ × Database}
    → append_internal_event t db ≡ ok r
    → (r.1.runs ≡ db.runs)
      × (r.1.attempts ≡ db.attempts)
      × (r.1.statuses ≡ db.statuses)
      × (r.1.sessions ≡ db.sessions)
unfolding append_internal_event allocate_sequence insert_event
append_internal_event-rows t db h = ground arith
