-- ===== src/Postgres/Atomic.antt =====
-- Calls that fail, and the tables (internal/adapters/postgres/db.go).
use jg_backend_challenge_go.Prelude.{
  ◌≡◌, refl, ◌∙◌, Bool, true, false, List, [], ◌∷◌, Result, ok, err, if◌then◌else◌,
}
use jg_backend_challenge_go.Ports.{Failure}
use jg_backend_challenge_go.Postgres.Db.{
  Tables, World, Status, idle, active, broken, M, pure, fail, fail_when, ◌>>=◌, spoil, call, answer,
  query, conclude, finish, begun, transact, ignore,
}

-- The tables are as before, whatever the answer.
pub record Reads {A : Type 0} (m : M A) : Type 0 where
  pub run : (w : World) → (m w).1.tables ≡ w.tables

-- The tables are as before if the answer is an error.
pub record IsAtomic {A : Type 0} (m : M A) : Type 0 where
  pub run : (w : World) {e : Failure} → (m w).0 ≡ err e → (m w).1.tables ≡ w.tables

-- No answer is an error.
pub record Succeeds {A : Type 0} (m : M A) : Type 0 where
  pub run : (w : World) {e : Failure} → ¬ ((m w).0 ≡ err e)

pub Reads-pure : {A : Type 0} (a : A) → Reads (pure a)
Reads-pure a = record { run = λ w. refl }

pub Reads-fail : {A : Type 0} (e : Failure) → Reads (fail {A = A} e)
Reads-fail e = record { run = λ w. refl }

pub Reads-fail_when : (b : Bool) (e : Failure) → Reads (fail_when b e)
Reads-fail_when true e = Reads-fail e
Reads-fail_when false e = Reads-pure tt

Reads-next :
    {A B : Type 0} (k : A → M B) (before : Tables) (r : Result Failure A × World)
    → ((a : A) → Reads (k a))
    → r.1.tables ≡ before
    → (elim r.0 as (λ _. Result Failure B × World) [
      | ok a ↦ k a r.1
      | err e ↦ (err e, r.1)
    ]).1.tables
      ≡ before
Reads-next k before (ok a, w) g h = (g a).run w ∙ h
Reads-next k before (err e, w) g h = h

pub Reads-bind :
    {A B : Type 0} (m : M A) (k : A → M B) → Reads m → ((a : A) → Reads (k a)) → Reads (m >>= k)
Reads-bind m k f g = record { run = λ w. Reads-next k w.tables (m w) g (f.run w) }

answer_tables : (s : Status) (fs : List Bool) (w : World) → (answer s fs w).1.tables ≡ w.tables
unfolding answer spoil
answer_tables idle [] w = refl
answer_tables idle (false ∷ fs) w = refl
answer_tables idle (true ∷ fs) w = refl
answer_tables active [] w = refl
answer_tables active (false ∷ fs) w = refl
answer_tables active (true ∷ fs) w = refl
answer_tables broken fs w = refl

Reads-call : Reads call
unfolding call
Reads-call = record { run = λ w. answer_tables w.status w.faults w }

pub Reads-query : {A : Type 0} (f : Tables → A) → Reads (query f)
unfolding query
Reads-query f =
    Reads-bind call (λ _ w. (ok (f w.tables), w)) Reads-call (λ _. record { run = λ w. refl })

atomic_next :
    {A B : Type 0} (k : A → M B) (before : Tables) (r : Result Failure A × World) {e : Failure}
    → ((a : A) → IsAtomic (k a))
    → r.1.tables ≡ before
    → (elim r.0 as (λ _. Result Failure B × World) [ ok a ↦ k a r.1 | err e ↦ (err e, r.1) ]).0
      ≡ err e
    → (elim r.0 as (λ _. Result Failure B × World) [
      | ok a ↦ k a r.1
      | err e ↦ (err e, r.1)
    ]).1.tables
      ≡ before
atomic_next k before (ok a, w) g h q = (g a).run w q ∙ h
atomic_next k before (err e, w) g h q = h

pub IsAtomic-bind :
    {A B : Type 0} (m : M A) (k : A → M B)
    → Reads m
    → ((a : A) → IsAtomic (k a))
    → IsAtomic (m >>= k)
IsAtomic-bind m k f g = record { run = λ w q. atomic_next k w.tables (m w) g (f.run w) q }

last_next :
    {A B : Type 0} (k : A → M B) (before : Tables) (r : Result Failure A × World) {e : Failure}
    → ((a : A) → Succeeds (k a))
    → ((f : Failure) → r.0 ≡ err f → r.1.tables ≡ before)
    → (elim r.0 as (λ _. Result Failure B × World) [ ok a ↦ k a r.1 | err e ↦ (err e, r.1) ]).0
      ≡ err e
    → (elim r.0 as (λ _. Result Failure B × World) [
      | ok a ↦ k a r.1
      | err e ↦ (err e, r.1)
    ]).1.tables
      ≡ before
last_next k before (ok a, w) g h q = absurd ((g a).run w q)
last_next k before (err e, w) g h q = h e refl

-- What follows the last step that can fail.
pub IsAtomic-last :
    {A B : Type 0} (m : M A) (k : A → M B)
    → IsAtomic m
    → ((a : A) → Succeeds (k a))
    → IsAtomic (m >>= k)
IsAtomic-last m k f g = record { run = λ w q. last_next k w.tables (m w) g (λ _. f.run w) q }

pub Succeeds-pure : {A : Type 0} (a : A) → Succeeds (pure a)
Succeeds-pure a = record { run = λ w q. cc q }

pub Succeeds-ignore : {A : Type 0} (m : M A) → Succeeds (ignore m)
Succeeds-ignore m = record { run = λ w q. cc q }

pub Succeeds-if :
    {A : Type 0} (b : Bool) (m n : M A) → Succeeds m → Succeeds n → Succeeds (if b then m else n)
Succeeds-if true m n f g = f
Succeeds-if false m n f g = g

Succeeds-next :
    {A B : Type 0} (k : A → M B) (r : Result Failure A × World) {e : Failure}
    → ((a : A) → Succeeds (k a))
    → ((f : Failure) → ¬ (r.0 ≡ err f))
    → ¬ (
        (elim r.0 as (λ _. Result Failure B × World) [ ok a ↦ k a r.1 | err e ↦ (err e, r.1) ]).0
        ≡ err e)
Succeeds-next k (ok a, w) g h q = (g a).run w q
Succeeds-next k (err e, w) g h q = h e refl

pub Succeeds-bind :
    {A B : Type 0} (m : M A) (k : A → M B)
    → Succeeds m
    → ((a : A) → Succeeds (k a))
    → Succeeds (m >>= k)
Succeeds-bind m k f g = record { run = λ w q. Succeeds-next k (m w) g (λ _. f.run w) q }

conclude_atomic :
    {A : Type 0} (before : Tables) (a : A) (r : Result Failure (Unit {0}) × World) {e : Failure}
    → (conclude before a r).0 ≡ err e
    → (conclude before a r).1.tables ≡ before
conclude_atomic before a (ok u, w) q = cc q
conclude_atomic before a (err f, w) q = refl

finish_atomic :
    {A : Type 0} (before : Tables) (r : Result Failure A × World) {e : Failure}
    → (finish before r).0 ≡ err e
    → (finish before r).1.tables ≡ before
unfolding finish
finish_atomic before (ok a, w) q = conclude_atomic before a (call w) q
finish_atomic before (err f, w) q = refl

-- A transaction commits, or leaves the tables as they were.
pub IsAtomic-transact : {A : Type 0} (body : M A) → IsAtomic (transact body)
unfolding transact
IsAtomic-transact body =
    IsAtomic-bind call (λ _. begun body) Reads-call
      (λ _. record { run = λ w q. finish_atomic w.tables (body (record w { status = active })) q })

reads_conclude :
    {A : Type 0} (before : Tables) (a : A) (r : Result Failure (Unit {0}) × World)
    → r.1.tables ≡ before
    → (conclude before a r).1.tables ≡ before
reads_conclude before a (ok u, w) h = h
reads_conclude before a (err e, w) h = refl

reads_finish :
    {A : Type 0} (before : Tables) (r : Result Failure A × World)
    → r.1.tables ≡ before
    → (finish before r).1.tables ≡ before
unfolding finish
reads_finish before (ok a, w) h = reads_conclude before a (call w) (Reads-call.run w ∙ h)
reads_finish before (err e, w) h = refl

-- A transaction that only reads.
pub Reads-transact : {A : Type 0} (body : M A) → Reads body → Reads (transact body)
unfolding transact
Reads-transact body f =
    Reads-bind call (λ _. begun body) Reads-call
      (λ _. record {
        run = λ w.
            reads_finish w.tables (body (record w { status = active }))
              (f.run (record w { status = active }));
      })
