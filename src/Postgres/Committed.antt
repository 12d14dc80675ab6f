-- ===== src/Postgres/Committed.antt =====
-- Transactions that commit (internal/adapters/postgres/db.go): what holds of their value and of the
-- tables behind them.
use jg_backend_challenge_go.Prelude.{
  ◌≡◌, refl, subst, Bool, true, false, List, [], ◌∷◌, Result, ok, err,
}
use jg_backend_challenge_go.Ports.{Failure}
use jg_backend_challenge_go.Postgres.Db.{
  Tables, World, Status, idle, active, broken, M, spoil, call, answer, conclude, finish, begun,
  transact,
}
use jg_backend_challenge_go.Postgres.Logic.{
  Holds, spoilt_tx, sound_tx, Ends, Triple, AtRest, answer-AtRest,
}

ok_value : {A : Type 0} {a b : A} (r : Result Failure A) → r ≡ ok a → r ≡ ok b → a ≡ b
ok_value r g h = cc (g, h)

conclude_committed :
    {A : Type 0} (Q : A → Tables → Type 0) (before : Tables) (b : A) (w : World) (s : Status)
    (fs : List Bool) {a : A}
    → w.status ≡ s
    → Holds (Q b) w
    → (conclude before b (answer s fs w)).0 ≡ ok a
    → AtRest (Q a) (conclude before b (answer s fs w)).1
unfolding answer spoil
conclude_committed Q before b w idle fs e (spoilt_tx x) h = cc
conclude_committed Q before b w idle fs e (sound_tx x q) h = cc
conclude_committed Q before b w active fs e (spoilt_tx x) h = cc
conclude_committed Q before b w active [] e (sound_tx x q) h = record {
  at_idle = refl;
  holds = subst (λ c. Q c w.tables) (ok_value _ refl h) q;
}
conclude_committed Q before b w active (false ∷ fs) e (sound_tx x q) h = record {
  at_idle = refl;
  holds = subst (λ c. Q c w.tables) (ok_value _ refl h) q;
}
conclude_committed Q before b w active (true ∷ fs) e (sound_tx x q) h = cc h
conclude_committed Q before b w broken fs e x h = cc h

finish_committed :
    {A : Type 0} (Q : A → Tables → Type 0) (E : Tables → Type 0) (before : Tables)
    (r : Result Failure A × World) {a : A}
    → Ends Q E r
    → (finish before r).0 ≡ ok a
    → AtRest (Q a) (finish before r).1
unfolding finish call
finish_committed Q E before (ok b, w) e h =
    conclude_committed Q before b w w.status w.faults refl e h
finish_committed Q E before (err f, w) e h = cc h

begun_committed :
    {A : Type 0} {P : Tables → Type 0} (Q : A → Tables → Type 0) (E : Tables → Type 0) (body : M A)
    (r : Result Failure (Unit {0}) × World) {a : A}
    → Triple P body Q E
    → AtRest P r.1
    → (elim r.0 as (λ _. Result Failure A × World) [
      | ok _ ↦ begun body r.1
      | err e ↦ (err e, r.1)
    ]).0
      ≡ ok a
    → AtRest
        (Q a)
        (elim r.0 as (λ _. Result Failure A × World) [
          | ok _ ↦ begun body r.1
          | err e ↦ (err e, r.1)
        ]).1
begun_committed Q E body (ok u, w) t p h =
    finish_committed Q E w.tables (body (record w { status = active }))
      (t.run (record w { status = active }) (sound_tx refl p.holds)) h
begun_committed Q E body (err e, w) t p h = cc h

-- A transaction that returns a value has committed what its body leaves behind that value.
pub transact_committed :
    {A : Type 0} {P : Tables → Type 0} (Q : A → Tables → Type 0) {E : Tables → Type 0} (body : M A)
    (w : World) {a : A}
    → Triple P body Q E
    → AtRest P w
    → (transact body w).0 ≡ ok a
    → AtRest (Q a) (transact body w).1
unfolding transact call
transact_committed Q {E} body w t p h =
    begun_committed Q E body (call w) t (answer-AtRest w w.status w.faults refl p) h
