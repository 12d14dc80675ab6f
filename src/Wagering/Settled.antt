-- ===== src/Wagering/Settled.antt =====
-- What keeps a property of the tables outside a transaction: the parts of a use case that stand around
-- its transactions, and statements of their own (internal/adapters/postgres/db.go).
use jg_backend_challenge_go.Prelude.{
  ◌≡◌, refl, ap, Bool, true, false, Result, ok, err, if◌then◌else◌,
}
use jg_backend_challenge_go.Domain.Errors.{Code}
use jg_backend_challenge_go.Ports.{Failure, Fault}
use jg_backend_challenge_go.Postgres.Db.{
  Tables, World, M, pure, fail, fail_when, ◌>>=◌, transact, ignore, query, execute, call, written,
  spoil, spoilt,
}
use jg_backend_challenge_go.Postgres.Logic.{Triple, AtRest, answer-AtRest, transact_rule}
use jg_backend_challenge_go.Wagering.Service.{Service, fresh_id, now, attempt}

pub record Settled (P : Tables → Type 0) {A : Type 0} (m : M A) : Type 0 where
  pub run : (w : World) → AtRest P w → AtRest P (m w).1

module _ {P : Tables → Type 0} where
  pub Settled-pure : {A : Type 0} (a : A) → Settled P (pure a)
  Settled-pure a = record { run = λ w h. h }

  pub Settled-fail : {A : Type 0} (e : Failure) → Settled P (fail {A = A} e)
  Settled-fail e = record { run = λ w h. h }

  settled_next :
      {A B : Type 0} (k : A → M B) (r : Result Failure A × World)
      → ((a : A) → Settled P (k a))
      → AtRest P r.1
      → AtRest P
          (elim r.0 as (λ _. Result Failure B × World) [ ok a ↦ k a r.1 | err e ↦ (err e, r.1) ]).1
  settled_next k (ok a, w) g h = (g a).run w h
  settled_next k (err e, w) g h = h

  pub Settled-bind :
      {A B : Type 0} (m : M A) (k : A → M B)
      → Settled P m
      → ((a : A) → Settled P (k a))
      → Settled P (m >>= k)
  Settled-bind m k f g = record { run = λ w h. settled_next k (m w) g (f.run w h) }

  given_next :
      {A B : Type 0} (k : A → M B) (r : Result Failure A × World)
      → ((a : A) → r.0 ≡ ok a → Settled P (k a))
      → AtRest P r.1
      → AtRest P
          (elim r.0 as (λ _. Result Failure B × World) [ ok a ↦ k a r.1 | err e ↦ (err e, r.1) ]).1
  given_next k (ok a, w) g h = (g a refl).run w h
  given_next k (err e, w) g h = h

  -- What follows may rely on what the first part returns.
  pub Settled-given :
      {A B : Type 0} (m : M A) (k : A → M B)
      → Settled P m
      → ((w : World) (a : A) → AtRest P w → (m w).0 ≡ ok a → Settled P (k a))
      → Settled P (m >>= k)
  Settled-given m k f g = record { run = λ w h. given_next k (m w) (λ a. g w a h) (f.run w h) }

  pub Settled-if :
      {A : Type 0} (b : Bool) (m n : M A)
      → Settled P m
      → Settled P n
      → Settled P (if b then m else n)
  Settled-if true m n f g = f
  Settled-if false m n f g = g

  pub Settled-attempt :
      {A B : Type 0} (r : Result Code A) (h : Code → M B) (k : A → M B)
      → ((e : Code) → Settled P (h e))
      → ((a : A) → Settled P (k a))
      → Settled P (attempt r h k)
  Settled-attempt (ok a) h k f g = g a
  Settled-attempt (err e) h k f g = f e

  pub Settled-fail_when : (b : Bool) (e : Failure) → Settled P (fail_when b e)
  Settled-fail_when true e = Settled-fail e
  Settled-fail_when false e = Settled-pure tt

  pub Settled-fresh_id : (s : Service) → Settled P (fresh_id s)
  unfolding fresh_id
  Settled-fresh_id s = record { run = λ w h. record { at_idle = h.at_idle; holds = h.holds } }

  Settled-call : Settled P call
  unfolding call
  Settled-call = record { run = λ w h. answer-AtRest w w.status w.faults refl h }

  pub Settled-query : {A : Type 0} (f : Tables → A) → Settled P (query f)
  unfolding query
  Settled-query f =
      Settled-bind call (λ _ w. (ok (f w.tables), w)) Settled-call (λ _. record { run = λ w h. h })

  pub Settled-ignore : {A : Type 0} (m : M A) → Settled P m → Settled P (ignore m)
  Settled-ignore m f = record { run = λ w h. f.run w h }

  pub Settled-now : (s : Service) → Settled P (now s)
  unfolding now
  Settled-now s = record { run = λ w h. record { at_idle = h.at_idle; holds = h.holds } }

  written-AtRest :
      (r : Result Fault Tables) (w : World)
      → AtRest P w
      → ((t : Tables) → r ≡ ok t → P t)
      → AtRest P (written r w).1
  unfolding spoil
  written-AtRest (ok t) w h g = record { at_idle = h.at_idle; holds = g t refl }
  written-AtRest (err e) w h g = record { at_idle = ap spoilt h.at_idle; holds = h.holds }

  pub Settled-execute :
      (f : Tables → Result Fault Tables)
      → ((t t' : Tables) → P t → f t ≡ ok t' → P t')
      → Settled P (execute f)
  unfolding execute
  Settled-execute f g =
      Settled-bind call (λ _ w. written (f w.tables) w) Settled-call
        (λ _. record { run = λ w h. written-AtRest (f w.tables) w h (λ t. g w.tables t h.holds) })

  pub Settled-transact :
      {A : Type 0} {E : Tables → Type 0} (body : M A)
      → Triple P body (λ _. P) E
      → Settled P (transact body)
  Settled-transact body t = record { run = λ w h. transact_rule body w t h }

pub ruleset settled_rules = (
  Settled-bind, Settled-pure, Settled-fail, Settled-if, Settled-attempt, Settled-fail_when,
  Settled-fresh_id, Settled-now,
)
