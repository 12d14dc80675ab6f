-- ===== src/Http/Shows.antt =====
-- What holds of every answer of a handler (internal/adapters/http).
use jg_backend_challenge_go.Prelude.{
  ◌≡◌, refl, subst, Bool, true, false, if◌then◌else◌, Result, ok, err,
}
use jg_backend_challenge_go.Ports.{Failure}
use jg_backend_challenge_go.Postgres.Db.{Tables, World, M, query, call}
use jg_backend_challenge_go.Http.Bodies.{Response}
use jg_backend_challenge_go.Http.Middleware.{Answer, reply}
use jg_backend_challenge_go.Http.Handler.{answering}

pub record Shows (P : Response → Type 0) (a : Answer) : Type 0 where
  pub run : (w : World) → P (a w).0

pub Shows-reply : {P : Response → Type 0} (r : Response) → P r → Shows P (reply r)
Shows-reply r p = record { run = λ w. p }

pub Shows-if :
    {P : Response → Type 0} (b : Bool) (x y : Answer)
    → (b ≡ true → Shows P x)
    → (b ≡ false → Shows P y)
    → Shows P (if b then x else y)
Shows-if true x y f g = f refl
Shows-if false x y f g = g refl

answered :
    {A : Type 0} {P : Response → Type 0} (refuse : Failure → Response) (next : A → Answer)
    (r : Result Failure A × World)
    → ((e : Failure) → P (refuse e))
    → ((a : A) → r.0 ≡ ok a → Shows P (next a))
    → P (elim r.0 as (λ _. Response × World) [ ok a ↦ next a r.1 | err e ↦ (refuse e, r.1) ]).0
answered refuse next (ok a, w) f g = (g a refl).run w
answered refuse next (err e, w) f g = f e

pub Shows-answering :
    {A : Type 0} {P : Response → Type 0} (m : M A) (refuse : Failure → Response) (next : A → Answer)
    → ((e : Failure) → P (refuse e))
    → ((a : A) → Shows P (next a))
    → Shows P (answering m refuse next)
Shows-answering m refuse next f g = record { run = λ w. answered refuse next (m w) f (λ a _. g a) }

pub Shows-choice :
    {P : Response → Type 0} (b : Bool) (x y : Answer)
    → Shows P x
    → Shows P y
    → Shows P (if b then x else y)
Shows-choice true x y f g = f
Shows-choice false x y f g = g

queried_value :
    {A : Type 0} (f : Tables → A) (r : Result Failure (Unit {0}) × World) {a : A}
    → (elim r.0 as (λ _. Result Failure A × World) [
      | ok _ ↦ (ok (f r.1.tables), r.1)
      | err e ↦ (err e, r.1)
    ]).0
      ≡ ok a
    → (t : Tables) × (f t ≡ a)
queried_value f (ok u, w) h = (w.tables, cc h)
queried_value f (err e, w) h = cc h

-- The value of a query is what it makes of some tables.
pub Shows-queried :
    {A : Type 0} {P : Response → Type 0} (f : Tables → A) (refuse : Failure → Response)
    (next : A → Answer)
    → ((e : Failure) → P (refuse e))
    → ((t : Tables) → Shows P (next (f t)))
    → Shows P (answering (query f) refuse next)
unfolding query
Shows-queried {P} f refuse next p q = record {
  run = λ w.
      answered refuse next (query f w) p
        (λ a h. let (t, e) = queried_value f (call w) h in subst (λ x. Shows P (next x)) e (q t));
}
