-- ===== src/Http/Harmless.antt =====
-- Answers that change nothing if they refuse (internal/adapters/http/handler.go).
use jg_backend_challenge_go.Prelude.{
  ℕ, ◌≤◌, ◌≡◌, ◌≢◌, refl, ◌∙◌, Bool, true, false, [], ◌∷◌, Text, if◌then◌else◌, arith, Result, ok,
  err,
}
use jg_backend_challenge_go.Ports.{Failure}
use jg_backend_challenge_go.Postgres.Db.{Tables, World, M}
use jg_backend_challenge_go.Postgres.Atomic.{Reads, IsAtomic}
use jg_backend_challenge_go.Wagering.Service.{Service, SubmitInput, Outcome}
use jg_backend_challenge_go.Wagering.Submit.{submit}
use jg_backend_challenge_go.Wagering.Submit.Atomic.{submit_failed}
use jg_backend_challenge_go.Wagering.OpenWallet as OpenWallet
use jg_backend_challenge_go.Wagering.OpenWallet.Atomic.{open_wallet_failed}
use jg_backend_challenge_go.Http.Bodies.{wallet, wallet_body, Response, json}
use jg_backend_challenge_go.Http.Middleware.{Answer, reply}
use jg_backend_challenge_go.Http.Handler.{answering, write_service_error}
use jg_backend_challenge_go.Http.Transactions.{outcome_status, write_submit_result}

-- A status of an error, but for that of an operation that the rules reject, which is recorded.
abbrev pub IsRefusal : ℕ → Type 0
IsRefusal code = (400 ≤ code) × (code ≢ 422)

pub record Harmless (a : Answer) : Type 0 where
  pub run : (w : World) → IsRefusal (a w).0.code → (a w).1.tables ≡ w.tables

pub Harmless-reply : (r : Response) → Harmless (reply r)
Harmless-reply r = record { run = λ w h. refl }

pub Harmless-if :
    (b : Bool) (x y : Answer) → Harmless x → Harmless y → Harmless (if b then x else y)
Harmless-if true x y f g = f
Harmless-if false x y f g = g

read_next :
    {A : Type 0} (refuse : Failure → Response) (next : A → Answer) (before : Tables)
    (r : Result Failure A × World)
    → r.1.tables ≡ before
    → ((a : A) → Harmless (next a))
    → IsRefusal
        (elim r.0 as (λ _. Response × World) [ ok a ↦ next a r.1 | err e ↦ (refuse e, r.1) ]).0.code
    → (elim r.0 as (λ _. Response × World) [ ok a ↦ next a r.1 | err e ↦ (refuse e, r.1) ]).1.tables
      ≡ before
read_next refuse next before (ok a, w) e f h = (f a).run w h ∙ e
read_next refuse next before (err x, w) e f h = e

pub Harmless-reading :
    {A : Type 0} (m : M A) (refuse : Failure → Response) (next : A → Answer)
    → Reads m
    → ((a : A) → Harmless (next a))
    → Harmless (answering m refuse next)
Harmless-reading m refuse next f g = record {
  run = λ w h. read_next refuse next w.tables (m w) (f.run w) g h;
}

atomic_next :
    {A : Type 0} (refuse : Failure → Response) (done : A → Response) (before : Tables)
    (r : Result Failure A × World)
    → ((e : Failure) → r.0 ≡ err e → r.1.tables ≡ before)
    → ((a : A) → ¬ IsRefusal (done a).code)
    → IsRefusal
        (elim r.0 as (λ _. Response × World) [
          | ok a ↦ (done a, r.1)
          | err e ↦ (refuse e, r.1)
        ]).0.code
    → (elim r.0 as (λ _. Response × World) [
      | ok a ↦ (done a, r.1)
      | err e ↦ (refuse e, r.1)
    ]).1.tables
      ≡ before
atomic_next refuse done before (ok a, w) e f h = absurd (f a h)
atomic_next refuse done before (err x, w) e f h = e x refl

pub Harmless-atomic :
    {A : Type 0} (m : M A) (refuse : Failure → Response) (done : A → Response)
    → IsAtomic m
    → ((a : A) → ¬ IsRefusal (done a).code)
    → Harmless (answering m refuse (λ a. reply (done a)))
Harmless-atomic m refuse done f g = record {
  run = λ w h. atomic_next refuse done w.tables (m w) (λ e. f.run w) g h;
}

not-IsRefusal : (o : Outcome) (code : Text) → ¬ IsRefusal (outcome_status o code).1
unfolding outcome_status
not-IsRefusal Outcome.processed code h = omega (arith, h.0)
not-IsRefusal Outcome.rejected code h = h.1 refl
not-IsRefusal Outcome.pending code h = omega (arith, h.0)
not-IsRefusal Outcome.replay [] h = omega (arith, h.0)
not-IsRefusal Outcome.replay (c ∷ s) h = h.1 refl

pub Harmless-opened :
    (s : Service) (player_id currency amount : Text)
    → Harmless (
        answering
          (OpenWallet.open_wallet s player_id currency amount)
          write_service_error
          (λ rec. reply (json 201 (wallet (wallet_body rec)))))
unfolding json
Harmless-opened s player_id currency amount =
    Harmless-atomic _ write_service_error (λ rec. json 201 (wallet (wallet_body rec)))
      (record { run = open_wallet_failed s player_id currency amount })
      (λ rec h. omega (arith, h.0))

pub Harmless-submitted :
    (s : Service) (i : SubmitInput)
    → Harmless (answering (submit s i) write_service_error (λ r. reply (write_submit_result r)))
unfolding write_submit_result json
Harmless-submitted s i =
    Harmless-atomic (submit s i) write_service_error write_submit_result
      (record { run = submit_failed s i }) (λ r. not-IsRefusal r.outcome r.failure_code)

pub ruleset harmless_rules = (Harmless-reply, Harmless-if, Harmless-reading)
