-- ===== src/Postgres/Calm.antt =====
-- A database in which no statement fails (internal/adapters/postgres/db.go).
use jg_backend_challenge_go.Prelude.{ℕ, ◌≡◌, refl, subst, [], Result, ok, err}
use jg_backend_challenge_go.Ports.{Failure}
use jg_backend_challenge_go.Postgres.Db.{Tables, World, idle, M, ◌>>=◌, query, call, answer}

-- A world between transactions, in which no statement fails.
abbrev pub calm : Tables → ℕ → World
calm t n = record { tables = t; status = idle; faults = []; ticks = n }

pub bind_ok :
    {A B : Type 0} (m : M A) (k : A → M B) {a : A} {w w' : World}
    → m w ≡ (ok a, w')
    → (m >>= k) w ≡ k a w'
bind_ok {B} m k {w} h =
    subst
      (λ r.
        (m >>= k) w
        ≡ elim r.0 as (λ _. Result Failure B × World) [ ok a ↦ k a r.1 | err e ↦ (err e, r.1) ])
      h refl

pub query-calm :
    {A : Type 0} (f : Tables → A) (t : Tables) (n : ℕ) → query f (calm t n) ≡ (ok (f t), calm t n)
unfolding query call answer
query-calm f t n = refl
