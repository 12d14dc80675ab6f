-- ===== src/Wagering/Reading.antt =====
-- The parts of a use case that leave the tables as they are.
use jg_backend_challenge_go.Prelude.{refl, Bool, true, false, if◌then◌else◌, Result, ok, err}
use jg_backend_challenge_go.Domain.Errors.{Code}
use jg_backend_challenge_go.Postgres.Db.{M}
use jg_backend_challenge_go.Postgres.Atomic.{Reads}
use jg_backend_challenge_go.Wagering.Service.{Service, fresh_id, attempt}

pub Reads-attempt :
    {A B : Type 0} (r : Result Code A) (h : Code → M B) (k : A → M B)
    → ((e : Code) → Reads (h e))
    → ((a : A) → Reads (k a))
    → Reads (attempt r h k)
Reads-attempt (ok a) h k f g = g a
Reads-attempt (err e) h k f g = f e

pub Reads-if : {A : Type 0} (b : Bool) (m n : M A) → Reads m → Reads n → Reads (if b then m else n)
Reads-if true m n f g = f
Reads-if false m n f g = g

pub Reads-fresh_id : (s : Service) → Reads (fresh_id s)
unfolding fresh_id
Reads-fresh_id s = record { run = λ w. refl }
