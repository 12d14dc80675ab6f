-- ===== src/Books/Reaching.antt =====
-- What leads a transaction from one state of the tables to another, or to a roll back.
use jg_backend_challenge_go.Prelude.{◌≡◌, refl, Result, ok, err}
use jg_backend_challenge_go.Domain.Errors.{Code}
use jg_backend_challenge_go.Ports.{Failure}
use jg_backend_challenge_go.Postgres.Db.{Tables, M, pure, fail, ◌>>=◌}
use jg_backend_challenge_go.Postgres.Logic.{Triple, bind_rule, fail_rule, error_rule}
use jg_backend_challenge_go.Wagering.Service.{attempt, attempt_or_fail}
use jg_backend_challenge_go.Books.Frames.{Relation, Frame, Quiet}

-- Nothing is asked of the tables that are rolled back.
abbrev pub Anything : Tables → Type 0
Anything t = Unit

-- From the books to `Q`, or to a roll back.
pub record Reaches {A : Type 0} (P Q : Relation) (m : M A) : Type 0 where
  pub run : Triple (Frame P) m (λ _. Frame Q) Anything

pub Reaches-Quiet : {A : Type 0} {P : Relation} (m : M A) → Quiet m → Reaches P P m
Reaches-Quiet {P} m q = record { run = error_rule m (λ t h. tt) (q.run P) }

pub Reaches-bind :
    {A B : Type 0} {P Q R : Relation} (m : M A) (k : A → M B)
    → Reaches P Q m
    → ((a : A) → Reaches Q R (k a))
    → Reaches P R (m >>= k)
Reaches-bind m k f g = record { run = bind_rule m k f.run (λ a. (g a).run) }

pub Reaches-attempt_or_fail :
    {A B : Type 0} {P Q : Relation} (o : Result Code A) (k : A → M B)
    → ((a : A) → o ≡ ok a → Reaches P Q (k a))
    → Reaches P Q (attempt_or_fail o >>= k)
Reaches-attempt_or_fail (ok a) k g = record { run = record { run = λ w p. (g a refl).run.run w p } }
Reaches-attempt_or_fail (err e) k g = record { run = fail_rule _ (λ t h. tt) }

pub Reaches-after :
    {A B : Type 0} {P Q : Relation} (m : M A) (k : A → M B)
    → Quiet m
    → ((a : A) → Reaches P Q (k a))
    → Reaches P Q (m >>= k)
Reaches-after m k q g = Reaches-bind m k (Reaches-Quiet m q) g

pub Reaches-attempt :
    {A B : Type 0} {P Q : Relation} (o : Result Code A) (f : Code → Failure) (k : A → M B)
    → ((a : A) → o ≡ ok a → Reaches P Q (k a))
    → Reaches P Q (attempt o (λ e. fail (f e)) pure >>= k)
Reaches-attempt (ok a) f k g = record { run = record { run = λ w p. (g a refl).run.run w p } }
Reaches-attempt (err e) f k g = record { run = fail_rule _ (λ t h. tt) }
