-- ===== src/Postgres/Logic/Unconstrained.antt =====
-- Statements that meet no constraint (internal/adapters/postgres/aux_repo.go).
use jg_backend_challenge_go.Prelude.{◌≡◌, refl, subst, Result, ok}
use jg_backend_challenge_go.Ports.{Fault}
use jg_backend_challenge_go.Postgres.Db.{Tables, execute}
use jg_backend_challenge_go.Postgres.Logic.{Triple, execute_rule}

pub written_tables : {t t' : Tables} (r : Result Fault Tables) → r ≡ ok t → r ≡ ok t' → t ≡ t'
written_tables r g h = cc (g, h)

pub write_rule :
    {P Q E : Tables → Type 0} (g : Tables → Tables)
    → ((t : Tables) → P t → Q (g t))
    → Triple P (execute (λ t. ok (g t))) (λ _. Q) E
write_rule {Q} g h =
    execute_rule (λ t. ok (g t)) (λ t t' p e. subst Q (written_tables _ refl e) (h t p))
