-- ===== src/Books/Resting.antt =====
-- What keeps the books outside a transaction: the parts of a use case that stand around its
-- transactions.
use jg_backend_challenge_go.Postgres.Db.{M, transact}
use jg_backend_challenge_go.Wagering.Settled.{Settled}
use jg_backend_challenge_go.Books.{Books}
use jg_backend_challenge_go.Books.Frames.{Frame}
use jg_backend_challenge_go.Books.Preserving.{Preserves, transact-AtRest}

abbrev pub Rests : {A : Type 0} → M A → Type 0
Rests m = Settled (Frame Books) m

pub Rests-transact : {A : Type 0} (body : M A) → Preserves body → Rests (transact body)
Rests-transact body p = record { run = λ w h. transact-AtRest body w p h }
