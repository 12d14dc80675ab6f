-- ===== src/Wagering/OpenWallet/Atomic.antt =====
-- Openings that fail (internal/wagering/wallet.go).
use jg_backend_challenge_go.Prelude.{◌≡◌, Text, err}
use jg_backend_challenge_go.Ports.{Failure}
use jg_backend_challenge_go.Postgres.Db.{World}
use jg_backend_challenge_go.Postgres.Atomic.{
  Reads-pure, Reads-fail, Reads-fail_when, IsAtomic, IsAtomic-bind, IsAtomic-transact,
}
use jg_backend_challenge_go.Wagering.Service.{Service}
use jg_backend_challenge_go.Wagering.Reading.{Reads-attempt, Reads-fresh_id}
use jg_backend_challenge_go.Wagering.OpenWallet.{open_wallet}

open_wallet-IsAtomic :
    (s : Service) (player_id currency initial_text : Text)
    → IsAtomic (open_wallet s player_id currency initial_text)
unfolding open_wallet
open_wallet-IsAtomic s player_id currency initial_text =
    search
      (
        IsAtomic-bind, IsAtomic-transact, Reads-attempt, Reads-pure, Reads-fail, Reads-fail_when,
        Reads-fresh_id,
      )
      depth 8

-- An `OpenWallet` that returns an error, whichever one, has left every table as it was.
pub open_wallet_failed :
    (s : Service) (player_id currency initial_text : Text) (w : World) {e : Failure}
    → (open_wallet s player_id currency initial_text w).0 ≡ err e
    → (open_wallet s player_id currency initial_text w).1.tables ≡ w.tables
open_wallet_failed s player_id currency initial_text w h =
    (open_wallet-IsAtomic s player_id currency initial_text).run w h
