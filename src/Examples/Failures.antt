-- ===== src/Examples/Failures.antt =====
-- Calls that fail, at concrete inputs.
use jg_backend_challenge_go.Prelude.{◌≡◌, refl, true, false, [], ◌∷◌, codes, none, err}
use jg_backend_challenge_go.Domain.Errors.{code_text, invalid_money}
use jg_backend_challenge_go.Ports.{WorkItem, correctable, database, transaction_aborted}
use jg_backend_challenge_go.Postgres.Db.{World, idle, broken}
use jg_backend_challenge_go.Wagering.OpenWallet.{open_wallet}
use jg_backend_challenge_go.Wagering.OpenWallet.Atomic.{open_wallet_failed}
use jg_backend_challenge_go.Wagering.Work.{note_infra, process_work_item}
use jg_backend_challenge_go.Wagering.Work.Infra.{note_infra_spoilt, process_work_item_unread}
use jg_backend_challenge_go.Books.Histories.{fresh_world}
use jg_backend_challenge_go.Examples.Wagering.{service}
use jg_backend_challenge_go.Examples.Replay.{tables}

abbrev parked : WorkItem
parked = record {
  transaction_id = 9 ∷ [];
  kind = codes "reference";
  ref_attempts = 1;
  infra_attempts = 9;
  next_attempt_at = 0;
  lease_owner = codes "o";
  lease_expires_at = none;
  created_at = 0;
}

abbrev spoilt_world : World
spoilt_world = record { tables = tables; status = broken; faults = []; ticks = 0 }

note_infra_spoilt_example :
    ((note_infra service parked spoilt_world).0 ≡ err (database transaction_aborted))
    × ((note_infra service parked spoilt_world).1.tables ≡ tables)
note_infra_spoilt_example = note_infra_spoilt service parked spoilt_world refl

process_work_item_unread_example :
    process_work_item service parked
      (record { tables = tables; status = idle; faults = false ∷ true ∷ []; ticks = 0 })
    ≡ (
      err (database transaction_aborted),
      record { tables = tables; status = idle; faults = []; ticks = 0 },
    )
process_work_item_unread_example = process_work_item_unread service parked tables 0 []

no_cents :
    (open_wallet service (codes "ana") (codes "BRL") (codes "5.0") (fresh_world [])).0
    ≡ err (correctable (code_text invalid_money))
unfolding open_wallet jg_backend_challenge_go.Domain.Money.Parse.parse_money
    jg_backend_challenge_go.Domain.Money.valid_currency
no_cents = refl

open_wallet_failed_example :
    (open_wallet service (codes "ana") (codes "BRL") (codes "5.0") (fresh_world [])).1.tables
    ≡ (fresh_world []).tables
open_wallet_failed_example =
    open_wallet_failed service (codes "ana") (codes "BRL") (codes "5.0") (fresh_world []) no_cents
