-- ===== src/Http/Handler.antt =====
-- The handlers (internal/adapters/http/handler.go). The middleware has set an identity and a correlation
-- id; a decoded body is nothing where `ShouldBindJSON` returns an error. A panic in a use case is
-- answered by the recovery of gin. The counters are left out.
use jg_backend_challenge_go.Prelude.{
  ℤ, pos, Bool, true, false, ◌||◌, Option, none, some, map, Text, codes, text_eq, is_empty,
  parse_int, if◌then◌else◌, ok, err,
}
use jg_backend_challenge_go.Prelude.Trimming.{trim_space}
use jg_backend_challenge_go.Ports.{WalletRecord, Failure, correctable, conflict, panicked}
use jg_backend_challenge_go.Postgres.Db.{M}
use jg_backend_challenge_go.Postgres.WalletRepo as WalletRepo
use jg_backend_challenge_go.Wagering.Service.{Service, code_wallet_missing}
use jg_backend_challenge_go.Wagering.OpenWallet as OpenWallet
use jg_backend_challenge_go.Wagering.Reconcile as Reconcile
use jg_backend_challenge_go.Wagering.Reconcile.{Reconciliation}
use jg_backend_challenge_go.Wagering.Pages as Pages
use jg_backend_challenge_go.Wagering.Pages.{Base64, LedgerPage}
use jg_backend_challenge_go.Http.Identity.{Identity, role_internal}
use jg_backend_challenge_go.Http.Bodies.{
  money_body, wallet_body, entry_body, health, failed, wallet, ledger_page, reconciliation,
  Response, json, abort_error, empty,
}
use jg_backend_challenge_go.Http.Middleware.{Answer, reply, require_role}

unfoldable pub write_infra_error : Response
write_infra_error = record {
  code = 503;
  retry_after = some 1;
  body = failed (codes "TEMPORARILY_UNAVAILABLE");
}

unfoldable pub write_service_error : Failure → Response
unfolding write_infra_error
write_service_error (correctable code) = abort_error 400 code
write_service_error (conflict code) = abort_error 409 code
write_service_error panicked = json 500 empty
write_service_error e = write_infra_error

-- `x, err := …; if err != nil { … }`
abbrev pub answering : {A : Type 0} → M A → (Failure → Response) → (A → Answer) → Answer
answering m refuse next w =
    let (r, w') = m w in elim r [ ok a ↦ next a w' | err e ↦ (refuse e, w') ]

unfoldable pub live : Answer
live = reply (json 200 (health (codes "alive")))

-- The check is nothing in tests; it says whether the dependencies are ready.
unfoldable pub ready : Option Bool → Answer
ready none = reply (json 200 (health (codes "ready")))
ready (some false) = reply (json 503 (health (codes "not_ready")))
ready (some true) = reply (json 200 (health (codes "ready")))

pub record OpenWalletRequest : Type 0 where
  pub player_id : Text
  pub currency : Text
  pub initial_amount : Text

abbrev is_blank : Text → Bool
is_blank s = is_empty (trim_space s)

abbrev pub open_wallet_bound : Service → Option OpenWalletRequest → Answer
open_wallet_bound s none = reply (abort_error 400 (codes "INVALID_REQUEST"))
open_wallet_bound s (some req) =
    if is_blank req.player_id || is_blank req.currency || is_blank req.initial_amount
    then reply (abort_error 400 (codes "INVALID_REQUEST"))
    else answering (OpenWallet.open_wallet s req.player_id req.currency req.initial_amount)
        write_service_error (λ rec. reply (json 201 (wallet (wallet_body rec))))

unfoldable pub open_wallet : Service → Identity → Option OpenWalletRequest → Answer
open_wallet s i body = require_role i role_internal (open_wallet_bound s body)

abbrev pub wallet_found : Option WalletRecord → (WalletRecord → Answer) → Answer
wallet_found none next = reply (abort_error 404 (codes "WALLET_NOT_FOUND"))
wallet_found (some rec) next = next rec

unfoldable pub get_wallet : Identity → Text → Answer
get_wallet i id = require_role i role_internal (
    answering (WalletRepo.get id) (λ _. write_infra_error)
      (λ found. wallet_found found (λ rec. reply (json 200 (wallet (wallet_body rec))))))

-- `strconv.Atoi` of the query, 0 where there is none.
abbrev pub limit_of : Text → Option ℤ
limit_of raw = if is_empty raw then some (pos 0) else parse_int raw

abbrev pub with_limit : Option ℤ → (ℤ → Answer) → Answer
with_limit none next = reply (abort_error 400 (codes "INVALID_REQUEST"))
with_limit (some limit) next = next limit

unfoldable pub page_ledger : Base64 → Identity → Text → Text → Text → Answer
page_ledger b i wallet_id limit cursor = require_role i role_internal (
    answering (WalletRepo.get wallet_id) (λ _. write_infra_error)
      (λ found. wallet_found found (λ _. with_limit (limit_of limit) (λ n.
        answering (Pages.page_ledger b wallet_id cursor n) write_service_error (λ page.
          reply (json 200 (ledger_page (map entry_body page.entries) page.next_cursor)))))))

-- A missing wallet is no error of the request here.
unfoldable pub write_reconcile_error : Failure → Response
write_reconcile_error (correctable code) =
    if text_eq code code_wallet_missing
    then abort_error 404 (codes "WALLET_NOT_FOUND")
    else write_service_error (correctable code)
write_reconcile_error e = write_service_error e

unfoldable pub reconcile : Identity → Text → Answer
unfolding write_reconcile_error
reconcile i wallet_id = require_role i role_internal (
    answering (Reconcile.reconcile wallet_id) write_reconcile_error (λ rec. reply (
      json 200 (
        reconciliation (record {
          wallet_id = rec.wallet_id;
          stored_balance = money_body rec.stored_balance;
          calculated_balance = money_body rec.calculated_balance;
          difference = money_body rec.difference;
          consistent = rec.consistent;
          checked_entries = rec.checked_entries;
        })))))
