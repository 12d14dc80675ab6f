-- ===== src/Http/Plain.antt =====
-- Answers that show no transaction (internal/adapters/http/handler.go).
use jg_backend_challenge_go.Prelude.{
  ℕ, ℤ, ◌≢◌, Bool, true, false, Option, none, some, Text, if◌then◌else◌, List,
}
use jg_backend_challenge_go.Ports.{
  WalletRecord, Failure, correctable, conflict, poison, coded, database, wallet_vanished, panicked,
  unknown_direction,
}
use jg_backend_challenge_go.Wagering.Service.{Service, SubmitResult}
use jg_backend_challenge_go.Wagering.Pages.{Base64}
use jg_backend_challenge_go.Http.Identity.{Identity}
use jg_backend_challenge_go.Http.Bodies.{
  TransactionBody, WalletBody, EntryBody, ReconciliationBody, wallet, ledger_page, reconciliation,
  health, transaction, Response, abort_error, json,
}
use jg_backend_challenge_go.Http.Middleware.{Answer, reply, require_role}
use jg_backend_challenge_go.Http.Handler.{
  write_infra_error, write_service_error, write_reconcile_error, open_wallet, OpenWalletRequest,
  open_wallet_bound, get_wallet, wallet_found, with_limit, page_ledger, reconcile,
}
use jg_backend_challenge_go.Http.Transactions.{
  SubmitRequest, write_submit_result, submit_bound, submit_transaction,
}
use jg_backend_challenge_go.Http.Shows.{Shows, Shows-reply, Shows-choice, Shows-answering}

-- An answer that shows no transaction.
pub record Plain (resp : Response) : Type 0 where
  pub not_shown : (b : TransactionBody) → resp.body ≢ transaction b

pub Plain-abort_error : (code : ℕ) (e : Text) → Plain (abort_error code e)
unfolding abort_error json
Plain-abort_error code e = record { not_shown = λ b h. cc h }

pub Plain-write_infra_error : Plain write_infra_error
unfolding write_infra_error
Plain-write_infra_error = record { not_shown = λ b h. cc h }

Plain-write_service_error : (e : Failure) → Plain (write_service_error e)
unfolding write_service_error write_infra_error abort_error json
Plain-write_service_error (correctable code) = record { not_shown = λ b h. cc h }
Plain-write_service_error (conflict code) = record { not_shown = λ b h. cc h }
Plain-write_service_error (poison id stored incoming) = record { not_shown = λ b h. cc h }
Plain-write_service_error (coded c) = record { not_shown = λ b h. cc h }
Plain-write_service_error (database f) = record { not_shown = λ b h. cc h }
Plain-write_service_error wallet_vanished = record { not_shown = λ b h. cc h }
Plain-write_service_error panicked = record { not_shown = λ b h. cc h }
Plain-write_service_error unknown_direction = record { not_shown = λ b h. cc h }

Plain-if : (c : Bool) (x y : Response) → Plain x → Plain y → Plain (if c then x else y)
Plain-if true x y f g = f
Plain-if false x y f g = g

Plain-write_reconcile_error : (e : Failure) → Plain (write_reconcile_error e)
unfolding write_reconcile_error
Plain-write_reconcile_error (correctable code) =
    Plain-if _ _ _ (Plain-abort_error _ _) (Plain-write_service_error _)
Plain-write_reconcile_error (conflict code) = Plain-write_service_error _
Plain-write_reconcile_error (poison id stored incoming) = Plain-write_service_error _
Plain-write_reconcile_error (coded c) = Plain-write_service_error _
Plain-write_reconcile_error (database f) = Plain-write_service_error _
Plain-write_reconcile_error wallet_vanished = Plain-write_service_error _
Plain-write_reconcile_error panicked = Plain-write_service_error _
Plain-write_reconcile_error unknown_direction = Plain-write_service_error _

Plain-write_submit_result : (r : SubmitResult) → Plain (write_submit_result r)
unfolding write_submit_result json
Plain-write_submit_result r = record { not_shown = λ b h. cc h }

pub Plain-refused : (code : ℕ) (e : Text) → Shows Plain (reply (abort_error code e))
Plain-refused code e = Shows-reply _ (Plain-abort_error code e)

Plain-wallet : (x : WalletBody) (code : ℕ) → Shows Plain (reply (json code (wallet x)))
unfolding json
Plain-wallet x code = Shows-reply _ (record { not_shown = λ b h. cc h })

Plain-ledger_page :
    (es : List EntryBody) (next : Text) (code : ℕ)
    → Shows Plain (reply (json code (ledger_page es next)))
unfolding json
Plain-ledger_page es next code = Shows-reply _ (record { not_shown = λ b h. cc h })

Plain-reconciliation :
    (x : ReconciliationBody) (code : ℕ) → Shows Plain (reply (json code (reconciliation x)))
unfolding json
Plain-reconciliation x code = Shows-reply _ (record { not_shown = λ b h. cc h })

Plain-submitted : (r : SubmitResult) → Shows Plain (reply (write_submit_result r))
Plain-submitted r = Shows-reply _ (Plain-write_submit_result r)

pub Plain-health : (word : Text) (code : ℕ) → Shows Plain (reply (json code (health word)))
unfolding json
Plain-health word code = Shows-reply _ (record { not_shown = λ b h. cc h })

ruleset plain_rules = (
  Shows-choice, Shows-answering, Plain-refused, Plain-write_infra_error, Plain-write_service_error,
  Plain-write_reconcile_error, Plain-wallet, Plain-ledger_page, Plain-reconciliation,
  Plain-submitted, Plain-health,
)

Plain-open_wallet_bound :
    (s : Service) (body : Option OpenWalletRequest) → Shows Plain (open_wallet_bound s body)
Plain-open_wallet_bound s none = Plain-refused _ _
Plain-open_wallet_bound s (some req) = search (plain_rules)

pub Plain-open_wallet :
    (s : Service) (i : Identity) (body : Option OpenWalletRequest)
    → Shows Plain (open_wallet s i body)
unfolding open_wallet require_role
Plain-open_wallet s i body = search (plain_rules, Plain-open_wallet_bound)

Plain-wallet_found :
    (found : Option WalletRecord) (next : WalletRecord → Answer)
    → ((rec : WalletRecord) → Shows Plain (next rec))
    → Shows Plain (wallet_found found next)
Plain-wallet_found none next f = Plain-refused _ _
Plain-wallet_found (some rec) next f = f rec

pub Plain-get_wallet : (i : Identity) (id : Text) → Shows Plain (get_wallet i id)
unfolding get_wallet require_role
Plain-get_wallet i id = search (plain_rules, Plain-wallet_found)

Plain-with_limit :
    (limit : Option ℤ) (next : ℤ → Answer)
    → ((n : ℤ) → Shows Plain (next n))
    → Shows Plain (with_limit limit next)
Plain-with_limit none next f = Plain-refused _ _
Plain-with_limit (some n) next f = f n

pub Plain-page_ledger :
    (c : Base64) (i : Identity) (id limit cursor : Text)
    → Shows Plain (page_ledger c i id limit cursor)
unfolding page_ledger require_role
Plain-page_ledger c i id limit cursor =
    search (plain_rules, Plain-wallet_found, Plain-with_limit) depth 12

pub Plain-reconcile : (i : Identity) (id : Text) → Shows Plain (reconcile i id)
unfolding reconcile require_role
Plain-reconcile i id = search (plain_rules)

Plain-submit_bound :
    (s : Service) (i : Identity) (key correlation : Text) (body : Option SubmitRequest)
    → Shows Plain (submit_bound s i key correlation body)
Plain-submit_bound s i key correlation none = Plain-refused _ _
Plain-submit_bound s i key correlation (some req) = search (plain_rules)

pub Plain-submit_transaction :
    (s : Service) (i : Identity) (key correlation : Text) (body : Option SubmitRequest)
    → Shows Plain (submit_transaction s i key correlation body)
unfolding submit_transaction require_role
Plain-submit_transaction s i key correlation body = search (plain_rules, Plain-submit_bound)
