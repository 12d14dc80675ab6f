-- ===== src/Http/Effects.antt =====
-- That a request which is refused changes nothing (internal/adapters/http/handler.go, middleware.go).
use jg_backend_challenge_go.Prelude.{
  ℤ, ◌≤◌, ◌≡◌, ◌≢◌, Bool, true, false, Option, none, some, Text, is_empty, if◌then◌else◌,
}
use jg_backend_challenge_go.Prelude.Trimming.{trim_space}
use jg_backend_challenge_go.Ports.{TxRecord, WalletRecord}
use jg_backend_challenge_go.Postgres.Db.{Tables, World}
use jg_backend_challenge_go.Wagering.Service.{Service}
use jg_backend_challenge_go.Wagering.Pages.{Base64}
use jg_backend_challenge_go.Http.Identity.{Identity, Validator}
use jg_backend_challenge_go.Http.Bodies.{Response}
use jg_backend_challenge_go.Http.Middleware.{
  Answer, validated, auth_middleware, correlation_middleware, require_role,
}
use jg_backend_challenge_go.Http.Handler.{
  live, ready, OpenWalletRequest, open_wallet, get_wallet, wallet_found, with_limit, page_ledger,
  reconcile,
}
use jg_backend_challenge_go.Http.Transactions.{
  SubmitRequest, submit_transaction, transaction_found, get_transaction, external_found,
  get_transaction_by_external,
}
use jg_backend_challenge_go.Http.Engine.{
  Route, health_live, health_ready, post_wallets, get_wallets, get_ledger, get_reconciliation,
  post_transactions, get_transactions, get_provider_transactions, Request, Server, register_routes,
  serve,
}
use jg_backend_challenge_go.Http.Reading.{
  Reads-get_wallet, Reads-page_ledger, Reads-reconcile, Reads-get_tx, Reads-find_external,
}
use jg_backend_challenge_go.Http.Harmless.{
  IsRefusal, Harmless, Harmless-reply, harmless_rules, Harmless-opened, Harmless-submitted,
}

Harmless-open_wallet :
    (s : Service) (i : Identity) (body : Option OpenWalletRequest) → Harmless (open_wallet s i body)
unfolding open_wallet require_role
Harmless-open_wallet s i none = search (harmless_rules)
Harmless-open_wallet s i (some req) = search (harmless_rules, Harmless-opened)

Harmless-submit_transaction :
    (s : Service) (i : Identity) (key correlation : Text) (body : Option SubmitRequest)
    → Harmless (submit_transaction s i key correlation body)
unfolding submit_transaction require_role
Harmless-submit_transaction s i key correlation none = search (harmless_rules)
Harmless-submit_transaction s i key correlation (some req) =
    search (harmless_rules, Harmless-submitted)

Harmless-wallet_found :
    (found : Option WalletRecord) (next : WalletRecord → Answer)
    → ((rec : WalletRecord) → Harmless (next rec))
    → Harmless (wallet_found found next)
Harmless-wallet_found none next f = Harmless-reply _
Harmless-wallet_found (some rec) next f = f rec

Harmless-get_wallet : (i : Identity) (id : Text) → Harmless (get_wallet i id)
unfolding get_wallet require_role
Harmless-get_wallet i id = search (harmless_rules, Reads-get_wallet, Harmless-wallet_found)

Harmless-with_limit :
    (limit : Option ℤ) (next : ℤ → Answer)
    → ((n : ℤ) → Harmless (next n))
    → Harmless (with_limit limit next)
Harmless-with_limit none next f = Harmless-reply _
Harmless-with_limit (some n) next f = f n

Harmless-page_ledger :
    (b : Base64) (i : Identity) (id limit cursor : Text)
    → Harmless (page_ledger b i id limit cursor)
unfolding page_ledger require_role
Harmless-page_ledger b i id limit cursor =
    search
      (
        harmless_rules, Reads-get_wallet, Reads-page_ledger, Harmless-wallet_found,
        Harmless-with_limit,
      )
      depth 12

Harmless-reconcile : (i : Identity) (id : Text) → Harmless (reconcile i id)
unfolding reconcile require_role
Harmless-reconcile i id = search (harmless_rules, Reads-reconcile)

Harmless-transaction_found : (i : Identity) (o : Option TxRecord) → Harmless (transaction_found i o)
Harmless-transaction_found i none = Harmless-reply _
Harmless-transaction_found i (some rec) = search (harmless_rules)

Harmless-get_transaction : (i : Identity) (id : Text) → Harmless (get_transaction i id)
unfolding get_transaction
Harmless-get_transaction i id = search (harmless_rules, Reads-get_tx, Harmless-transaction_found)

Harmless-external_found : (o : Option TxRecord) → Harmless (external_found o)
Harmless-external_found none = Harmless-reply _
Harmless-external_found (some rec) = Harmless-reply _

Harmless-by_external : (i : Identity) (p e : Text) → Harmless (get_transaction_by_external i p e)
unfolding get_transaction_by_external
Harmless-by_external i p e = search (harmless_rules, Reads-find_external, Harmless-external_found)

Harmless-validated :
    (o : Option Identity) (next : Identity → Answer)
    → ((i : Identity) → Harmless (next i))
    → Harmless (validated o next)
Harmless-validated none next f = Harmless-reply _
Harmless-validated (some i) next f = f i

Harmless-auth :
    (v : Validator) (header : Text) (next : Identity → Answer)
    → ((i : Identity) → Harmless (next i))
    → Harmless (auth_middleware v header next)
unfolding auth_middleware
Harmless-auth v header next f = search (harmless_rules, Harmless-validated, f)

Harmless-ready : (o : Option Bool) → Harmless (ready o)
unfolding ready
Harmless-ready none = Harmless-reply _
Harmless-ready (some true) = Harmless-reply _
Harmless-ready (some false) = Harmless-reply _

Harmless-routes :
    (h : Server) (r : Request) (c : Text) (route : Route) → Harmless (register_routes h r c route)
unfolding register_routes live
Harmless-routes h r c health_live = Harmless-reply _
Harmless-routes h r c health_ready = Harmless-ready _
Harmless-routes h r c (post_wallets body) =
    Harmless-auth _ _ _ (λ i. Harmless-open_wallet h.service i body)
Harmless-routes h r c (get_wallets id) = Harmless-auth _ _ _ (λ i. Harmless-get_wallet i id)
Harmless-routes h r c (get_ledger id limit cursor) =
    Harmless-auth _ _ _ (λ i. Harmless-page_ledger h.base64 i id limit cursor)
Harmless-routes h r c (get_reconciliation id) = Harmless-auth _ _ _ (λ i. Harmless-reconcile i id)
Harmless-routes h r c (post_transactions body) =
    Harmless-auth _ _ _ (λ i. Harmless-submit_transaction h.service i r.idempotency_key c body)
Harmless-routes h r c (get_transactions id) =
    Harmless-auth _ _ _ (λ i. Harmless-get_transaction i id)
Harmless-routes h r c (get_provider_transactions p e) =
    Harmless-auth _ _ _ (λ i. Harmless-by_external i p e)

correlated :
    (b : Bool) (x y : Response × World) (before : Tables)
    → (IsRefusal x.0.code → x.1.tables ≡ before)
    → (IsRefusal y.0.code → y.1.tables ≡ before)
    → IsRefusal (if b then x else y).0.code
    → (if b then x else y).1.tables ≡ before
correlated true x y before f g h = f h
correlated false x y before f g h = g h

-- Whatever is asked, an answer whose status is 400 or above, but for 422, leaves every table as it was,
-- whichever statements and commits fail.
pub serve_refused :
    (h : Server) (r : Request) (w : World)
    → 400 ≤ (serve h r w).0.code
    → (serve h r w).0.code ≢ 422
    → (serve h r w).1.tables ≡ w.tables
unfolding serve correlation_middleware
serve_refused h r w error recorded =
    correlated (is_empty (trim_space r.correlation_id)) _ _ w.tables
      ((Harmless-routes h r _ r.route).run _) ((Harmless-routes h r _ r.route).run w)
      (error, recorded)
