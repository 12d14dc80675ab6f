-- ===== src/Http/Engine.antt =====
-- The routes and what stands before them (internal/adapters/http/engine.go, RegisterRoutes of
-- handler.go). Logging, tracing and metrics are left out.
use jg_backend_challenge_go.Prelude.{Bool, Option, Text}
use jg_backend_challenge_go.Wagering.Service.{Service}
use jg_backend_challenge_go.Wagering.Pages.{Base64}
use jg_backend_challenge_go.Http.Identity.{Validator}
use jg_backend_challenge_go.Http.Middleware.{Answer, auth_middleware, correlation_middleware}
use jg_backend_challenge_go.Http.Handler.{
  live, ready, OpenWalletRequest, open_wallet, get_wallet, page_ledger, reconcile,
}
use jg_backend_challenge_go.Http.Transactions.{
  SubmitRequest, submit_transaction, get_transaction, get_transaction_by_external,
}

-- A route with its path and query parameters and its body.
pub data Route : Type 0 where
  health_live health_ready : Route
  post_wallets : Option OpenWalletRequest → Route
  get_wallets : Text → Route
  get_ledger : Text → Text → Text → Route
  get_reconciliation : Text → Route
  post_transactions : Option SubmitRequest → Route
  get_transactions : Text → Route
  get_provider_transactions : Text → Text → Route

-- The headers are "" where they are missing.
pub record Request : Type 0 where
  pub authorization : Text
  pub correlation_id : Text
  pub idempotency_key : Text
  pub route : Route

pub record Server : Type 0 where
  pub service : Service
  pub base64 : Base64
  pub validator : Validator
  pub ready_check : Option Bool

unfoldable pub register_routes : Server → Request → Text → Route → Answer
register_routes h r correlation_id health_live = live
register_routes h r correlation_id health_ready = ready h.ready_check
register_routes h r correlation_id (post_wallets body) =
    auth_middleware h.validator r.authorization (λ i. open_wallet h.service i body)
register_routes h r correlation_id (get_wallets id) =
    auth_middleware h.validator r.authorization (λ i. get_wallet i id)
register_routes h r correlation_id (get_ledger id limit cursor) =
    auth_middleware h.validator r.authorization (λ i. page_ledger h.base64 i id limit cursor)
register_routes h r correlation_id (get_reconciliation id) =
    auth_middleware h.validator r.authorization (λ i. reconcile i id)
register_routes h r correlation_id (post_transactions body) =
    auth_middleware h.validator r.authorization
      (λ i. submit_transaction h.service i r.idempotency_key correlation_id body)
register_routes h r correlation_id (get_transactions id) =
    auth_middleware h.validator r.authorization (λ i. get_transaction i id)
register_routes h r correlation_id (get_provider_transactions provider_id external_id) =
    auth_middleware h.validator r.authorization
      (λ i. get_transaction_by_external i provider_id external_id)

unfoldable pub serve : Server → Request → Answer
unfolding register_routes
serve h r =
    correlation_middleware h.service r.correlation_id
      (λ correlation_id. register_routes h r correlation_id r.route)
