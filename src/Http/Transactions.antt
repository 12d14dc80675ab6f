-- ===== src/Http/Transactions.antt =====
-- The handlers of transactions (internal/adapters/http/handler.go).
use jg_backend_challenge_go.Prelude.{
  ℕ, Bool, false, not, ◌&&◌, ◌||◌, Option, none, some, length, ltb, Text, codes, text_eq, is_empty,
  if◌then◌else◌,
}
use jg_backend_challenge_go.Prelude.Trimming.{trim_space}
use jg_backend_challenge_go.Ports.{TxRecord}
use jg_backend_challenge_go.Postgres.TxRepo as TxRepo
use jg_backend_challenge_go.Wagering.Service.{Service, SubmitInput, SubmitResult, Outcome}
use jg_backend_challenge_go.Wagering.Submit.{submit}
use jg_backend_challenge_go.Sqs.Consumer.{kind_of}
use jg_backend_challenge_go.Http.Identity.{Identity, has_role, role_provider, role_internal}
use jg_backend_challenge_go.Http.Bodies.{
  money_body, transaction_body, submission, transaction, Response, json, abort_error,
}
use jg_backend_challenge_go.Http.Middleware.{Answer, reply, require_role}
use jg_backend_challenge_go.Http.Handler.{answering, write_service_error, write_infra_error}

pub record SubmitRequest : Type 0 where
  pub provider_id : Text
  pub external_id : Text
  pub player_id : Text
  pub wallet_id : Text
  pub round_id : Text
  pub game_id : Text
  pub kind : Text
  pub amount : Text
  pub currency : Text
  pub reference_external_id : Text

unfoldable pub submit_input : SubmitRequest → Text → Text → SubmitInput
submit_input req key correlation_id = record {
  provider_id = req.provider_id;
  external_id = req.external_id;
  idempotency_key = key;
  player_id = req.player_id;
  wallet_id = req.wallet_id;
  round_id = req.round_id;
  game_id = req.game_id;
  kind = kind_of req.kind;
  amount_text = req.amount;
  currency = req.currency;
  reference_external = req.reference_external_id;
  consumer_name = codes "";
  message_id = codes "";
  correlation_id = correlation_id;
}

-- The word and the status of an outcome.
unfoldable pub outcome_status : Outcome → Text → Text × ℕ
outcome_status Outcome.processed failure_code = (codes "PROCESSED", 201)
outcome_status Outcome.rejected failure_code = (codes "REJECTED", 422)
outcome_status Outcome.pending failure_code = (codes "PENDING", 202)
outcome_status Outcome.replay failure_code =
    if is_empty failure_code then (codes "PROCESSED", 200) else (codes "REJECTED", 422)

unfoldable pub write_submit_result : SubmitResult → Response
unfolding outcome_status
write_submit_result r =
    let (status, code) = outcome_status r.outcome r.failure_code in
    json code (
      submission (record {
        transaction_id = r.transaction_id;
        status = status;
        idempotent_replay = r.idempotent_replay;
        failure_code = if is_empty r.failure_code then none else some r.failure_code;
        balance = elim r.balance [ none ↦ none | some m ↦ some (money_body m) ];
        wallet_version = elim r.balance [ none ↦ none | some m ↦ some r.wallet_version ];
      }))

abbrev pub submit_bound : Service → Identity → Text → Text → Option SubmitRequest → Answer
submit_bound s i key correlation_id none = reply (abort_error 400 (codes "INVALID_REQUEST"))
submit_bound s i key correlation_id (some req) =
    if not (text_eq req.provider_id i.provider_id)
    then reply (abort_error 403 (codes "PROVIDER_FORBIDDEN"))
    else answering (submit s (submit_input req key correlation_id)) write_service_error
        (λ r. reply (write_submit_result r))

abbrev pub submit_keyed : Service → Identity → Text → Text → Option SubmitRequest → Answer
submit_keyed s i key correlation_id body =
    if is_empty key || ltb 255 (length key)
    then reply (abort_error 400 (codes "INVALID_REQUEST"))
    else submit_bound s i key correlation_id body

unfoldable pub submit_transaction : Service → Identity → Text → Text → Option SubmitRequest → Answer
submit_transaction s i key_header correlation_id body =
    require_role i role_provider (submit_keyed s i (trim_space key_header) correlation_id body)

abbrev pub is_own : Option Text → Identity → Bool
is_own none i = false
is_own (some provider_id) i = text_eq provider_id i.provider_id

-- Whether the caller may read what belongs to this provider.
unfoldable pub may_read : Identity → Option Text → Bool
may_read i provider_id =
    has_role i role_internal || has_role i role_provider && is_own provider_id i

abbrev pub transaction_found : Identity → Option TxRecord → Answer
transaction_found i none = reply (abort_error 404 (codes "TRANSACTION_NOT_FOUND"))
transaction_found i (some rec) =
    if may_read i rec.provider_id
    then reply (json 200 (transaction (transaction_body rec)))
    else reply (abort_error 403 (codes "PROVIDER_FORBIDDEN"))

unfoldable pub get_transaction : Identity → Text → Answer
get_transaction i id = answering (TxRepo.get id) (λ _. write_infra_error) (transaction_found i)

abbrev pub external_found : Option TxRecord → Answer
external_found none = reply (abort_error 404 (codes "TRANSACTION_NOT_FOUND"))
external_found (some rec) = reply (json 200 (transaction (transaction_body rec)))

unfoldable pub get_transaction_by_external : Identity → Text → Text → Answer
get_transaction_by_external i provider_id external_id =
    if may_read i (some provider_id)
    then answering (TxRepo.find_by_provider_external provider_id external_id)
        (λ _. write_infra_error) external_found
    else reply (abort_error 403 (codes "PROVIDER_FORBIDDEN"))
