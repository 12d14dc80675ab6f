-- ===== src/Wagering/Submit.antt =====
-- `Submit` (internal/wagering/accept.go): the checks that persist nothing, the lookup of an earlier
-- outcome, and the operation in one transaction.
pub mod Atomic
pub mod Recorded
pub mod Replay
use jg_backend_challenge_go.Prelude.{
  ℤ, pos, Bool, true, false, not, ◌&&◌, ◌||◌, Option, none, some, Text, text_eq, is_empty,
  if◌then◌else◌, ok, err,
}
use jg_backend_challenge_go.Domain.Errors.{
  code_text, opening_not_allowed, invalid_amount_for_kind, reference_required,
  wallet_player_mismatch, currency_mismatch,
}
use jg_backend_challenge_go.Domain.Money.{Money, new_money_from_minor}
use jg_backend_challenge_go.Domain.Money.Parse.{parse_money}
use jg_backend_challenge_go.Domain.Transaction.{
  TransactionKind, TransactionState, validate_external_kind, validate_amount_for_kind,
}
use jg_backend_challenge_go.Domain.Transaction as Transaction
use jg_backend_challenge_go.Domain.Reversal.{is_bet, is_reversal_kind}
use jg_backend_challenge_go.Ports.{WalletRecord, TxRecord, correctable, conflict, poison}
use jg_backend_challenge_go.Postgres.Db.{
  InboxRow, M, pure, fail, fail_when, transact, ignore, ◌>>=◌, ◌>>◌,
}
use jg_backend_challenge_go.Postgres.WalletRepo.{lock_for_update}
use jg_backend_challenge_go.Postgres.TxRepo.{find_by_provider_key, find_by_provider_external}
use jg_backend_challenge_go.Postgres.AuxRepo.{find_inbox, insert_inbox, complete_inbox}
use jg_backend_challenge_go.Wagering.Service.{
  Service, SubmitInput, SubmitResult, Outcome, code_invalid_req, code_wallet_missing, code_conflict,
  str, attempt,
}
use jg_backend_challenge_go.Wagering.Hash.{kind_text, payload_hash}
use jg_backend_challenge_go.Wagering.Accept.{apply_operation}
use jg_backend_challenge_go.Wagering.Work.{reevaluate_dependents}

-- The observed balance of a row: both columns set, and the currency valid.
unfoldable pub observed_balance : Option ℤ → Option Text → Option Money
observed_balance (some minor) (some currency) = elim (new_money_from_minor minor currency) [
  | ok m ↦ some m
  | err e ↦ none
]
observed_balance _ _ = none

abbrev pub is_decided : TransactionState → Bool
is_decided Transaction.processed = true
is_decided Transaction.rejected = true
is_decided _ = false

abbrev version_or_zero : Option ℤ → ℤ
version_or_zero none = pos 0
version_or_zero (some v) = v

unfoldable pub replay_result : TxRecord → SubmitResult
unfolding observed_balance
replay_result prev = record {
  outcome = if is_decided prev.state then Outcome.replay else Outcome.pending;
  transaction_id = prev.id;
  balance =
      if is_decided prev.state
      then observed_balance prev.result_balance_minor prev.result_currency
      else none;
  failure_code = str prev.failure_code;
  wallet_version = version_or_zero prev.wallet_version_observed;
  idempotent_replay = true;
}

unfoldable pub hash_of : Service → SubmitInput → Text
hash_of s i = payload_hash s (record {
  provider_id = i.provider_id;
  external_transaction_id = i.external_id;
  player_id = i.player_id;
  wallet_id = i.wallet_id;
  round_id = i.round_id;
  game_id = i.game_id;
  kind = kind_text i.kind;
  amount_text = i.amount_text;
  currency = i.currency;
  reference_external_id = i.reference_external;
})

-- The checks on the input alone; the amount if they pass.
unfoldable pub check_input : SubmitInput → M Money
check_input i = do
  fail_when (is_empty i.provider_id || is_empty i.external_id || is_empty i.idempotency_key)
      (correctable code_invalid_req)
  attempt (validate_external_kind i.kind) (λ e. fail (correctable (code_text opening_not_allowed)))
      pure
  amount ←
      attempt (parse_money i.amount_text i.currency) (λ e. fail (correctable (code_text e))) pure
  attempt (validate_amount_for_kind i.kind amount)
      (λ e. fail (correctable (code_text invalid_amount_for_kind))) pure
  fail_when (is_reversal_kind i.kind && is_empty i.reference_external)
      (correctable (code_text reference_required))
  pure amount

-- A message that came before with another content.
abbrev pub check_inbox_row : SubmitInput → Text → Option InboxRow → M (Unit {0})
check_inbox_row i hash none = pure tt
check_inbox_row i hash (some row) =
    fail_when (not (text_eq row.payload_hash hash)) (poison i.message_id row.payload_hash hash)

unfoldable pub check_message : SubmitInput → Text → M (Unit {0})
check_message i hash =
    if is_empty i.message_id
    then pure tt
    else (do row ← find_inbox i.consumer_name i.message_id; check_inbox_row i hash row)

-- `InsertInbox` and `CompleteInbox`, for a message only.
unfoldable pub record_message : SubmitInput → Text → M (Unit {0})
record_message i hash = if is_empty i.message_id then pure tt else (do
  insert_inbox i.consumer_name i.message_id hash
  complete_inbox i.consumer_name i.message_id)

-- An earlier row with this key or external id: its outcome, or a conflict.
unfoldable pub replay : Text → TxRecord → M SubmitResult
unfolding replay_result
replay hash prev = do
  fail_when (not (text_eq (str prev.payload_hash) hash)) (conflict code_conflict)
  pure (replay_result prev)

-- `if prev != nil { … }`, and what follows otherwise.
abbrev pub replay_or : Text → Option TxRecord → M SubmitResult → M SubmitResult
replay_or hash none rest = rest
replay_or hash (some prev) rest = replay hash prev

unfoldable pub apply_new : Service → SubmitInput → Money → Text → WalletRecord → M SubmitResult
apply_new s i amount hash wallet = do
  r ← apply_operation s i amount hash wallet
  record_message i hash
  pure r

abbrev pub in_wallet : Service → SubmitInput → Money → Text → Option WalletRecord → M SubmitResult
in_wallet s i amount hash none = fail (correctable code_wallet_missing)
in_wallet s i amount hash (some wallet) = do
  fail_when (not (text_eq i.player_id wallet.player_id))
      (correctable (code_text wallet_player_mismatch))
  fail_when (not (text_eq i.currency wallet.currency)) (correctable (code_text currency_mismatch))
  by_key ← find_by_provider_key i.provider_id i.idempotency_key
  replay_or hash by_key (do
    by_external ← find_by_provider_external i.provider_id i.external_id
    replay_or hash by_external (apply_new s i amount hash wallet))

-- The body of the transaction.
unfoldable pub submit_in : Service → SubmitInput → Money → Text → M SubmitResult
submit_in s i amount hash = do
  wallet ← lock_for_update i.wallet_id
  in_wallet s i amount hash wallet

abbrev pub is_processed : Outcome → Bool
is_processed Outcome.processed = true
is_processed _ = false

-- Dependents that wait for a bet just processed; what becomes of them has no part in the result.
unfoldable pub wake_dependents : Service → SubmitInput → SubmitResult → M (Unit {0})
wake_dependents s i r =
    if is_processed r.outcome && is_bet i.kind
    then ignore (reevaluate_dependents s i.provider_id i.external_id)
    else pure tt

unfoldable pub submit : Service → SubmitInput → M SubmitResult
submit s i = do
  amount ← check_input i
  let hash = hash_of s i
  check_message i hash
  r ← transact (submit_in s i amount hash)
  wake_dependents s i r
  pure r
