-- ===== src/Http/Bodies.antt =====
-- The answers and their JSON bodies (internal/adapters/http/handler.go). A body is the record of its
-- members; a member that may be left out is an option. The messages of errors are left out.
use jg_backend_challenge_go.Prelude.{
  ℕ, ℤ, Bool, false, Option, none, some, List, Text, codes, ok, err,
}
use jg_backend_challenge_go.Domain.Money.{Money, new_money_from_minor}
use jg_backend_challenge_go.Domain.Money.Format.{to_text}
use jg_backend_challenge_go.Domain.LedgerEntry.{LedgerDirection}
use jg_backend_challenge_go.Domain.Transaction.{TransactionKind, TransactionState}
use jg_backend_challenge_go.Ports.{WalletRecord, LedgerRecord, TxRecord}

pub record MoneyBody : Type 0 where
  pub amount : Text
  pub currency : Text

unfoldable pub money_body : Money → MoneyBody
money_body m = record { amount = to_text m; currency = m.currency }

unfoldable pub minor_body : ℤ → Text → MoneyBody
unfolding money_body
minor_body minor currency = elim (new_money_from_minor minor currency) [
  | ok m ↦ money_body m
  | err e ↦ record { amount = codes "0"; currency = currency }
]

pub record WalletBody : Type 0 where
  pub wallet_id : Text
  pub player_id : Text
  pub currency : Text
  pub balance : MoneyBody
  pub version : ℤ

unfoldable pub wallet_body : WalletRecord → WalletBody
unfolding minor_body
wallet_body r = record {
  wallet_id = r.id;
  player_id = r.player_id;
  currency = r.currency;
  balance = minor_body r.balance_minor r.currency;
  version = r.version;
}

pub record EntryBody : Type 0 where
  pub transaction_id : Text
  pub direction : LedgerDirection
  pub amount : MoneyBody
  pub balance_before : MoneyBody
  pub balance_after : MoneyBody
  pub wallet_version : ℤ

unfoldable pub entry_body : LedgerRecord → EntryBody
unfolding minor_body
entry_body e = record {
  transaction_id = e.transaction_id;
  direction = e.direction;
  amount = minor_body e.amount_minor e.currency;
  balance_before = minor_body e.before_minor e.currency;
  balance_after = minor_body e.after_minor e.currency;
  wallet_version = e.wallet_version;
}

pub record ReconciliationBody : Type 0 where
  pub wallet_id : Text
  pub stored_balance : MoneyBody
  pub calculated_balance : MoneyBody
  pub difference : MoneyBody
  pub consistent : Bool
  pub checked_entries : ℕ

pub record SubmitBody : Type 0 where
  pub transaction_id : Text
  pub status : Text
  pub idempotent_replay : Bool
  pub failure_code : Option Text
  pub balance : Option MoneyBody
  pub wallet_version : Option ℤ

pub record TransactionBody : Type 0 where
  pub transaction_id : Text
  pub kind : TransactionKind
  pub status : TransactionState
  pub idempotent_replay : Bool
  pub player_id : Text
  pub wallet_id : Text
  pub amount : MoneyBody
  pub provider_id : Option Text
  pub external_transaction_id : Option Text
  pub failure_code : Option Text
  pub reference_external_id : Option Text
  pub balance : Option MoneyBody
  pub wallet_version : Option ℤ

abbrev pub result_balance : Option ℤ → Option Text → Option MoneyBody
result_balance (some minor) (some currency) = some (minor_body minor currency)
result_balance _ _ = none

unfoldable pub transaction_body : TxRecord → TransactionBody
unfolding minor_body
transaction_body r = record {
  transaction_id = r.id;
  kind = r.kind;
  status = r.state;
  idempotent_replay = false;
  player_id = r.player_id;
  wallet_id = r.wallet_id;
  amount = minor_body r.amount_minor r.currency;
  provider_id = r.provider_id;
  external_transaction_id = r.external_id;
  failure_code = r.failure_code;
  reference_external_id = r.reference_external_id;
  balance = result_balance r.result_balance_minor r.result_currency;
  wallet_version = r.wallet_version_observed;
}

-- What is written to the client.
pub data Body : Type 0 where
  empty : Body
  health : Text → Body
  failed : Text → Body
  wallet : WalletBody → Body
  ledger_page : List EntryBody → Text → Body
  reconciliation : ReconciliationBody → Body
  submission : SubmitBody → Body
  transaction : TransactionBody → Body

pub record Response : Type 0 where
  pub code : ℕ
  pub retry_after : Option ℕ
  pub body : Body

unfoldable pub json : ℕ → Body → Response
json code body = record { code = code; retry_after = none; body = body }

-- `abortError`
unfoldable pub abort_error : ℕ → Text → Response
unfolding json
abort_error code error_code = json code (failed error_code)
