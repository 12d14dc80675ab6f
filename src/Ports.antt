-- ===== src/Ports.antt =====
-- The records that pass between the service and its repositories (internal/ports/ports.go), and the
-- errors that cross that line. A pointer to a text or a number is an option; a time is a number of
-- nanoseconds; an event's payload is the value whose JSON text is stored.
use jg_backend_challenge_go.Prelude.{ℕ, ℤ, Option, Text}
use jg_backend_challenge_go.Domain.Errors.{Code}
use jg_backend_challenge_go.Domain.Transaction.{TransactionKind, TransactionState}
use jg_backend_challenge_go.Domain.LedgerEntry.{LedgerDirection}

pub data Origin : Type 0 where
  internal external : Origin

-- The values that `map[string]any` holds here.
mutual
  pub data Json : Type 0 where
    text : Text → Json
    number : ℤ → Json
    object : Members → Json

  pub data Members : Type 0 where
    end : Members
    member : Text → Json → Members → Members

pub record WalletRecord : Type 0 where
  pub id : Text
  pub player_id : Text
  pub currency : Text
  pub balance_minor : ℤ  -- int64
  pub version : ℤ  -- int64

pub record TxRecord : Type 0 where
  pub id : Text
  pub origin : Origin
  pub provider_id : Option Text
  pub external_id : Option Text
  pub idempotency_key : Option Text
  pub payload_hash : Option Text
  pub wallet_id : Text
  pub player_id : Text
  pub round_id : Option Text
  pub game_id : Option Text
  pub kind : TransactionKind
  pub amount_minor : ℤ  -- int64
  pub currency : Text
  pub reference_external_id : Option Text
  pub reference_tx_id : Option Text
  pub state : TransactionState
  pub failure_code : Option Text
  pub result_balance_minor : Option ℤ
  pub result_currency : Option Text
  pub reversed_by_kind : Option TransactionKind
  pub reversed_by_tx_id : Option Text
  pub wallet_version_observed : Option ℤ

pub record LedgerRecord : Type 0 where
  pub id : Text
  pub wallet_id : Text
  pub transaction_id : Text
  pub direction : LedgerDirection
  pub amount_minor : ℤ  -- int64
  pub currency : Text
  pub before_minor : ℤ  -- int64
  pub after_minor : ℤ  -- int64
  pub wallet_version : ℤ  -- int64

pub record OutboxRecord : Type 0 where
  pub event_id : Text
  pub aggregate_id : Text
  pub event_type : Text
  pub payload : Json
  pub attempts : ℕ
  pub occurred_at : ℕ

pub record WorkItem : Type 0 where
  pub transaction_id : Text
  pub kind : Text
  pub ref_attempts : ℕ
  pub infra_attempts : ℕ
  pub next_attempt_at : ℕ
  pub lease_owner : Text
  pub lease_expires_at : Option ℕ
  pub created_at : ℕ

-- What the database answers where it does not do what it was asked.
pub data Fault : Type 0 where
  unavailable unique_violation check_violation foreign_key_violation transaction_aborted : Fault

-- The error values that leave a use case: those of wagering/accept.go, a domain error, an error of
-- the database, "wallet vanished", a panic, and "unknown ledger direction".
pub data Failure : Type 0 where
  correctable : Text → Failure
  conflict : Text → Failure
  poison : Text → Text → Text → Failure
  coded : Code → Failure
  database : Fault → Failure
  wallet_vanished panicked : Failure
  unknown_direction : Failure
