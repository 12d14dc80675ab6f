-- ===== src/Wagering/Service.antt =====
-- The service and its inputs and results (internal/wagering/accept.go).
use jg_backend_challenge_go.Prelude.{
  ℕ, suc, ◌*◌, ℤ, Bool, Option, none, some, Text, codes, is_empty, if◌then◌else◌, Result, ok, err,
}
use jg_backend_challenge_go.Domain.Errors.{Code}
use jg_backend_challenge_go.Domain.Money.{Money}
use jg_backend_challenge_go.Domain.Transaction.{TransactionKind}
use jg_backend_challenge_go.Ports.{coded}
use jg_backend_challenge_go.Postgres.Db.{M, pure, fail}

-- What the service is given: the ids that `NewID` returns and the times that the clock shows, one
-- after another; the first `Int63n` of a seeded source, JSON's text of a string and the digest.
pub record Service : Type 0 where
  pub new_id : ℕ → Text
  pub clock : ℕ → ℕ
  pub int63n : ℕ → ℕ → ℕ
  pub json_string : Text → Text
  pub sha256_hex : Text → Text

unfoldable pub fresh_id : Service → M Text
fresh_id s w = (ok (s.new_id w.ticks), record w { ticks = suc w.ticks })

unfoldable pub now : Service → M ℕ
now s w = (ok (s.clock w.ticks), record w { ticks = suc w.ticks })

-- Durations, in nanoseconds.
abbrev pub millisecond : ℕ
millisecond = 1_000_000

abbrev pub second : ℕ
second = 1_000_000_000

abbrev pub reference_ttl : ℕ
reference_ttl = 60 * second

abbrev pub max_ref_attempts : ℕ
max_ref_attempts = 5

abbrev pub max_infra_attempts : ℕ
max_infra_attempts = 10

abbrev pub backoff_base : ℕ
backoff_base = 200 * millisecond

abbrev pub backoff_cap : ℕ
backoff_cap = 3 * second

abbrev pub event_processed : Text
event_processed = codes "WagerTransactionProcessed"

abbrev pub event_rejected : Text
event_rejected = codes "WagerTransactionRejected"

abbrev pub event_balance : Text
event_balance = codes "WalletBalanceChanged"

abbrev pub event_pending_ref : Text
event_pending_ref = codes "WagerTransactionPendingReference"

abbrev pub code_conflict : Text
code_conflict = codes "IDEMPOTENCY_CONFLICT"

abbrev pub code_wallet_missing : Text
code_wallet_missing = codes "WALLET_NOT_FOUND"

abbrev pub code_ref_not_found : Text
code_ref_not_found = codes "REFERENCE_NOT_FOUND"

abbrev pub code_invalid_req : Text
code_invalid_req = codes "INVALID_REQUEST"

-- The kind of the work items.
abbrev pub work_reference : Text
work_reference = codes "reference"

pub data Outcome : Type 0 where
  processed rejected pending replay : Outcome

pub record SubmitInput : Type 0 where
  pub provider_id : Text
  pub external_id : Text
  pub idempotency_key : Text
  pub player_id : Text
  pub wallet_id : Text
  pub round_id : Text
  pub game_id : Text
  pub kind : TransactionKind
  pub amount_text : Text
  pub currency : Text
  pub reference_external : Text
  pub consumer_name : Text
  pub message_id : Text
  pub correlation_id : Text

pub record SubmitResult : Type 0 where
  pub outcome : Outcome
  pub transaction_id : Text
  pub balance : Option Money
  pub failure_code : Text
  pub wallet_version : ℤ
  pub idempotent_replay : Bool

-- `str`: the text behind a pointer, "" for nil.
abbrev pub str : Option Text → Text
str none = codes ""
str (some s) = s

-- A field that is set only if the text is not "".
abbrev pub set_unless_empty : Text → Option Text
set_unless_empty s = if is_empty s then none else some s

-- `x, err := …; if err != nil { … }`
abbrev pub attempt : {A B : Type 0} → Result Code A → (Code → M B) → (A → M B) → M B
attempt (ok a) handle k = k a
attempt (err e) handle k = handle e

-- The same, where the error is returned.
abbrev pub attempt_or_fail : {A : Type 0} → Result Code A → M A
attempt_or_fail (ok a) = pure a
attempt_or_fail (err e) = fail (coded e)
