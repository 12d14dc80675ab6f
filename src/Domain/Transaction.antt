-- ===== src/Domain/Transaction.antt =====
-- The wager transaction and its life cycle (internal/domain/transaction.go). A kind is one of the
-- constants or another text; the states are those of the constants, which the table's constraint
-- tx_state enforces. A method on `*WagerTransaction` gives its error, if it has one, and the record
-- as it leaves it.
pub mod Lifecycle
pub mod Calls
pub mod Histories
use jg_backend_challenge_go.Prelude.{
  Bool, true, false, not, ◌||◌, ℤ, pos, Text, [], is_empty, Result, ok, err, ◌>>◌, fail_if,
  if◌then◌else◌,
}
use jg_backend_challenge_go.Domain.Errors.{
  Code, invalid_money, invalid_amount_for_kind, invalid_transition, opening_not_allowed,
}
use jg_backend_challenge_go.Domain.Money.{Money, is_zero, is_positive, is_negative}

pub data TransactionKind : Type 0 where
  opening bet win loss refund rollback : TransactionKind
  other : Text → TransactionKind

pub data TransactionState : Type 0 where
  pending pending_reference processed rejected failed : TransactionState

unfoldable pub is_terminal : TransactionState → Bool
is_terminal processed = true
is_terminal rejected = true
is_terminal failed = true
is_terminal _ = false

-- `failure_code` is a text in the source, "" if there is none; so are the ids.
pub record WagerTransaction : Type 0 where
  pub id : Text
  pub kind : TransactionKind
  pub state : TransactionState
  pub amount : Money
  pub player_id : Text
  pub wallet_id : Text
  pub provider_id : Text
  pub external_id : Text
  pub round_id : Text
  pub reference_external_id : Text
  pub failure_code : Text
  pub result_balance : Money
  pub has_result : Bool
  pub wallet_version_observed : ℤ  -- int64
  pub reversed_by_kind : TransactionKind
  pub reversed_by_tx_id : Text
  pub has_reversal : Bool

unfoldable pub validate_external_kind : TransactionKind → Result Code (Unit {0})
validate_external_kind opening = err opening_not_allowed
validate_external_kind _ = ok tt

unfoldable pub validate_amount_for_kind : TransactionKind → Money → Result Code (Unit {0})
validate_amount_for_kind bet m = fail_if (not (is_positive m)) invalid_amount_for_kind
validate_amount_for_kind win m = fail_if (not (is_positive m)) invalid_amount_for_kind
validate_amount_for_kind refund m = fail_if (not (is_positive m)) invalid_amount_for_kind
validate_amount_for_kind rollback m = fail_if (not (is_positive m)) invalid_amount_for_kind
validate_amount_for_kind loss m = fail_if (not (is_zero m)) invalid_amount_for_kind
validate_amount_for_kind opening m = fail_if (is_negative m) invalid_amount_for_kind
validate_amount_for_kind (other k) m = err invalid_amount_for_kind

-- The zero value of `Money`.
abbrev pub no_money : Money
no_money = record { minor = pos 0; currency = [] }

-- Every field that the literal does not name is the zero value of its type.
unfoldable pub rehydrate_transaction :
    Text → TransactionKind → TransactionState → Money → Text → Text → WagerTransaction
rehydrate_transaction id kind state amount player_id wallet_id = record {
  id = id;
  kind = kind;
  state = state;
  amount = amount;
  player_id = player_id;
  wallet_id = wallet_id;
  provider_id = [];
  external_id = [];
  round_id = [];
  reference_external_id = [];
  failure_code = [];
  result_balance = no_money;
  has_result = false;
  wallet_version_observed = pos 0;
  reversed_by_kind = other [];
  reversed_by_tx_id = [];
  has_reversal = false;
}

unfoldable pub new_transaction :
    Text → TransactionKind → Money → Text → Text → Result Code WagerTransaction
unfolding rehydrate_transaction
new_transaction id kind amount player_id wallet_id = do
  fail_if (is_empty id) invalid_money
  validate_amount_for_kind kind amount
  ok (rehydrate_transaction id kind pending amount player_id wallet_id)

unfoldable pub with_reference : WagerTransaction → Text → Text → Text → Text → WagerTransaction
with_reference t provider_id external_id round_id ref_external_id = record t {
  provider_id = provider_id;
  external_id = external_id;
  round_id = round_id;
  reference_external_id = ref_external_id;
}

unfoldable pub can_transition : TransactionState → TransactionState → Bool
can_transition pending processed = true
can_transition pending rejected = true
can_transition pending pending_reference = true
can_transition pending failed = true
can_transition pending_reference processed = true
can_transition pending_reference rejected = true
can_transition pending_reference failed = true
can_transition _ _ = false

-- What a method that may fail returns, and the transaction behind it.
abbrev pub Marked : Type 0
Marked = Result Code (Unit {0}) × WagerTransaction

unfoldable pub transition : WagerTransaction → TransactionState → Marked
unfolding can_transition
transition t to =
    if not (can_transition t.state to)
    then (err invalid_transition, t)
    else (ok tt, record t { state = to })

-- `if err := t.transition(…); err != nil { return err }`, the assignments, `return nil`.
abbrev pub assign_after : Marked → (WagerTransaction → WagerTransaction) → Marked
assign_after (ok u, t) assign = (ok tt, assign t)
assign_after (err e, t) assign = (err e, t)

unfoldable pub mark_processed : WagerTransaction → Money → ℤ → Marked
unfolding transition
mark_processed t balance wallet_version = assign_after (transition t processed) (λ t'. record t' {
  result_balance = balance;
  has_result = true;
  wallet_version_observed = wallet_version;
})

unfoldable pub mark_processed_no_movement : WagerTransaction → Money → ℤ → Marked
unfolding mark_processed
mark_processed_no_movement t balance wallet_version = mark_processed t balance wallet_version

unfoldable pub mark_rejected : WagerTransaction → Text → Money → ℤ → Marked
unfolding transition
mark_rejected t code balance wallet_version = assign_after (transition t rejected) (λ t'.
    record t' {
      failure_code = code;
      result_balance = balance;
      has_result = true;
      wallet_version_observed = wallet_version;
    })

unfoldable pub mark_pending_reference : WagerTransaction → Marked
unfolding transition
mark_pending_reference t = transition t pending_reference

unfoldable pub mark_failed : WagerTransaction → Text → Marked
unfolding transition
mark_failed t code = assign_after (transition t failed) (λ t'. record t' { failure_code = code })

unfoldable pub mark_reversed : WagerTransaction → TransactionKind → Text → WagerTransaction
mark_reversed t by_kind by_tx_id = record t {
  has_reversal = true;
  reversed_by_kind = by_kind;
  reversed_by_tx_id = by_tx_id;
}

unfoldable pub clear_reversal : WagerTransaction → WagerTransaction
clear_reversal t = record t {
  has_reversal = false;
  reversed_by_kind = other [];
  reversed_by_tx_id = [];
}
