-- ===== src/Domain/Reversal.antt =====
-- The validation of references (internal/domain/reversal.go): which operation may reverse which
-- transaction, and what the two must agree on.
pub mod Matrix
use jg_backend_challenge_go.Prelude.{
  Bool, true, false, not, ◌&&◌, Option, none, some, Text, text_eq, Result, ok, err, ◌>>=◌, ◌>>◌,
  fail_if,
}
use jg_backend_challenge_go.Domain.Errors.{
  Code, invalid_reversal, already_reversed, bet_has_active_win, reference_provider_mismatch,
  reference_player_mismatch, reference_wallet_mismatch, reference_currency_mismatch,
  reference_round_mismatch, amount_mismatch, reference_not_processed, reference_reversed,
}
use jg_backend_challenge_go.Domain.Money.{Money, equal}
use jg_backend_challenge_go.Domain.Transaction.{
  TransactionKind, bet, win, refund, rollback, TransactionState, processed, WagerTransaction,
}

abbrev pub is_bet : TransactionKind → Bool
is_bet bet = true
is_bet _ = false

abbrev pub is_processed : TransactionState → Bool
is_processed processed = true
is_processed _ = false

unfoldable pub is_reversal_kind : TransactionKind → Bool
is_reversal_kind refund = true
is_reversal_kind rollback = true
is_reversal_kind _ = false

-- The `switch` on the reverser's kind.
unfoldable pub check_edge : TransactionKind → TransactionKind → Result Code (Unit {0})
check_edge refund target = fail_if (not (is_bet target)) invalid_reversal
check_edge rollback bet = ok tt
check_edge rollback win = ok tt
check_edge rollback refund = ok tt
check_edge rollback _ = err invalid_reversal
check_edge _ target = err invalid_reversal

unfoldable pub validate_reversal_target :
    TransactionKind → Option WagerTransaction → Bool → Result Code (Unit {0})
validate_reversal_target reverser_kind none has_active_win = err invalid_reversal
validate_reversal_target reverser_kind (some target) has_active_win = do
  fail_if (not (is_processed target.state)) invalid_reversal
  check_edge reverser_kind target.kind
  fail_if target.has_reversal already_reversed
  fail_if (is_bet target.kind && has_active_win) bet_has_active_win

pub record Operation : Type 0 where
  pub kind : TransactionKind
  pub amount : Money
  pub provider_id : Text
  pub player_id : Text
  pub wallet_id : Text
  pub round_id : Text
  pub reference_external : Text

pub record Reference : Type 0 where
  pub kind : TransactionKind
  pub amount : Money
  pub provider_id : Text
  pub player_id : Text
  pub wallet_id : Text
  pub round_id : Text
  pub state : TransactionState
  pub reversed : Bool

unfoldable pub validate_reference_agreement : Operation → Reference → Result Code (Unit {0})
validate_reference_agreement op r = do
  fail_if (not (text_eq op.provider_id r.provider_id)) reference_provider_mismatch
  fail_if (not (text_eq op.player_id r.player_id)) reference_player_mismatch
  fail_if (not (text_eq op.wallet_id r.wallet_id)) reference_wallet_mismatch
  fail_if (not (text_eq op.amount.currency r.amount.currency)) reference_currency_mismatch
  fail_if (not (text_eq op.round_id r.round_id)) reference_round_mismatch
  fail_if (not (equal op.amount r.amount)) amount_mismatch

unfoldable pub validate_win_reference : Operation → Option Reference → Result Code (Unit {0})
validate_win_reference w none = err reference_not_processed
validate_win_reference w (some b) = do
  fail_if (not (is_bet b.kind)) invalid_reversal
  fail_if (not (is_processed b.state)) reference_not_processed
  fail_if b.reversed reference_reversed
  validate_reference_agreement w b
