-- ===== src/Domain/LedgerEntry.antt =====
-- The immutable ledger entry and its check at construction (internal/domain/transaction.go).
pub mod Balance
use jg_backend_challenge_go.Prelude.{
  Bool, true, false, not, ◌||◌, ℤ, Text, text_eq, is_empty, Result, ok, err, ◌>>=◌, ◌>>◌, fail_if,
}
use jg_backend_challenge_go.Domain.Errors.{
  Code, invalid_money, currency_mismatch, invalid_amount_for_kind,
}
use jg_backend_challenge_go.Domain.Money.{Money, is_positive, is_negative, add, sub, equal}

pub data LedgerDirection : Type 0 where
  debit credit : LedgerDirection
  other : Text → LedgerDirection

pub record LedgerEntry : Type 0 where
  pub id : Text
  pub wallet_id : Text
  pub transaction_id : Text
  pub direction : LedgerDirection
  pub amount : Money
  pub before : Money
  pub after : Money
  pub wallet_version : ℤ  -- int64

unfoldable pub is_other : LedgerDirection → Bool
is_other (other d) = true
is_other _ = false

-- `before - amount` for a debit, and `before + amount` for all else.
unfoldable pub expected_after : LedgerDirection → Money → Money → Result Code Money
expected_after debit before amount = sub before amount
expected_after _ before amount = add before amount

unfoldable pub new_ledger_entry :
    Text → Text → Text → LedgerDirection → Money → Money → Money → ℤ → Result Code LedgerEntry
unfolding is_other expected_after
new_ledger_entry id wallet_id transaction_id direction amount before after wallet_version = do
  fail_if (is_empty id || is_empty wallet_id || is_empty transaction_id) invalid_money
  fail_if (is_other direction) invalid_money
  fail_if (not (is_positive amount)) invalid_amount_for_kind
  fail_if
      (not (text_eq amount.currency before.currency)
        || not (text_eq amount.currency after.currency))
      currency_mismatch
  fail_if (is_negative before || is_negative after) invalid_money
  expect ← expected_after direction before amount
  fail_if (not (equal expect after)) invalid_money
  ok (record {
    id = id;
    wallet_id = wallet_id;
    transaction_id = transaction_id;
    direction = direction;
    amount = amount;
    before = before;
    after = after;
    wallet_version = wallet_version;
  })
