-- ===== src/Domain/Wallet.antt =====
-- The wallet, root of the financial aggregate (internal/domain/wallet.go). A method that mutates
-- `*Wallet` returns the new record beside its results; on an error nothing was written.
pub mod Movements
use jg_backend_challenge_go.Prelude.{
  Bool, not, ◌||◌, ℤ, pos, ◌+ℤ◌, wrap64, ltb_ℤ, Text, text_eq, is_empty, if◌then◌else◌, Result, ok,
  err, ◌>>=◌, ◌>>◌, fail_if,
}
use jg_backend_challenge_go.Domain.Errors.{
  Code, invalid_money, currency_mismatch, wallet_player_mismatch, invalid_amount_for_kind,
  insufficient_balance,
}
use jg_backend_challenge_go.Domain.Money.{
  Money, valid_currency, is_negative, is_positive, new_money_from_minor, add, sub, cmp,
}

pub record Wallet : Type 0 where
  pub id : Text
  pub player_id : Text
  pub currency : Text
  pub balance : Money
  pub version : ℤ  -- int64

unfoldable pub new_wallet : Text → Text → Text → Money → Result Code Wallet
new_wallet id player_id currency initial = do
  fail_if (is_empty id || is_empty player_id) invalid_money
  fail_if (not (valid_currency currency)) invalid_money
  fail_if (not (text_eq initial.currency currency)) currency_mismatch
  fail_if (is_negative initial) invalid_money
  ok (record {
    id = id;
    player_id = player_id;
    currency = currency;
    balance = initial;
    version = pos 1;
  })

unfoldable pub rehydrate_wallet : Text → Text → Text → ℤ → ℤ → Result Code Wallet
rehydrate_wallet id player_id currency balance_minor version = do
  fail_if (not (valid_currency currency)) invalid_money
  fail_if (ltb_ℤ version (pos 1)) invalid_money
  balance ← new_money_from_minor balance_minor currency
  ok (record {
    id = id;
    player_id = player_id;
    currency = currency;
    balance = balance;
    version = version;
  })

unfoldable pub check_party : Wallet → Text → Money → Result Code (Unit {0})
check_party w player_id amount = do
  fail_if (not (text_eq player_id w.player_id)) wallet_player_mismatch
  fail_if (not (text_eq amount.currency w.currency)) currency_mismatch

-- `w.balance = after; w.version++`
abbrev pub move_to : Wallet → Money → Wallet
move_to w after = record w { balance = after; version = wrap64 (w.version +ℤ pos 1) }

-- The balances before and after, and the wallet.
unfoldable pub credit : Wallet → Text → Money → Result Code (Money × Money × Wallet)
unfolding check_party
credit w player_id amount = do
  check_party w player_id amount
  fail_if (not (is_positive amount)) invalid_amount_for_kind
  after ← add w.balance amount
  ok (w.balance, after, move_to w after)

unfoldable pub debit : Wallet → Text → Money → Result Code (Money × Money × Wallet)
unfolding check_party
debit w player_id amount = do
  check_party w player_id amount
  fail_if (not (is_positive amount)) invalid_amount_for_kind
  order ← cmp w.balance amount
  fail_if (ltb_ℤ order (pos 0)) insufficient_balance
  after ← sub w.balance amount
  ok (w.balance, after, move_to w after)
