-- ===== src/Domain/LedgerEntry/Balance.antt =====
-- Which entries `NewLedgerEntry` builds (internal/domain/transaction.go).
use jg_backend_challenge_go.Prelude.{
  ◌≡◌, ◌↔◌, false, arith, ℤ, pos, ◌+ℤ◌, ◌-ℤ◌, ◌≤ℤ◌, IsInt64, int_laws, text_eq, text_eq_iff,
  is_empty, Result, ok,
}
use jg_backend_challenge_go.Domain.Errors.{Code}
use jg_backend_challenge_go.Domain.Money.{Money, is_positive, is_negative, equal}
use jg_backend_challenge_go.Domain.Money.Bounds.{exact_or_error, add-exact, sub-exact}
use jg_backend_challenge_go.Domain.LedgerEntry.{
  LedgerDirection, debit, credit, other, LedgerEntry, is_other, expected_after, new_ledger_entry,
}

-- What an amount in a direction adds to a balance.
unfoldable pub signed : LedgerDirection → ℤ → ℤ
signed debit n = pos 0 -ℤ n
signed credit n = n
signed (other d) n = pos 0

-- An entry of the ledger: it names its parties, moves a positive amount in one of the two directions
-- between two balances of one currency that are not negative, and the second is the first moved by
-- the amount.
pub record IsBalanced (e : LedgerEntry) : Type 0 where
  pub has_id : is_empty e.id ≡ false
  pub has_wallet : is_empty e.wallet_id ≡ false
  pub has_transaction : is_empty e.transaction_id ≡ false
  pub directed : is_other e.direction ≡ false
  pub positive : pos 1 ≤ℤ e.amount.minor
  pub before_currency : e.amount.currency ≡ e.before.currency
  pub after_currency : e.amount.currency ≡ e.after.currency
  pub before_nonneg : pos 0 ≤ℤ e.before.minor
  pub after_nonneg : pos 0 ≤ℤ e.after.minor
  pub moved : e.after.minor ≡ e.before.minor +ℤ signed e.direction e.amount.minor

pub sub_eq_add : (a b : ℤ) → a -ℤ b ≡ a +ℤ (pos 0 -ℤ b)
sub_eq_add a b = omega int_laws

-- The balance that `NewLedgerEntry` expects is the exact one, where it is an int64.
expected_after_lem :
    (d : LedgerDirection) (before amount : Money)
    → IsInt64 before.minor
    → IsInt64 amount.minor
    → is_other d ≡ false
    → expected_after d before amount
      ≡ exact_or_error
          (text_eq before.currency amount.currency)
          (before.minor +ℤ signed d amount.minor)
          before
unfolding expected_after is_other signed
expected_after_lem debit before amount hb ha h =
    rw (sub-exact before amount hb ha, sub_eq_add before.minor amount.minor)
expected_after_lem credit before amount hb ha h = add-exact before amount hb ha
expected_after_lem (other d) before amount hb ha h = cc

unfoldable pub rebuild : LedgerEntry → Result Code LedgerEntry
rebuild e =
    new_ledger_entry e.id e.wallet_id e.transaction_id e.direction e.amount e.before e.after
      e.wallet_version

module _ (e : LedgerEntry) (ha : IsInt64 e.amount.minor) (hb : IsInt64 e.before.minor)
    (hc : IsInt64 e.after.minor) where
  IsBalanced-rebuild : IsBalanced e → rebuild e ≡ ok e
  unfolding rebuild new_ledger_entry is_positive is_negative equal
  IsBalanced-rebuild b = ground (
    arith,
    expected_after_lem e.direction e.before e.amount hb ha b.directed,
    text_eq_iff e.before.currency e.amount.currency,
    text_eq_iff e.amount.currency e.before.currency,
    text_eq_iff e.amount.currency e.after.currency,
    text_eq_iff e.before.currency e.after.currency,
  )

  rebuild-IsBalanced : rebuild e ≡ ok e → IsBalanced e
  unfolding rebuild new_ledger_entry is_positive is_negative equal
  rebuild-IsBalanced h = ground (
    arith,
    expected_after_lem e.direction e.before e.amount hb ha,
    text_eq_iff e.before.currency e.amount.currency,
    text_eq_iff e.amount.currency e.before.currency,
    text_eq_iff e.amount.currency e.after.currency,
    text_eq_iff e.before.currency e.after.currency,
  )

-- For int64 amounts `NewLedgerEntry`, called with the fields of an entry, returns that entry exactly
-- if it names its parties and moves a positive amount, debit or credit, between two balances of its
-- currency, none negative, of which the second is the first moved by the amount.
pub rebuild_iff :
    (e : LedgerEntry)
    → IsInt64 e.amount.minor
    → IsInt64 e.before.minor
    → IsInt64 e.after.minor
    → (rebuild e ≡ ok e) ↔ IsBalanced e
rebuild_iff e ha hb hc = (rebuild-IsBalanced e ha hb hc, IsBalanced-rebuild e ha hb hc)
