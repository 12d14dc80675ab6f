-- ===== src/Postgres/LedgerRepo.antt =====
-- The ledger (internal/adapters/postgres/ledger_repo.go and migrations/00003_wallet_ledger.sql). No
-- statement updates or deletes a row.
use jg_backend_challenge_go.Prelude.{
  ℕ, Bool, false, not, ◌&&◌, ◌||◌, List, ◌∷◌, ℤ, pos, ◌+ℤ◌, ◌-ℤ◌, ltb_ℤ, eqb_ℤ, Text, text_eq,
  select, any_row, order_by, take, Result, ok, fail_if, ◌>>◌,
}
use jg_backend_challenge_go.Domain.LedgerEntry.{LedgerDirection, debit, credit, other}
use jg_backend_challenge_go.Ports.{
  LedgerRecord, Fault, unique_violation, check_violation, foreign_key_violation,
}
use jg_backend_challenge_go.Postgres.Db.{Tables, M, query, execute}
use jg_backend_challenge_go.Postgres.WalletRepo.{has_id as has_wallet_id}
use jg_backend_challenge_go.Postgres.TxRepo.{has_id as has_tx_id}

-- ledger_direction and ledger_balance_math
unfoldable pub check_math : LedgerRecord → LedgerDirection → Bool
check_math e debit = eqb_ℤ e.after_minor (e.before_minor -ℤ e.amount_minor)
check_math e credit = eqb_ℤ e.after_minor (e.before_minor +ℤ e.amount_minor)
check_math e (other d) = false

unfoldable pub check_entry : LedgerRecord → Bool
unfolding check_math
check_entry e =
    check_math e e.direction
    && ltb_ℤ (pos 0) e.amount_minor
    && not (ltb_ℤ e.before_minor (pos 0))
    && not (ltb_ℤ e.after_minor (pos 0))

-- The primary key and ledger_wallet_tx_unique.
unfoldable pub clashes : LedgerRecord → LedgerRecord → Bool
clashes a b =
    text_eq a.id b.id
    || text_eq a.wallet_id b.wallet_id && text_eq a.transaction_id b.transaction_id

unfoldable pub append_row : LedgerRecord → Tables → Result Fault Tables
append_row e t = do
  fail_if (not (check_entry e)) check_violation
  fail_if (any_row (clashes e) t.ledger) unique_violation
  fail_if
      (not (
        any_row (has_wallet_id e.wallet_id) t.wallets
        && any_row (has_tx_id e.transaction_id) t.txs))
      foreign_key_violation
  ok (record t { ledger = e ∷ t.ledger })

unfoldable pub append : LedgerRecord → M (Unit {0})
append e = execute (append_row e)

abbrev pub of_wallet : Text → LedgerRecord → Bool
of_wallet wallet_id e = text_eq e.wallet_id wallet_id

abbrev pub by_version : LedgerRecord → LedgerRecord → Bool
by_version a b = not (ltb_ℤ b.wallet_version a.wallet_version)

unfoldable pub page : Text → ℤ → ℕ → M (List LedgerRecord)
page wallet_id after_version limit = query (λ t. take limit (
    order_by by_version
      (select (λ e. of_wallet wallet_id e && ltb_ℤ after_version e.wallet_version) t.ledger)))

unfoldable pub all_ordered : Text → M (List LedgerRecord)
all_ordered wallet_id = query (λ t. order_by by_version (select (of_wallet wallet_id) t.ledger))
