-- ===== src/Postgres/WalletRepo.antt =====
-- The wallets (internal/adapters/postgres/wallet_repo.go and migrations/00001_wallets.sql). A text
-- that is no UUID names no row. The row lock has no part of its own: transactions are modelled one
-- after another.
use jg_backend_challenge_go.Prelude.{
  Bool, ◌&&◌, ◌||◌, Option, List, ◌∷◌, ℤ, pos, ltb_ℤ, Text, text_eq, find_first, update_where,
  any_row, Result, ok, fail_if, ◌>>◌,
}
use jg_backend_challenge_go.Ports.{WalletRecord, Fault, unique_violation, check_violation}
use jg_backend_challenge_go.Postgres.Db.{Tables, M, query, execute}

abbrev pub has_id : Text → WalletRecord → Bool
has_id id w = text_eq w.id id

unfoldable pub find_wallet : Text → List WalletRecord → Option WalletRecord
find_wallet id wallets = find_first (has_id id) wallets

unfoldable pub lock_for_update : Text → M (Option WalletRecord)
lock_for_update wallet_id = query (λ t. find_wallet wallet_id t.wallets)

unfoldable pub get : Text → M (Option WalletRecord)
get wallet_id = query (λ t. find_wallet wallet_id t.wallets)

-- The constraints of the table on a row.
unfoldable pub check_wallet : WalletRecord → Result Fault (Unit {0})
check_wallet w = fail_if (ltb_ℤ w.balance_minor (pos 0) || ltb_ℤ w.version (pos 1)) check_violation

-- wallets_player_currency_unique
abbrev pub same_owner : WalletRecord → WalletRecord → Bool
same_owner w r = text_eq r.player_id w.player_id && text_eq r.currency w.currency

unfoldable pub insert_row : WalletRecord → Tables → Result Fault Tables
unfolding check_wallet
insert_row w t = do
  check_wallet w
  fail_if (any_row (has_id w.id) t.wallets || any_row (same_owner w) t.wallets) unique_violation
  ok (record t { wallets = w ∷ t.wallets })

unfoldable pub insert : WalletRecord → M (Unit {0})
insert w = execute (insert_row w)

abbrev pub set_balance : ℤ → ℤ → WalletRecord → WalletRecord
set_balance balance_minor version w = record w { balance_minor = balance_minor; version = version }

-- An update that finds no row changes nothing and meets no constraint.
unfoldable pub update_balance_row : Text → ℤ → ℤ → Tables → Result Fault Tables
update_balance_row wallet_id balance_minor version t = do
  fail_if
      (any_row (has_id wallet_id) t.wallets
        && (ltb_ℤ balance_minor (pos 0) || ltb_ℤ version (pos 1)))
      check_violation
  ok (record t {
    wallets = update_where (has_id wallet_id) (set_balance balance_minor version) t.wallets;
  })

unfoldable pub update_balance : Text → ℤ → ℤ → M (Unit {0})
update_balance wallet_id balance_minor version =
    execute (update_balance_row wallet_id balance_minor version)
