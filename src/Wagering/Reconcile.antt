-- ===== src/Wagering/Reconcile.antt =====
-- The proof of a balance from the ledger (internal/wagering/reconcile.go). The log line and the
-- reporter of a divergence are left out.
use jg_backend_challenge_go.Prelude.{
  ℕ, pos, Bool, Option, none, some, List, [], ◌∷◌, length, eqb_ℤ, Text,
}
use jg_backend_challenge_go.Domain.Money.{Money, new_money_from_minor, add, sub, cmp}
use jg_backend_challenge_go.Domain.LedgerEntry.{LedgerDirection, debit, credit, other}
use jg_backend_challenge_go.Ports.{WalletRecord, LedgerRecord, correctable, unknown_direction}
use jg_backend_challenge_go.Postgres.Db.{M, pure, fail, transact, ◌>>=◌}
use jg_backend_challenge_go.Postgres.WalletRepo as WalletRepo
use jg_backend_challenge_go.Postgres.LedgerRepo.{all_ordered}
use jg_backend_challenge_go.Wagering.Service.{code_wallet_missing, attempt_or_fail}

pub record Reconciliation : Type 0 where
  pub wallet_id : Text
  pub stored_balance : Money
  pub calculated_balance : Money
  pub difference : Money
  pub consistent : Bool
  pub checked_entries : ℕ

-- The `switch` on the direction.
unfoldable pub apply_entry : LedgerDirection → Money → Money → M Money
apply_entry credit calculated m = attempt_or_fail (add calculated m)
apply_entry debit calculated m = attempt_or_fail (sub calculated m)
apply_entry (other d) calculated m = fail unknown_direction

-- The loop over the entries.
unfoldable pub recalculate : Money → List LedgerRecord → M Money
recalculate calculated [] = pure calculated
recalculate calculated (e ∷ es) = do
  m ← attempt_or_fail (new_money_from_minor e.amount_minor e.currency)
  next ← apply_entry e.direction calculated m
  recalculate next es

unfoldable pub reconcile_entries : Text → WalletRecord → List LedgerRecord → M Reconciliation
reconcile_entries wallet_id wallet entries = do
  stored ← attempt_or_fail (new_money_from_minor wallet.balance_minor wallet.currency)
  start ← attempt_or_fail (new_money_from_minor (pos 0) wallet.currency)
  calculated ← recalculate start entries
  diff ← attempt_or_fail (sub stored calculated)
  order ← attempt_or_fail (cmp stored calculated)
  pure (record {
    wallet_id = wallet_id;
    stored_balance = stored;
    calculated_balance = calculated;
    difference = diff;
    consistent = eqb_ℤ order (pos 0);
    checked_entries = length entries;
  })

abbrev pub reconcile_found : Text → Option WalletRecord → M Reconciliation
reconcile_found wallet_id none = fail (correctable code_wallet_missing)
reconcile_found wallet_id (some wallet) = do
  entries ← all_ordered wallet_id
  reconcile_entries wallet_id wallet entries

unfoldable pub reconcile : Text → M Reconciliation
reconcile wallet_id =
    transact (do wallet ← WalletRepo.get wallet_id; reconcile_found wallet_id wallet)
