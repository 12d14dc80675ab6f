-- ===== src/Wagering/OpenWallet.antt =====
-- `OpenWallet` (internal/wagering/wallet.go).
pub mod Atomic
use jg_backend_challenge_go.Prelude.{pos, none, some, [], ◌∷◌, Text, codes, if◌then◌else◌, ok, err}
use jg_backend_challenge_go.Domain.Errors.{code_text, invalid_money}
use jg_backend_challenge_go.Domain.Money.{Money, is_zero, is_negative}
use jg_backend_challenge_go.Domain.Money.Parse.{parse_money}
use jg_backend_challenge_go.Domain.Money.Format.{to_text}
use jg_backend_challenge_go.Domain.Wallet.{Wallet, new_wallet}
use jg_backend_challenge_go.Domain.Transaction.{opening}
use jg_backend_challenge_go.Domain.Transaction as Transaction
use jg_backend_challenge_go.Domain.LedgerEntry.{credit, new_ledger_entry}
use jg_backend_challenge_go.Ports.{
  text, number, object, WalletRecord, TxRecord, internal, unique_violation, Failure, correctable,
  conflict, database,
}
use jg_backend_challenge_go.Postgres.Db.{M, pure, fail, fail_when, transact, ◌>>=◌, ◌>>◌}
use jg_backend_challenge_go.Postgres.WalletRepo as WalletRepo
use jg_backend_challenge_go.Postgres.TxRepo as TxRepo
use jg_backend_challenge_go.Postgres.LedgerRepo.{append}
use jg_backend_challenge_go.Wagering.Service.{
  Service, fresh_id, now, event_processed, event_balance, code_conflict, attempt, attempt_or_fail,
}
use jg_backend_challenge_go.Wagering.Events.{members, stage, balance_data}
use jg_backend_challenge_go.Wagering.Accept.{to_ledger_record, money_or_zero}

-- `isUniqueViolation`
abbrev pub conflict_if_unique : Failure → Failure
conflict_if_unique (database unique_violation) = conflict code_conflict
conflict_if_unique e = e

-- An error of the insertion, told apart.
unfoldable pub insert_wallet : WalletRecord → M (Unit {0})
insert_wallet r w =
    let (o, w') = WalletRepo.insert r w in
    elim o [ ok u ↦ (ok u, w') | err e ↦ (err (conflict_if_unique e), w') ]

abbrev pub wallet_record : Wallet → WalletRecord
wallet_record w = record {
  id = w.id;
  player_id = w.player_id;
  currency = w.currency;
  balance_minor = w.balance.minor;
  version = w.version;
}

unfoldable pub opening_record : Text → Text → Text → Text → Money → TxRecord
opening_record tx_id wallet_id player_id currency initial = record {
  id = tx_id;
  origin = internal;
  provider_id = none;
  external_id = none;
  idempotency_key = none;
  payload_hash = none;
  wallet_id = wallet_id;
  player_id = player_id;
  round_id = none;
  game_id = none;
  kind = opening;
  amount_minor = initial.minor;
  currency = currency;
  reference_external_id = none;
  reference_tx_id = none;
  state = Transaction.processed;
  failure_code = none;
  result_balance_minor = some initial.minor;
  result_currency = some initial.currency;
  reversed_by_kind = none;
  reversed_by_tx_id = none;
  wallet_version_observed = some (pos 1);
}

module _ (s : Service) (player_id currency initial_text : Text) where
  -- A positive opening: the transaction, its ledger entry and two events.
  unfoldable pub open_with : Text → Money → M (Unit {0})
  open_with wallet_id initial = do
    tx_id ← fresh_id s
    time ← now s
    let zero_balance = money_or_zero (pos 0) currency
    entry_id ← fresh_id s
    entry ←
        attempt_or_fail
          (new_ledger_entry entry_id wallet_id tx_id credit initial zero_balance initial (pos 1))
    TxRepo.insert (opening_record tx_id wallet_id player_id currency initial)
    append (to_ledger_record entry)
    stage s event_processed wallet_id [] time (pos 1) (
        object (
          members (
            (codes "transactionId", text tx_id)
            ∷ (codes "kind", text (codes "OPENING"))
            ∷ (codes "playerId", text player_id)
            ∷ (codes "walletId", text wallet_id)
            ∷ (codes "amount", text initial_text)
            ∷ (codes "currency", text currency)
            ∷ (codes "balance", text (to_text initial))
            ∷ (codes "walletVersion", number (pos 1))
            ∷ [])))
    stage s event_balance wallet_id [] time (pos 1)
        (balance_data wallet_id tx_id (pos 1) initial_text currency initial zero_balance credit)

  -- The body of the transaction.
  unfoldable pub open_in : Text → Money → M WalletRecord
  open_in wallet_id initial = do
    w ←
        attempt (new_wallet wallet_id player_id currency initial)
          (λ e. fail (correctable (code_text invalid_money))) pure
    insert_wallet (wallet_record w)
    (if is_zero initial then pure tt else open_with wallet_id initial)
    pure (wallet_record w)

  unfoldable pub open_wallet : M WalletRecord
  open_wallet = do
    initial ←
        attempt (parse_money initial_text currency)
          (λ e. fail (correctable (code_text invalid_money))) pure
    fail_when (is_negative initial) (correctable (code_text invalid_money))
    wallet_id ← fresh_id s
    transact (open_in wallet_id initial)
