-- ===== src/Examples/Repeats.antt =====
-- A bet that is submitted twice, at a concrete input.
use jg_backend_challenge_go.Prelude.{
  ℕ, ◌≡◌, refl, Bool, true, false, [], ◌∷◌, ℤ, pos, codes, some, ok,
}
use jg_backend_challenge_go.Domain.Money.{Money}
use jg_backend_challenge_go.Ports.{WalletRecord}
use jg_backend_challenge_go.Postgres.Db.{Tables, World}
use jg_backend_challenge_go.Postgres.Calm.{calm}
use jg_backend_challenge_go.Wagering.Service.{SubmitResult, Outcome}
use jg_backend_challenge_go.Wagering.Submit.{submit, check_input}
use jg_backend_challenge_go.Once.Repeated.{submit-Once}
use jg_backend_challenge_go.Examples.Wagering.{service, placed}

abbrev row : WalletRecord
row = record {
  id = 1 ∷ [];
  player_id = codes "ana";
  currency = codes "BRL";
  balance_minor = pos 1000;
  version = pos 1;
}

abbrev before : World
before =
    calm (record { wallets = row ∷ []; txs = []; ledger = []; inbox = []; outbox = []; work = [] })
      7

abbrev stake : Money
stake = record { minor = pos 250; currency = codes "BRL" }

abbrev answer : SubmitResult
answer = record {
  outcome = Outcome.processed;
  transaction_id = 8 ∷ [];
  balance = some (record { minor = pos 750; currency = codes "BRL" });
  failure_code = [];
  wallet_version = pos 2;
  idempotent_replay = false;
}

input_passes : (w : World) → check_input placed w ≡ (ok stake, w)
unfolding check_input jg_backend_challenge_go.Domain.Transaction.validate_external_kind
    jg_backend_challenge_go.Domain.Money.Parse.parse_money
    jg_backend_challenge_go.Domain.Money.valid_currency
    jg_backend_challenge_go.Domain.Money.Parse.parse_parts
    jg_backend_challenge_go.Prelude.parse_digits jg_backend_challenge_go.Prelude.value_from
    jg_backend_challenge_go.Domain.Transaction.validate_amount_for_kind
    jg_backend_challenge_go.Domain.Money.is_positive
    jg_backend_challenge_go.Domain.Reversal.is_reversal_kind
input_passes w = refl

bet_accepted : submit service placed before ≡ (ok answer, (submit service placed before).1)
unfolding jg_backend_challenge_go.Prelude.◌+ℤ◌ jg_backend_challenge_go.Prelude.◌-ℤ◌
    jg_backend_challenge_go.Prelude.wrap64 jg_backend_challenge_go.Prelude.text_eq
    jg_backend_challenge_go.Prelude.value_from jg_backend_challenge_go.Prelude.parse_digits
    jg_backend_challenge_go.Prelude.find_first jg_backend_challenge_go.Prelude.select
    jg_backend_challenge_go.Prelude.update_where jg_backend_challenge_go.Prelude.any_row
    jg_backend_challenge_go.Domain.Money.is_zero jg_backend_challenge_go.Domain.Money.is_positive
    jg_backend_challenge_go.Domain.Money.is_negative
    jg_backend_challenge_go.Domain.Money.valid_currency
    jg_backend_challenge_go.Domain.Money.new_money_from_minor
    jg_backend_challenge_go.Domain.Money.add jg_backend_challenge_go.Domain.Money.sub
    jg_backend_challenge_go.Domain.Money.cmp jg_backend_challenge_go.Domain.Money.equal
    jg_backend_challenge_go.Domain.Money.Parse.parse_parts
    jg_backend_challenge_go.Domain.Money.Parse.parse_money
    jg_backend_challenge_go.Domain.Wallet.rehydrate_wallet
    jg_backend_challenge_go.Domain.Wallet.debit
    jg_backend_challenge_go.Domain.Transaction.validate_external_kind
    jg_backend_challenge_go.Domain.Transaction.validate_amount_for_kind
    jg_backend_challenge_go.Domain.LedgerEntry.new_ledger_entry
    jg_backend_challenge_go.Domain.Reversal.is_reversal_kind
    jg_backend_challenge_go.Postgres.Db.query jg_backend_challenge_go.Postgres.Db.execute
    jg_backend_challenge_go.Postgres.Db.transact
    jg_backend_challenge_go.Postgres.WalletRepo.find_wallet
    jg_backend_challenge_go.Postgres.WalletRepo.lock_for_update
    jg_backend_challenge_go.Postgres.WalletRepo.update_balance_row
    jg_backend_challenge_go.Postgres.WalletRepo.update_balance
    jg_backend_challenge_go.Postgres.TxRepo.check_origin
    jg_backend_challenge_go.Postgres.TxRepo.clashes
    jg_backend_challenge_go.Postgres.TxRepo.insert_row
    jg_backend_challenge_go.Postgres.TxRepo.insert
    jg_backend_challenge_go.Postgres.TxRepo.find_by_provider_key
    jg_backend_challenge_go.Postgres.TxRepo.find_by_provider_external
    jg_backend_challenge_go.Postgres.TxRepo.find_dependents
    jg_backend_challenge_go.Postgres.LedgerRepo.check_entry
    jg_backend_challenge_go.Postgres.LedgerRepo.clashes
    jg_backend_challenge_go.Postgres.LedgerRepo.append_row
    jg_backend_challenge_go.Postgres.LedgerRepo.append
    jg_backend_challenge_go.Postgres.AuxRepo.enqueue_outbox
    jg_backend_challenge_go.Wagering.Events.no_direction
    jg_backend_challenge_go.Wagering.Events.stage
    jg_backend_challenge_go.Wagering.Events.emit_processed
    jg_backend_challenge_go.Wagering.Accept.to_ledger_record
    jg_backend_challenge_go.Wagering.Accept.money_or_zero
    jg_backend_challenge_go.Wagering.Accept.insert_tx
    jg_backend_challenge_go.Wagering.Accept.processed
    jg_backend_challenge_go.Wagering.Accept.apply_bet
    jg_backend_challenge_go.Wagering.Accept.apply_kind
    jg_backend_challenge_go.Wagering.Accept.apply_operation
    jg_backend_challenge_go.Wagering.Submit.check_input
    jg_backend_challenge_go.Wagering.Submit.check_message
    jg_backend_challenge_go.Wagering.Submit.record_message
    jg_backend_challenge_go.Wagering.Submit.apply_new
    jg_backend_challenge_go.Wagering.Submit.submit_in
    jg_backend_challenge_go.Wagering.Submit.wake_dependents
    jg_backend_challenge_go.Wagering.Submit.submit jg_backend_challenge_go.Wagering.Work.resume_each
    jg_backend_challenge_go.Wagering.Work.reevaluate_dependents
bet_accepted = refl

submit-Once_example :
    (again : SubmitResult) × (submit service placed
        (calm (submit service placed before).1.tables 30)
      ≡ (ok again, calm (submit service placed before).1.tables 30))
    × (again.transaction_id ≡ 8 ∷ [])
    × (again.idempotent_replay ≡ true)
submit-Once_example =
    submit-Once service placed stake before (submit service placed before).1 answer 30 input_passes
      refl refl bet_accepted refl
