-- ===== src/Examples/Wagering.antt =====
-- The theorems on internal/wagering at concrete inputs.
use jg_backend_challenge_go.Prelude.{
  ℕ, suc, length, arith, ◌+◌, ◌≡◌, refl, Bool, true, false, List, [], ◌∷◌, ℤ, pos, ◌≤ℤ◌, Text,
  codes, Option, some, none, Result, ok, err,
}
use jg_backend_challenge_go.Domain.Transaction.{bet, win}
use jg_backend_challenge_go.Ports.{WalletRecord, correctable}
use jg_backend_challenge_go.Postgres.Db.{Tables, World}
use jg_backend_challenge_go.Postgres.WalletRepo.{find_wallet}
use jg_backend_challenge_go.Wagering.Service.{Service, SubmitInput, code_wallet_missing}
use jg_backend_challenge_go.Wagering.Submit.{submit}
use jg_backend_challenge_go.Wagering.Submit.Atomic.{submit_failed}
use jg_backend_challenge_go.Books.{Books}
use jg_backend_challenge_go.Postgres.Calm.{calm}
use jg_backend_challenge_go.Wagering.Reconcile.{reconcile}
use jg_backend_challenge_go.Books.Reconciling.{entries_of}
use jg_backend_challenge_go.Books.Reconciling.Report.{consistent_report, history-reconcile}
use jg_backend_challenge_go.Wagering.Pages.{Base64}
use jg_backend_challenge_go.Wagering.Pages.Cursor.{IsCodec}
use jg_backend_challenge_go.Postgres.LedgerRepo.{all_ordered}
use jg_backend_challenge_go.Books.Paging.Walk.{walk, history-walk}
use jg_backend_challenge_go.Books.Histories.{
  Event, opened, submitted, handle, history, fresh_world, total, history-Books, history-total,
}

-- Ids are single bytes; the digest is the text itself.
abbrev pub service : Service
service = record {
  new_id = λ n. (n + 1) ∷ [];
  clock = λ n. n;
  int63n = λ seed n. 0;
  json_string = λ t. t;
  sha256_hex = λ t. t;
}

-- A bet of 2.50 on the wallet with the first id.
abbrev pub placed : SubmitInput
placed = record {
  provider_id = codes "P";
  external_id = codes "x1";
  idempotency_key = codes "k1";
  player_id = codes "ana";
  wallet_id = 1 ∷ [];
  round_id = codes "r";
  game_id = codes "g";
  kind = bet;
  amount_text = codes "2.50";
  currency = codes "BRL";
  reference_external = [];
  consumer_name = [];
  message_id = [];
  correlation_id = [];
}

-- A wallet is opened with 10.00, and two bets are placed on it.
abbrev evening : List Event
evening =
    opened (codes "ana") (codes "BRL") (codes "10.00")
    ∷ submitted placed
    ∷ submitted (record placed { external_id = codes "x2"; idempotency_key = codes "k2" })
    ∷ []

history-Books_example :
    Books
      (history service evening (fresh_world [])).tables.wallets
      (history service evening (fresh_world [])).tables.ledger
history-Books_example = history-Books service evening []

abbrev ana : WalletRecord
ana = record {
  id = 1 ∷ [];
  player_id = codes "ana";
  currency = codes "BRL";
  balance_minor = pos 500;
  version = pos 3;
}

found_after :
    find_wallet (1 ∷ []) (history service evening (fresh_world [])).tables.wallets ≡ some ana
unfolding jg_backend_challenge_go.Prelude.◌+ℤ◌ jg_backend_challenge_go.Prelude.◌-ℤ◌
    jg_backend_challenge_go.Prelude.wrap64 jg_backend_challenge_go.Prelude.text_eq
    jg_backend_challenge_go.Prelude.value_from jg_backend_challenge_go.Prelude.parse_digits
    jg_backend_challenge_go.Prelude.find_first jg_backend_challenge_go.Prelude.select
    jg_backend_challenge_go.Prelude.update_where jg_backend_challenge_go.Prelude.any_row
    jg_backend_challenge_go.Domain.Money.is_zero jg_backend_challenge_go.Domain.Money.is_positive
    jg_backend_challenge_go.Domain.Money.is_negative
    jg_backend_challenge_go.Domain.Money.valid_currency
    jg_backend_challenge_go.Domain.Money.new_money_from_minor
    jg_backend_challenge_go.Domain.Money.add jg_backend_challenge_go.Domain.Money.sub
    jg_backend_challenge_go.Domain.Money.cmp jg_backend_challenge_go.Domain.Money.equal
    jg_backend_challenge_go.Domain.Money.Parse.parse_parts
    jg_backend_challenge_go.Domain.Money.Parse.parse_money
    jg_backend_challenge_go.Domain.Wallet.new_wallet
    jg_backend_challenge_go.Domain.Wallet.rehydrate_wallet
    jg_backend_challenge_go.Domain.Wallet.debit
    jg_backend_challenge_go.Domain.Transaction.validate_external_kind
    jg_backend_challenge_go.Domain.Transaction.validate_amount_for_kind
    jg_backend_challenge_go.Domain.LedgerEntry.new_ledger_entry
    jg_backend_challenge_go.Domain.Reversal.is_reversal_kind
    jg_backend_challenge_go.Postgres.Db.query jg_backend_challenge_go.Postgres.Db.execute
    jg_backend_challenge_go.Postgres.Db.transact
    jg_backend_challenge_go.Postgres.WalletRepo.find_wallet
    jg_backend_challenge_go.Postgres.WalletRepo.lock_for_update
    jg_backend_challenge_go.Postgres.WalletRepo.insert_row
    jg_backend_challenge_go.Postgres.WalletRepo.insert
    jg_backend_challenge_go.Postgres.WalletRepo.update_balance_row
    jg_backend_challenge_go.Postgres.WalletRepo.update_balance
    jg_backend_challenge_go.Postgres.TxRepo.check_origin
    jg_backend_challenge_go.Postgres.TxRepo.clashes
    jg_backend_challenge_go.Postgres.TxRepo.insert_row
    jg_backend_challenge_go.Postgres.TxRepo.insert
    jg_backend_challenge_go.Postgres.TxRepo.find_by_provider_key
    jg_backend_challenge_go.Postgres.TxRepo.find_by_provider_external
    jg_backend_challenge_go.Postgres.TxRepo.find_dependents
    jg_backend_challenge_go.Postgres.LedgerRepo.check_entry
    jg_backend_challenge_go.Postgres.LedgerRepo.clashes
    jg_backend_challenge_go.Postgres.LedgerRepo.append_row
    jg_backend_challenge_go.Postgres.LedgerRepo.append
    jg_backend_challenge_go.Postgres.AuxRepo.enqueue_outbox
    jg_backend_challenge_go.Wagering.Events.no_direction
    jg_backend_challenge_go.Wagering.Events.stage
    jg_backend_challenge_go.Wagering.Events.emit_processed
    jg_backend_challenge_go.Wagering.Accept.to_ledger_record
    jg_backend_challenge_go.Wagering.Accept.money_or_zero
    jg_backend_challenge_go.Wagering.Accept.insert_tx
    jg_backend_challenge_go.Wagering.Accept.processed
    jg_backend_challenge_go.Wagering.Accept.apply_bet
    jg_backend_challenge_go.Wagering.Accept.apply_kind
    jg_backend_challenge_go.Wagering.Accept.apply_operation
    jg_backend_challenge_go.Wagering.Submit.check_input
    jg_backend_challenge_go.Wagering.Submit.check_message
    jg_backend_challenge_go.Wagering.Submit.record_message
    jg_backend_challenge_go.Wagering.Submit.apply_new
    jg_backend_challenge_go.Wagering.Submit.submit_in
    jg_backend_challenge_go.Wagering.Submit.wake_dependents
    jg_backend_challenge_go.Wagering.Submit.submit
    jg_backend_challenge_go.Wagering.OpenWallet.insert_wallet
    jg_backend_challenge_go.Wagering.OpenWallet.opening_record
    jg_backend_challenge_go.Wagering.OpenWallet.open_with
    jg_backend_challenge_go.Wagering.OpenWallet.open_in
    jg_backend_challenge_go.Wagering.OpenWallet.open_wallet
    jg_backend_challenge_go.Wagering.Work.resume_each
    jg_backend_challenge_go.Wagering.Work.reevaluate_dependents
    jg_backend_challenge_go.Books.Histories.handle jg_backend_challenge_go.Books.Histories.history
    jg_backend_challenge_go.Books.Histories.fresh_world
found_after = refl

history-total_example :
    (pos 500 ≡ total (1 ∷ []) (history service evening (fresh_world [])).tables.ledger)
    × (pos 0 ≤ℤ pos 500)
history-total_example = history-total service evening [] (1 ∷ []) found_after

history-reconcile_example :
    reconcile (1 ∷ []) (calm (history service evening (fresh_world [])).tables 20) ≡ (
      ok (
          consistent_report
            (1 ∷ [])
            ana
            (entries_of (1 ∷ []) (history service evening (fresh_world [])).tables.ledger)),
      calm (history service evening (fresh_world [])).tables 20,
    )
history-reconcile_example = history-reconcile service evening [] (1 ∷ []) 20 found_after

unknown_wallet : (submit service placed (fresh_world [])).0 ≡ err (correctable code_wallet_missing)
unfolding jg_backend_challenge_go.Prelude.value_from jg_backend_challenge_go.Prelude.parse_digits
    jg_backend_challenge_go.Prelude.find_first jg_backend_challenge_go.Domain.Money.is_positive
    jg_backend_challenge_go.Domain.Money.valid_currency
    jg_backend_challenge_go.Domain.Money.Parse.parse_parts
    jg_backend_challenge_go.Domain.Money.Parse.parse_money
    jg_backend_challenge_go.Domain.Transaction.validate_external_kind
    jg_backend_challenge_go.Domain.Transaction.validate_amount_for_kind
    jg_backend_challenge_go.Domain.Reversal.is_reversal_kind
    jg_backend_challenge_go.Postgres.Db.query jg_backend_challenge_go.Postgres.Db.transact
    jg_backend_challenge_go.Postgres.WalletRepo.find_wallet
    jg_backend_challenge_go.Postgres.WalletRepo.lock_for_update
    jg_backend_challenge_go.Wagering.Submit.check_input
    jg_backend_challenge_go.Wagering.Submit.check_message
    jg_backend_challenge_go.Wagering.Submit.submit_in jg_backend_challenge_go.Wagering.Submit.submit
    jg_backend_challenge_go.Books.Histories.fresh_world
unknown_wallet = refl

submit_failed_example : (submit service placed (fresh_world [])).1.tables ≡ (fresh_world []).tables
submit_failed_example = submit_failed service placed (fresh_world []) unknown_wallet

-- Base64 that changes nothing.
abbrev pub plain : Base64
plain = record { encode = λ x. x; decode = λ x. some x }

pub plain-IsCodec : IsCodec plain
plain-IsCodec = record { decode_encode = λ x. refl; encode_nonempty = λ x h. h }

-- In pages of two entries.
history-walk_example :
    walk plain
      (suc (length (entries_of (1 ∷ []) (history service evening (fresh_world [])).tables.ledger)))
      (1 ∷ [])
      (codes "")
      (pos 2)
      (calm (history service evening (fresh_world [])).tables 20)
    ≡ all_ordered (1 ∷ []) (calm (history service evening (fresh_world [])).tables 20)
history-walk_example =
    history-walk service evening [] plain (1 ∷ []) (pos 2) 20
      (suc (length (entries_of (1 ∷ []) (history service evening (fresh_world [])).tables.ledger)))
      plain-IsCodec found_after (omega arith)
