-- ===== src/Wagering/Work.antt =====
-- The resumption of parked transactions (internal/wagering/work.go).
pub mod Infra
pub mod Due
use jg_backend_challenge_go.Prelude.{
  ℕ, ◌+◌, ◌-◌, Bool, true, false, Option, none, some, List, [], ◌∷◌, ltb, leb, Text, codes,
  is_empty, if◌then◌else◌, ok, err,
}
use jg_backend_challenge_go.Domain.Errors.{
  code_text, rollback_insufficient_balance, reference_not_processed, is_insufficient_balance,
}
use jg_backend_challenge_go.Domain.Money.{Money, new_money_from_minor}
use jg_backend_challenge_go.Domain.Money.Format.{to_text}
use jg_backend_challenge_go.Domain.Wallet.{Wallet, rehydrate_wallet}
use jg_backend_challenge_go.Domain.Wallet as Wallet
use jg_backend_challenge_go.Domain.Transaction.{TransactionKind, win, TransactionState, is_terminal}
use jg_backend_challenge_go.Domain.Transaction as Transaction
use jg_backend_challenge_go.Domain.LedgerEntry.{LedgerDirection, debit, credit, new_ledger_entry}
use jg_backend_challenge_go.Domain.Reversal.{
  is_bet, validate_reference_agreement, validate_reversal_target, validate_win_reference,
}
use jg_backend_challenge_go.Ports.{WalletRecord, TxRecord, WorkItem, coded, wallet_vanished}
use jg_backend_challenge_go.Postgres.Db.{WorkRow, M, pure, fail, transact, ignore, ◌>>=◌, ◌>>◌}
use jg_backend_challenge_go.Postgres.WalletRepo.{lock_for_update, update_balance}
use jg_backend_challenge_go.Postgres.TxRepo
use jg_backend_challenge_go.Postgres.TxRepo.{
  find_by_provider_external, find_dependents, update_state,
}
use jg_backend_challenge_go.Postgres.LedgerRepo.{append}
use jg_backend_challenge_go.Postgres.AuxRepo.{get_work, touch_work, delete_work}
use jg_backend_challenge_go.Wagering.Service.{
  Service, now, SubmitInput, fresh_id, reference_ttl, max_ref_attempts, max_infra_attempts,
  backoff_base, backoff_cap, code_ref_not_found, str, attempt, attempt_or_fail,
}
use jg_backend_challenge_go.Wagering.Backoff.{retry_delay}
use jg_backend_challenge_go.Wagering.Events.{emit_processed, emit_rejected}
use jg_backend_challenge_go.Wagering.Accept.{
  money_or_zero, must_minor, to_ledger_record, reference_view, operation, target_view,
  active_win_of, is_refund, free_slot,
}

-- The input that a row is read back as.
unfoldable pub input_of : TxRecord → Money → SubmitInput
input_of r amount = record {
  provider_id = str r.provider_id;
  external_id = str r.external_id;
  idempotency_key = [];
  player_id = r.player_id;
  wallet_id = r.wallet_id;
  round_id = str r.round_id;
  game_id = str r.game_id;
  kind = r.kind;
  amount_text = to_text amount;
  currency = amount.currency;
  reference_external = str r.reference_external_id;
  consumer_name = [];
  message_id = [];
  correlation_id = [];
}

unfoldable pub rebuilt_input : SubmitInput → Money → SubmitInput
rebuilt_input input amount = record input {
  amount_text = to_text amount;
  currency = amount.currency;
}

-- A reference id that is given replaces the row's.
abbrev pub new_reference : Text → Option Text → Option Text
new_reference ref_tx_id old = if is_empty ref_tx_id then old else some ref_tx_id

unfoldable pub processed_row : TxRecord → Wallet → Text → Money → TxRecord
processed_row r w ref_tx_id after = record r {
  state = Transaction.processed;
  result_balance_minor = some after.minor;
  result_currency = some after.currency;
  wallet_version_observed = some w.version;
  reference_tx_id = new_reference ref_tx_id r.reference_tx_id;
}

unfoldable pub rejected_row : TxRecord → Wallet → Text → Text → TxRecord
rejected_row r w ref_tx_id code = record r {
  state = Transaction.rejected;
  failure_code = some code;
  result_balance_minor = some w.balance.minor;
  result_currency = some w.balance.currency;
  wallet_version_observed = some w.version;
  reference_tx_id = new_reference ref_tx_id r.reference_tx_id;
}

-- `GetWork`, with a failed read as no row.
unfoldable pub work_or_none : Text → M (Option WorkRow)
work_or_none tx_id w =
    let (r, w') = get_work tx_id w in elim r [ ok row ↦ (ok row, w') | err e ↦ (ok none, w') ]

unfoldable pub work_created_at : Text → M ℕ
unfolding work_or_none
work_created_at tx_id = do
  row ← work_or_none tx_id
  pure (elim row [ none ↦ 0 | some r ↦ r.created_at ])

unfoldable pub work_ref_attempts : Text → M ℕ
unfolding work_or_none
work_ref_attempts tx_id = do
  row ← work_or_none tx_id
  pure (elim row [ none ↦ 0 | some r ↦ r.ref_attempts ])

module _ (s : Service) where
  unfoldable pub settle_processed_existing :
      Wallet → TxRecord → SubmitInput → Text → LedgerDirection → Money → Money → M (Unit {0})
  settle_processed_existing w r input ref_tx_id dir before after = do
    let amount = money_or_zero r.amount_minor r.currency
    entry_id ← fresh_id s
    entry ← attempt_or_fail (new_ledger_entry entry_id w.id r.id dir amount before after w.version)
    update_state (processed_row r w ref_tx_id after)
    append (to_ledger_record entry)
    update_balance w.id after.minor w.version
    emit_processed s w.id w.version r.id (rebuilt_input input amount) after before dir
    delete_work r.id

  unfoldable pub settle_rejected_existing :
      Wallet → TxRecord → SubmitInput → Text → Text → M (Unit {0})
  settle_rejected_existing w r input ref_tx_id code = do
    update_state (rejected_row r w ref_tx_id code)
    emit_rejected s w.id w.version r.id
        (rebuilt_input input (money_or_zero r.amount_minor r.currency)) w.balance code
    delete_work r.id

  -- `TouchWork` of a reference that is not there yet: one more attempt, behind a backoff.
  unfoldable pub wait_again : TxRecord → ℕ → M Bool
  wait_again r time = do
    attempts ← work_ref_attempts r.id
    touch_work r.id (attempts + 1) 0 (time + retry_delay 0 (s.int63n time)) true
    pure false

  -- The cases of `resumeApply` and `resumeOne` that settle the row.
  abbrev pub reject_existing : Wallet → TxRecord → SubmitInput → Text → Text → M Bool
  reject_existing w r input ref_tx_id code =
      settle_rejected_existing w r input ref_tx_id code >> pure true

  unfoldable pub reverse_existing :
      Wallet → TxRecord → SubmitInput → TxRecord → LedgerDirection → Money → Money → M Bool
  reverse_existing w r input target dir before after = do
    settle_processed_existing w r input target.id dir before after
    TxRepo.mark_reversed target.id input.kind r.id
    free_slot input.kind target.kind target.reference_tx_id
    pure true

  unfoldable pub credit_existing : Wallet → TxRecord → SubmitInput → Money → TxRecord → M Bool
  credit_existing w r input amount target =
      attempt (Wallet.credit w input.player_id amount) (λ e. fail (coded e))
        (λ (before, after, w'). reverse_existing w' r input target credit before after)

  unfoldable pub void_existing : Wallet → TxRecord → SubmitInput → Money → TxRecord → M Bool
  void_existing w r input amount target =
      attempt (Wallet.debit w input.player_id amount)
        (λ e.
          if is_insufficient_balance e
          then reject_existing w r input target.id (code_text rollback_insufficient_balance)
          else fail (coded e))
        (λ (before, after, w'). reverse_existing w' r input target debit before after)

  unfoldable pub resume_win : Wallet → TxRecord → SubmitInput → Money → TxRecord → M Bool
  resume_win w r input amount target =
      attempt (validate_win_reference (operation input amount) (some (reference_view target)))
        (λ e. reject_existing w r input target.id (code_text e))
        (λ _.
          attempt (Wallet.credit w input.player_id amount) (λ e. fail (coded e))
            (λ (before, after, w').
              settle_processed_existing w' r input target.id credit before after >> pure true))

  unfoldable pub resume_reversal : Wallet → TxRecord → SubmitInput → Money → TxRecord → M Bool
  resume_reversal w r input amount target =
      attempt (validate_reference_agreement (operation input amount) (reference_view target))
        (λ e. reject_existing w r input target.id (code_text e))
        (λ _. do
          target_amount ← must_minor target.amount_minor target.currency
          active_win ← active_win_of target
          attempt
              (validate_reversal_target input.kind (some (target_view target target_amount))
                active_win)
              (λ e. reject_existing w r input target.id (code_text e))
              (λ _.
                if is_refund input.kind
                then credit_existing w r input amount target
                else if is_bet target.kind
                then credit_existing w r input amount target
                else void_existing w r input amount target))

  unfoldable pub resume_apply : Wallet → TxRecord → SubmitInput → Money → TxRecord → M Bool
  resume_apply w r input amount target =
      if TxRepo.is_win input.kind
      then resume_win w r input amount target
      else resume_reversal w r input amount target

  -- No row has the referenced identity: give up, or wait again.
  unfoldable pub resume_missing : Wallet → TxRecord → SubmitInput → ℕ → M Bool
  resume_missing w r input time = do
    created ← work_created_at r.id
    if ltb reference_ttl (time - created)
        then reject_existing w r input [] code_ref_not_found
        else (do
          attempts ← work_ref_attempts r.id
          if leb max_ref_attempts (attempts + 1)
              then reject_existing w r input [] code_ref_not_found
              else wait_again r time)

  -- The `switch` on the state of the reference.
  unfoldable pub resume_found :
      Wallet → TxRecord → SubmitInput → Money → ℕ → TransactionState → TxRecord → M Bool
  resume_found w r input amount time Transaction.pending target = wait_again r time
  resume_found w r input amount time Transaction.pending_reference target = wait_again r time
  resume_found w r input amount time Transaction.processed target =
      resume_apply w r input amount target
  resume_found w r input amount time _ target =
      reject_existing w r input target.id (code_text reference_not_processed)

  abbrev pub resume_target : Wallet → TxRecord → SubmitInput → Money → ℕ → Option TxRecord → M Bool
  resume_target w r input amount time none = resume_missing w r input time
  resume_target w r input amount time (some t) = resume_found w r input amount time t.state t

  unfoldable pub resume_in_wallet : TxRecord → ℕ → WalletRecord → M Bool
  resume_in_wallet r time wallet = do
    w ← attempt_or_fail (
        rehydrate_wallet wallet.id wallet.player_id wallet.currency wallet.balance_minor
          wallet.version)
    amount ← attempt_or_fail (new_money_from_minor r.amount_minor r.currency)
    let input = input_of r amount
    target ← find_by_provider_external input.provider_id input.reference_external
    resume_target w r input amount time target

  abbrev pub resume_locked : TxRecord → ℕ → Option WalletRecord → M Bool
  resume_locked r time none = fail wallet_vanished
  resume_locked r time (some wallet) = resume_in_wallet r time wallet

  unfoldable pub resume_one : TxRecord → M Bool
  resume_one r = do time ← now s; wallet ← lock_for_update r.wallet_id; resume_locked r time wallet

  abbrev pub is_parked : TransactionState → Bool
  is_parked Transaction.pending_reference = true
  is_parked _ = false

  -- The loop over the dependents: an error of one is dropped.
  unfoldable pub resume_each : List TxRecord → M (Unit {0})
  resume_each [] = pure tt
  resume_each (d ∷ ds) =
      (if is_parked d.state then ignore (resume_one d) else pure tt) >> resume_each ds

  unfoldable pub reevaluate_dependents : Text → Text → M (Unit {0})
  reevaluate_dependents provider_id external_id =
      transact (do deps ← find_dependents provider_id external_id; resume_each deps)

  -- One infrastructure attempt is used up, or the last one was.
  abbrev pub fail_row : Option TxRecord → M (Unit {0})
  fail_row none = pure tt
  fail_row (some r) =
      update_state
        (record r { state = Transaction.failed; failure_code = some (codes "INFRA_EXHAUSTED") })

  unfoldable pub note_infra : WorkItem → M (Unit {0})
  note_infra item =
      if leb max_infra_attempts (item.infra_attempts + 1)
      then (do r ← TxRepo.get item.transaction_id; fail_row r; delete_work item.transaction_id)
      else (do
        seed ← now s
        time ← now s
        touch_work item.transaction_id item.ref_attempts (item.infra_attempts + 1)
            (time + retry_delay (item.infra_attempts + 1) (s.int63n seed)) false)

  -- `if err != nil { return s.noteInfra(db, item, err) }`
  abbrev pub or_note : {A : Type 0} → WorkItem → M A → (A → M Bool) → M Bool
  or_note item m k w =
      let (r, w') = m w in elim r [ ok a ↦ k a w' | err e ↦ (note_infra item >> pure false) w' ]

  abbrev pub work_on : WorkItem → Option TxRecord → M Bool
  work_on item none = ignore (delete_work item.transaction_id) >> pure true
  work_on item (some r) =
      if is_terminal r.state
      then ignore (delete_work item.transaction_id) >> pure true
      else or_note item (resume_one r) pure

  -- Whether the item settled.
  unfoldable pub process_work_item : WorkItem → M Bool
  process_work_item item = transact (or_note item (TxRepo.get item.transaction_id) (work_on item))
