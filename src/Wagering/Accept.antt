-- ===== src/Wagering/Accept.antt =====
-- The flow of an operation inside the open transaction (internal/wagering/accept.go). The closures of
-- `applyOperation` are functions over their shared context; the wallet, which a debit or credit
-- mutates, is handed on.
use jg_backend_challenge_go.Prelude.{
  ℕ, ◌+◌, ℤ, Bool, true, false, Option, none, some, Text, [], is_empty, if◌then◌else◌, ok, err,
}
use jg_backend_challenge_go.Domain.Errors.{
  code_text, insufficient_balance, rollback_insufficient_balance, reference_not_processed,
  is_insufficient_balance,
}
use jg_backend_challenge_go.Domain.Money.{Money, new_money_from_minor}
use jg_backend_challenge_go.Domain.Wallet.{Wallet, rehydrate_wallet}
use jg_backend_challenge_go.Domain.Wallet as Wallet
use jg_backend_challenge_go.Domain.Transaction.{
  TransactionKind, bet, win, loss, refund, rollback, TransactionState, WagerTransaction,
  rehydrate_transaction, mark_reversed, no_money,
}
use jg_backend_challenge_go.Domain.Transaction as Transaction
use jg_backend_challenge_go.Domain.LedgerEntry.{
  LedgerDirection, debit, credit, other, LedgerEntry, new_ledger_entry,
}
use jg_backend_challenge_go.Domain.Reversal.{
  is_bet, Operation, Reference, validate_reference_agreement, validate_reversal_target,
  validate_win_reference,
}
use jg_backend_challenge_go.Ports.{
  WalletRecord, TxRecord, LedgerRecord, external, correctable, coded, panicked,
}
use jg_backend_challenge_go.Postgres.Db.{M, pure, fail, ◌>>=◌, ◌>>◌}
use jg_backend_challenge_go.Postgres.WalletRepo.{update_balance}
use jg_backend_challenge_go.Postgres.TxRepo
use jg_backend_challenge_go.Postgres.TxRepo.{
  find_by_provider_external, has_active_win, clear_reversal, is_set,
}
use jg_backend_challenge_go.Postgres.LedgerRepo.{append}
use jg_backend_challenge_go.Postgres.AuxRepo.{enqueue_work}
use jg_backend_challenge_go.Wagering.Service.{
  Service, fresh_id, now, SubmitInput, SubmitResult, Outcome, backoff_base, code_invalid_req, str,
  set_unless_empty, attempt, attempt_or_fail, work_reference,
}
use jg_backend_challenge_go.Wagering.Events.{emit_processed, emit_rejected, emit_pending_ref}

unfoldable pub to_ledger_record : LedgerEntry → LedgerRecord
to_ledger_record e = record {
  id = e.id;
  wallet_id = e.wallet_id;
  transaction_id = e.transaction_id;
  direction = e.direction;
  amount_minor = e.amount.minor;
  currency = e.amount.currency;
  before_minor = e.before.minor;
  after_minor = e.after.minor;
  wallet_version = e.wallet_version;
}

-- On an invalid currency the amount is the zero value.
unfoldable pub money_or_zero : ℤ → Text → Money
money_or_zero minor currency = elim (new_money_from_minor minor currency) [
  | ok m ↦ m
  | err e ↦ no_money
]

-- `mustMinor` panics on an invalid currency.
unfoldable pub must_minor : ℤ → Text → M Money
must_minor minor currency = attempt (new_money_from_minor minor currency) (λ _. fail panicked) pure

unfoldable pub reference_view : TxRecord → Reference
unfolding money_or_zero
reference_view t = record {
  kind = t.kind;
  amount = money_or_zero t.amount_minor t.currency;
  provider_id = str t.provider_id;
  player_id = t.player_id;
  wallet_id = t.wallet_id;
  round_id = str t.round_id;
  state = t.state;
  reversed = is_set t.reversed_by_tx_id;
}

-- `winOperation` and `reversalOperation`, which are one text.
unfoldable pub operation : SubmitInput → Money → Operation
operation input amount = record {
  kind = input.kind;
  amount = amount;
  provider_id = input.provider_id;
  player_id = input.player_id;
  wallet_id = input.wallet_id;
  round_id = input.round_id;
  reference_external = [];
}

abbrev kind_or_none : Option TransactionKind → TransactionKind
kind_or_none none = Transaction.other []
kind_or_none (some k) = k

-- `targetDomain`: the target as the reversal rules read it.
unfoldable pub target_view : TxRecord → Money → WagerTransaction
target_view target amount =
    let t =
      rehydrate_transaction target.id target.kind target.state amount target.player_id
        target.wallet_id in
    if is_set target.reversed_by_tx_id
    then mark_reversed t (kind_or_none target.reversed_by_kind) (str target.reversed_by_tx_id)
    else t

unfoldable pub active_win_of : TxRecord → M Bool
active_win_of target = if is_bet target.kind then has_active_win target.id else pure false

abbrev pub is_refund : TransactionKind → Bool
is_refund refund = true
is_refund _ = false

-- A ROLLBACK of a REFUND frees the bet that the REFUND had reversed.
unfoldable pub free_slot : TransactionKind → TransactionKind → Option Text → M (Unit {0})
free_slot rollback refund (some bet_id) = clear_reversal bet_id
free_slot _ _ _ = pure tt

-- What the closures of `applyOperation` share.
pub record Context : Type 0 where
  pub input : SubmitInput
  pub amount : Money
  pub hash : Text
  pub tx_id : Text
  pub time : ℕ

unfoldable pub tx_record :
    Context → Wallet → TransactionState → Text → Option Money → Text → TxRecord
tx_record c w state failure_code result_balance ref_tx_id = record {
  id = c.tx_id;
  origin = external;
  provider_id = some c.input.provider_id;
  external_id = some c.input.external_id;
  idempotency_key = some c.input.idempotency_key;
  payload_hash = some c.hash;
  wallet_id = c.input.wallet_id;
  player_id = c.input.player_id;
  round_id = some c.input.round_id;
  game_id = some c.input.game_id;
  kind = c.input.kind;
  amount_minor = c.amount.minor;
  currency = c.amount.currency;
  reference_external_id = set_unless_empty c.input.reference_external;
  reference_tx_id = set_unless_empty ref_tx_id;
  state = state;
  failure_code = set_unless_empty failure_code;
  result_balance_minor = elim result_balance [ none ↦ none | some b ↦ some b.minor ];
  result_currency = elim result_balance [ none ↦ none | some b ↦ some b.currency ];
  reversed_by_kind = none;
  reversed_by_tx_id = none;
  wallet_version_observed = elim result_balance [ none ↦ none | some b ↦ some w.version ];
}

unfoldable pub insert_tx :
    Context → Wallet → TransactionState → Text → Option Money → Text → M (Unit {0})
unfolding tx_record
insert_tx c w state failure_code result_balance ref_tx_id =
    TxRepo.insert (tx_record c w state failure_code result_balance ref_tx_id)

unfoldable pub settled : Outcome → Context → Wallet → Money → Text → SubmitResult
settled outcome c w balance code = record {
  outcome = outcome;
  transaction_id = c.tx_id;
  balance = some balance;
  failure_code = code;
  wallet_version = w.version;
  idempotent_replay = false;
}

module _ (s : Service) (c : Context) where
  unfoldable pub processed : Wallet → Money → Money → Text → LedgerDirection → M SubmitResult
  unfolding settled
  processed w before after ref_tx_id dir = do
    entry_id ← fresh_id s
    entry ←
        attempt_or_fail (new_ledger_entry entry_id w.id c.tx_id dir c.amount before after w.version)
    insert_tx c w Transaction.processed [] (some after) ref_tx_id
    append (to_ledger_record entry)
    update_balance w.id after.minor w.version
    emit_processed s w.id w.version c.tx_id c.input after before dir
    pure (settled Outcome.processed c w after [])

  unfoldable pub rejected : Wallet → Text → Text → M SubmitResult
  unfolding settled
  rejected w code ref_tx_id = do
    insert_tx c w Transaction.rejected code (some w.balance) ref_tx_id
    emit_rejected s w.id w.version c.tx_id c.input w.balance code
    pure (settled Outcome.rejected c w w.balance code)

  unfoldable pub park_reference : Wallet → M SubmitResult
  park_reference w = do
    insert_tx c w Transaction.pending_reference [] none []
    emit_pending_ref s w.id w.version c.tx_id c.input
    created ← now s
    enqueue_work created (record {
      transaction_id = c.tx_id;
      kind = work_reference;
      ref_attempts = 0;
      infra_attempts = 0;
      next_attempt_at = c.time + backoff_base;
      lease_owner = [];
      lease_expires_at = none;
      created_at = 0;
    })
    pure (record {
      outcome = Outcome.pending;
      transaction_id = c.tx_id;
      balance = none;
      failure_code = [];
      wallet_version = w.version;
      idempotent_replay = false;
    })

  unfoldable pub apply_bet : Wallet → M SubmitResult
  apply_bet w =
      attempt (Wallet.debit w c.input.player_id c.amount)
        (λ e.
          if is_insufficient_balance e
          then rejected w (code_text insufficient_balance) []
          else fail (coded e))
        (λ (before, after, w'). processed w' before after [] debit)

  -- A credit of the whole amount.
  unfoldable pub apply_credit : Wallet → Text → M SubmitResult
  apply_credit w ref_tx_id =
      attempt (Wallet.credit w c.input.player_id c.amount) (λ e. fail (coded e))
        (λ (before, after, w'). processed w' before after ref_tx_id credit)

  unfoldable pub apply_loss : Wallet → M SubmitResult
  unfolding settled
  apply_loss w = do
    insert_tx c w Transaction.processed [] (some w.balance) []
    emit_processed s w.id w.version c.tx_id c.input w.balance w.balance (other [])
    pure (settled Outcome.processed c w w.balance [])

  -- The closure for a WIN with a reference.
  unfoldable pub apply_win : Wallet → TxRecord → M SubmitResult
  apply_win w target =
      attempt (validate_win_reference (operation c.input c.amount) (some (reference_view target)))
        (λ e. rejected w (code_text e) target.id) (λ _. apply_credit w target.id)

  -- Behind a reversal that moved money: the target's slot is taken, and a ROLLBACK of a REFUND frees
  -- the slot of the bet.
  unfoldable pub reverse : Wallet → Money → Money → LedgerDirection → TxRecord → M SubmitResult
  reverse w before after dir target = do
    r ← processed w before after target.id dir
    TxRepo.mark_reversed target.id c.input.kind c.tx_id
    free_slot c.input.kind target.kind target.reference_tx_id
    pure r

  unfoldable pub credit_back : Wallet → TxRecord → M SubmitResult
  credit_back w target =
      attempt (Wallet.credit w c.input.player_id c.amount) (λ e. fail (coded e))
        (λ (before, after, w'). reverse w' before after credit target)

  -- The debit of a ROLLBACK that voids a WIN or a REFUND.
  unfoldable pub void : Wallet → TxRecord → M SubmitResult
  void w target =
      attempt (Wallet.debit w c.input.player_id c.amount)
        (λ e.
          if is_insufficient_balance e
          then rejected w (code_text rollback_insufficient_balance) target.id
          else fail (coded e))
        (λ (before, after, w'). reverse w' before after debit target)

  -- The closure for a REFUND and a ROLLBACK.
  unfoldable pub apply_reversal : Wallet → TxRecord → M SubmitResult
  apply_reversal w target =
      attempt (validate_reference_agreement (operation c.input c.amount) (reference_view target))
        (λ e. rejected w (code_text e) target.id)
        (λ _. do
          amount ← must_minor target.amount_minor target.currency
          active_win ← active_win_of target
          attempt
              (validate_reversal_target c.input.kind (some (target_view target amount)) active_win)
              (λ e. rejected w (code_text e) target.id)
              (λ _.
                if is_refund c.input.kind
                then credit_back w target
                else if is_bet target.kind
                then credit_back w target
                else void w target))

  -- The `switch` on the state of the reference.
  unfoldable pub resolve :
      Wallet → (TxRecord → M SubmitResult) → TransactionState → TxRecord → M SubmitResult
  resolve w apply Transaction.pending target = park_reference w
  resolve w apply Transaction.pending_reference target = park_reference w
  resolve w apply Transaction.processed target = apply target
  resolve w apply _ target = rejected w (code_text reference_not_processed) target.id

  abbrev pub resolve_found : Wallet → (TxRecord → M SubmitResult) → Option TxRecord → M SubmitResult
  resolve_found w apply none = park_reference w
  resolve_found w apply (some target) = resolve w apply target.state target

  unfoldable pub apply_with_reference : Wallet → (TxRecord → M SubmitResult) → M SubmitResult
  apply_with_reference w apply = do
    target ← find_by_provider_external c.input.provider_id c.input.reference_external
    resolve_found w apply target

  -- The `switch` on the kind.
  unfoldable pub apply_kind : Wallet → TransactionKind → M SubmitResult
  apply_kind w bet = apply_bet w
  apply_kind w win =
      if is_empty c.input.reference_external
      then apply_credit w []
      else apply_with_reference w (apply_win w)
  apply_kind w loss = apply_loss w
  apply_kind w refund = apply_with_reference w (apply_reversal w)
  apply_kind w rollback = apply_with_reference w (apply_reversal w)
  apply_kind w _ = fail (correctable code_invalid_req)

unfoldable pub apply_operation :
    Service → SubmitInput → Money → Text → WalletRecord → M SubmitResult
apply_operation s input amount hash wallet = do
  tx_id ← fresh_id s
  time ← now s
  w ← attempt_or_fail (
      rehydrate_wallet wallet.id wallet.player_id wallet.currency wallet.balance_minor
        wallet.version)
  apply_kind s (record { input = input; amount = amount; hash = hash; tx_id = tx_id; time = time })
      w input.kind
