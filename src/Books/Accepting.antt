-- ===== src/Books/Accepting.antt =====
-- `applyOperation` and the books (internal/wagering/accept.go).
use jg_backend_challenge_go.Prelude.{ℤ, Text, Option, none, some}
use jg_backend_challenge_go.Domain.Money.{Money}
use jg_backend_challenge_go.Domain.Wallet.{Wallet}
use jg_backend_challenge_go.Domain.Transaction.{
  TransactionKind, bet, win, loss, refund, rollback, opening, other, TransactionState,
}
use jg_backend_challenge_go.Domain.Transaction
use jg_backend_challenge_go.Domain.LedgerEntry.{LedgerDirection}
use jg_backend_challenge_go.Ports.{WalletRecord, TxRecord}
use jg_backend_challenge_go.Postgres.Db.{M}
use jg_backend_challenge_go.Wagering.Service.{Service, SubmitInput, SubmitResult}
use jg_backend_challenge_go.Wagering.Accept
use jg_backend_challenge_go.Wagering.Accept.{
  to_ledger_record, must_minor, active_win_of, free_slot, Context, insert_tx, apply_bet,
  apply_credit, apply_loss, park_reference, apply_win, reverse, credit_back, void, apply_reversal,
  resolve, resolve_found, apply_with_reference, apply_kind, apply_operation,
}
use jg_backend_challenge_go.Books.Frames.{
  Quiet, Quiet-pure, Quiet-fail, Quiet-bind, quiet_rules, quiet_statements, Quiet-insert_tx_row,
  Quiet-emit_processed, Quiet-fresh_id, Quiet-now, Quiet-clear_reversal, Quiet-mark_reversed,
  Quiet-find_by_provider_external,
}
use jg_backend_challenge_go.Books.Keeping.{
  Keeps, Keeps-Quiet, Keeps-after, Keeps-before, Keeps-attempt_or_fail, keeps_rules,
}
use jg_backend_challenge_go.Books.Movers.{
  IsRead, IsMoved, rehydrate-IsRead, credit-IsMoved, debit-IsMoved, Keeps-entry,
}

Quiet-insert_tx :
    (c : Context) (w : Wallet) (state : TransactionState) (code : Text) (b : Option Money)
    (ref : Text)
    → Quiet (insert_tx c w state code b ref)
unfolding insert_tx
Quiet-insert_tx c w state code b ref = Quiet-insert_tx_row _

pub Quiet-must_minor : (minor : ℤ) (currency : Text) → Quiet (must_minor minor currency)
unfolding must_minor
Quiet-must_minor minor currency = search (quiet_rules)

pub Quiet-active_win_of : (target : TxRecord) → Quiet (active_win_of target)
unfolding active_win_of
Quiet-active_win_of target = search (quiet_statements)

pub Quiet-free_slot :
    (k target : TransactionKind) (ref : Option Text) → Quiet (free_slot k target ref)
unfolding free_slot
Quiet-free_slot rollback refund (some bet_id) = Quiet-clear_reversal bet_id
Quiet-free_slot _ _ _ = Quiet-pure tt

module _ (s : Service) (c : Context) where
  Quiet-rejected : (w : Wallet) (code ref : Text) → Quiet (Accept.rejected s c w code ref)
  unfolding Accept.rejected
  Quiet-rejected w code ref = search (quiet_statements, Quiet-insert_tx)

  Quiet-park_reference : (w : Wallet) → Quiet (park_reference s c w)
  unfolding park_reference
  Quiet-park_reference w = search (quiet_statements, Quiet-insert_tx)

  Quiet-apply_loss : (w : Wallet) → Quiet (apply_loss s c w)
  unfolding apply_loss
  Quiet-apply_loss w = search (quiet_statements, Quiet-insert_tx)

module _ (s : Service) (c : Context) (r : WalletRecord) where
  Keeps-processed :
      (w : Wallet) (before after : Money) (ref : Text) (d : LedgerDirection)
      → IsMoved r before after w
      → Keeps r (Accept.processed s c w before after ref d)
  unfolding Accept.processed
  Keeps-processed w before after ref d m =
      search
        (
          Keeps-after, Keeps-attempt_or_fail, Keeps-entry, Quiet-insert_tx, Quiet-fresh_id,
          Quiet-emit_processed, Quiet-bind, Quiet-pure,
        )
        depth 12

  Keeps-bet : (w : Wallet) → IsRead r w → Keeps r (apply_bet s c w)
  unfolding apply_bet
  Keeps-bet w f = search (keeps_rules, quiet_rules, Quiet-rejected, Keeps-processed, debit-IsMoved)

  Keeps-credit : (w : Wallet) (ref : Text) → IsRead r w → Keeps r (apply_credit s c w ref)
  unfolding apply_credit
  Keeps-credit w ref f = search (keeps_rules, quiet_rules, Keeps-processed, credit-IsMoved)

  Keeps-win : (w : Wallet) (target : TxRecord) → IsRead r w → Keeps r (apply_win s c w target)
  unfolding apply_win
  Keeps-win w target f = search (keeps_rules, Quiet-rejected, Keeps-credit)

  Keeps-reverse :
      (w : Wallet) (before after : Money) (d : LedgerDirection) (target : TxRecord)
      → IsMoved r before after w
      → Keeps r (reverse s c w before after d target)
  unfolding reverse
  Keeps-reverse w before after d target m =
      search (Keeps-before, Keeps-processed, quiet_rules, Quiet-mark_reversed, Quiet-free_slot)

  Keeps-credit_back :
      (w : Wallet) (target : TxRecord) → IsRead r w → Keeps r (credit_back s c w target)
  unfolding credit_back
  Keeps-credit_back w target f = search (keeps_rules, quiet_rules, Keeps-reverse, credit-IsMoved)

  Keeps-void : (w : Wallet) (target : TxRecord) → IsRead r w → Keeps r (void s c w target)
  unfolding void
  Keeps-void w target f =
      search (keeps_rules, quiet_rules, Quiet-rejected, Keeps-reverse, debit-IsMoved)

  Keeps-reversal :
      (w : Wallet) (target : TxRecord) → IsRead r w → Keeps r (apply_reversal s c w target)
  unfolding apply_reversal
  Keeps-reversal w target f =
      search
        (
          keeps_rules, Keeps-after, Quiet-rejected, Quiet-must_minor, Quiet-active_win_of,
          Keeps-credit_back, Keeps-void,
        )
        depth 12

  Keeps-resolve :
      (w : Wallet) (apply : TxRecord → M SubmitResult) (state : TransactionState)
      (target : TxRecord)
      → ((t : TxRecord) → Keeps r (apply t))
      → Keeps r (resolve s c w apply state target)
  unfolding resolve
  Keeps-resolve w apply Transaction.pending target h = Keeps-Quiet _ (Quiet-park_reference s c w)
  Keeps-resolve w apply Transaction.pending_reference target h =
      Keeps-Quiet _ (Quiet-park_reference s c w)
  Keeps-resolve w apply Transaction.processed target h = h target
  Keeps-resolve w apply _ target h = Keeps-Quiet _ (Quiet-rejected s c w _ _)

  Keeps-resolve_found :
      (w : Wallet) (apply : TxRecord → M SubmitResult) (o : Option TxRecord)
      → ((t : TxRecord) → Keeps r (apply t))
      → Keeps r (resolve_found s c w apply o)
  Keeps-resolve_found w apply none h = Keeps-Quiet _ (Quiet-park_reference s c w)
  Keeps-resolve_found w apply (some t) h = Keeps-resolve w apply t.state t h

  Keeps-with_reference :
      (w : Wallet) (apply : TxRecord → M SubmitResult)
      → ((t : TxRecord) → Keeps r (apply t))
      → Keeps r (apply_with_reference s c w apply)
  unfolding apply_with_reference
  Keeps-with_reference w apply h =
      search (Keeps-after, Quiet-find_by_provider_external, Keeps-resolve_found)

  Keeps-kind : (w : Wallet) (k : TransactionKind) → IsRead r w → Keeps r (apply_kind s c w k)
  unfolding apply_kind
  Keeps-kind w bet f = Keeps-bet w f
  Keeps-kind w win f = search (keeps_rules, Keeps-credit, Keeps-with_reference, Keeps-win)
  Keeps-kind w loss f = Keeps-Quiet _ (Quiet-apply_loss s c w)
  Keeps-kind w refund f = search (Keeps-with_reference, Keeps-reversal)
  Keeps-kind w rollback f = search (Keeps-with_reference, Keeps-reversal)
  Keeps-kind w _ f = Keeps-Quiet _ (Quiet-fail _)

-- In a transaction in which the row of the wallet is locked, `applyOperation` keeps the books.
pub apply_operation-Keeps :
    (s : Service) (i : SubmitInput) (amount : Money) (hash : Text) (r : WalletRecord)
    → Keeps r (apply_operation s i amount hash r)
unfolding apply_operation
apply_operation-Keeps s i amount hash r =
    search (Keeps-after, keeps_rules, Quiet-fresh_id, Quiet-now, Keeps-kind, rehydrate-IsRead)
