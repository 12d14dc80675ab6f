-- ===== src/Once/Accepting.antt =====
-- `applyOperation` and the key of its operation (internal/wagering/accept.go).
use jg_backend_challenge_go.Prelude.{Text, Option, none, some}
use jg_backend_challenge_go.Domain.Money.{Money}
use jg_backend_challenge_go.Domain.Wallet.{Wallet}
use jg_backend_challenge_go.Domain.Transaction.{
  TransactionKind, bet, win, loss, refund, rollback, opening, other, TransactionState,
}
use jg_backend_challenge_go.Domain.Transaction
use jg_backend_challenge_go.Domain.LedgerEntry.{LedgerDirection}
use jg_backend_challenge_go.Ports.{TxRecord}
use jg_backend_challenge_go.Postgres.Db.{M}
use jg_backend_challenge_go.Wagering.Service.{Service, SubmitResult}
use jg_backend_challenge_go.Wagering.Accept
use jg_backend_challenge_go.Wagering.Accept.{
  Context, tx_record, insert_tx, apply_bet, apply_credit, apply_loss, park_reference, apply_win,
  reverse, credit_back, void, apply_reversal, resolve, resolve_found, apply_with_reference,
  apply_kind, settled,
}
use jg_backend_challenge_go.Once.Adding.{
  Adds, Adds-after, Adds-fail, Adds-then, Adds-insert, answer_rules, adds_rules,
}
use jg_backend_challenge_go.Once.Statements.{steady_statements, Steady-find_by_provider_external}
use jg_backend_challenge_go.Once.Resuming.{
  Steady-must_minor, Steady-active_win_of, Steady-free_slot,
}

module _ (s : Service) (c : Context) where
  Adds-processed :
      (w : Wallet) (before after : Money) (ref : Text) (d : LedgerDirection)
      → Adds c (Accept.processed s c w before after ref d)
  unfolding Accept.processed settled
  Adds-processed w before after ref d = search (adds_rules, Adds-insert, answer_rules) depth 16

  Adds-rejected : (w : Wallet) (code ref : Text) → Adds c (Accept.rejected s c w code ref)
  unfolding Accept.rejected settled
  Adds-rejected w code ref = search (Adds-insert, answer_rules) depth 12

  Adds-park_reference : (w : Wallet) → Adds c (park_reference s c w)
  unfolding park_reference
  Adds-park_reference w = search (Adds-insert, answer_rules) depth 12

  Adds-apply_loss : (w : Wallet) → Adds c (apply_loss s c w)
  unfolding apply_loss settled
  Adds-apply_loss w = search (Adds-insert, answer_rules) depth 12

  Adds-bet : (w : Wallet) → Adds c (apply_bet s c w)
  unfolding apply_bet
  Adds-bet w = search (adds_rules, Adds-rejected, Adds-processed)

  Adds-credit : (w : Wallet) (ref : Text) → Adds c (apply_credit s c w ref)
  unfolding apply_credit
  Adds-credit w ref = search (adds_rules, Adds-processed)

  Adds-win : (w : Wallet) (target : TxRecord) → Adds c (apply_win s c w target)
  unfolding apply_win
  Adds-win w target = search (adds_rules, Adds-rejected, Adds-credit)

  Adds-reverse :
      (w : Wallet) (before after : Money) (d : LedgerDirection) (target : TxRecord)
      → Adds c (reverse s c w before after d target)
  unfolding reverse
  Adds-reverse w before after d target =
      search (Adds-then, Adds-processed, steady_statements, Steady-free_slot)

  Adds-credit_back : (w : Wallet) (target : TxRecord) → Adds c (credit_back s c w target)
  unfolding credit_back
  Adds-credit_back w target = search (adds_rules, Adds-reverse)

  Adds-void : (w : Wallet) (target : TxRecord) → Adds c (void s c w target)
  unfolding void
  Adds-void w target = search (adds_rules, Adds-rejected, Adds-reverse)

  Adds-reversal : (w : Wallet) (target : TxRecord) → Adds c (apply_reversal s c w target)
  unfolding apply_reversal
  Adds-reversal w target =
      search
        (
          adds_rules, Adds-rejected, Steady-must_minor, Steady-active_win_of, Adds-credit_back,
          Adds-void,
        )
        depth 12

  Adds-resolve :
      (w : Wallet) (apply : TxRecord → M SubmitResult) (state : TransactionState)
      (target : TxRecord)
      → ((t : TxRecord) → Adds c (apply t))
      → Adds c (resolve s c w apply state target)
  unfolding resolve
  Adds-resolve w apply Transaction.pending target h = Adds-park_reference w
  Adds-resolve w apply Transaction.pending_reference target h = Adds-park_reference w
  Adds-resolve w apply Transaction.processed target h = h target
  Adds-resolve w apply _ target h = Adds-rejected w _ _

  Adds-resolve_found :
      (w : Wallet) (apply : TxRecord → M SubmitResult) (o : Option TxRecord)
      → ((t : TxRecord) → Adds c (apply t))
      → Adds c (resolve_found s c w apply o)
  Adds-resolve_found w apply none h = Adds-park_reference w
  Adds-resolve_found w apply (some t) h = Adds-resolve w apply t.state t h

  Adds-with_reference :
      (w : Wallet) (apply : TxRecord → M SubmitResult)
      → ((t : TxRecord) → Adds c (apply t))
      → Adds c (apply_with_reference s c w apply)
  unfolding apply_with_reference
  Adds-with_reference w apply h =
      search (Adds-after, Steady-find_by_provider_external, Adds-resolve_found)

  pub Adds-kind : (w : Wallet) (k : TransactionKind) → Adds c (apply_kind s c w k)
  unfolding apply_kind
  Adds-kind w bet = Adds-bet w
  Adds-kind w win = search (adds_rules, Adds-credit, Adds-with_reference, Adds-win)
  Adds-kind w loss = Adds-apply_loss w
  Adds-kind w refund = search (Adds-with_reference, Adds-reversal)
  Adds-kind w rollback = search (Adds-with_reference, Adds-reversal)
  Adds-kind w _ = Adds-fail _ _
