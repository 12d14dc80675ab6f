-- ===== src/Books/Resuming.antt =====
-- The resumption of parked transactions and the books (internal/wagering/work.go).
use jg_backend_challenge_go.Prelude.{
  ℕ, Bool, false, List, [], ◌∷◌, Text, Option, none, some, Result, ok, err, if◌then◌else◌,
}
use jg_backend_challenge_go.Domain.Money.{Money}
use jg_backend_challenge_go.Domain.Wallet.{Wallet}
use jg_backend_challenge_go.Domain.Transaction.{TransactionKind, TransactionState}
use jg_backend_challenge_go.Domain.Transaction
use jg_backend_challenge_go.Domain.LedgerEntry.{LedgerDirection}
use jg_backend_challenge_go.Ports.{WalletRecord, TxRecord, WorkItem, Failure, wallet_vanished}
use jg_backend_challenge_go.Postgres.Db.{Tables, World, WorkRow, M, pure, ◌>>◌, ignore}
use jg_backend_challenge_go.Postgres.Logic.{Ends, AtRest}
use jg_backend_challenge_go.Postgres.AuxRepo.{get_work}
use jg_backend_challenge_go.Wagering.Service.{Service, SubmitInput}
use jg_backend_challenge_go.Wagering.Work.{
  work_or_none, work_created_at, work_ref_attempts, settle_processed_existing,
  settle_rejected_existing, wait_again, reject_existing, reverse_existing, credit_existing,
  void_existing, resume_win, resume_reversal, resume_apply, resume_missing, resume_found,
  resume_target, resume_in_wallet, resume_locked, resume_one, is_parked, resume_each,
  reevaluate_dependents, fail_row, note_infra, or_note, work_on, process_work_item,
}
use jg_backend_challenge_go.Books.{Books}
use jg_backend_challenge_go.Books.Frames.{
  Frame, Quiet, quiet_rules, quiet_statements, Quiet-query, Quiet-pure, Quiet-fail, Quiet-bind,
  Quiet-fresh_id, Quiet-now, Quiet-update_state, Quiet-mark_reversed, Quiet-delete_work,
  Quiet-emit_processed, Quiet-find_by_provider_external, Quiet-find_dependents, Quiet-get_tx,
}
use jg_backend_challenge_go.Books.Keeping.{
  Keeps, Keeps-Quiet, Keeps-after, Keeps-before, Keeps-attempt_or_fail, keeps_rules,
}
use jg_backend_challenge_go.Books.Movers.{
  IsRead, IsMoved, rehydrate-IsRead, credit-IsMoved, debit-IsMoved, Keeps-entry,
}
use jg_backend_challenge_go.Books.Preserving.{
  Preserves, Preserves-Quiet, Preserves-bind, Preserves-lock, Preserves-if, Preserves-ignore,
  preserves_rules, transact-AtRest,
}
use jg_backend_challenge_go.Books.Accepting.{Quiet-must_minor, Quiet-active_win_of, Quiet-free_slot}

Quiet-get_work : (id : Text) → Quiet (get_work id)
unfolding get_work
Quiet-get_work id = Quiet-query _

read_ends :
    (Q : Tables → Type 0) (r : Result Failure (Option WorkRow) × World)
    → Ends {A = Option WorkRow} (λ _. Q) Q r
    → Ends {A = Option WorkRow}
        (λ _. Q)
        Q
        (elim r.0 [ ok row ↦ (ok row, r.1) | err e ↦ (ok none, r.1) ])
read_ends Q (ok row, w) h = h
read_ends Q (err e, w) h = h

Quiet-work_or_none : (id : Text) → Quiet (work_or_none id)
unfolding work_or_none
Quiet-work_or_none id = record {
  run = λ Q. record {
    run = λ w h. read_ends (Frame Q) (get_work id w) (((Quiet-get_work id).run Q).run w h);
  };
}

Quiet-work_created_at : (id : Text) → Quiet (work_created_at id)
unfolding work_created_at
Quiet-work_created_at id = search (quiet_rules, Quiet-work_or_none)

Quiet-work_ref_attempts : (id : Text) → Quiet (work_ref_attempts id)
unfolding work_ref_attempts
Quiet-work_ref_attempts id = search (quiet_rules, Quiet-work_or_none)

module _ (s : Service) where
  Quiet-settle_rejected :
      (w : Wallet) (tx : TxRecord) (i : SubmitInput) (ref code : Text)
      → Quiet (settle_rejected_existing s w tx i ref code)
  unfolding settle_rejected_existing
  Quiet-settle_rejected w tx i ref code = search (quiet_statements)

  Quiet-reject :
      (w : Wallet) (tx : TxRecord) (i : SubmitInput) (ref code : Text)
      → Quiet (reject_existing s w tx i ref code)
  Quiet-reject w tx i ref code = search (quiet_rules, Quiet-settle_rejected)

  Quiet-wait_again : (tx : TxRecord) (time : ℕ) → Quiet (wait_again s tx time)
  unfolding wait_again
  Quiet-wait_again tx time = search (quiet_statements, Quiet-work_ref_attempts)

  Quiet-resume_missing :
      (w : Wallet) (tx : TxRecord) (i : SubmitInput) (time : ℕ)
      → Quiet (resume_missing s w tx i time)
  unfolding resume_missing
  Quiet-resume_missing w tx i time =
      search (
        quiet_rules, Quiet-work_created_at, Quiet-work_ref_attempts, Quiet-reject, Quiet-wait_again,
      )

  Quiet-fail_row : (o : Option TxRecord) → Quiet (fail_row s o)
  Quiet-fail_row none = Quiet-pure tt
  Quiet-fail_row (some tx) = Quiet-update_state _

  Quiet-note_infra : (item : WorkItem) → Quiet (note_infra s item)
  unfolding note_infra
  Quiet-note_infra item = search (quiet_statements, Quiet-fail_row)

module _ (s : Service) (r : WalletRecord) where
  Keeps-settle :
      (w : Wallet) (tx : TxRecord) (i : SubmitInput) (ref : Text) (d : LedgerDirection)
      (before after : Money)
      → IsMoved r before after w
      → Keeps r (settle_processed_existing s w tx i ref d before after)
  unfolding settle_processed_existing
  Keeps-settle w tx i ref d before after m =
      search
        (
          Keeps-after, Keeps-attempt_or_fail, Keeps-entry, Quiet-update_state, Quiet-fresh_id,
          Quiet-emit_processed, Quiet-bind, Quiet-delete_work,
        )
        depth 12

  Keeps-reverse_existing :
      (w : Wallet) (tx : TxRecord) (i : SubmitInput) (target : TxRecord) (d : LedgerDirection)
      (before after : Money)
      → IsMoved r before after w
      → Keeps r (reverse_existing s w tx i target d before after)
  unfolding reverse_existing
  Keeps-reverse_existing w tx i target d before after m =
      search (Keeps-before, Keeps-settle, quiet_rules, Quiet-mark_reversed, Quiet-free_slot)

  Keeps-credit_existing :
      (w : Wallet) (tx : TxRecord) (i : SubmitInput) (amount : Money) (target : TxRecord)
      → IsRead r w
      → Keeps r (credit_existing s w tx i amount target)
  unfolding credit_existing
  Keeps-credit_existing w tx i amount target f =
      search (keeps_rules, quiet_rules, Keeps-reverse_existing, credit-IsMoved)

  Keeps-void_existing :
      (w : Wallet) (tx : TxRecord) (i : SubmitInput) (amount : Money) (target : TxRecord)
      → IsRead r w
      → Keeps r (void_existing s w tx i amount target)
  unfolding void_existing
  Keeps-void_existing w tx i amount target f =
      search (keeps_rules, quiet_rules, Quiet-reject, Keeps-reverse_existing, debit-IsMoved)

  Keeps-resume_win :
      (w : Wallet) (tx : TxRecord) (i : SubmitInput) (amount : Money) (target : TxRecord)
      → IsRead r w
      → Keeps r (resume_win s w tx i amount target)
  unfolding resume_win
  Keeps-resume_win w tx i amount target f =
      search (keeps_rules, Keeps-before, quiet_rules, Quiet-reject, Keeps-settle, credit-IsMoved)
        depth 8

  Keeps-resume_reversal :
      (w : Wallet) (tx : TxRecord) (i : SubmitInput) (amount : Money) (target : TxRecord)
      → IsRead r w
      → Keeps r (resume_reversal s w tx i amount target)
  unfolding resume_reversal
  Keeps-resume_reversal w tx i amount target f =
      search
        (
          keeps_rules, Keeps-after, Quiet-reject, Quiet-must_minor, Quiet-active_win_of,
          Keeps-credit_existing, Keeps-void_existing,
        )
        depth 12

  Keeps-resume_found :
      (w : Wallet) (tx : TxRecord) (i : SubmitInput) (amount : Money) (time : ℕ)
      (state : TransactionState) (target : TxRecord)
      → IsRead r w
      → Keeps r (resume_found s w tx i amount time state target)
  unfolding resume_found resume_apply
  Keeps-resume_found w tx i amount time Transaction.pending target f =
      Keeps-Quiet _ (Quiet-wait_again s tx time)
  Keeps-resume_found w tx i amount time Transaction.pending_reference target f =
      Keeps-Quiet _ (Quiet-wait_again s tx time)
  Keeps-resume_found w tx i amount time Transaction.processed target f =
      search (keeps_rules, Keeps-resume_win, Keeps-resume_reversal)
  Keeps-resume_found w tx i amount time _ target f = Keeps-Quiet _ (Quiet-reject s w tx i _ _)

  Keeps-resume_target :
      (w : Wallet) (tx : TxRecord) (i : SubmitInput) (amount : Money) (time : ℕ)
      (o : Option TxRecord)
      → IsRead r w
      → Keeps r (resume_target s w tx i amount time o)
  Keeps-resume_target w tx i amount time none f = Keeps-Quiet _ (Quiet-resume_missing s w tx i time)
  Keeps-resume_target w tx i amount time (some t) f =
      Keeps-resume_found w tx i amount time t.state t f

  Keeps-resume_in_wallet : (tx : TxRecord) (time : ℕ) → Keeps r (resume_in_wallet s tx time r)
  unfolding resume_in_wallet
  Keeps-resume_in_wallet tx time =
      search
        (
          Keeps-attempt_or_fail, Keeps-after, Quiet-find_by_provider_external, Keeps-resume_target,
          rehydrate-IsRead,
        )
        depth 8

module _ (s : Service) where
  resume_one-Preserves : (tx : TxRecord) → Preserves (resume_one s tx)
  unfolding resume_one
  resume_one-Preserves tx = Preserves-bind _ _ (Preserves-Quiet _ (Quiet-now s)) (λ time.
      Preserves-lock tx.wallet_id (resume_locked s tx time)
        (Preserves-Quiet _ (Quiet-fail wallet_vanished)) (λ r. Keeps-resume_in_wallet s r tx time))

  resume_each-Preserves : (txs : List TxRecord) → Preserves (resume_each s txs)
  unfolding resume_each
  resume_each-Preserves [] = Preserves-Quiet _ (Quiet-pure tt)
  resume_each-Preserves (d ∷ ds) =
      Preserves-bind (if is_parked s d.state then ignore (resume_one s d) else pure tt) _
        (Preserves-if (is_parked s d.state) _ _ (Preserves-ignore _ (resume_one-Preserves d))
          (Preserves-Quiet _ (Quiet-pure tt)))
        (λ _. resume_each-Preserves ds)

  -- The re-evaluation of the transactions that wait for one keeps the books.
  pub reevaluate_dependents-AtRest :
      (provider external : Text) (w : World)
      → AtRest (Frame Books) w
      → AtRest (Frame Books) (reevaluate_dependents s provider external w).1
  unfolding reevaluate_dependents
  reevaluate_dependents-AtRest provider external w h =
      transact-AtRest _ w
        (Preserves-bind _ _ (Preserves-Quiet _ (Quiet-find_dependents provider external))
          resume_each-Preserves)
        h

  noted_ends :
      {A : Type 0} (item : WorkItem) (k : A → M Bool) (r : Result Failure A × World)
      → ((a : A) → Preserves (k a))
      → Ends {A = A} (λ _. Frame Books) (Frame Books) r
      → Ends {A = Bool}
          (λ _. Frame Books)
          (Frame Books)
          (elim r.0 [ ok a ↦ k a r.1 | err e ↦ (note_infra s item >> pure false) r.1 ])
  noted_ends item k (ok a, w) g h = (g a).run.run w h
  noted_ends item k (err e, w) g h =
      ((Quiet-bind _ _ (Quiet-note_infra s item) (λ _. Quiet-pure false)).run Books).run w h

  or_note-Preserves :
      {A : Type 0} (item : WorkItem) (m : M A) (k : A → M Bool)
      → Preserves m
      → ((a : A) → Preserves (k a))
      → Preserves (or_note s item m k)
  or_note-Preserves item m k f g = record {
    run = record { run = λ w h. noted_ends item k (m w) g (f.run.run w h) };
  }

  work_on-Preserves : (item : WorkItem) (o : Option TxRecord) → Preserves (work_on s item o)
  work_on-Preserves item none =
      search (Preserves-bind, preserves_rules, Quiet-pure, Quiet-delete_work)
  work_on-Preserves item (some tx) = search (
    Preserves-bind, preserves_rules, Quiet-pure, Quiet-delete_work, or_note-Preserves,
    resume_one-Preserves,
  )

  -- The work on one item keeps the books, whatever fails in it.
  pub process_work_item-AtRest :
      (item : WorkItem) (w : World)
      → AtRest (Frame Books) w
      → AtRest (Frame Books) (process_work_item s item w).1
  unfolding process_work_item
  process_work_item-AtRest item w h =
      transact-AtRest _ w
        (or_note-Preserves item _ _ (Preserves-Quiet _ (Quiet-get_tx item.transaction_id))
          (work_on-Preserves item))
        h
