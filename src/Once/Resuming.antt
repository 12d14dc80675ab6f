-- ===== src/Once/Resuming.antt =====
-- The resumption of parked transactions and the view (internal/wagering/work.go).
use jg_backend_challenge_go.Prelude.{ℕ, List, [], ◌∷◌, Text, Option, none, some, Result, ok, err, ℤ}
use jg_backend_challenge_go.Domain.Money.{Money}
use jg_backend_challenge_go.Domain.Wallet.{Wallet}
use jg_backend_challenge_go.Domain.Transaction.{
  TransactionKind, TransactionState, bet, win, loss, refund, rollback, opening, other,
}
use jg_backend_challenge_go.Domain.Transaction
use jg_backend_challenge_go.Domain.LedgerEntry.{LedgerDirection}
use jg_backend_challenge_go.Ports.{WalletRecord, TxRecord, Failure}
use jg_backend_challenge_go.Postgres.Db.{Tables, World, WorkRow}
use jg_backend_challenge_go.Postgres.Logic.{Ends}
use jg_backend_challenge_go.Postgres.AuxRepo.{get_work}
use jg_backend_challenge_go.Wagering.Service.{Service, SubmitInput}
use jg_backend_challenge_go.Wagering.Work.{
  work_or_none, work_created_at, work_ref_attempts, settle_processed_existing,
  settle_rejected_existing, wait_again, reject_existing, reverse_existing, credit_existing,
  void_existing, resume_win, resume_reversal, resume_apply, resume_missing, resume_found,
  resume_target, resume_in_wallet, resume_locked, resume_one, is_parked, resume_each,
  reevaluate_dependents,
}
use jg_backend_challenge_go.Wagering.Accept.{must_minor, active_win_of, free_slot}
use jg_backend_challenge_go.Wagering.Settled.{Settled, Settled-transact}
use jg_backend_challenge_go.Once.{
  View, Seen, Steady, Steady-bind, Steady-pure, Steady-fail, Steady-if, Steady-ignore, steady_rules,
}
use jg_backend_challenge_go.Once.Statements.{
  steady_statements, Steady-get_work, Steady-find_dependents, Steady-find_by_provider_external,
  Steady-clear_reversal,
}

pub Steady-must_minor : (minor : ℤ) (currency : Text) → Steady (must_minor minor currency)
unfolding must_minor
Steady-must_minor minor currency = search (steady_rules)

pub Steady-active_win_of : (target : TxRecord) → Steady (active_win_of target)
unfolding active_win_of
Steady-active_win_of target = search (steady_statements)

pub Steady-free_slot :
    (k target : TransactionKind) (ref : Option Text) → Steady (free_slot k target ref)
unfolding free_slot
Steady-free_slot rollback refund (some bet_id) = Steady-clear_reversal bet_id
Steady-free_slot _ _ _ = Steady-pure tt

read_ends :
    (Q : Tables → Type 0) (r : Result Failure (Option WorkRow) × World)
    → Ends {A = Option WorkRow} (λ _. Q) Q r
    → Ends {A = Option WorkRow}
        (λ _. Q)
        Q
        (elim r.0 [ ok row ↦ (ok row, r.1) | err e ↦ (ok none, r.1) ])
read_ends Q (ok row, w) h = h
read_ends Q (err e, w) h = h

Steady-work_or_none : (id : Text) → Steady (work_or_none id)
unfolding work_or_none
Steady-work_or_none id = record {
  run = λ Q. record {
    run = λ w h. read_ends (Seen Q) (get_work id w) (((Steady-get_work id).run Q).run w h);
  };
}

Steady-work_created_at : (id : Text) → Steady (work_created_at id)
unfolding work_created_at
Steady-work_created_at id = search (steady_rules, Steady-work_or_none)

Steady-work_ref_attempts : (id : Text) → Steady (work_ref_attempts id)
unfolding work_ref_attempts
Steady-work_ref_attempts id = search (steady_rules, Steady-work_or_none)

module _ (s : Service) where
  Steady-settle_rejected :
      (w : Wallet) (tx : TxRecord) (i : SubmitInput) (ref code : Text)
      → Steady (settle_rejected_existing s w tx i ref code)
  unfolding settle_rejected_existing
  Steady-settle_rejected w tx i ref code = search (steady_statements)

  Steady-reject :
      (w : Wallet) (tx : TxRecord) (i : SubmitInput) (ref code : Text)
      → Steady (reject_existing s w tx i ref code)
  Steady-reject w tx i ref code = search (steady_rules, Steady-settle_rejected)

  Steady-wait_again : (tx : TxRecord) (time : ℕ) → Steady (wait_again s tx time)
  unfolding wait_again
  Steady-wait_again tx time = search (steady_statements, Steady-work_ref_attempts)

  Steady-resume_missing :
      (w : Wallet) (tx : TxRecord) (i : SubmitInput) (time : ℕ)
      → Steady (resume_missing s w tx i time)
  unfolding resume_missing
  Steady-resume_missing w tx i time = search (
    steady_rules, Steady-work_created_at, Steady-work_ref_attempts, Steady-reject,
    Steady-wait_again,
  )

  Steady-settle :
      (w : Wallet) (tx : TxRecord) (i : SubmitInput) (ref : Text) (d : LedgerDirection)
      (before after : Money)
      → Steady (settle_processed_existing s w tx i ref d before after)
  unfolding settle_processed_existing
  Steady-settle w tx i ref d before after = search (steady_statements) depth 16

  Steady-reverse_existing :
      (w : Wallet) (tx : TxRecord) (i : SubmitInput) (target : TxRecord) (d : LedgerDirection)
      (before after : Money)
      → Steady (reverse_existing s w tx i target d before after)
  unfolding reverse_existing
  Steady-reverse_existing w tx i target d before after =
      search (steady_statements, Steady-settle, Steady-free_slot)

  Steady-credit_existing :
      (w : Wallet) (tx : TxRecord) (i : SubmitInput) (amount : Money) (target : TxRecord)
      → Steady (credit_existing s w tx i amount target)
  unfolding credit_existing
  Steady-credit_existing w tx i amount target = search (steady_rules, Steady-reverse_existing)

  Steady-void_existing :
      (w : Wallet) (tx : TxRecord) (i : SubmitInput) (amount : Money) (target : TxRecord)
      → Steady (void_existing s w tx i amount target)
  unfolding void_existing
  Steady-void_existing w tx i amount target =
      search (steady_rules, Steady-reject, Steady-reverse_existing)

  Steady-resume_win :
      (w : Wallet) (tx : TxRecord) (i : SubmitInput) (amount : Money) (target : TxRecord)
      → Steady (resume_win s w tx i amount target)
  unfolding resume_win
  Steady-resume_win w tx i amount target =
      search (steady_rules, Steady-reject, Steady-settle) depth 8

  Steady-resume_reversal :
      (w : Wallet) (tx : TxRecord) (i : SubmitInput) (amount : Money) (target : TxRecord)
      → Steady (resume_reversal s w tx i amount target)
  unfolding resume_reversal
  Steady-resume_reversal w tx i amount target =
      search
        (
          steady_rules, Steady-reject, Steady-must_minor, Steady-active_win_of,
          Steady-credit_existing, Steady-void_existing,
        )
        depth 12

  Steady-resume_found :
      (w : Wallet) (tx : TxRecord) (i : SubmitInput) (amount : Money) (time : ℕ)
      (state : TransactionState) (target : TxRecord)
      → Steady (resume_found s w tx i amount time state target)
  unfolding resume_found resume_apply
  Steady-resume_found w tx i amount time Transaction.pending target = Steady-wait_again tx time
  Steady-resume_found w tx i amount time Transaction.pending_reference target =
      Steady-wait_again tx time
  Steady-resume_found w tx i amount time Transaction.processed target =
      search (steady_rules, Steady-resume_win, Steady-resume_reversal)
  Steady-resume_found w tx i amount time _ target = Steady-reject w tx i _ _

  Steady-resume_target :
      (w : Wallet) (tx : TxRecord) (i : SubmitInput) (amount : Money) (time : ℕ)
      (o : Option TxRecord)
      → Steady (resume_target s w tx i amount time o)
  Steady-resume_target w tx i amount time none = Steady-resume_missing w tx i time
  Steady-resume_target w tx i amount time (some t) =
      Steady-resume_found w tx i amount time t.state t

  Steady-resume_locked :
      (tx : TxRecord) (time : ℕ) (o : Option WalletRecord) → Steady (resume_locked s tx time o)
  unfolding resume_in_wallet
  Steady-resume_locked tx time none = Steady-fail _
  Steady-resume_locked tx time (some r) =
      search (steady_rules, Steady-find_by_provider_external, Steady-resume_target) depth 8

  Steady-resume_one : (tx : TxRecord) → Steady (resume_one s tx)
  unfolding resume_one
  Steady-resume_one tx = search (steady_statements, Steady-resume_locked)

  Steady-resume_each : (ds : List TxRecord) → Steady (resume_each s ds)
  unfolding resume_each
  Steady-resume_each [] = Steady-pure tt
  Steady-resume_each (d ∷ ds) =
      Steady-bind _ _
        (Steady-if (is_parked s d.state) _ _ (Steady-ignore _ (Steady-resume_one d))
          (Steady-pure tt))
        (λ _. Steady-resume_each ds)

  -- Whatever the re-evaluation does, it leaves the view as it is.
  pub reevaluate_dependents-Settled :
      (Q : View → Type 0) (provider external : Text)
      → Settled (Seen Q) (reevaluate_dependents s provider external)
  unfolding reevaluate_dependents
  reevaluate_dependents-Settled Q provider external =
      Settled-transact _
        ((Steady-bind _ _ (Steady-find_dependents provider external) Steady-resume_each).run Q)
