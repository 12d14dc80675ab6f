-- ===== src/Once/Statements.antt =====
-- The statements that leave the view as it is (internal/adapters/postgres,
-- internal/wagering/events.go).
use jg_backend_challenge_go.Prelude.{
  ℕ, ◌≡◌, Bool, true, false, List, ℤ, Text, arith, ok, subst, ap, refl, map, fail_if, ◌>>◌,
}
use jg_backend_challenge_go.Domain.Money.{Money}
use jg_backend_challenge_go.Domain.LedgerEntry.{LedgerDirection}
use jg_backend_challenge_go.Domain.Transaction.{TransactionKind}
use jg_backend_challenge_go.Ports.{
  WalletRecord, LedgerRecord, TxRecord, Json, OutboxRecord, WorkItem, Fault,
}
use jg_backend_challenge_go.Postgres.Db.{Tables}
use jg_backend_challenge_go.Postgres.TxRepo
use jg_backend_challenge_go.Postgres.AuxRepo
use jg_backend_challenge_go.Wagering.Service.{Service, SubmitInput}
use jg_backend_challenge_go.Wagering.Events.{
  stage, balance_event, emit_processed, emit_rejected, emit_pending_ref,
}
use jg_backend_challenge_go.Postgres.Logic.Unconstrained.{written_tables}
use jg_backend_challenge_go.Postgres.WalletRepo
use jg_backend_challenge_go.Postgres.LedgerRepo
use jg_backend_challenge_go.Once.{
  Steady, Steady-bind, Steady-pure, Steady-query, Steady-execute, steady_rules, map-update_where,
  view, owner_of, key_of,
}

guarded_tables : (b : Bool) (e : Fault) (t t' : Tables) → (do fail_if b e; ok t) ≡ ok t' → t ≡ t'
guarded_tables true e t t' h = cc h
guarded_tables false e t t' h = written_tables _ refl h

rows_kept :
    (t t' : Tables) (rows : List TxRecord)
    → map key_of rows ≡ map key_of t.txs
    → record t { txs = rows } ≡ t'
    → view t' ≡ view t
rows_kept t t' rows kept e =
    subst (λ u. view u ≡ view t) e (ap (λ ks. record (view t) { keys = ks }) kept)

wallets_kept :
    (t t' : Tables) (rows : List WalletRecord)
    → map owner_of rows ≡ map owner_of t.wallets
    → record t { wallets = rows } ≡ t'
    → view t' ≡ view t
wallets_kept t t' rows kept e =
    subst (λ u. view u ≡ view t) e (ap (λ os. record (view t) { owners = os }) kept)

pub Steady-update_balance :
    (id : Text) (balance version : ℤ) → Steady (WalletRepo.update_balance id balance version)
unfolding WalletRepo.update_balance WalletRepo.update_balance_row
Steady-update_balance id balance version = Steady-execute _ (λ t t' h.
    wallets_kept t t' _
      (map-update_where owner_of (WalletRepo.has_id id) (WalletRepo.set_balance balance version)
        t.wallets (λ x. refl))
      (guarded_tables _ _ _ t' h))

pub Steady-lock_for_update : (id : Text) → Steady (WalletRepo.lock_for_update id)
unfolding WalletRepo.lock_for_update
Steady-lock_for_update id = Steady-query _

pub Steady-get_work : (id : Text) → Steady (AuxRepo.get_work id)
unfolding AuxRepo.get_work
Steady-get_work id = Steady-query _

pub Steady-append : (e : LedgerRecord) → Steady (LedgerRepo.append e)
unfolding LedgerRepo.append LedgerRepo.append_row
Steady-append e = Steady-execute _ (λ t t' h. ground arith)

Steady-enqueue_outbox : (n : ℕ) (e : OutboxRecord) → Steady (AuxRepo.enqueue_outbox n e)
unfolding AuxRepo.enqueue_outbox
Steady-enqueue_outbox n e = Steady-execute _ (λ t t' h. ground arith)

pub Steady-stage :
    (s : Service) (a b c : Text) (n : ℕ) (v : ℤ) (j : Json) → Steady (stage s a b c n v j)
unfolding stage
Steady-stage s a b c n v j = search (steady_rules, Steady-enqueue_outbox)

Steady-balance_event :
    (b : Bool) (s : Service) (w : Text) (v : ℤ) (tx : Text) (i : SubmitInput) (after before : Money)
    (d : LedgerDirection) (time : ℕ)
    → Steady (balance_event b s w v tx i after before d time)
Steady-balance_event true s w v tx i after before d time = Steady-pure tt
Steady-balance_event false s w v tx i after before d time = Steady-stage s _ _ _ _ _ _

pub Steady-emit_processed :
    (s : Service) (w : Text) (v : ℤ) (tx : Text) (i : SubmitInput) (after before : Money)
    (d : LedgerDirection)
    → Steady (emit_processed s w v tx i after before d)
unfolding emit_processed
Steady-emit_processed s w v tx i after before d =
    search (steady_rules, Steady-stage, Steady-balance_event)

pub Steady-emit_rejected :
    (s : Service) (w : Text) (v : ℤ) (tx : Text) (i : SubmitInput) (balance : Money) (code : Text)
    → Steady (emit_rejected s w v tx i balance code)
unfolding emit_rejected
Steady-emit_rejected s w v tx i balance code = search (steady_rules, Steady-stage)

pub Steady-emit_pending_ref :
    (s : Service) (w : Text) (v : ℤ) (tx : Text) (i : SubmitInput)
    → Steady (emit_pending_ref s w v tx i)
unfolding emit_pending_ref
Steady-emit_pending_ref s w v tx i = search (steady_rules, Steady-stage)

pub Steady-update_state : (r : TxRecord) → Steady (TxRepo.update_state r)
unfolding TxRepo.update_state TxRepo.update_state_row
Steady-update_state r = Steady-execute _ (λ t t' h.
    rows_kept t t' _
      (map-update_where key_of (TxRepo.has_id r.id) (TxRepo.outcome_of r) t.txs (λ x. refl))
      (guarded_tables _ _ _ t' h))

pub Steady-mark_reversed :
    (target : Text) (k : TransactionKind) (by : Text) → Steady (TxRepo.mark_reversed target k by)
unfolding TxRepo.mark_reversed TxRepo.mark_reversed_row
Steady-mark_reversed target k by = Steady-execute _ (λ t t' h.
    rows_kept t t' _
      (map-update_where key_of (TxRepo.has_id target) (TxRepo.reversed_by k by) t.txs (λ x. refl))
      (guarded_tables _ _ _ t' h))

pub Steady-clear_reversal : (target : Text) → Steady (TxRepo.clear_reversal target)
unfolding TxRepo.clear_reversal TxRepo.clear_reversal_row
Steady-clear_reversal target = Steady-execute _ (λ t t' h.
    rows_kept t t' _
      (map-update_where key_of (TxRepo.has_id target) TxRepo.unreversed t.txs (λ x. refl))
      (written_tables _ refl h))

pub Steady-has_active_win : (bet : Text) → Steady (TxRepo.has_active_win bet)
unfolding TxRepo.has_active_win
Steady-has_active_win bet = Steady-query _

pub Steady-get_tx : (id : Text) → Steady (TxRepo.get id)
unfolding TxRepo.get
Steady-get_tx id = Steady-query _

pub Steady-find_by_provider_key : (p k : Text) → Steady (TxRepo.find_by_provider_key p k)
unfolding TxRepo.find_by_provider_key
Steady-find_by_provider_key p k = Steady-query _

pub Steady-find_by_provider_external : (p e : Text) → Steady (TxRepo.find_by_provider_external p e)
unfolding TxRepo.find_by_provider_external
Steady-find_by_provider_external p e = Steady-query _

pub Steady-find_dependents : (p e : Text) → Steady (TxRepo.find_dependents p e)
unfolding TxRepo.find_dependents
Steady-find_dependents p e = Steady-query _

pub Steady-complete_inbox : (c m : Text) → Steady (AuxRepo.complete_inbox c m)
unfolding AuxRepo.complete_inbox
Steady-complete_inbox c m = Steady-execute _ (λ t t' e. ground arith)

pub Steady-insert_inbox : (c m h : Text) → Steady (AuxRepo.insert_inbox c m h)
unfolding AuxRepo.insert_inbox
Steady-insert_inbox c m h = Steady-execute _ (λ t t' e. ground arith)

pub Steady-enqueue_work : (n : ℕ) (i : WorkItem) → Steady (AuxRepo.enqueue_work n i)
unfolding AuxRepo.enqueue_work
Steady-enqueue_work n i = Steady-execute _ (λ t t' e. ground arith)

pub Steady-touch_work :
    (id : Text) (a b n : ℕ) (clear : Bool) → Steady (AuxRepo.touch_work id a b n clear)
unfolding AuxRepo.touch_work
Steady-touch_work id a b n clear = Steady-execute _ (λ t t' e. ground arith)

pub Steady-delete_work : (id : Text) → Steady (AuxRepo.delete_work id)
unfolding AuxRepo.delete_work
Steady-delete_work id = Steady-execute _ (λ t t' e. ground arith)

pub ruleset steady_statements = (
  steady_rules, Steady-emit_processed, Steady-emit_rejected, Steady-emit_pending_ref,
  Steady-update_state, Steady-mark_reversed, Steady-clear_reversal, Steady-has_active_win,
  Steady-get_tx, Steady-find_by_provider_key, Steady-find_by_provider_external,
  Steady-find_dependents, Steady-complete_inbox, Steady-insert_inbox, Steady-enqueue_work,
  Steady-touch_work, Steady-delete_work, Steady-update_balance, Steady-append, Steady-get_work,
  Steady-lock_for_update,
)
