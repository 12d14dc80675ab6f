-- ===== src/Http/Reading.antt =====
-- What the handlers only read (internal/adapters/http/handler.go).
use jg_backend_challenge_go.Prelude.{
  ℤ, refl, Option, none, some, List, [], ◌∷◌, Text, Result, ok, err,
}
use jg_backend_challenge_go.Domain.Errors.{Code}
use jg_backend_challenge_go.Domain.LedgerEntry.{LedgerDirection, debit, credit, other}
use jg_backend_challenge_go.Domain.Money.{Money}
use jg_backend_challenge_go.Ports.{WalletRecord, LedgerRecord, Failure}
use jg_backend_challenge_go.Postgres.Db.{lift}
use jg_backend_challenge_go.Postgres.Atomic.{
  Reads, Reads-pure, Reads-fail, Reads-bind, Reads-query, Reads-transact,
}
use jg_backend_challenge_go.Postgres.WalletRepo as WalletRepo
use jg_backend_challenge_go.Postgres.LedgerRepo as LedgerRepo
use jg_backend_challenge_go.Postgres.TxRepo as TxRepo
use jg_backend_challenge_go.Wagering.Service.{attempt_or_fail}
use jg_backend_challenge_go.Wagering.Reconcile as Reconcile
use jg_backend_challenge_go.Wagering.Reconcile.{
  apply_entry, recalculate, reconcile_entries, reconcile_found,
}
use jg_backend_challenge_go.Wagering.Pages as Pages
use jg_backend_challenge_go.Wagering.Pages.{Base64, decode_cursor}

pub Reads-get_wallet : (id : Text) → Reads (WalletRepo.get id)
unfolding WalletRepo.get
Reads-get_wallet id = Reads-query _

pub Reads-lift : {A : Type 0} (r : Result Failure A) → Reads (lift r)
Reads-lift r = record { run = λ w. refl }

pub Reads-page_ledger :
    (b : Base64) (id cursor : Text) (limit : ℤ) → Reads (Pages.page_ledger b id cursor limit)
unfolding Pages.page_ledger LedgerRepo.page
Reads-page_ledger b id cursor limit = search (Reads-bind, Reads-lift, Reads-query, Reads-pure)

pub Reads-attempt_or_fail : {A : Type 0} (r : Result Code A) → Reads (attempt_or_fail r)
Reads-attempt_or_fail (ok a) = Reads-pure a
Reads-attempt_or_fail (err e) = Reads-fail _

pub Reads-apply_entry : (d : LedgerDirection) (a m : Money) → Reads (apply_entry d a m)
unfolding apply_entry
Reads-apply_entry credit a m = Reads-attempt_or_fail _
Reads-apply_entry debit a m = Reads-attempt_or_fail _
Reads-apply_entry (other d) a m = Reads-fail _

pub Reads-recalculate : (m : Money) (es : List LedgerRecord) → Reads (recalculate m es)
unfolding recalculate
Reads-recalculate m [] = Reads-pure m
Reads-recalculate m (e ∷ es) =
    Reads-bind _ _ (Reads-attempt_or_fail _)
      (λ x. Reads-bind _ _ (Reads-apply_entry e.direction m x) (λ y. Reads-recalculate y es))

pub Reads-reconcile_entries :
    (id : Text) (rec : WalletRecord) (es : List LedgerRecord) → Reads (reconcile_entries id rec es)
unfolding reconcile_entries
Reads-reconcile_entries id rec es =
    search (Reads-bind, Reads-attempt_or_fail, Reads-recalculate, Reads-pure) depth 12

pub Reads-reconcile_found : (id : Text) (o : Option WalletRecord) → Reads (reconcile_found id o)
unfolding LedgerRepo.all_ordered
Reads-reconcile_found id none = Reads-fail _
Reads-reconcile_found id (some rec) = search (Reads-bind, Reads-query, Reads-reconcile_entries)

pub Reads-reconcile : (id : Text) → Reads (Reconcile.reconcile id)
unfolding Reconcile.reconcile
Reads-reconcile id =
    Reads-transact _ (Reads-bind _ _ (Reads-get_wallet id) (Reads-reconcile_found id))

pub Reads-get_tx : (id : Text) → Reads (TxRepo.get id)
unfolding TxRepo.get
Reads-get_tx id = Reads-query _

pub Reads-find_external : (p e : Text) → Reads (TxRepo.find_by_provider_external p e)
unfolding TxRepo.find_by_provider_external
Reads-find_external p e = Reads-query _
