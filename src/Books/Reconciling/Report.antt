-- ===== src/Books/Reconciling/Report.antt =====
-- The report of `Reconcile` (internal/wagering/reconcile.go).
use jg_backend_challenge_go.Prelude.{
  ◌≡◌, refl, subst, ℕ, Bool, true, List, [], ℤ, pos, IsInt64, Text, text_eq_refl, some, arith,
  int_laws, ok, length,
}
use jg_backend_challenge_go.Domain.Money.{Money, sub, cmp}
use jg_backend_challenge_go.Ports.{WalletRecord, LedgerRecord}
use jg_backend_challenge_go.Postgres.Db.{
  Tables, World, active, call, answer, query, transact, finish,
}
use jg_backend_challenge_go.Postgres.WalletRepo.{find_wallet}
use jg_backend_challenge_go.Postgres.WalletRepo
use jg_backend_challenge_go.Postgres.LedgerRepo.{all_ordered}
use jg_backend_challenge_go.Wagering.Service.{Service}
use jg_backend_challenge_go.Wagering.Reconcile.{Reconciliation, reconcile_entries, reconcile}
use jg_backend_challenge_go.Postgres.Calm.{calm}
use jg_backend_challenge_go.Books.{WalletState, Balanced}
use jg_backend_challenge_go.Books.Histories.{Event, history, fresh_world, history-Books}
use jg_backend_challenge_go.Books.Reconciling.{
  entries_of, made_money, subtracted, Chain-Turns, Turns-recalculate,
}

-- A stored balance that the entries bear out.
unfoldable pub consistent_report : Text → WalletRecord → List LedgerRecord → Reconciliation
consistent_report id w es =
    let balance : Money = record { minor = w.balance_minor; currency = w.currency } in
    record {
      wallet_id = id;
      stored_balance = balance;
      calculated_balance = balance;
      difference = record { minor = pos 0; currency = w.currency };
      consistent = true;
      checked_entries = length es;
    }

sub_self :
    (b : ℤ) (currency : Text)
    → IsInt64 b
    → sub (record { minor = b; currency = currency }) (record { minor = b; currency = currency })
      ≡ ok (record { minor = pos 0; currency = currency })
sub_self b currency h = subtracted b b (pos 0) currency (omega int_laws) h h (ground arith)

cmp_self :
    (b : ℤ) (currency : Text)
    → cmp (record { minor = b; currency = currency }) (record { minor = b; currency = currency })
      ≡ ok (pos 0)
unfolding cmp
cmp_self b currency = ground (arith, text_eq_refl currency)

reconcile_entries_lem :
    (id : Text) (w : WalletRecord) (l : List LedgerRecord) (v : World)
    → Balanced id w l
    → reconcile_entries id w (entries_of id l) v
      ≡ (ok (consistent_report id w (entries_of id l)), v)
unfolding reconcile_entries consistent_report
reconcile_entries_lem id w l v b =
    let turns = Turns-recalculate (Chain-Turns b.currency_valid b.chain) in
    rw
      (
        made_money w.balance_minor w.currency b.currency_valid,
        made_money (pos 0) w.currency b.currency_valid,
        turns,
        sub_self w.balance_minor w.currency b.balance_int64,
        cmp_self w.balance_minor w.currency,
      )
      refl

reconcile_consistent :
    (id : Text) (t : Tables) (n : ℕ) (w : WalletRecord)
    → find_wallet id t.wallets ≡ some w
    → Balanced id w t.ledger
    → reconcile id (calm t n) ≡ (ok (consistent_report id w (entries_of id t.ledger)), calm t n)
unfolding reconcile transact call answer query finish WalletRepo.get all_ordered entries_of
reconcile_consistent id t n w found b =
    rw
      (
        found,
        reconcile_entries_lem id w t.ledger
            (record { tables = t; status = active; faults = []; ticks = n }) b,
      )
      refl

-- After any sequence of openings, submissions, re-evaluations, work on parked transactions, deliveries,
-- HTTP requests and runs of the publisher that begins with empty tables, whichever statements and commits fail, a
-- `Reconcile` in which no statement fails reports for every wallet that the ledger adds up to the stored
-- balance, with a difference of zero, over all entries of the wallet, and changes nothing.
pub history-reconcile :
    (s : Service) (es : List Event) (faults : List Bool) (id : Text) (n : ℕ) {w : WalletRecord}
    → find_wallet id (history s es (fresh_world faults)).tables.wallets ≡ some w
    → reconcile id (calm (history s es (fresh_world faults)).tables n) ≡ (
      ok (consistent_report id w (entries_of id (history s es (fresh_world faults)).tables.ledger)),
      calm (history s es (fresh_world faults)).tables n,
    )
history-reconcile s es faults id n {w} found =
    let t = (history s es (fresh_world faults)).tables in
    reconcile_consistent id t n w found
      (subst (λ o. WalletState id o t.ledger) found ((history-Books s es faults).of id))
