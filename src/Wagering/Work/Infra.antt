-- ===== src/Wagering/Work/Infra.antt =====
-- What becomes of a failing statement in the work on an item (internal/wagering/work.go).
use jg_backend_challenge_go.Prelude.{
  ◌≡◌, Bool, true, false, List, ◌∷◌, ℕ, err, if◌then◌else◌, leb, ◌+◌, arith,
}
use jg_backend_challenge_go.Ports.{WorkItem, database, transaction_aborted}
use jg_backend_challenge_go.Postgres.Db.{
  Tables, World, idle, broken, query, execute, call, answer, transact, finish, spoil,
}
use jg_backend_challenge_go.Postgres.TxRepo
use jg_backend_challenge_go.Postgres.AuxRepo.{touch_work, delete_work}
use jg_backend_challenge_go.Wagering.Service.{Service, now, max_infra_attempts}
use jg_backend_challenge_go.Wagering.Work.{note_infra, process_work_item}

-- In a transaction that a failed statement has spoilt, `noteInfra` fails too, whether or not the
-- budget is used up, and leaves the tables as they are.
pub note_infra_spoilt :
    (s : Service) (item : WorkItem) (w : World)
    → w.status ≡ broken
    → ((note_infra s item w).0 ≡ err (database transaction_aborted))
      × ((note_infra s item w).1.tables ≡ w.tables)
unfolding note_infra now query execute call answer TxRepo.get touch_work delete_work
note_infra_spoilt s item w h = ground arith

-- Where BEGIN succeeds and the read of the transaction fails, `processWorkItem` returns an error and
-- changes no table, so that the attempt is not counted; at the end of the budget too.
pub process_work_item_unread :
    (s : Service) (item : WorkItem) (t : Tables) (n : ℕ) (faults : List Bool)
    → process_work_item s item
        (record { tables = t; status = idle; faults = false ∷ true ∷ faults; ticks = n })
      ≡ (
        err (database transaction_aborted),
        record {
          tables = t;
          status = idle;
          faults = faults;
          ticks = if leb max_infra_attempts (item.infra_attempts + 1) then n else n + 2;
        },
      )
unfolding process_work_item note_infra transact finish spoil now query execute call answer
    TxRepo.get touch_work delete_work
process_work_item_unread s item t n faults = ground arith
