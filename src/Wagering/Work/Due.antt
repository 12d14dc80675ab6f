-- ===== src/Wagering/Work/Due.antt =====
-- The work on due items (internal/wagering/work.go: ProcessDueWork).
use jg_backend_challenge_go.Prelude.{ℕ, suc, ◌*◌, Bool, List, [], ◌∷◌, Text, if◌then◌else◌, ok, err}
use jg_backend_challenge_go.Ports.{WorkItem}
use jg_backend_challenge_go.Postgres.Db.{M, pure, ◌>>=◌}
use jg_backend_challenge_go.Postgres.AuxRepo.Claims.{claim_work}
use jg_backend_challenge_go.Wagering.Service.{Service, now, second}
use jg_backend_challenge_go.Wagering.Work.{process_work_item}

abbrev pub work_lease_ttl : ℕ
work_lease_ttl = 30 * second

-- `if err != nil { continue }`
unfoldable pub settled_or_skip : Service → WorkItem → M Bool
settled_or_skip s item w =
    let (r, w') = process_work_item s item w in
    elim r [ ok settled ↦ (ok settled, w') | err e ↦ (ok Bool.false, w') ]

-- The loop over the items, with the number that settled before.
unfoldable pub settle_each : Service → ℕ → List WorkItem → M ℕ
unfolding settled_or_skip
settle_each s settled [] = pure settled
settle_each s settled (item ∷ items) = do
  done ← settled_or_skip s item
  settle_each s (if done then suc settled else settled) items

unfoldable pub process_due_work : Service → Text → ℕ → M ℕ
process_due_work s owner limit = do
  time ← now s
  items ← claim_work time owner work_lease_ttl limit
  settle_each s 0 items
