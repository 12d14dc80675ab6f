-- ===== src/Wagering/Submit/Atomic.antt =====
-- Submissions that fail (internal/wagering/accept.go).
use jg_backend_challenge_go.Prelude.{◌≡◌, Text, Option, none, some, err}
use jg_backend_challenge_go.Ports.{Failure}
use jg_backend_challenge_go.Postgres.Db.{World, InboxRow}
use jg_backend_challenge_go.Postgres.Atomic.{
  Reads, Reads-pure, Reads-fail, Reads-fail_when, Reads-bind, Reads-query, IsAtomic, IsAtomic-bind,
  IsAtomic-last, IsAtomic-transact, Succeeds, Succeeds-pure, Succeeds-ignore, Succeeds-if,
  Succeeds-bind,
}
use jg_backend_challenge_go.Postgres.AuxRepo.{find_inbox}
use jg_backend_challenge_go.Wagering.Service.{Service, SubmitInput, SubmitResult}
use jg_backend_challenge_go.Wagering.Reading.{Reads-attempt, Reads-if}
use jg_backend_challenge_go.Wagering.Submit.{
  check_input, check_inbox_row, check_message, wake_dependents, submit,
}

pub Reads-check_input : (i : SubmitInput) → Reads (check_input i)
unfolding check_input
Reads-check_input i =
    search (Reads-attempt, Reads-pure, Reads-fail, Reads-fail_when, Reads-bind) depth 12

Reads-check_inbox_row :
    (i : SubmitInput) (hash : Text) (o : Option InboxRow) → Reads (check_inbox_row i hash o)
Reads-check_inbox_row i hash none = Reads-pure tt
Reads-check_inbox_row i hash (some row) = Reads-fail_when _ _

Reads-find_inbox : (c m : Text) → Reads (find_inbox c m)
unfolding find_inbox
Reads-find_inbox c m = Reads-query _

Reads-check_message : (i : SubmitInput) (hash : Text) → Reads (check_message i hash)
unfolding check_message
Reads-check_message i hash =
    search (Reads-if, Reads-pure, Reads-bind, Reads-find_inbox, Reads-check_inbox_row)

Succeeds-wake_dependents :
    (s : Service) (i : SubmitInput) (r : SubmitResult) → Succeeds (wake_dependents s i r)
unfolding wake_dependents
Succeeds-wake_dependents s i r = search (Succeeds-if, Succeeds-ignore, Succeeds-pure)

submit-IsAtomic : (s : Service) (i : SubmitInput) → IsAtomic (submit s i)
unfolding submit
submit-IsAtomic s i =
    search
      (
        IsAtomic-bind, IsAtomic-last, IsAtomic-transact, Reads-check_input, Reads-check_message,
        Succeeds-bind, Succeeds-pure, Succeeds-wake_dependents,
      )
      depth 10

-- A `Submit` that returns an error, whichever one, has left every table as it was.
pub submit_failed :
    (s : Service) (i : SubmitInput) (w : World) {e : Failure}
    → (submit s i w).0 ≡ err e
    → (submit s i w).1.tables ≡ w.tables
submit_failed s i w h = (submit-IsAtomic s i).run w h
