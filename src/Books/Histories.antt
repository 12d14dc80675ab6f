-- ===== src/Books/Histories.antt =====
-- Sequences of use cases, in which statements may fail (internal/wagering), and the books.
use jg_backend_challenge_go.Prelude.{
  ℕ, ◌≡◌, refl, Bool, true, some, List, [], ◌∷◌, ℤ, pos, ◌+ℤ◌, ◌-ℤ◌, ◌≤ℤ◌, Text, text_eq,
  text_eq_iff, if◌then◌else◌, arith, eq_of_parts, find_first, subst,
}
use jg_backend_challenge_go.Domain.LedgerEntry.{LedgerDirection, debit, credit, other}
use jg_backend_challenge_go.Domain.LedgerEntry.Balance.{signed, sub_eq_add}
use jg_backend_challenge_go.Ports.{WalletRecord, LedgerRecord, WorkItem}
use jg_backend_challenge_go.Postgres.Db.{World, idle}
use jg_backend_challenge_go.Postgres.Logic.{AtRest}
use jg_backend_challenge_go.Postgres.WalletRepo.{find_wallet}
use jg_backend_challenge_go.Postgres.LedgerRepo.{check_entry, check_math}
use jg_backend_challenge_go.Wagering.Service.{Service, SubmitInput}
use jg_backend_challenge_go.Wagering.Submit.{submit}
use jg_backend_challenge_go.Wagering.Work.{reevaluate_dependents, process_work_item}
use jg_backend_challenge_go.Wagering.OpenWallet.{open_wallet}
use jg_backend_challenge_go.Wagering.Work.Due.{process_due_work}
use jg_backend_challenge_go.Sqs.Consumer as Consumer
use jg_backend_challenge_go.Sqs.Consumer.{Transport, Message}
use jg_backend_challenge_go.Sqs.Publisher.{Publisher, publish_due_outbox}
use jg_backend_challenge_go.Http.Engine.{Server, Request, serve}
use jg_backend_challenge_go.Books.Serving.{serve-AtRest}
use jg_backend_challenge_go.Books.Working.{
  Rests-process_due_work, delivery-AtRest, Rests-publish_due_outbox,
}
use jg_backend_challenge_go.Books.{Chain, start, entry, skip, WalletState, Books}
use jg_backend_challenge_go.Books.Frames.{Frame}
use jg_backend_challenge_go.Books.Submitting.{Rests-submit}
use jg_backend_challenge_go.Books.Resuming.{reevaluate_dependents-AtRest, process_work_item-AtRest}
use jg_backend_challenge_go.Books.Opening.Steps.{Rests-open_wallet}

-- A use case with its input.
pub data Event : Type 0 where
  opened : Text → Text → Text → Event
  submitted : SubmitInput → Event
  woken : Text → Text → Event
  worked : WorkItem → Event
  worked_due : Text → ℕ → Event
  delivered : Transport → Message → Event
  published : Publisher → Text → ℕ → Event
  served : Server → Request → Event

unfoldable pub handle : Service → Event → World → World
handle s (opened player_id currency amount) w = (open_wallet s player_id currency amount w).1
handle s (submitted i) w = (submit s i w).1
handle s (woken provider_id external_id) w = (reevaluate_dependents s provider_id external_id w).1
handle s (worked item) w = (process_work_item s item w).1
handle s (worked_due owner limit) w = (process_due_work s owner limit w).1
handle s (delivered q m) w = (Consumer.handle s q m w).world
handle s (published p owner limit) w = (publish_due_outbox s p owner limit w).1
handle s (served h r) w = (serve (record h { service = s }) r w).1

unfoldable pub history : Service → List Event → World → World
history s [] w = w
history s (e ∷ es) w = history s es (handle s e w)

-- The database after the migrations, with the faults to come.
unfoldable pub fresh_world : List Bool → World
fresh_world faults = record {
  tables = record { wallets = []; txs = []; ledger = []; inbox = []; outbox = []; work = [] };
  status = idle;
  faults = faults;
  ticks = 0;
}

handle-AtRest :
    (s : Service) (e : Event) (w : World)
    → AtRest (Frame Books) w
    → AtRest (Frame Books) (handle s e w)
unfolding handle
handle-AtRest s (opened player_id currency amount) w h =
    (Rests-open_wallet s player_id currency amount).run w h
handle-AtRest s (submitted i) w h = (Rests-submit s i).run w h
handle-AtRest s (woken provider_id external_id) w h =
    reevaluate_dependents-AtRest s provider_id external_id w h
handle-AtRest s (worked item) w h = process_work_item-AtRest s item w h
handle-AtRest s (worked_due owner limit) w h = (Rests-process_due_work s owner limit).run w h
handle-AtRest s (delivered q m) w h = delivery-AtRest s q m w h
handle-AtRest s (published p owner limit) w h = (Rests-publish_due_outbox s p owner limit).run w h
handle-AtRest s (served h r) w rest = serve-AtRest (record h { service = s }) r w rest

history-AtRest :
    (s : Service) (es : List Event) (w : World)
    → AtRest (Frame Books) w
    → AtRest (Frame Books) (history s es w)
unfolding history
history-AtRest s [] w h = h
history-AtRest s (e ∷ es) w h = history-AtRest s es (handle s e w) (handle-AtRest s e w h)

fresh-AtRest : (faults : List Bool) → AtRest (Frame Books) (fresh_world faults)
unfolding fresh_world find_wallet find_first
fresh-AtRest faults = record { at_idle = refl; holds = record { of = λ id. tt } }

-- The books hold after any sequence of openings, submissions, re-evaluations, work on parked
-- transactions, deliveries, HTTP requests and runs of the publisher that begins with empty tables, whichever statements and commits fail.
pub history-Books :
    (s : Service) (es : List Event) (faults : List Bool)
    → Books
        (history s es (fresh_world faults)).tables.wallets
        (history s es (fresh_world faults)).tables.ledger
history-Books s es faults = (history-AtRest s es (fresh_world faults) (fresh-AtRest faults)).holds

-- What the entries of a wallet add up to.
unfoldable pub total : Text → List LedgerRecord → ℤ
total id [] = pos 0
total id (e ∷ l) =
    let rest = total id l in
    if text_eq e.wallet_id id then rest +ℤ signed e.direction e.amount_minor else rest

check_math_moved :
    (e : LedgerRecord) (d : LedgerDirection)
    → check_math e d ≡ true
    → e.after_minor ≡ e.before_minor +ℤ signed d e.amount_minor
unfolding check_math signed
check_math_moved e debit h = ground (
  arith,
  sub_eq_add e.before_minor e.amount_minor,
  eq_of_parts e.after_minor (e.before_minor -ℤ e.amount_minor),
)
check_math_moved e credit h =
    ground (arith, eq_of_parts e.after_minor (e.before_minor +ℤ e.amount_minor))
check_math_moved e (other d) h = cc

check_entry_math : (e : LedgerRecord) → check_entry e ≡ true → check_math e e.direction ≡ true
unfolding check_entry
check_entry_math e h = ground arith

Chain-total :
    {id currency : Text} {balance version : ℤ} {l : List LedgerRecord}
    → Chain id currency balance version l
    → balance ≡ total id l
unfolding total
Chain-total (start zero _ _) = zero
Chain-total {id} (entry {e} same _ _ after _ checked rest) = ground (
  arith,
  text_eq_iff e.wallet_id id,
  check_math_moved e e.direction (check_entry_math e checked),
  Chain-total rest,
)
Chain-total {id} (skip {e} differ rest) =
    ground (arith, text_eq_iff e.wallet_id id, Chain-total rest)

-- After any sequence of openings, submissions, re-evaluations, work on parked transactions, deliveries,
-- HTTP requests and runs of the publisher that begins with empty tables, whichever statements and commits fail, the balance of every wallet is the
-- sum of its ledger entries, and not negative.
pub history-total :
    (s : Service) (es : List Event) (faults : List Bool) (id : Text) {w : WalletRecord}
    → find_wallet id (history s es (fresh_world faults)).tables.wallets ≡ some w
    → (w.balance_minor ≡ total id (history s es (fresh_world faults)).tables.ledger)
      × (pos 0 ≤ℤ w.balance_minor)
history-total s es faults id h =
    let b =
      subst (λ o. WalletState id o (history s es (fresh_world faults)).tables.ledger) h
        ((history-Books s es faults).of id) in
    (Chain-total b.chain, b.balance_nonneg)
