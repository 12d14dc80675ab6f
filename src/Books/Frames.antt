-- ===== src/Books/Frames.antt =====
-- What touches neither the wallets nor the ledger: the other statements of
-- internal/adapters/postgres, and the events of internal/wagering/events.go.
use jg_backend_challenge_go.Prelude.{
  ℕ, ◌≡◌, Bool, true, false, List, ℤ, Text, arith, if◌then◌else◌, Result, ok, err,
}
use jg_backend_challenge_go.Domain.Errors.{Code}
use jg_backend_challenge_go.Domain.Money.{Money}
use jg_backend_challenge_go.Domain.LedgerEntry.{LedgerDirection}
use jg_backend_challenge_go.Domain.Transaction.{TransactionKind}
use jg_backend_challenge_go.Ports.{
  WalletRecord, LedgerRecord, TxRecord, Json, OutboxRecord, WorkItem, Failure, Fault, coded,
}
use jg_backend_challenge_go.Postgres.Db.{
  Tables, World, M, pure, fail, fail_when, ◌>>=◌, query, execute,
}
use jg_backend_challenge_go.Postgres.Logic.{
  Holds, spoilt_tx, sound_tx, Triple, bind_rule, pure_rule, fail_rule, post_rule, query_rule,
  execute_rule,
}
use jg_backend_challenge_go.Postgres.TxRepo
use jg_backend_challenge_go.Postgres.AuxRepo
use jg_backend_challenge_go.Wagering.Service.{
  Service, SubmitInput, fresh_id, now, attempt, attempt_or_fail,
}
use jg_backend_challenge_go.Wagering.Events.{
  stage, balance_event, emit_processed, emit_rejected, emit_pending_ref,
}

abbrev pub Relation : Type 1
Relation = List WalletRecord → List LedgerRecord → Type 0

abbrev pub Frame : Relation → Tables → Type 0
Frame Q t = Q t.wallets t.ledger

-- Whatever held of the wallets and the ledger still holds, after an error too.
pub record Quiet {A : Type 0} (m : M A) : Type 1 where
  pub run : (Q : Relation) → Triple (Frame Q) m (λ _. Frame Q) (Frame Q)

pub Quiet-bind :
    {A B : Type 0} (m : M A) (k : A → M B) → Quiet m → ((a : A) → Quiet (k a)) → Quiet (m >>= k)
Quiet-bind m k f g = record { run = λ Q. bind_rule m k (f.run Q) (λ a. (g a).run Q) }

pub Quiet-pure : {A : Type 0} (a : A) → Quiet (pure a)
Quiet-pure a = record { run = λ Q. pure_rule a (λ t h. h) }

pub Quiet-fail : {A : Type 0} (e : Failure) → Quiet (fail {A = A} e)
Quiet-fail e = record { run = λ Q. fail_rule e (λ t h. h) }

pub Quiet-query : {A : Type 0} (f : Tables → A) → Quiet (query f)
Quiet-query f = record {
  run = λ Q. post_rule (query f) (λ a t h. h.0) (query_rule {P = Frame Q} {E = Frame Q} f);
}

pub Quiet-execute :
    (f : Tables → Result Fault Tables)
    → ((t t' : Tables) → f t ≡ ok t' → (t'.wallets ≡ t.wallets) × (t'.ledger ≡ t.ledger))
    → Quiet (execute f)
Quiet-execute f h = record {
  run = λ Q. execute_rule f (λ t t' q e. rw ((h t t' e).0, (h t t' e).1) q);
}

pub Quiet-if : {A : Type 0} (b : Bool) (m n : M A) → Quiet m → Quiet n → Quiet (if b then m else n)
Quiet-if true m n f g = f
Quiet-if false m n f g = g

pub Quiet-attempt :
    {A B : Type 0} (r : Result Code A) (h : Code → M B) (k : A → M B)
    → ((e : Code) → Quiet (h e))
    → ((a : A) → Quiet (k a))
    → Quiet (attempt r h k)
Quiet-attempt (ok a) h k f g = g a
Quiet-attempt (err e) h k f g = f e

pub Quiet-attempt_or_fail : {A : Type 0} (r : Result Code A) → Quiet (attempt_or_fail r)
Quiet-attempt_or_fail (ok a) = Quiet-pure a
Quiet-attempt_or_fail (err e) = Quiet-fail (coded e)

pub Quiet-fail_when : (b : Bool) (e : Failure) → Quiet (fail_when b e)
Quiet-fail_when true e = Quiet-fail e
Quiet-fail_when false e = Quiet-pure tt

tick_ends : {P : Tables → Type 0} (w : World) (n : ℕ) → Holds P w → Holds P (record w { ticks = n })
tick_ends w n (spoilt_tx b) = spoilt_tx b
tick_ends w n (sound_tx a p) = sound_tx a p

pub Quiet-fresh_id : (s : Service) → Quiet (fresh_id s)
unfolding fresh_id
Quiet-fresh_id s = record { run = λ Q. record { run = λ w h. tick_ends w _ h } }

pub Quiet-now : (s : Service) → Quiet (now s)
unfolding now
Quiet-now s = record { run = λ Q. record { run = λ w h. tick_ends w _ h } }

pub ruleset quiet_rules = (
  Quiet-bind, Quiet-pure, Quiet-fail, Quiet-if, Quiet-attempt, Quiet-attempt_or_fail,
  Quiet-fail_when, Quiet-fresh_id, Quiet-now,
)

Quiet-enqueue_outbox : (n : ℕ) (e : OutboxRecord) → Quiet (AuxRepo.enqueue_outbox n e)
unfolding AuxRepo.enqueue_outbox
Quiet-enqueue_outbox n e = Quiet-execute _ (λ t t' h. ground arith)

pub Quiet-stage :
    (s : Service) (a b c : Text) (n : ℕ) (v : ℤ) (j : Json) → Quiet (stage s a b c n v j)
unfolding stage
Quiet-stage s a b c n v j = search (quiet_rules, Quiet-enqueue_outbox)

Quiet-balance_event :
    (b : Bool) (s : Service) (w : Text) (v : ℤ) (tx : Text) (i : SubmitInput) (after before : Money)
    (d : LedgerDirection) (time : ℕ)
    → Quiet (balance_event b s w v tx i after before d time)
Quiet-balance_event true s w v tx i after before d time = Quiet-pure tt
Quiet-balance_event false s w v tx i after before d time = Quiet-stage s _ _ _ _ _ _

pub Quiet-emit_processed :
    (s : Service) (w : Text) (v : ℤ) (tx : Text) (i : SubmitInput) (after before : Money)
    (d : LedgerDirection)
    → Quiet (emit_processed s w v tx i after before d)
unfolding emit_processed
Quiet-emit_processed s w v tx i after before d =
    search (quiet_rules, Quiet-stage, Quiet-balance_event)

pub Quiet-emit_rejected :
    (s : Service) (w : Text) (v : ℤ) (tx : Text) (i : SubmitInput) (balance : Money) (code : Text)
    → Quiet (emit_rejected s w v tx i balance code)
unfolding emit_rejected
Quiet-emit_rejected s w v tx i balance code = search (quiet_rules, Quiet-stage)

pub Quiet-emit_pending_ref :
    (s : Service) (w : Text) (v : ℤ) (tx : Text) (i : SubmitInput)
    → Quiet (emit_pending_ref s w v tx i)
unfolding emit_pending_ref
Quiet-emit_pending_ref s w v tx i = search (quiet_rules, Quiet-stage)

pub Quiet-insert_tx_row : (r : TxRecord) → Quiet (TxRepo.insert r)
unfolding TxRepo.insert TxRepo.insert_row
Quiet-insert_tx_row r = Quiet-execute _ (λ t t' h. ground arith)

pub Quiet-update_state : (r : TxRecord) → Quiet (TxRepo.update_state r)
unfolding TxRepo.update_state TxRepo.update_state_row
Quiet-update_state r = Quiet-execute _ (λ t t' h. ground arith)

pub Quiet-mark_reversed :
    (target : Text) (k : TransactionKind) (by : Text) → Quiet (TxRepo.mark_reversed target k by)
unfolding TxRepo.mark_reversed TxRepo.mark_reversed_row
Quiet-mark_reversed target k by = Quiet-execute _ (λ t t' h. ground arith)

pub Quiet-clear_reversal : (target : Text) → Quiet (TxRepo.clear_reversal target)
unfolding TxRepo.clear_reversal TxRepo.clear_reversal_row
Quiet-clear_reversal target = Quiet-execute _ (λ t t' h. ground arith)

pub Quiet-has_active_win : (bet : Text) → Quiet (TxRepo.has_active_win bet)
unfolding TxRepo.has_active_win
Quiet-has_active_win bet = Quiet-query _

pub Quiet-get_tx : (id : Text) → Quiet (TxRepo.get id)
unfolding TxRepo.get
Quiet-get_tx id = Quiet-query _

pub Quiet-find_by_provider_key : (p k : Text) → Quiet (TxRepo.find_by_provider_key p k)
unfolding TxRepo.find_by_provider_key
Quiet-find_by_provider_key p k = Quiet-query _

pub Quiet-find_by_provider_external : (p e : Text) → Quiet (TxRepo.find_by_provider_external p e)
unfolding TxRepo.find_by_provider_external
Quiet-find_by_provider_external p e = Quiet-query _

pub Quiet-find_dependents : (p e : Text) → Quiet (TxRepo.find_dependents p e)
unfolding TxRepo.find_dependents
Quiet-find_dependents p e = Quiet-query _

pub Quiet-insert_inbox : (c m h : Text) → Quiet (AuxRepo.insert_inbox c m h)
unfolding AuxRepo.insert_inbox
Quiet-insert_inbox c m h = Quiet-execute _ (λ t t' e. ground arith)

pub Quiet-complete_inbox : (c m : Text) → Quiet (AuxRepo.complete_inbox c m)
unfolding AuxRepo.complete_inbox
Quiet-complete_inbox c m = Quiet-execute _ (λ t t' e. ground arith)

pub Quiet-enqueue_work : (n : ℕ) (i : WorkItem) → Quiet (AuxRepo.enqueue_work n i)
unfolding AuxRepo.enqueue_work
Quiet-enqueue_work n i = Quiet-execute _ (λ t t' e. ground arith)

pub Quiet-touch_work :
    (id : Text) (a b n : ℕ) (clear : Bool) → Quiet (AuxRepo.touch_work id a b n clear)
unfolding AuxRepo.touch_work
Quiet-touch_work id a b n clear = Quiet-execute _ (λ t t' e. ground arith)

pub Quiet-delete_work : (id : Text) → Quiet (AuxRepo.delete_work id)
unfolding AuxRepo.delete_work
Quiet-delete_work id = Quiet-execute _ (λ t t' e. ground arith)

pub ruleset quiet_statements = (
  quiet_rules, Quiet-emit_processed, Quiet-emit_rejected, Quiet-emit_pending_ref,
  Quiet-insert_tx_row, Quiet-update_state, Quiet-mark_reversed, Quiet-clear_reversal,
  Quiet-has_active_win, Quiet-get_tx, Quiet-find_by_provider_key, Quiet-find_by_provider_external,
  Quiet-find_dependents, Quiet-insert_inbox, Quiet-complete_inbox, Quiet-enqueue_work,
  Quiet-touch_work, Quiet-delete_work,
)
