-- ===== src/Postgres/AuxRepo.antt =====
-- Inbox, outbox and work items (internal/adapters/postgres/aux_repo.go and
-- migrations/00004_inbox_outbox_work.sql). The adapter's own clock reading is an argument `now`.
pub mod Claims
pub mod Exclusive
use jg_backend_challenge_go.Prelude.{
  ℕ, Bool, true, false, not, ◌&&◌, Option, none, ◌∷◌, Text, text_eq, find_first, select,
  update_where, any_row, if◌then◌else◌, Result, ok,
}
use jg_backend_challenge_go.Ports.{
  OutboxRecord, WorkItem, Fault, unique_violation, foreign_key_violation,
}
use jg_backend_challenge_go.Postgres.Db.{Tables, InboxRow, OutboxRow, WorkRow, M, query, execute}
use jg_backend_challenge_go.Postgres.TxRepo.{has_id}

abbrev pub is_message : Text → Text → InboxRow → Bool
is_message consumer message_id r = text_eq r.consumer consumer && text_eq r.message_id message_id

-- A constraint, and the row if it holds.
abbrev pub guarded : Bool → Fault → Tables → Result Fault Tables
guarded true e t = Result.err e
guarded false e t = ok t

unfoldable pub insert_inbox : Text → Text → Text → M (Unit {0})
insert_inbox consumer message_id hash = execute (λ t.
    guarded (any_row (is_message consumer message_id) t.inbox) unique_violation (record t {
      inbox =
          record {
            consumer = consumer;
            message_id = message_id;
            payload_hash = hash;
            concluded = false;
          }
          ∷ t.inbox;
    }))

abbrev pub conclude : InboxRow → InboxRow
conclude r = record r { concluded = true }

unfoldable pub complete_inbox : Text → Text → M (Unit {0})
complete_inbox consumer message_id =
    execute (λ t.
      ok (record t { inbox = update_where (is_message consumer message_id) conclude t.inbox }))

unfoldable pub find_inbox : Text → Text → M (Option InboxRow)
find_inbox consumer message_id = query (λ t. find_first (is_message consumer message_id) t.inbox)

abbrev pub is_event : Text → OutboxRow → Bool
is_event event_id r = text_eq r.event_id event_id

unfoldable pub enqueue_outbox : ℕ → OutboxRecord → M (Unit {0})
enqueue_outbox now e = execute (λ t.
    guarded (any_row (is_event e.event_id) t.outbox) unique_violation (record t {
      outbox =
          record {
            event_id = e.event_id;
            aggregate_id = e.aggregate_id;
            event_type = e.event_type;
            payload = e.payload;
            occurred_at = now;
            attempts = e.attempts;
            next_send_at = 0;
            published_at = none;
            lease_owner = none;
            lease_expires_at = none;
          }
          ∷ t.outbox;
    }))

abbrev pub is_work_of : Text → WorkRow → Bool
is_work_of tx_id r = text_eq r.transaction_id tx_id

unfoldable pub enqueue_work : ℕ → WorkItem → M (Unit {0})
enqueue_work now w = execute (λ t.
    if any_row (is_work_of w.transaction_id) t.work
    then Result.err unique_violation
    else guarded (not (any_row (has_id w.transaction_id) t.txs)) foreign_key_violation (record t {
      work =
          record {
            transaction_id = w.transaction_id;
            kind = w.kind;
            ref_attempts = w.ref_attempts;
            infra_attempts = w.infra_attempts;
            next_attempt_at = w.next_attempt_at;
            lease_owner = none;
            lease_expires_at = none;
            created_at = now;
          }
          ∷ t.work;
    }))

unfoldable pub get_work : Text → M (Option WorkRow)
get_work tx_id = query (λ t. find_first (is_work_of tx_id) t.work)

abbrev pub touch : ℕ → ℕ → ℕ → Bool → WorkRow → WorkRow
touch ref_attempts infra_attempts next_attempt_at clear_lease r =
    let touched = record r {
      ref_attempts = ref_attempts;
      infra_attempts = infra_attempts;
      next_attempt_at = next_attempt_at;
    } in
    if clear_lease then record touched { lease_owner = none; lease_expires_at = none } else touched

unfoldable pub touch_work : Text → ℕ → ℕ → ℕ → Bool → M (Unit {0})
touch_work tx_id ref_attempts infra_attempts next_attempt_at clear_lease = execute (λ t.
    ok (record t {
      work =
          update_where (is_work_of tx_id)
            (touch ref_attempts infra_attempts next_attempt_at clear_lease) t.work;
    }))

unfoldable pub delete_work : Text → M (Unit {0})
delete_work tx_id =
    execute (λ t. ok (record t { work = select (λ r. not (is_work_of tx_id r)) t.work }))
