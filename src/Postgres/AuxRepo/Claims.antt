-- ===== src/Postgres/AuxRepo/Claims.antt =====
-- The leases of outbox rows and work items, and what becomes of a claimed event
-- (internal/adapters/postgres/aux_repo.go: ClaimOutbox, MarkOutboxPublished, NackOutbox,
-- ListUnpublished, ClaimWork). Among rows with one time, the order is that of the table.
use jg_backend_challenge_go.Prelude.{
  ℕ, ◌+◌, Bool, true, false, ◌&&◌, Option, none, some, List, [], ◌∷◌, map, leb, Text, text_eq, take,
  select, order_by, update_where, ok,
}
use jg_backend_challenge_go.Ports.{OutboxRecord, WorkItem}
use jg_backend_challenge_go.Postgres.Db.{
  Tables, OutboxRow, WorkRow, M, pure, ◌>>=◌, ◌>>◌, query, execute, transact,
}
use jg_backend_challenge_go.Postgres.AuxRepo.{is_event, is_work_of}

-- `lease_expires_at IS NULL OR lease_expires_at <= ?`
unfoldable pub is_free : ℕ → Option ℕ → Bool
is_free now none = true
is_free now (some expires) = leb expires now

-- `published_at IS NULL`
unfoldable pub is_unset : Option ℕ → Bool
is_unset none = true
is_unset (some time) = false

unfoldable pub is_due_event : ℕ → OutboxRow → Bool
unfolding is_free is_unset
is_due_event now r =
    is_unset r.published_at && leb r.next_send_at now && is_free now r.lease_expires_at

abbrev pub by_next_send : OutboxRow → OutboxRow → Bool
by_next_send a b = leb a.next_send_at b.next_send_at

unfoldable pub due_events : ℕ → ℕ → Tables → List OutboxRow
due_events now limit t = take limit (order_by by_next_send (select (is_due_event now) t.outbox))

unfoldable pub to_outbox_record : OutboxRow → OutboxRecord
to_outbox_record r = record {
  event_id = r.event_id;
  aggregate_id = r.aggregate_id;
  event_type = r.event_type;
  payload = r.payload;
  attempts = r.attempts;
  occurred_at = r.occurred_at;
}

abbrev pub leased_event : Text → ℕ → OutboxRow → OutboxRow
leased_event owner expires r = record r {
  lease_owner = some owner;
  lease_expires_at = some expires;
}

unfoldable pub lease_event : Text → ℕ → Text → M (Unit {0})
lease_event owner expires event_id = execute (λ t.
    ok (record t {
      outbox = update_where (is_event event_id) (leased_event owner expires) t.outbox;
    }))

-- The loop over the selected rows.
unfoldable pub lease_events : Text → ℕ → List OutboxRow → M (List OutboxRecord)
lease_events owner expires [] = pure []
lease_events owner expires (r ∷ rs) = do
  lease_event owner expires r.event_id
  rest ← lease_events owner expires rs
  pure (to_outbox_record r ∷ rest)

unfoldable pub claim_outbox : ℕ → Text → ℕ → ℕ → M (List OutboxRecord)
claim_outbox now owner lease_ttl limit =
    transact (do rows ← query (due_events now limit); lease_events owner (now + lease_ttl) rows)

abbrev pub published_event : ℕ → OutboxRow → OutboxRow
published_event now r = record r {
  published_at = some now;
  lease_owner = none;
  lease_expires_at = none;
}

unfoldable pub mark_outbox_published : ℕ → Text → M (Unit {0})
mark_outbox_published now event_id = execute (λ t.
    ok (record t { outbox = update_where (is_event event_id) (published_event now) t.outbox }))

abbrev pub nacked_event : ℕ → ℕ → OutboxRow → OutboxRow
nacked_event attempts next_send_at r = record r {
  attempts = attempts;
  next_send_at = next_send_at;
  lease_owner = none;
  lease_expires_at = none;
}

unfoldable pub nack_outbox : Text → ℕ → ℕ → M (Unit {0})
nack_outbox event_id attempts next_send_at = execute (λ t. ok (record t {
  outbox = update_where (is_event event_id) (nacked_event attempts next_send_at) t.outbox;
}))

abbrev pub by_occurred : OutboxRow → OutboxRow → Bool
by_occurred a b = leb a.occurred_at b.occurred_at

unfoldable pub list_unpublished : Text → M (List OutboxRecord)
unfolding is_unset
list_unpublished aggregate_id = query (λ t. map to_outbox_record (
    order_by by_occurred
      (select (λ r. text_eq r.aggregate_id aggregate_id && is_unset r.published_at) t.outbox)))

unfoldable pub is_due_work : ℕ → WorkRow → Bool
unfolding is_free
is_due_work now r = leb r.next_attempt_at now && is_free now r.lease_expires_at

abbrev pub by_next_attempt : WorkRow → WorkRow → Bool
by_next_attempt a b = leb a.next_attempt_at b.next_attempt_at

unfoldable pub due_work : ℕ → ℕ → Tables → List WorkRow
due_work now limit t = take limit (order_by by_next_attempt (select (is_due_work now) t.work))

unfoldable pub to_work_item : Text → ℕ → WorkRow → WorkItem
to_work_item owner expires r = record {
  transaction_id = r.transaction_id;
  kind = r.kind;
  ref_attempts = r.ref_attempts;
  infra_attempts = r.infra_attempts;
  next_attempt_at = r.next_attempt_at;
  lease_owner = owner;
  lease_expires_at = some expires;
  created_at = r.created_at;
}

abbrev pub leased_work : Text → ℕ → WorkRow → WorkRow
leased_work owner expires r = record r { lease_owner = some owner; lease_expires_at = some expires }

unfoldable pub lease_work_row : Text → ℕ → Text → M (Unit {0})
lease_work_row owner expires tx_id = execute (λ t.
    ok (record t { work = update_where (is_work_of tx_id) (leased_work owner expires) t.work }))

unfoldable pub lease_work : Text → ℕ → List WorkRow → M (List WorkItem)
lease_work owner expires [] = pure []
lease_work owner expires (r ∷ rs) = do
  lease_work_row owner expires r.transaction_id
  rest ← lease_work owner expires rs
  pure (to_work_item owner expires r ∷ rest)

unfoldable pub claim_work : ℕ → Text → ℕ → ℕ → M (List WorkItem)
claim_work now owner lease_ttl limit =
    transact (do rows ← query (due_work now limit); lease_work owner (now + lease_ttl) rows)
