-- ===== src/Sqs/Publisher.antt =====
-- The publisher of outbox events (internal/adapters/sqs/publisher.go). The broker's answer to a send
-- and the source's draws are given; the counters, the log and the ticking loop are left out.
pub mod Rows
pub mod Delivery
use jg_backend_challenge_go.Prelude.{
  ℕ, suc, ◌+◌, ◌*◌, Bool, true, false, List, [], ◌∷◌, Text, if◌then◌else◌,
}
use jg_backend_challenge_go.Ports.{Json, OutboxRecord}
use jg_backend_challenge_go.Postgres.Db.{M, pure, ◌>>=◌, ◌>>◌}
use jg_backend_challenge_go.Postgres.AuxRepo.Claims.{
  claim_outbox, mark_outbox_published, nack_outbox,
}
use jg_backend_challenge_go.Wagering.Service.{Service, now, second, backoff_base, backoff_cap}
use jg_backend_challenge_go.Wagering.Backoff.{retry_delay}

abbrev pub outbox_lease_ttl : ℕ
outbox_lease_ttl = 30 * second

-- What `SendMessage` is given; the body is the payload's text.
pub record EventMessage : Type 0 where
  pub queue_url : Text
  pub message_body : Json
  pub message_group_id : Text
  pub message_deduplication_id : Text

-- The interface: whether the broker takes the event. `int63n seed k` is the draw number `k` of the
-- source that the loop seeds.
pub record Publisher : Type 0 where
  pub publish : OutboxRecord → Bool
  pub int63n : ℕ → ℕ → ℕ → ℕ

unfoldable pub event_message : Text → OutboxRecord → EventMessage
event_message events_url e = record {
  queue_url = events_url;
  message_body = e.payload;
  message_group_id = e.aggregate_id;
  message_deduplication_id = e.event_id;
}

-- `SQSPublisher` over `SendMessage`.
unfoldable pub sqs_publisher : (EventMessage → Bool) → Text → (ℕ → ℕ → ℕ → ℕ) → Publisher
unfolding event_message
sqs_publisher send events_url int63n = record {
  publish = λ e. send (event_message events_url e);
  int63n = int63n;
}

module _ (s : Service) (p : Publisher) where
  -- `NackOutbox` of a failed send; `failed` sends failed before in this loop.
  unfoldable pub nack_event : ℕ → ℕ → OutboxRecord → M Bool
  nack_event time failed e = do
    nack_outbox e.event_id (e.attempts + 1)
        (time + retry_delay (e.attempts + 1) (p.int63n time failed))
    pure false

  unfoldable pub mark_event : OutboxRecord → M Bool
  mark_event e = do at ← now s; mark_outbox_published at e.event_id; pure true

  -- One turn of the loop: whether the event was published.
  unfoldable pub publish_event : ℕ → ℕ → OutboxRecord → M Bool
  unfolding nack_event mark_event
  publish_event time failed e = if p.publish e then mark_event e else nack_event time failed e

  unfoldable pub publish_each : ℕ → ℕ → ℕ → List OutboxRecord → M ℕ
  unfolding publish_event
  publish_each time failed published [] = pure published
  publish_each time failed published (e ∷ es) = do
    sent ← publish_event time failed e
    publish_each time (if sent then failed else suc failed)
        (if sent then suc published else published) es

  -- The adapter reads its own clock in `ClaimOutbox`.
  unfoldable pub publish_due_outbox : Text → ℕ → M ℕ
  publish_due_outbox owner limit = do
    time ← now s
    claimed_at ← now s
    records ← claim_outbox claimed_at owner outbox_lease_ttl limit
    publish_each time 0 0 records
