-- ===== src/Sqs/Publisher/Delivery.antt =====
-- What the publisher does to the outbox (internal/adapters/sqs/publisher.go).
use jg_backend_challenge_go.Prelude.{
  ℕ, ◌+◌, ◌≡◌, refl, ◌∙◌, inl, inr, sym, subst, Bool-cases, ok, true, List, [], ◌∷◌, All, Text,
  text_eq_iff, update_where,
}
use jg_backend_challenge_go.Ports.{OutboxRecord}
use jg_backend_challenge_go.Postgres.Db.{Tables, World, OutboxRow, idle, execute}
use jg_backend_challenge_go.Postgres.Logic.{Triple, bind_rule, pure_rule, pre_rule, query_rule}
use jg_backend_challenge_go.Postgres.Logic.Unconstrained.{written_tables, write_rule}
use jg_backend_challenge_go.Postgres.AuxRepo.{is_event}
use jg_backend_challenge_go.Postgres.AuxRepo.Claims.{
  lease_event, lease_events, claim_outbox, mark_outbox_published, nack_outbox, due_events,
}
use jg_backend_challenge_go.Wagering.Service.{Service, now}
use jg_backend_challenge_go.Wagering.Settled.{
  Settled, Settled-bind, Settled-given, Settled-pure, Settled-now, Settled-execute,
  Settled-transact,
}
use jg_backend_challenge_go.Prelude.Tables.Every.{All-pure}
use jg_backend_challenge_go.Sqs.Publisher.Rows.{
  Carries, Advanced, AllAdvanced, AllAdvanced-refl, update-AllAdvanced, OneRowEach, Known,
  claim_outbox-Known,
}
use jg_backend_challenge_go.Sqs.Publisher.{
  outbox_lease_ttl, Publisher, nack_event, mark_event, publish_event, publish_each,
  publish_due_outbox,
}

module _ (p : Publisher) (before : List OutboxRow) where
  abbrev Since : Tables → Type 0
  Since t = AllAdvanced p before t.outbox

  lease_events-Since :
      (owner : Text) (expires : ℕ) (rs : List OutboxRow)
      → Triple Since (lease_events owner expires rs) (λ _. Since) Since
  unfolding lease_events lease_event
  lease_events-Since owner expires [] = pure_rule [] (λ t h. h)
  lease_events-Since owner expires (r ∷ rs) =
      bind_rule _ _
        (write_rule _ (λ t h.
          update-AllAdvanced (λ _. Unit {0}) (is_event r.event_id) _
            (λ u u' _ e a. record {
              same_event = a.same_event;
              same_aggregate = a.same_aggregate;
              same_type = a.same_type;
              same_payload = a.same_payload;
              same_time = a.same_time;
              published_taken = a.published_taken;
            })
            (All-pure _ before (λ _. tt)) h))
        (λ _. bind_rule _ _ (lease_events-Since owner expires rs) (λ es. pure_rule _ (λ t h. h)))

  claim_outbox-Since :
      (now : ℕ) (owner : Text) (ttl limit : ℕ) → Settled Since (claim_outbox now owner ttl limit)
  unfolding claim_outbox
  claim_outbox-Since now owner ttl limit = Settled-transact _ (
      bind_rule _ _ (query_rule (due_events now limit))
        (λ rs. pre_rule _ (λ t h. h.0) (lease_events-Since owner (now + ttl) rs)))

  Settled-update :
      (K : OutboxRow → Type 0) (id : Text) (f : OutboxRow → OutboxRow)
      → ((r r' : OutboxRow) → K r → is_event id r' ≡ true → Advanced p r r' → Advanced p r (f r'))
      → All K before
      → Settled Since
          (execute (λ t. ok (record t { outbox = update_where (is_event id) f t.outbox })))
  Settled-update K id f h k = Settled-execute _ (λ t t' a e.
      subst Since (written_tables _ refl e) (update-AllAdvanced K (is_event id) f h k a))

  nack_event-Since :
      (s : Service) (time failed : ℕ) (e : OutboxRecord)
      → Settled Since (nack_event s p time failed e)
  unfolding nack_event nack_outbox
  nack_event-Since s time failed e =
      Settled-bind _ _
        (Settled-update (λ _. Unit {0}) e.event_id _
          (λ r r' _ q a. record {
            same_event = a.same_event;
            same_aggregate = a.same_aggregate;
            same_type = a.same_type;
            same_payload = a.same_payload;
            same_time = a.same_time;
            published_taken = a.published_taken;
          })
          (All-pure _ before (λ _. tt)))
        (λ _. Settled-pure _)

  mark_event-Since :
      (s : Service) (e : OutboxRecord)
      → Known before e
      → p.publish e ≡ true
      → Settled Since (mark_event s p e)
  unfolding mark_event mark_outbox_published
  mark_event-Since s e known taken = Settled-bind _ _ (Settled-now s) (λ at.
      Settled-bind _ _
        (Settled-update (λ r. r.event_id ≡ e.event_id → Carries e r) e.event_id _
          (λ r r' k q a.
            let same : r.event_id ≡ e.event_id =
              sym a.same_event ∙ (text_eq_iff r'.event_id e.event_id).0 q in
            record {
              same_event = a.same_event;
              same_aggregate = a.same_aggregate;
              same_type = a.same_type;
              same_payload = a.same_payload;
              same_time = a.same_time;
              published_taken = inr ((e, sym same, k same, taken), (at, refl));
            })
          known)
        (λ _. Settled-pure _))

  publish_event-Since :
      (s : Service) (time failed : ℕ) (e : OutboxRecord)
      → Known before e
      → Settled Since (publish_event s p time failed e)
  unfolding publish_event
  publish_event-Since s time failed e known = elim (Bool-cases (p.publish e)) [
    | inl taken ↦ rw taken (mark_event-Since s e known taken)
    | inr refused ↦ rw refused (nack_event-Since s time failed e)
  ]

  publish_each-Since :
      (s : Service) (time failed published : ℕ) (es : List OutboxRecord)
      → All (Known before) es
      → Settled Since (publish_each s p time failed published es)
  unfolding publish_each
  publish_each-Since s time failed published [] known = Settled-pure _
  publish_each-Since s time failed published (e ∷ es) known =
      Settled-bind _ _ (publish_event-Since s time failed e known.0)
        (λ sent. publish_each-Since s time _ _ es known.1)

-- A run of the publisher, whichever statements fail in it and whichever events the broker refuses,
-- drops, adds and alters no event, where no two rows of the outbox have one id: row by row the outbox
-- holds the same id, aggregate, type, payload and time, and a row whose publication time changed is
-- marked as published, and the broker took an event with its id, aggregate, type, payload and time.
pub publish_due_outbox-AllAdvanced :
    (s : Service) (p : Publisher) (owner : Text) (limit : ℕ) (w : World)
    → w.status ≡ idle
    → OneRowEach w.tables.outbox
    → AllAdvanced p w.tables.outbox (publish_due_outbox s p owner limit w).1.tables.outbox
unfolding publish_due_outbox
publish_due_outbox-AllAdvanced s p owner limit w rests one =
    let before = w.tables.outbox in
    (Settled.run
      (Settled-bind (now s) _ (Settled-now s) (λ time. Settled-bind (now s) _ (Settled-now s) (λ at.
        Settled-given _ _ (claim_outbox-Since p before at owner outbox_lease_ttl limit) (λ v es r h.
          publish_each-Since p before s time 0 0 es
            (claim_outbox-Known p before at owner outbox_lease_ttl limit v one r h)))))
      w (record { at_idle = rests; holds = AllAdvanced-refl before })).holds
