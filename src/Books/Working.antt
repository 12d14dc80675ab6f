-- ===== src/Books/Working.antt =====
-- The workers, the consumer and the books: ProcessDueWork of internal/wagering/work.go,
-- PublishDueOutbox of internal/adapters/sqs/publisher.go and Handle of consumer.go beside it.
use jg_backend_challenge_go.Prelude.{
  ℕ, ◌≡◌, refl, sym, subst, Bool, List, [], ◌∷◌, Text, Result, ok, err, arith,
}
use jg_backend_challenge_go.Ports.{
  OutboxRecord, WorkItem, Failure, correctable, conflict, poison, coded, database, wallet_vanished,
  panicked, unknown_direction,
}
use jg_backend_challenge_go.Postgres.Db.{World, OutboxRow, WorkRow}
use jg_backend_challenge_go.Postgres.Logic.{AtRest}
use jg_backend_challenge_go.Postgres.AuxRepo.Claims.{
  lease_event, lease_events, claim_outbox, mark_outbox_published, nack_outbox, lease_work_row,
  lease_work, claim_work,
}
use jg_backend_challenge_go.Wagering.Service.{Service}
use jg_backend_challenge_go.Wagering.Settled.{
  settled_rules, Settled-bind, Settled-pure, Settled-execute,
}
use jg_backend_challenge_go.Wagering.Work.{process_work_item}
use jg_backend_challenge_go.Wagering.Work.Due.{settled_or_skip, settle_each, process_due_work}
use jg_backend_challenge_go.Sqs.Publisher.{
  Publisher, nack_event, mark_event, publish_event, publish_each, publish_due_outbox,
}
use jg_backend_challenge_go.Wagering.Service.{SubmitResult}
use jg_backend_challenge_go.Wagering.Submit.{submit}
use jg_backend_challenge_go.Sqs.Envelope.{Envelope, EnvelopeError, parse_envelope}
use jg_backend_challenge_go.Sqs.Consumer.{
  Transport, Message, submit_input, refused, conclude, handle_parsed, handle,
}
use jg_backend_challenge_go.Books.{Books}
use jg_backend_challenge_go.Books.Frames.{
  Frame, Quiet, Quiet-pure, Quiet-bind, Quiet-query, Quiet-execute,
}
use jg_backend_challenge_go.Books.Preserving.{Preserves-Quiet}
use jg_backend_challenge_go.Books.Resting.{Rests, Rests-transact}
use jg_backend_challenge_go.Books.Resuming.{process_work_item-AtRest}
use jg_backend_challenge_go.Books.Submitting.{Rests-submit}

Quiet-lease_work_row :
    (owner : Text) (expires : ℕ) (id : Text) → Quiet (lease_work_row owner expires id)
unfolding lease_work_row
Quiet-lease_work_row owner expires id = Quiet-execute _ (λ t t' h. ground arith)

Quiet-lease_work :
    (owner : Text) (expires : ℕ) (rs : List WorkRow) → Quiet (lease_work owner expires rs)
unfolding lease_work
Quiet-lease_work owner expires [] = Quiet-pure []
Quiet-lease_work owner expires (r ∷ rs) =
    Quiet-bind _ _ (Quiet-lease_work_row owner expires r.transaction_id)
      (λ _. Quiet-bind _ _ (Quiet-lease_work owner expires rs) (λ items. Quiet-pure _))

Rests-claim_work : (now : ℕ) (owner : Text) (ttl limit : ℕ) → Rests (claim_work now owner ttl limit)
unfolding claim_work
Rests-claim_work now owner ttl limit =
    Rests-transact _
      (Preserves-Quiet _ (Quiet-bind _ _ (Quiet-query _) (λ rs. Quiet-lease_work owner _ rs)))

skipped_AtRest :
    (r : Result Failure Bool × World)
    → AtRest (Frame Books) r.1
    → AtRest
        (Frame Books)
        (elim r.0 as (λ _. Result Failure Bool × World) [
          | ok b ↦ (ok b, r.1)
          | err e ↦ (ok Bool.false, r.1)
        ]).1
skipped_AtRest (ok b, w) h = h
skipped_AtRest (err e, w) h = h

Rests-settled_or_skip : (s : Service) (item : WorkItem) → Rests (settled_or_skip s item)
unfolding settled_or_skip
Rests-settled_or_skip s item = record {
  run = λ w h. skipped_AtRest (process_work_item s item w) (process_work_item-AtRest s item w h);
}

Rests-settle_each :
    (s : Service) (settled : ℕ) (items : List WorkItem) → Rests (settle_each s settled items)
unfolding settle_each
Rests-settle_each s settled [] = Settled-pure _
Rests-settle_each s settled (item ∷ items) =
    Settled-bind _ _ (Rests-settled_or_skip s item) (λ done. Rests-settle_each s _ items)

pub Rests-process_due_work :
    (s : Service) (owner : Text) (limit : ℕ) → Rests (process_due_work s owner limit)
unfolding process_due_work
Rests-process_due_work s owner limit = search (settled_rules, Rests-claim_work, Rests-settle_each)

Quiet-lease_event : (owner : Text) (expires : ℕ) (id : Text) → Quiet (lease_event owner expires id)
unfolding lease_event
Quiet-lease_event owner expires id = Quiet-execute _ (λ t t' h. ground arith)

Quiet-lease_events :
    (owner : Text) (expires : ℕ) (rs : List OutboxRow) → Quiet (lease_events owner expires rs)
unfolding lease_events
Quiet-lease_events owner expires [] = Quiet-pure []
Quiet-lease_events owner expires (r ∷ rs) =
    Quiet-bind _ _ (Quiet-lease_event owner expires r.event_id)
      (λ _. Quiet-bind _ _ (Quiet-lease_events owner expires rs) (λ records. Quiet-pure _))

Rests-claim_outbox :
    (now : ℕ) (owner : Text) (ttl limit : ℕ) → Rests (claim_outbox now owner ttl limit)
unfolding claim_outbox
Rests-claim_outbox now owner ttl limit =
    Rests-transact _
      (Preserves-Quiet _ (Quiet-bind _ _ (Quiet-query _) (λ rs. Quiet-lease_events owner _ rs)))

Rests-mark_outbox_published : (now : ℕ) (id : Text) → Rests (mark_outbox_published now id)
unfolding mark_outbox_published
Rests-mark_outbox_published now id = Settled-execute _ (λ t t' h e. ground arith)

Rests-nack_outbox : (id : Text) (attempts next : ℕ) → Rests (nack_outbox id attempts next)
unfolding nack_outbox
Rests-nack_outbox id attempts next = Settled-execute _ (λ t t' h e. ground arith)

module _ (s : Service) (p : Publisher) where
  Rests-publish_event :
      (time failed : ℕ) (e : OutboxRecord) → Rests (publish_event s p time failed e)
  unfolding publish_event nack_event mark_event
  Rests-publish_event time failed e =
      search (settled_rules, Rests-mark_outbox_published, Rests-nack_outbox)

  Rests-publish_each :
      (time failed published : ℕ) (es : List OutboxRecord)
      → Rests (publish_each s p time failed published es)
  unfolding publish_each
  Rests-publish_each time failed published [] = Settled-pure _
  Rests-publish_each time failed published (e ∷ es) =
      Settled-bind _ _ (Rests-publish_event time failed e) (λ sent. Rests-publish_each time _ _ es)

  pub Rests-publish_due_outbox :
      (owner : Text) (limit : ℕ) → Rests (publish_due_outbox s p owner limit)
  unfolding publish_due_outbox
  Rests-publish_due_outbox owner limit =
      search (settled_rules, Rests-claim_outbox, Rests-publish_each)

-- A delivery: `Submit`, or nothing.
refused_world :
    (q : Transport) (m : Message) (env : Envelope) (e : Failure) (w : World)
    → (refused q m env e w).world ≡ w
unfolding refused
refused_world q m env (poison id stored incoming) w = refl
refused_world q m env panicked w = refl
refused_world q m env (correctable code) w = refl
refused_world q m env (conflict code) w = refl
refused_world q m env (coded c) w = refl
refused_world q m env (database f) w = refl
refused_world q m env wallet_vanished w = refl
refused_world q m env unknown_direction w = refl

conclude-AtRest :
    (q : Transport) (m : Message) (env : Envelope) (r : Result Failure SubmitResult × World)
    → AtRest (Frame Books) r.1
    → AtRest (Frame Books) (conclude q m env r).world
conclude-AtRest q m env (ok r, w) h = h
conclude-AtRest q m env (err e, w) h =
    subst (AtRest (Frame Books)) (sym (refused_world q m env e w)) h

parsed-AtRest :
    (s : Service) (q : Transport) (m : Message) (w : World) (r : Result EnvelopeError Envelope)
    → AtRest (Frame Books) w
    → AtRest (Frame Books) (handle_parsed s q m w r).world
parsed-AtRest s q m w (err e) h = h
parsed-AtRest s q m w (ok env) h =
    conclude-AtRest q m env (submit s (submit_input m env) w)
      ((Rests-submit s (submit_input m env)).run w h)

pub delivery-AtRest :
    (s : Service) (q : Transport) (m : Message) (w : World)
    → AtRest (Frame Books) w
    → AtRest (Frame Books) (handle s q m w).world
unfolding handle
delivery-AtRest s q m w h = parsed-AtRest s q m w (parse_envelope q.decode m.body) h
