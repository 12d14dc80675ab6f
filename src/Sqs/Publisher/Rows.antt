-- ===== src/Sqs/Publisher/Rows.antt =====
-- Rows of the outbox and the records that are made of them (internal/adapters/sqs/publisher.go).
use jg_backend_challenge_go.Prelude.{
  ℕ, ◌+◌, ◌≡◌, refl, sym, subst, ◌∙◌, ◌⊎◌, inl, some, ok, Bool, true, false, List, [], ◌∷◌, All,
  Text, update_where, if◌then◌else◌,
}
use jg_backend_challenge_go.Prelude.Tables.Every.{All-weaken, All-select, All-order_by, All-take}
use jg_backend_challenge_go.Ports.{OutboxRecord}
use jg_backend_challenge_go.Postgres.Db.{World, OutboxRow}
use jg_backend_challenge_go.Postgres.Logic.{AtRest, bind_rule, pre_rule, post_rule, query_rule}
use jg_backend_challenge_go.Postgres.Committed.{transact_committed}
use jg_backend_challenge_go.Postgres.AuxRepo.Claims.{
  to_outbox_record, claim_outbox, due_events, is_due_event, by_next_send,
}
use jg_backend_challenge_go.Postgres.AuxRepo.Exclusive.{lease_events_records}
use jg_backend_challenge_go.Sqs.Publisher.{Publisher}

-- The record has the event of the row.
pub record Carries (e : OutboxRecord) (r : OutboxRow) : Type 0 where
  pub aggregate : e.aggregate_id ≡ r.aggregate_id
  pub type : e.event_type ≡ r.event_type
  pub payload : e.payload ≡ r.payload
  pub time : e.occurred_at ≡ r.occurred_at

-- The broker took the event of the row, under its id.
abbrev pub Taken : Publisher → OutboxRow → Type 0
Taken p r = (e : OutboxRecord) × (e.event_id ≡ r.event_id) × Carries e r × (p.publish e ≡ true)

-- What a row may become: its event is the same, and it is marked as published only if the broker took
-- its event.
pub record Advanced (p : Publisher) (r r' : OutboxRow) : Type 0 where
  pub same_event : r'.event_id ≡ r.event_id
  pub same_aggregate : r'.aggregate_id ≡ r.aggregate_id
  pub same_type : r'.event_type ≡ r.event_type
  pub same_payload : r'.payload ≡ r.payload
  pub same_time : r'.occurred_at ≡ r.occurred_at
  pub published_taken :
      (r'.published_at ≡ r.published_at)
      ⊎ (Taken p r × ((time : ℕ) × (r'.published_at ≡ some time)))

-- Row by row.
pub data AllAdvanced (p : Publisher) : List OutboxRow → List OutboxRow → Type 0 where
  end : AllAdvanced p [] []
  next :
      {r r' : OutboxRow} {rs rs' : List OutboxRow}
      → Advanced p r r'
      → AllAdvanced p rs rs'
      → AllAdvanced p (r ∷ rs) (r' ∷ rs')

pub AllAdvanced-refl : {p : Publisher} (rs : List OutboxRow) → AllAdvanced p rs rs
AllAdvanced-refl [] = end
AllAdvanced-refl (r ∷ rs) =
    next
      (record {
        same_event = refl;
        same_aggregate = refl;
        same_type = refl;
        same_payload = refl;
        same_time = refl;
        published_taken = inl refl;
      })
      (AllAdvanced-refl rs)

Advanced-row :
    {p : Publisher} {r r' : OutboxRow} (f : OutboxRow → OutboxRow) (b : Bool)
    → Advanced p r r'
    → (b ≡ true → Advanced p r (f r'))
    → Advanced p r (if b then f r' else r')
Advanced-row f true a h = h refl
Advanced-row f false a h = a

pub update-AllAdvanced :
    {p : Publisher} (K : OutboxRow → Type 0) (q : OutboxRow → Bool) (f : OutboxRow → OutboxRow)
    {rs rs' : List OutboxRow}
    → ((r r' : OutboxRow) → K r → q r' ≡ true → Advanced p r r' → Advanced p r (f r'))
    → All K rs
    → AllAdvanced p rs rs'
    → AllAdvanced p rs (update_where q f rs')
unfolding update_where
update-AllAdvanced K q f h k end = end
update-AllAdvanced K q f h k (next {r} {r'} a rest) =
    next (Advanced-row f (q r') a (λ e. h r r' k.0 e a)) (update-AllAdvanced K q f h k.1 rest)

-- Rows of one id are one row, as the primary key of the table has it.
abbrev pub OneRowEach : List OutboxRow → Type 0
OneRowEach rows = All (λ u. All (λ r. r.event_id ≡ u.event_id → r ≡ u) rows) rows

-- The record has the event of every row of its id.
abbrev pub Known : List OutboxRow → OutboxRecord → Type 0
Known rows e = All (λ r. r.event_id ≡ e.event_id → Carries e r) rows

module _ (p : Publisher) (before : List OutboxRow) where
  Advanced-Carries : (u u' : OutboxRow) → Advanced p u u' → Carries (to_outbox_record u') u
  unfolding to_outbox_record
  Advanced-Carries u u' a = record {
    aggregate = a.same_aggregate;
    type = a.same_type;
    payload = a.same_payload;
    time = a.same_time;
  }

  rows-Known :
      {rs rs' : List OutboxRow}
      → All (λ u. All (λ r. r.event_id ≡ u.event_id → r ≡ u) before) rs
      → AllAdvanced p rs rs'
      → All (λ u'. Known before (to_outbox_record u')) rs'
  unfolding to_outbox_record
  rows-Known one end = tt
  rows-Known one (next {r = u} {r' = u'} a rest) = (
    All-weaken _ _ before
        (λ r same e.
          subst (Carries (to_outbox_record u')) (sym (same (e ∙ a.same_event)))
            (Advanced-Carries u u' a))
        one.0,
    rows-Known one.1 rest,
  )

  -- What is claimed has the events of the rows.
  pub claim_outbox-Known :
      (now : ℕ) (owner : Text) (ttl limit : ℕ) (w : World) {es : List OutboxRecord}
      → OneRowEach before
      → AtRest (λ t. AllAdvanced p before t.outbox) w
      → (claim_outbox now owner ttl limit w).0 ≡ ok es
      → All (Known before) es
  unfolding claim_outbox due_events
  claim_outbox-Known now owner ttl limit w one rests h =
      (transact_committed (λ es _. All (Known before) es) _ w
        (bind_rule _ _ (query_rule (due_events now limit)) (λ rs.
          pre_rule _
            (λ t q. (
              tt,
              rw q.1 (
                  All-take _ limit _ (
                    All-order_by _ by_next_send _ (
                      All-select _ _ (is_due_event now) t.outbox (λ r due k. k)
                        (rows-Known one q.0)))),
            ))
            (post_rule _ (λ es t q. q.1)
              (lease_events_records owner (now + ttl) (Known before) rs (Unit {0})))))
        rests h).holds
