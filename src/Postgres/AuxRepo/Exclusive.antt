-- ===== src/Postgres/AuxRepo/Exclusive.antt =====
-- That a row under a lease is not handed out again (internal/adapters/postgres/aux_repo.go:
-- ClaimOutbox, ClaimWork).
use jg_backend_challenge_go.Prelude.{
  ℕ, ◌+◌, ◌<◌, ◌≡◌, ◌≢◌, refl, ◌⊎◌, inl, inr, true, some, List, [], ◌∷◌, All, Text, text_eq_iff,
  arith, ok,
}
use jg_backend_challenge_go.Prelude.Tables.Every.{
  All-pure, All-weaken, All-update_where, All-select, All-order_by, All-take,
}
use jg_backend_challenge_go.Ports.{OutboxRecord}
use jg_backend_challenge_go.Postgres.Db.{Tables, World, idle, OutboxRow}
use jg_backend_challenge_go.Postgres.Logic.{
  Triple, bind_rule, pure_rule, post_rule, pre_rule, query_rule, AtRest,
}
use jg_backend_challenge_go.Postgres.Logic.Unconstrained.{write_rule}
use jg_backend_challenge_go.Postgres.Committed.{transact_committed}
use jg_backend_challenge_go.Postgres.AuxRepo.{is_event}
use jg_backend_challenge_go.Postgres.AuxRepo.Claims.{
  is_free, is_unset, is_due_event, by_next_send, due_events, to_outbox_record, lease_event,
  lease_events, claim_outbox,
}

-- The ids among records.
abbrev pub Among : Text → List OutboxRecord → Type 0
Among id [] = ⊥
Among id (e ∷ es) = (id ≡ e.event_id) ⊎ Among id es

-- The rows with an id in `S` are leased until `expires`.
abbrev Leased : ℕ → (Text → Type 0) → Tables → Type 0
Leased expires S t = All (λ r. S r.event_id → r.lease_expires_at ≡ some expires) t.outbox

lease_event_rule :
    (owner : Text) (expires : ℕ) (id : Text) (S : Text → Type 0)
    → Triple
        (Leased expires S)
        (lease_event owner expires id)
        (λ _. Leased expires (λ x. S x ⊎ (x ≡ id)))
        (λ _. Unit {0})
unfolding lease_event
lease_event_rule owner expires id S = write_rule _ (λ t h.
    All-update_where (λ r. S r.event_id → r.lease_expires_at ≡ some expires) _ (is_event id) _
      t.outbox (λ r e p q. refl)
      (λ r e p q. elim q [ inl x ↦ p x | inr x ↦ absurd (cc ((text_eq_iff r.event_id id).1 x, e)) ])
      h)

lease_events_rule :
    (owner : Text) (expires : ℕ) (rs : List OutboxRow) (S : Text → Type 0)
    → Triple
        (Leased expires S)
        (lease_events owner expires rs)
        (λ es. Leased expires (λ x. S x ⊎ Among x es))
        (λ _. Unit {0})
unfolding lease_events to_outbox_record
lease_events_rule owner expires [] S =
    pure_rule []
      (λ t h. All-weaken _ _ t.outbox (λ r p q. elim q [ inl x ↦ p x | inr x ↦ absurd x ]) h)
lease_events_rule owner expires (r ∷ rs) S =
    bind_rule _ _ (lease_event_rule owner expires r.event_id S) (λ _.
      bind_rule _ _ (lease_events_rule owner expires rs (λ x. S x ⊎ (x ≡ r.event_id))) (λ es.
        pure_rule _ (λ t h.
          All-weaken _ _ t.outbox
            (λ u p q. elim q [
              | inl x ↦ p (inl (inl x))
              | inr (inl x) ↦ p (inl (inr x))
              | inr (inr x) ↦ p (inr x)
            ])
            h)))

-- What was claimed is leased.
claim_outbox-Leased :
    (now : ℕ) (owner : Text) (ttl limit : ℕ) (w : World) {es : List OutboxRecord}
    → w.status ≡ idle
    → (claim_outbox now owner ttl limit w).0 ≡ ok es
    → AtRest (Leased (now + ttl) (λ x. Among x es)) (claim_outbox now owner ttl limit w).1
unfolding claim_outbox
claim_outbox-Leased now owner ttl limit w {es} rests h =
    transact_committed (λ es. Leased (now + ttl) (λ x. Among x es)) _ w
      (bind_rule _ _ (query_rule {P = λ _. Unit {0}} (due_events now limit)) (λ rs.
        pre_rule _ (λ t _. All-pure _ t.outbox (λ r x. absurd x))
          (post_rule _ (λ es t. All-weaken _ _ t.outbox (λ r p q. p (inr q)))
            (lease_events_rule owner (now + ttl) rs (λ _. ⊥)))))
      (record { at_idle = rests; holds = tt }) h

not_due :
    (now expires : ℕ)
    → now < expires
    → (r : OutboxRow) → r.lease_expires_at ≡ some expires
    → is_due_event now r ≢ true
unfolding is_due_event is_free is_unset
not_due now expires early r leased due = ground arith

-- Whatever held of the records of the selected rows holds of the claimed ones.
pub lease_events_records :
    (owner : Text) (expires : ℕ) (P : OutboxRecord → Type 0) (rs : List OutboxRow) (C : Type 0)
    → Triple
        (λ _. C × All (λ r. P (to_outbox_record r)) rs)
        (lease_events owner expires rs)
        (λ es _. C × All P es)
        (λ _. Unit {0})
unfolding lease_events lease_event
lease_events_records owner expires P [] C = pure_rule [] (λ t h. h)
lease_events_records owner expires P (r ∷ rs) C =
    bind_rule _ _
      (write_rule {Q = λ _. (C × P (to_outbox_record r)) × All (λ r. P (to_outbox_record r)) rs} _
        (λ t h. ((h.0, h.1.0), h.1.1)))
      (λ _.
        bind_rule _ _ (lease_events_records owner expires P rs (C × P (to_outbox_record r)))
          (λ es. pure_rule _ (λ t h. (h.0.0, (h.0.1, h.1)))))

due_unleased :
    (now limit expires : ℕ) (S : Text → Type 0) (t : Tables)
    → now < expires
    → Leased expires S t
    → All (λ r. ¬ S r.event_id) (due_events now limit t)
unfolding due_events is_due_event is_free is_unset
due_unleased now limit expires S t early h = All-take _ limit _ (
    All-order_by _ by_next_send _ (
      All-select _ _ (is_due_event now) t.outbox
        (λ r due p q. not_due now expires early r (p q) due) h))

-- What one claim has returned, a later claim does not return again before the lease of the first
-- expires, where both commit and no other statement runs between them.
pub claim_outbox-exclusive :
    (now later : ℕ) (owner other : Text) (ttl other_ttl limit other_limit : ℕ) (w : World)
    {es es' : List OutboxRecord}
    → w.status ≡ idle
    → later < now + ttl
    → (claim_outbox now owner ttl limit w).0 ≡ ok es
    → (claim_outbox later other other_ttl other_limit (claim_outbox now owner ttl limit w).1).0
      ≡ ok es'
    → All (λ e'. ¬ Among e'.event_id es) es'
unfolding claim_outbox to_outbox_record
claim_outbox-exclusive now later owner other ttl other_ttl limit other_limit w {es} {es'} rests
      early first second =
    (transact_committed (λ es' _. All (λ e. ¬ Among e.event_id es) es') _ _
      (bind_rule _ _ (query_rule (due_events later other_limit)) (λ rs.
        pre_rule _
          (λ t h.
            (tt, rw h.1 (due_unleased later other_limit (now + ttl) (λ x. Among x es) t early h.0)))
          (post_rule _ (λ es' t h. h.1)
            (lease_events_records other (later + other_ttl) (λ e. ¬ Among e.event_id es) rs
              (Unit {0})))))
      (claim_outbox-Leased now owner ttl limit w rests first) second).holds
