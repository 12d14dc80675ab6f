-- ===== src/Wagering/Events.antt =====
-- The events staged in the outbox (internal/wagering/events.go). The payload is the value that is
-- marshalled, its members in the order of the source; its time is kept in nanoseconds.
use jg_backend_challenge_go.Prelude.{
  ℕ, ℤ, pos, Bool, true, false, List, [], ◌∷◌, Text, codes, is_empty,
}
use jg_backend_challenge_go.Domain.Money.{Money}
use jg_backend_challenge_go.Domain.Money.Format.{to_text}
use jg_backend_challenge_go.Domain.LedgerEntry.{LedgerDirection, debit, credit, other}
use jg_backend_challenge_go.Ports.{Json, Members, text, number, object, end, member}
use jg_backend_challenge_go.Postgres.Db.{M, pure, ◌>>=◌, ◌>>◌}
use jg_backend_challenge_go.Postgres.AuxRepo.{enqueue_outbox}
use jg_backend_challenge_go.Wagering.Service.{
  Service, fresh_id, now, SubmitInput, event_processed, event_rejected, event_balance,
  event_pending_ref,
}
use jg_backend_challenge_go.Wagering.Hash.{kind_text}

abbrev pub members : List (Text × Json) → Members
members [] = end
members ((k, v) ∷ ms) = member k v (members ms)

-- `string(dir)`
unfoldable pub direction_text : LedgerDirection → Text
direction_text debit = codes "DEBIT"
direction_text credit = codes "CREDIT"
direction_text (other d) = d

-- `dir == ""`
unfoldable pub no_direction : LedgerDirection → Bool
no_direction (other d) = is_empty d
no_direction _ = false

unfoldable pub event_payload : Text → Text → Text → Text → ℕ → ℤ → Json → Json
event_payload event_id event_type wallet_id correlation_id time wallet_version contents = object (
    members (
      (codes "eventId", text event_id)
      ∷ (codes "eventType", text event_type)
      ∷ (codes "aggregateId", text wallet_id)
      ∷ (codes "correlationId", text correlation_id)
      ∷ (codes "occurredAt", number (pos time))
      ∷ (codes "version", number wallet_version)
      ∷ (codes "data", contents)
      ∷ []))

-- `EnqueueOutbox` of one event with a fresh id. The time that the repository stamps on the row is
-- read behind the event's own.
unfoldable pub stage : Service → Text → Text → Text → ℕ → ℤ → Json → M (Unit {0})
unfolding event_payload fresh_id now
stage s event_type wallet_id correlation_id time wallet_version contents = do
  event_id ← fresh_id s
  stamp ← now s
  enqueue_outbox stamp (record {
    event_id = event_id;
    aggregate_id = wallet_id;
    event_type = event_type;
    payload =
        event_payload event_id event_type wallet_id correlation_id time wallet_version contents;
    attempts = 0;
    occurred_at = 0;
  })

abbrev pub processed_data : Text → Text → ℤ → SubmitInput → Money → Json
processed_data wallet_id tx_id version input after = object (
    members (
      (codes "transactionId", text tx_id)
      ∷ (codes "kind", text (kind_text input.kind))
      ∷ (codes "providerId", text input.provider_id)
      ∷ (codes "externalTransactionId", text input.external_id)
      ∷ (codes "playerId", text input.player_id)
      ∷ (codes "walletId", text wallet_id)
      ∷ (codes "amount", text input.amount_text)
      ∷ (codes "currency", text input.currency)
      ∷ (codes "balance", text (to_text after))
      ∷ (codes "walletVersion", number version)
      ∷ []))

abbrev pub balance_data : Text → Text → ℤ → Text → Text → Money → Money → LedgerDirection → Json
balance_data wallet_id tx_id version amount_text currency after before dir = object (
    members (
      (codes "walletId", text wallet_id)
      ∷ (codes "transactionId", text tx_id)
      ∷ (codes "direction", text (direction_text dir))
      ∷ (
        codes "money",
        object
            (members ((codes "amount", text amount_text) ∷ (codes "currency", text currency) ∷ [])),
      )
      ∷ (codes "balanceBefore", text (to_text before))
      ∷ (codes "balanceAfter", text (to_text after))
      ∷ (codes "walletVersion", number version)
      ∷ []))

abbrev pub balance_event :
    Bool
    → Service
    → Text
    → ℤ
    → Text
    → SubmitInput
    → Money
    → Money
    → LedgerDirection
    → ℕ
    → M (Unit {0})
balance_event true s wallet_id version tx_id input after before dir time = pure tt
balance_event false s wallet_id version tx_id input after before dir time =
    stage s event_balance wallet_id input.correlation_id time version
      (balance_data wallet_id tx_id version input.amount_text input.currency after before dir)

unfoldable pub emit_processed :
    Service → Text → ℤ → Text → SubmitInput → Money → Money → LedgerDirection → M (Unit {0})
emit_processed s wallet_id version tx_id input after before dir = do
  time ← now s
  stage s event_processed wallet_id input.correlation_id time version
      (processed_data wallet_id tx_id version input after)
  balance_event (no_direction dir) s wallet_id version tx_id input after before dir time

unfoldable pub emit_rejected : Service → Text → ℤ → Text → SubmitInput → Money → Text → M (Unit {0})
emit_rejected s wallet_id version tx_id input balance code = do
  time ← now s
  stage s event_rejected wallet_id input.correlation_id time version (
      object (
        members (
          (codes "transactionId", text tx_id)
          ∷ (codes "kind", text (kind_text input.kind))
          ∷ (codes "providerId", text input.provider_id)
          ∷ (codes "externalTransactionId", text input.external_id)
          ∷ (codes "playerId", text input.player_id)
          ∷ (codes "walletId", text wallet_id)
          ∷ (codes "amount", text input.amount_text)
          ∷ (codes "currency", text input.currency)
          ∷ (codes "failureCode", text code)
          ∷ (codes "balance", text (to_text balance))
          ∷ (codes "walletVersion", number version)
          ∷ [])))

unfoldable pub emit_pending_ref : Service → Text → ℤ → Text → SubmitInput → M (Unit {0})
emit_pending_ref s wallet_id version tx_id input = do
  time ← now s
  stage s event_pending_ref wallet_id input.correlation_id time version (
      object (
        members (
          (codes "transactionId", text tx_id)
          ∷ (codes "kind", text (kind_text input.kind))
          ∷ (codes "providerId", text input.provider_id)
          ∷ (codes "externalTransactionId", text input.external_id)
          ∷ (codes "playerId", text input.player_id)
          ∷ (codes "walletId", text wallet_id)
          ∷ (codes "referenceExternalTransactionId", text input.reference_external)
          ∷ (codes "walletVersion", number version)
          ∷ [])))
