-- ===== src/Sqs/Consumer/Handling.antt =====
-- When a message leaves the queue, and for how long it is deferred (internal/adapters/sqs/consumer.go).
use jg_backend_challenge_go.Prelude.{◌≡◌, ◌≢◌, List, [], ◌∷◌, All, Text, ok, err}
use jg_backend_challenge_go.Ports.{Failure}
use jg_backend_challenge_go.Postgres.Db.{World}
use jg_backend_challenge_go.Wagering.Service.{Service, SubmitResult}
use jg_backend_challenge_go.Wagering.Submit.{submit}
use jg_backend_challenge_go.Sqs.Envelope.{Envelope, parse_envelope}
use jg_backend_challenge_go.Sqs.Consumer.{
  Message, QueueCall, delete_message, Transport, Handled, to_dlq, submit_input,
}

-- No call takes the message from the queue.
abbrev Stays : List QueueCall → Type 0
Stays calls = All (λ c. (receipt : Text) → c ≢ delete_message receipt) calls

-- How a delivery ends: `Submit` returned and the message is deleted; or its body went to the
-- dead-letter queue before it was deleted; or it stays.
pub data Ending (s : Service) (q : Transport) (m : Message) (w : World) (h : Handled) : Type 0 where
  settled :
      (env : Envelope) (r : SubmitResult)
      → parse_envelope q.decode m.body ≡ ok env
      → (submit s (submit_input m env) w).0 ≡ ok r
      → h.calls ≡ delete_message m.receipt_handle ∷ []
      → h.world ≡ (submit s (submit_input m env) w).1
      → Ending s q m w h
  buried :
      (group reason cause : Text)
      → h.calls ≡ to_dlq m group reason cause ∷ delete_message m.receipt_handle ∷ []
      → h.world.tables ≡ w.tables
      → Ending s q m w h
  returned :
      (e : Failure)
      → h.answer ≡ err e
      → Stays h.calls
      → h.world.tables ≡ w.tables
      → Ending s q m w h
