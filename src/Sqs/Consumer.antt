-- ===== src/Sqs/Consumer.antt =====
-- The treatment of one delivery (internal/adapters/sqs/consumer.go). The calls of the queue are listed
-- in their order; the broker's answer decides only about log lines and counters, which are left out, as
-- are the spans and the polling loop.
pub mod Handling
use jg_backend_challenge_go.Prelude.{
  ℕ, zero, suc, ◌+◌, ◌-◌, ◌/◌, ◌^◌, Bool, true, false, Option, none, some, List, [], ◌∷◌, ◌++◌, ℤ,
  pos, negsuc, ltb, length, take, parse_int, Text, codes, is_empty, text_eq, if◌then◌else◌, Result,
  ok, err,
}
use jg_backend_challenge_go.Domain.Transaction.{TransactionKind}
use jg_backend_challenge_go.Domain.Transaction as Transaction
use jg_backend_challenge_go.Ports.{Failure, poison, panicked}
use jg_backend_challenge_go.Postgres.Db.{World}
use jg_backend_challenge_go.Wagering.Service.{Service, SubmitInput, SubmitResult, Outcome}
use jg_backend_challenge_go.Wagering.Submit.{submit}
use jg_backend_challenge_go.Sqs.Envelope.{Envelope, EnvelopeError, parse_envelope}

abbrev pub consumer_name : Text
consumer_name = codes "wallet-consumer"

-- A delivery; the count is the attribute ApproximateReceiveCount.
pub record Message : Type 0 where
  pub message_id : Text
  pub receipt_handle : Text
  pub body : Text
  pub receive_count : Option Text

-- What the consumer asks of the queue.
pub data QueueCall : Type 0 where
  -- The body, the group, the deduplication id, the reason and the detail.
  send_dlq : Text → Text → Text → Text → Text → QueueCall
  delete_message : Text → QueueCall
  change_visibility : Text → ℕ → QueueCall

-- What the adapter is given: the JSON decoder, the texts of errors and `rand.Intn`.
pub record Transport : Type 0 where
  pub decode : Text → Option Envelope
  pub envelope_text : EnvelopeError → Text
  pub failure_text : Failure → Text
  pub intn : ℕ → ℕ

-- `domain.TransactionKind(d.Kind)`
unfoldable pub kind_of : Text → TransactionKind
kind_of k =
    if text_eq k (codes "OPENING")
    then Transaction.opening
    else if text_eq k (codes "BET")
    then Transaction.bet
    else if text_eq k (codes "WIN")
    then Transaction.win
    else if text_eq k (codes "LOSS")
    then Transaction.loss
    else if text_eq k (codes "REFUND")
    then Transaction.refund
    else if text_eq k (codes "ROLLBACK")
    then Transaction.rollback
    else Transaction.other k

unfoldable pub truncate : Text → ℕ → Text
truncate s n = if ltb n (length s) then take n s else s

-- `strconv.Atoi` of the attribute if that is positive, and 1 otherwise.
unfoldable pub receive_count : Option Text → ℕ
receive_count none = 1
receive_count (some raw) = elim (parse_int raw) [
  | none ↦ 1
  | some (pos zero) ↦ 1
  | some (pos (suc n)) ↦ suc n
  | some (negsuc n) ↦ 1
]

abbrev pub at_most : ℕ → ℕ → ℕ
at_most limit n = if ltb limit n then limit else n

-- The seconds until the message is visible again: `draw` is `rand.Intn(1000)`.
unfoldable pub visibility_delay : ℕ → ℕ → ℕ
visibility_delay n draw =
    let delay = at_most 30 (2 ^ at_most 5 (n - 1)) in at_most 30 (delay + draw / 1000)

unfoldable pub defer_visibility : Transport → Message → List QueueCall
defer_visibility q m =
    change_visibility m.receipt_handle
      (visibility_delay (receive_count m.receive_count) (q.intn 1000))
    ∷ []

unfoldable pub to_dlq : Message → Text → Text → Text → QueueCall
unfolding truncate
to_dlq m group reason cause =
    send_dlq m.body (if is_empty group then codes "invalid" else group)
      (m.message_id ++ codes "-dlq") reason (truncate cause 500)

unfoldable pub submit_input : Message → Envelope → SubmitInput
unfolding kind_of
submit_input m env = record {
  provider_id = env.contents.provider_id;
  external_id = env.contents.external_transaction_id;
  idempotency_key = env.contents.idempotency_key;
  player_id = env.contents.player_id;
  wallet_id = env.contents.wallet_id;
  round_id = env.contents.round_id;
  game_id = env.contents.game_id;
  kind = kind_of env.contents.kind;
  amount_text = env.contents.amount;
  currency = env.contents.currency;
  reference_external = env.contents.reference_external_id;
  consumer_name = consumer_name;
  message_id = m.message_id;
  correlation_id = if is_empty env.correlation_id then m.message_id else env.correlation_id;
}

-- The answer of `Handle`, the calls of the queue, and the world behind them.
pub record Handled : Type 0 where
  pub answer : Result Failure (Unit {0})
  pub calls : List QueueCall
  pub world : World

-- The errors of `Submit`; a panic ends the process before any further call.
unfoldable pub refused : Transport → Message → Envelope → Failure → World → Handled
unfolding defer_visibility
refused q m env (poison id stored incoming) w = record {
  answer = ok tt;
  calls =
      to_dlq m env.contents.wallet_id (codes "poison") (q.failure_text (poison id stored incoming))
      ∷ delete_message m.receipt_handle
      ∷ [];
  world = w;
}
refused q m env panicked w = record { answer = err panicked; calls = []; world = w }
refused q m env e w = record { answer = err e; calls = defer_visibility q m; world = w }

-- The `switch` behind `Submit`.
abbrev pub conclude : Transport → Message → Envelope → Result Failure SubmitResult × World → Handled
conclude q m env (ok r, w) = record {
  answer = ok tt;
  calls = delete_message m.receipt_handle ∷ [];
  world = w;
}
conclude q m env (err e, w) = refused q m env e w

-- What follows `ParseEnvelope`.
abbrev pub handle_parsed :
    Service → Transport → Message → World → Result EnvelopeError Envelope → Handled
handle_parsed s q m w (err e) = record {
  answer = ok tt;
  calls =
      to_dlq m (codes "invalid") (codes "malformed") (q.envelope_text e)
      ∷ delete_message m.receipt_handle
      ∷ [];
  world = w;
}
handle_parsed s q m w (ok env) = conclude q m env (submit s (submit_input m env) w)

unfoldable pub handle : Service → Transport → Message → World → Handled
handle s q m w = handle_parsed s q m w (parse_envelope q.decode m.body)
