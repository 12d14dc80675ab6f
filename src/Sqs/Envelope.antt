-- ===== src/Sqs/Envelope.antt =====
-- The body of a message (internal/adapters/sqs/envelope.go). The JSON decoder is given: the envelope,
-- or nothing where it returns an error.
use jg_backend_challenge_go.Prelude.{
  ◌||◌, Option, none, some, Text, is_empty, Result, ok, err, fail_if, ◌>>=◌, ◌>>◌,
}

pub record OperationData : Type 0 where
  pub provider_id : Text
  pub external_transaction_id : Text
  pub player_id : Text
  pub wallet_id : Text
  pub round_id : Text
  pub game_id : Text
  pub kind : Text
  pub amount : Text
  pub currency : Text
  pub reference_external_id : Text
  pub idempotency_key : Text

pub record Envelope : Type 0 where
  pub contents : OperationData  -- Data
  pub correlation_id : Text

-- `envelopeError`, its text replaced by the defect.
pub data EnvelopeError : Type 0 where
  invalid_json ids_required idempotency_key_required kind_required : EnvelopeError

abbrev pub decoded : Option Envelope → Result EnvelopeError Envelope
decoded none = err invalid_json
decoded (some env) = ok env

unfoldable pub check_envelope : Envelope → Result EnvelopeError Envelope
check_envelope env = do
  fail_if (is_empty env.contents.provider_id || is_empty env.contents.external_transaction_id)
      ids_required
  fail_if (is_empty env.contents.idempotency_key) idempotency_key_required
  fail_if (is_empty env.contents.kind) kind_required
  ok env

unfoldable pub parse_envelope : (Text → Option Envelope) → Text → Result EnvelopeError Envelope
unfolding check_envelope
parse_envelope decode body = do env ← decoded (decode body); check_envelope env
