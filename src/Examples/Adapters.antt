-- ===== src/Examples/Adapters.antt =====
-- The theorems on the adapters and the configuration, at concrete inputs.
use jg_backend_challenge_go.Prelude.{
  ℕ, ◌<◌, ◌≤◌, ◌≡◌, ◌≢◌, refl, sym, text_eq_iff, Bool, true, false, Option, none, some, List, [],
  ◌∷◌, All, ℤ, pos, Text, codes, text_eq, if◌then◌else◌, Result, ok, err, arith,
}
use jg_backend_challenge_go.Ports.{text}
use jg_backend_challenge_go.Postgres.Db.{Tables, OutboxRow, World, idle}
use jg_backend_challenge_go.Postgres.Calm.{calm}
use jg_backend_challenge_go.Postgres.AuxRepo.Claims.{claim_outbox, to_outbox_record}
use jg_backend_challenge_go.Postgres.AuxRepo.Exclusive.{Among, claim_outbox-exclusive}
use jg_backend_challenge_go.Wagering.Pages.{encode_cursor, decode_cursor}
use jg_backend_challenge_go.Wagering.Pages.Cursor.{decode_cursor-encode_cursor}
use jg_backend_challenge_go.Sqs.Publisher.{Publisher, sqs_publisher, publish_due_outbox}
use jg_backend_challenge_go.Sqs.Publisher.Rows.{AllAdvanced}
use jg_backend_challenge_go.Sqs.Publisher.Delivery.{publish_due_outbox-AllAdvanced}
use jg_backend_challenge_go.Sqs.Consumer.{Message, Transport}
use jg_backend_challenge_go.Http.Identity.{Identity, static_validator}
use jg_backend_challenge_go.Http.Bodies.{TransactionBody, transaction, transaction_body}
use jg_backend_challenge_go.Http.Middleware.{bearer_token}
use jg_backend_challenge_go.Http.Engine.{Request, Server, get_transactions, serve}
use jg_backend_challenge_go.Http.Scope.{MayRead, serve_shows_own}
use jg_backend_challenge_go.Http.Effects.{serve_refused}
use jg_backend_challenge_go.Http.Oidc.{
  JwksKey, Claims, Library, OidcValidator, identity_of, validate_token,
}
use jg_backend_challenge_go.Http.Oidc.Sound.{Vouched, validate_token-Vouched}
use jg_backend_challenge_go.App.Config.{Environment, workers, config_of, load_from_env}
use jg_backend_challenge_go.App.Config.Required.{Complete, load_from_env-Complete}
use jg_backend_challenge_go.Examples.Wagering.{service, placed, plain, plain-IsCodec}
use jg_backend_challenge_go.Examples.Replay.{tables, recorded}

-- Two events that wait.
abbrev first : OutboxRow
first = record {
  event_id = codes "e1";
  aggregate_id = codes "w";
  event_type = codes "t";
  payload = text (codes "p");
  occurred_at = 3;
  attempts = 0;
  next_send_at = 0;
  published_at = none;
  lease_owner = none;
  lease_expires_at = none;
}

abbrev second : OutboxRow
second = record first { event_id = codes "e2"; next_send_at = 5 }

abbrev waiting : World
waiting = calm (record tables { outbox = second ∷ first ∷ [] }) 7

first_claim : (claim_outbox 10 (codes "a") 30 1 waiting).0 ≡ ok (to_outbox_record first ∷ [])
unfolding claim_outbox jg_backend_challenge_go.Postgres.Db.transact
    jg_backend_challenge_go.Postgres.Db.query
    jg_backend_challenge_go.Postgres.AuxRepo.Claims.lease_events
    jg_backend_challenge_go.Postgres.AuxRepo.Claims.due_events
    jg_backend_challenge_go.Prelude.order_by jg_backend_challenge_go.Prelude.select
    jg_backend_challenge_go.Postgres.AuxRepo.Claims.is_due_event
    jg_backend_challenge_go.Postgres.AuxRepo.Claims.lease_event
    jg_backend_challenge_go.Postgres.Db.execute
first_claim = refl

second_claim :
    (claim_outbox 39 (codes "b") 30 9 (claim_outbox 10 (codes "a") 30 1 waiting).1).0
    ≡ ok (to_outbox_record second ∷ [])
unfolding claim_outbox jg_backend_challenge_go.Postgres.Db.transact
    jg_backend_challenge_go.Postgres.Db.query
    jg_backend_challenge_go.Postgres.AuxRepo.Claims.lease_events
    jg_backend_challenge_go.Postgres.AuxRepo.Claims.due_events
    jg_backend_challenge_go.Prelude.order_by jg_backend_challenge_go.Prelude.select
    jg_backend_challenge_go.Postgres.AuxRepo.Claims.is_due_event
    jg_backend_challenge_go.Postgres.AuxRepo.Claims.lease_event
    jg_backend_challenge_go.Postgres.Db.execute jg_backend_challenge_go.Prelude.update_where text_eq
second_claim = refl

claim_outbox-exclusive_example :
    All (λ e'. ¬ Among e'.event_id (to_outbox_record first ∷ [])) (to_outbox_record second ∷ [])
claim_outbox-exclusive_example =
    claim_outbox-exclusive 10 39 (codes "a") (codes "b") 30 30 1 9 waiting refl (omega arith)
      first_claim second_claim

-- A broker that takes the first event only.
abbrev broker : Publisher
broker =
    sqs_publisher (λ m. text_eq m.message_deduplication_id (codes "e1")) (codes "q") (λ seed k n. 0)

apart : first.event_id ≢ second.event_id
unfolding text_eq
apart h = cc ((text_eq_iff (codes "e1") (codes "e2")).1 h)

publish_due_outbox-AllAdvanced_example :
    AllAdvanced broker waiting.tables.outbox
      (publish_due_outbox service broker (codes "a") 100 waiting).1.tables.outbox
publish_due_outbox-AllAdvanced_example =
    publish_due_outbox-AllAdvanced service broker (codes "a") 100 waiting refl (
      ((λ e. refl), ((λ e. absurd (apart e)), tt)),
      (((λ e. absurd (apart (sym e))), ((λ e. refl), tt)), tt),
    )

abbrev delivery : Message
delivery = record {
  message_id = codes "m1";
  receipt_handle = codes "h1";
  body = codes "{}";
  receive_count = none;
}

abbrev transport : Transport
transport = record {
  decode = λ body. some (record {
    contents = record {
      provider_id = placed.provider_id;
      external_transaction_id = placed.external_id;
      player_id = placed.player_id;
      wallet_id = placed.wallet_id;
      round_id = placed.round_id;
      game_id = placed.game_id;
      kind = codes "BET";
      amount = placed.amount_text;
      currency = placed.currency;
      reference_external_id = [];
      idempotency_key = placed.idempotency_key;
    };
    correlation_id = [];
  });
  envelope_text = λ e. [];
  failure_text = λ e. [];
  intn = λ n. 0;
}

decode_cursor-encode_cursor_example :
    decode_cursor plain (encode_cursor plain (pos 12)) ≡ ok (pos 12)
decode_cursor-encode_cursor_example =
    decode_cursor-encode_cursor plain plain-IsCodec 12 (omega arith)

-- The provider of the recorded bet, and a token of its own.
abbrev provider : Identity
provider = record { provider_id = codes "P"; roles = λ role. text_eq role (codes "provider") }

abbrev server : Server
server = record {
  service = service;
  base64 = plain;
  validator = static_validator ((codes "t1", provider) ∷ []);
  ready_check = none;
}

abbrev asked : Request
asked = record {
  authorization = codes "Bearer t1";
  correlation_id = codes "c";
  idempotency_key = [];
  route = get_transactions (9 ∷ []);
}

shown : (serve server asked waiting).0.body ≡ transaction (transaction_body recorded)
unfolding serve jg_backend_challenge_go.Http.Middleware.correlation_middleware
    jg_backend_challenge_go.Prelude.Trimming.trim_space
    jg_backend_challenge_go.Http.Middleware.auth_middleware bearer_token
    jg_backend_challenge_go.Prelude.Trimming.split_2
    jg_backend_challenge_go.Prelude.Trimming.equal_fold static_validator text_eq
    jg_backend_challenge_go.Http.Transactions.get_transaction
    jg_backend_challenge_go.Postgres.TxRepo.get jg_backend_challenge_go.Postgres.Db.query
    jg_backend_challenge_go.Postgres.Db.call jg_backend_challenge_go.Prelude.find_first
    jg_backend_challenge_go.Http.Transactions.may_read jg_backend_challenge_go.Http.Bodies.json
shown = refl

serve_shows_own_example :
    (i : Identity) × (server.validator (bearer_token asked.authorization) ≡ some i)
    × MayRead i (transaction_body recorded).provider_id
serve_shows_own_example = serve_shows_own server asked waiting (transaction_body recorded) shown

-- A request with no token.
abbrev anonymous : Request
anonymous = record asked { authorization = [] }

unauthenticated : (serve server anonymous waiting).0.code ≡ 401
unfolding serve jg_backend_challenge_go.Http.Middleware.correlation_middleware
    jg_backend_challenge_go.Prelude.Trimming.trim_space
    jg_backend_challenge_go.Http.Middleware.auth_middleware bearer_token
    jg_backend_challenge_go.Http.Bodies.abort_error
unauthenticated = refl

serve_refused_example : (serve server anonymous waiting).1.tables ≡ waiting.tables
serve_refused_example =
    serve_refused server anonymous waiting (omega (arith, unauthenticated))
      (λ h. omega (arith, unauthenticated, h))

-- A token that names the key k1, which verifies it.
abbrev claims : Claims
claims = record {
  issuer = some (codes "/realms/wallet");
  expiration_time = some (some 100);
  not_before = some none;
  audience = some [];
  realm_roles = codes "provider" ∷ [];
  provider_id = codes "P";
}

abbrev library : Library
library = record {
  token_header = λ token. some (codes "RS256", codes "k1");
  verify = λ key token. some claims;
  url_path = λ url. some url;
  base64 = plain;
}

abbrev validator : OidcValidator
validator = record { issuer = codes "/realms/wallet"; audience = []; leeway = 0 }

abbrev key_document : List JwksKey
key_document = record { kid = codes "k1"; kty = codes "RSA"; n = codes "N"; e = codes "E" } ∷ []

validated_token :
    (validate_token library validator 90
      (some key_document)
      (codes "t")
      (record { keys = []; fetched = 0 })).0
    ≡ some (identity_of claims)
unfolding validate_token text_eq
validated_token = refl

validate_token-Vouched_example :
    Vouched library validator 90
      (codes "t")
      (identity_of claims)
      (validate_token library validator 90
        (some key_document)
        (codes "t")
        (record { keys = []; fetched = 0 })).1
validate_token-Vouched_example =
    validate_token-Vouched library validator 90 (some key_document) (codes "t")
      (record { keys = []; fetched = 0 }) (identity_of claims) validated_token

abbrev environment : Environment
environment key =
    if text_eq key (codes "APP_MODE")
    then codes "workers"
    else if text_eq key (codes "DATABASE_URL")
    then codes "postgres://db"
    else []

loaded : load_from_env environment ≡ ok (config_of environment workers)
unfolding load_from_env text_eq
loaded = refl

load_from_env-Complete_example : Complete environment (config_of environment workers)
load_from_env-Complete_example =
    load_from_env-Complete environment (config_of environment workers) loaded
