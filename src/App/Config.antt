-- ===== src/App/Config.antt =====
-- The configuration from the environment (internal/app/config.go). A variable that is not set reads "".
pub mod Required
use jg_backend_challenge_go.Prelude.{
  Bool, true, false, not, ◌&&◌, Text, codes, text_eq, is_empty, if◌then◌else◌, Result, ok, err,
  fail_if, ◌>>=◌, ◌>>◌,
}

pub data Mode : Type 0 where
  api consumer workers : Mode

pub record Config : Type 0 where
  pub mode : Mode
  pub http_addr : Text
  pub admin_addr : Text
  pub database_url : Text
  pub sqs_endpoint : Text
  pub oidc_issuer : Text
  pub oidc_audience : Text
  pub aws_region : Text
  pub aws_access_key : Text
  pub aws_secret_key : Text
  pub sqs_tx_queue : Text
  pub sqs_tx_dlq : Text
  pub sqs_events_queue : Text
  pub otel_stdout : Bool

pub data ConfigError : Type 0 where
  invalid_app_mode database_url_required oidc_issuer_required : ConfigError

-- `os.Getenv`
abbrev pub Environment : Type 0
Environment = Text → Text

unfoldable pub getenv : Environment → Text → Text → Text
getenv env key fallback = if is_empty (env key) then fallback else env key

-- `Mode(…)` and the `switch` on it.
unfoldable pub mode_of : Text → Result ConfigError Mode
mode_of mode =
    if text_eq mode (codes "api")
    then ok api
    else if text_eq mode (codes "consumer")
    then ok consumer
    else if text_eq mode (codes "workers")
    then ok workers
    else err invalid_app_mode

abbrev pub is_api : Mode → Bool
is_api api = true
is_api _ = false

unfoldable pub config_of : Environment → Mode → Config
unfolding getenv
config_of env mode = record {
  mode = mode;
  http_addr = getenv env (codes "HTTP_ADDR") (codes ":8080");
  admin_addr = getenv env (codes "ADMIN_ADDR") (codes ":9090");
  database_url = env (codes "DATABASE_URL");
  sqs_endpoint = getenv env (codes "SQS_ENDPOINT") (codes "http://ministack:4566");
  oidc_issuer = env (codes "OIDC_ISSUER");
  oidc_audience = env (codes "OIDC_AUDIENCE");
  aws_region = getenv env (codes "AWS_REGION") (codes "us-east-1");
  aws_access_key = env (codes "AWS_ACCESS_KEY_ID");
  aws_secret_key = env (codes "AWS_SECRET_ACCESS_KEY");
  sqs_tx_queue = getenv env (codes "SQS_TX_QUEUE") (codes "wager-transactions.fifo");
  sqs_tx_dlq = getenv env (codes "SQS_TX_DLQ") (codes "wager-transactions-dlq.fifo");
  sqs_events_queue = getenv env (codes "SQS_EVENTS_QUEUE") (codes "wager-events.fifo");
  otel_stdout = not (text_eq (getenv env (codes "OTEL_TRACES_STDOUT") (codes "1")) (codes "0"));
}

unfoldable pub load_from_env : Environment → Result ConfigError Config
unfolding getenv mode_of config_of
load_from_env env = do
  mode ← mode_of (getenv env (codes "APP_MODE") (codes "api"))
  fail_if (is_empty (config_of env mode).database_url) database_url_required
  fail_if (is_api mode && is_empty (config_of env mode).oidc_issuer) oidc_issuer_required
  ok (config_of env mode)
