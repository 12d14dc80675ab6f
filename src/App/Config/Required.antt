-- ===== src/App/Config/Required.antt =====
-- What a process can rely on (internal/app/config.go).
use jg_backend_challenge_go.Prelude.{
  ◌≡◌, ◌≢◌, ◌⊎◌, refl, ap, ◌∙◌, subst, inl, inr, [], ◌∷◌, text_eq, text_eq_iff, if◌then◌else◌, Bool,
  true, false, ◌&&◌, Text, codes, is_empty, Result, ok, err, fail_if, ◌>>=◌, ◌>>◌, Bool-cases,
}
use jg_backend_challenge_go.App.Config.{
  Mode, api, consumer, workers, Config, ConfigError, invalid_app_mode, database_url_required,
  oidc_issuer_required, Environment, getenv, mode_of, is_api, config_of, load_from_env,
}

-- What a variable with a fallback gives.
abbrev pub Reads : Text → Text → Text → Type 0
Reads variable fallback value =
    ((variable ≡ []) × (value ≡ fallback)) ⊎ ((variable ≢ []) × (value ≡ variable))

abbrev pub mode_name : Mode → Text
mode_name api = codes "api"
mode_name consumer = codes "consumer"
mode_name workers = codes "workers"

-- Every field is that of its variable, the database URL is there, and the issuer where the API runs;
-- no address, endpoint or queue is empty.
pub record Complete (env : Environment) (c : Config) : Type 0 where
  pub mode_named : Reads (env (codes "APP_MODE")) (codes "api") (mode_name c.mode)
  pub database_read : c.database_url ≡ env (codes "DATABASE_URL")
  pub database : is_empty c.database_url ≡ false
  pub issuer_read : c.oidc_issuer ≡ env (codes "OIDC_ISSUER")
  pub issuer : c.mode ≡ api → is_empty c.oidc_issuer ≡ false
  pub audience_read : c.oidc_audience ≡ env (codes "OIDC_AUDIENCE")
  pub address_read : Reads (env (codes "HTTP_ADDR")) (codes ":8080") c.http_addr
  pub address : is_empty c.http_addr ≡ false
  pub admin_read : Reads (env (codes "ADMIN_ADDR")) (codes ":9090") c.admin_addr
  pub admin : is_empty c.admin_addr ≡ false
  pub endpoint_read :
      Reads (env (codes "SQS_ENDPOINT")) (codes "http://ministack:4566") c.sqs_endpoint
  pub endpoint : is_empty c.sqs_endpoint ≡ false
  pub transactions_read :
      Reads (env (codes "SQS_TX_QUEUE")) (codes "wager-transactions.fifo") c.sqs_tx_queue
  pub transactions : is_empty c.sqs_tx_queue ≡ false
  pub dead_letters_read :
      Reads (env (codes "SQS_TX_DLQ")) (codes "wager-transactions-dlq.fifo") c.sqs_tx_dlq
  pub dead_letters : is_empty c.sqs_tx_dlq ≡ false
  pub events_read :
      Reads (env (codes "SQS_EVENTS_QUEUE")) (codes "wager-events.fifo") c.sqs_events_queue
  pub events : is_empty c.sqs_events_queue ≡ false

chosen-Reads : (x fallback : Text) → Reads x fallback (if is_empty x then fallback else x)
chosen-Reads [] fallback = inl (refl, refl)
chosen-Reads (a ∷ x) fallback = inr (λ h. cc h, refl)

getenv-Reads :
    (env : Environment) (key fallback : Text) → Reads (env key) fallback (getenv env key fallback)
unfolding getenv
getenv-Reads env key fallback = chosen-Reads (env key) fallback

named :
    (a b c : Bool) (x : Text) (mode : Mode)
    → text_eq x (codes "api") ≡ a
    → text_eq x (codes "consumer") ≡ b
    → text_eq x (codes "workers") ≡ c
    → (if a
        then ok api
        else if b
        then ok consumer
        else if c
        then ok workers
        else err invalid_app_mode)
      ≡ ok mode
    → x ≡ mode_name mode
named true b c x mode ha hb hc h =
    let same : api ≡ mode = cc h in (text_eq_iff x (codes "api")).0 ha ∙ ap mode_name same
named false true c x mode ha hb hc h =
    let same : consumer ≡ mode = cc h in (text_eq_iff x (codes "consumer")).0 hb ∙ ap mode_name same
named false false true x mode ha hb hc h =
    let same : workers ≡ mode = cc h in (text_eq_iff x (codes "workers")).0 hc ∙ ap mode_name same
named false false false x mode ha hb hc h = cc h

mode_of_name : (x : Text) (mode : Mode) → mode_of x ≡ ok mode → x ≡ mode_name mode
unfolding mode_of
mode_of_name x mode h = named _ _ _ x mode refl refl refl h

getenv_nonempty :
    (env : Environment) (key fallback : Text)
    → is_empty fallback ≡ false
    → is_empty (getenv env key fallback) ≡ false
unfolding getenv
getenv_nonempty env key fallback h = elim (Bool-cases (is_empty (env key))) [
  | inl blank ↦ rw blank h
  | inr set ↦ rw set set
]

checks_passed :
    (database is_api issuer : Bool) (c d : Config)
    → (do
      fail_if database database_url_required
      fail_if (is_api && issuer) oidc_issuer_required
      ok d)
      ≡ ok c
    → (database ≡ false) × (is_api ≡ true → issuer ≡ false) × (d ≡ c)
checks_passed true a i c d h = cc h
checks_passed false true true c d h = cc h
checks_passed false true false c d h = (refl, (λ e. refl), cc h)
checks_passed false false i c d h = (refl, (λ e. cc e), cc h)

config_of-Complete :
    (env : Environment) (mode : Mode)
    → mode_of (getenv env (codes "APP_MODE") (codes "api")) ≡ ok mode
    → is_empty (config_of env mode).database_url ≡ false
    → (is_api mode ≡ true → is_empty (config_of env mode).oidc_issuer ≡ false)
    → Complete env (config_of env mode)
unfolding config_of
config_of-Complete env mode named database issuer = record {
  mode_named =
      subst (Reads (env (codes "APP_MODE")) (codes "api"))
        (mode_of_name (getenv env (codes "APP_MODE") (codes "api")) mode named)
        (getenv-Reads env (codes "APP_MODE") (codes "api"));
  database_read = refl;
  issuer_read = refl;
  audience_read = refl;
  address_read = getenv-Reads env (codes "HTTP_ADDR") _;
  admin_read = getenv-Reads env (codes "ADMIN_ADDR") _;
  endpoint_read = getenv-Reads env (codes "SQS_ENDPOINT") _;
  transactions_read = getenv-Reads env (codes "SQS_TX_QUEUE") _;
  dead_letters_read = getenv-Reads env (codes "SQS_TX_DLQ") _;
  events_read = getenv-Reads env (codes "SQS_EVENTS_QUEUE") _;
  database = database;
  issuer = λ e. issuer (rw e refl);
  address = getenv_nonempty env _ _ refl;
  admin = getenv_nonempty env _ _ refl;
  endpoint = getenv_nonempty env _ _ refl;
  transactions = getenv_nonempty env _ _ refl;
  dead_letters = getenv_nonempty env _ _ refl;
  events = getenv_nonempty env _ _ refl;
}

mode-Complete :
    (env : Environment) (c : Config) (r : Result ConfigError Mode)
    → mode_of (getenv env (codes "APP_MODE") (codes "api")) ≡ r
    → (do
      mode ← r
      fail_if (is_empty (config_of env mode).database_url) database_url_required
      fail_if (is_api mode && is_empty (config_of env mode).oidc_issuer) oidc_issuer_required
      ok (config_of env mode))
      ≡ ok c
    → Complete env c
mode-Complete env c (err e) named h = cc h
mode-Complete env c (ok mode) named h =
    let (database, issuer, same) = checks_passed _ _ _ c (config_of env mode) h in
    subst (Complete env) same (config_of-Complete env mode named database issuer)

-- A configuration that `LoadFromEnv` returns is in the mode whose name APP_MODE is, or in that of the
-- API if APP_MODE is empty; the database URL, OIDC issuer and audience, the addresses, the endpoint and
-- the queues are those of their variables, or of their fallbacks where there is one and the variable is
-- empty; the database URL is not empty, nor is the issuer in the mode of the API, nor any address,
-- endpoint or queue.
pub load_from_env-Complete :
    (env : Environment) (c : Config) → load_from_env env ≡ ok c → Complete env c
unfolding load_from_env
load_from_env-Complete env c h =
    mode-Complete env c (mode_of (getenv env (codes "APP_MODE") (codes "api"))) refl h
