-- ===== src/Examples/Replay.antt =====
-- A repeated bet, and a backoff, at concrete inputs.
use jg_backend_challenge_go.Prelude.{
  ℕ, ◌+◌, ◌*◌, ◌^◌, ◌≤◌, ◌<◌, ◌≡◌, ◌≢◌, err, refl, arith, Bool, true, false, [], ◌∷◌, ℤ, pos, Text,
  codes, some, none, ok, find_first, text_eq, ◌==◌, if◌then◌else◌,
}
use jg_backend_challenge_go.Domain.Money.{Money}
use jg_backend_challenge_go.Domain.Transaction.{bet, processed}
use jg_backend_challenge_go.Ports.{WalletRecord, TxRecord, external, conflict}
use jg_backend_challenge_go.Postgres.Db.{Tables}
use jg_backend_challenge_go.Postgres.WalletRepo.{find_wallet}
use jg_backend_challenge_go.Postgres.TxRepo.{has_provider_key}
use jg_backend_challenge_go.Wagering.Submit.{submit, hash_of, check_input, check_message}
use jg_backend_challenge_go.Postgres.Calm.{calm}
use jg_backend_challenge_go.Wagering.Submit.Recorded.{Replays}
use jg_backend_challenge_go.Wagering.Submit.Replay.{submit_replay}
use jg_backend_challenge_go.Wagering.Service.{SubmitResult, code_conflict, str}
use jg_backend_challenge_go.Wagering.Backoff.{backoff_full_jitter}
use jg_backend_challenge_go.Wagering.Backoff.Bounds.{
  capped, backoff_full_jitter_lem, backoff_bounded,
}
use jg_backend_challenge_go.Examples.Wagering.{service, placed}

abbrev row : WalletRecord
row = record {
  id = 1 ∷ [];
  player_id = codes "ana";
  currency = codes "BRL";
  balance_minor = pos 750;
  version = pos 2;
}

-- The bet as it was recorded.
abbrev pub recorded : TxRecord
recorded = record {
  id = 9 ∷ [];
  origin = external;
  provider_id = some (codes "P");
  external_id = some (codes "x1");
  idempotency_key = some (codes "k1");
  payload_hash = some (hash_of service placed);
  wallet_id = 1 ∷ [];
  player_id = codes "ana";
  round_id = some (codes "r");
  game_id = some (codes "g");
  kind = bet;
  amount_minor = pos 250;
  currency = codes "BRL";
  reference_external_id = none;
  reference_tx_id = none;
  state = processed;
  failure_code = none;
  result_balance_minor = some (pos 750);
  result_currency = some (codes "BRL");
  reversed_by_kind = none;
  reversed_by_tx_id = none;
  wallet_version_observed = some (pos 2);
}

abbrev pub tables : Tables
tables = record {
  wallets = row ∷ [];
  txs = recorded ∷ [];
  ledger = [];
  inbox = [];
  outbox = [];
  work = [];
}

abbrev stake : Money
stake = record { minor = pos 250; currency = codes "BRL" }

input_passes : check_input placed (calm tables 7) ≡ (ok stake, calm tables 7)
unfolding check_input jg_backend_challenge_go.Domain.Transaction.validate_external_kind
    jg_backend_challenge_go.Domain.Money.Parse.parse_money
    jg_backend_challenge_go.Domain.Money.valid_currency
    jg_backend_challenge_go.Domain.Money.Parse.parse_parts
    jg_backend_challenge_go.Prelude.parse_digits jg_backend_challenge_go.Prelude.value_from
    jg_backend_challenge_go.Domain.Transaction.validate_amount_for_kind
    jg_backend_challenge_go.Domain.Money.is_positive
    jg_backend_challenge_go.Domain.Reversal.is_reversal_kind
input_passes = refl

no_message : check_message placed (hash_of service placed) (calm tables 7) ≡ (ok tt, calm tables 7)
unfolding check_message
no_message = refl

row_found : find_wallet (1 ∷ []) tables.wallets ≡ some row
unfolding find_wallet find_first text_eq
row_found = refl

bet_found : find_first (has_provider_key (codes "P") (codes "k1")) tables.txs ≡ some recorded
unfolding find_first text_eq
bet_found = refl

submit_replay_example :
    (str recorded.payload_hash ≡ hash_of service placed
      → (r : SubmitResult) × (submit service placed (calm tables 7) ≡ (ok r, calm tables 7))
        × Replays recorded r)
    × (str recorded.payload_hash ≢ hash_of service placed
        → submit service placed (calm tables 7) ≡ (err (conflict code_conflict), calm tables 7))
submit_replay_example =
    submit_replay service placed tables 7 stake row recorded input_passes no_message row_found
      (unfold text_eq in refl) (unfold text_eq in refl) bet_found

backoff_full_jitter_lem_example :
    backoff_full_jitter (pos 3) (pos 200) (pos 3000) (λ n. 0)
    ≡ some (let ceiling = capped 3000 (200 * 2 ^ 3) in if ceiling == 0 then 0 else 0)
backoff_full_jitter_lem_example =
    backoff_full_jitter_lem 3 200 3000 (λ n. 0) (omega arith) (omega arith)

backoff_bounded_example :
    (d : ℕ) × (backoff_full_jitter (pos 3) (pos 200) (pos 3000) (λ n. 0) ≡ some d)
    × (d ≤ 3000)
    × (d ≤ 200 * 2 ^ 3)
backoff_bounded_example = backoff_bounded 3 200 3000 (λ n. 0) (omega arith) (omega arith) (λ n h. h)
