-- ===== src/Wagering/Submit/Replay.antt =====
-- A repeated submission (internal/wagering/accept.go).
use jg_backend_challenge_go.Prelude.{
  ℕ, ◌≡◌, ◌≢◌, inl, inr, ap, Bool-cases, text_eq_iff, refl, subst, ◌∙◌, Bool, true, false, Text,
  some, Result, ok, err, if◌then◌else◌, text_eq, find_first, arith,
}
use jg_backend_challenge_go.Domain.Money.{Money}
use jg_backend_challenge_go.Ports.{WalletRecord, TxRecord, Failure, conflict}
use jg_backend_challenge_go.Postgres.Db.{
  Tables, World, M, pure, ◌>>=◌, ◌>>◌, query, call, answer, transact, finish,
}
use jg_backend_challenge_go.Postgres.Calm.{calm, bind_ok}
use jg_backend_challenge_go.Postgres.WalletRepo.{find_wallet, lock_for_update}
use jg_backend_challenge_go.Postgres.TxRepo.{has_provider_key, find_by_provider_key}
use jg_backend_challenge_go.Wagering.Service.{
  Service, SubmitInput, SubmitResult, code_conflict, str,
}
use jg_backend_challenge_go.Wagering.Submit.{
  check_input, check_message, hash_of, replay, replay_result, submit_in, wake_dependents, submit,
}
use jg_backend_challenge_go.Wagering.Submit.Recorded.{Replays, replay_result-Replays}

-- The answer to a repeated submission.
abbrev pub repeated : TxRecord → Text → Result Failure SubmitResult
repeated prev hash =
    if text_eq (str prev.payload_hash) hash
    then ok (replay_result prev)
    else err (conflict code_conflict)

submit_in_replay :
    (s : Service) (i : SubmitInput) (amount : Money) (hash : Text) (t : Tables) (n : ℕ)
    (wallet : WalletRecord) (prev : TxRecord)
    → find_wallet i.wallet_id t.wallets ≡ some wallet
    → text_eq i.player_id wallet.player_id ≡ true
    → text_eq i.currency wallet.currency ≡ true
    → find_first (has_provider_key i.provider_id i.idempotency_key) t.txs ≡ some prev
    → transact (submit_in s i amount hash) (calm t n) ≡ (repeated prev hash, calm t n)
unfolding transact call answer finish submit_in lock_for_update query find_by_provider_key replay
submit_in_replay s i amount hash t n wallet prev found player currency key =
    rw (found, player, currency, key) (ground arith)

no_wake :
    (s : Service) (i : SubmitInput) (prev : TxRecord) (w : World)
    → wake_dependents s i (replay_result prev) w ≡ (ok tt, w)
unfolding wake_dependents replay_result
no_wake s i prev w = ground arith

finish_replay :
    (s : Service) (i : SubmitInput) (prev : TxRecord) (w : World) (b : Bool) (m : M SubmitResult)
    → m w ≡ ((if b then ok (replay_result prev) else err (conflict code_conflict)), w)
    → (m >>= λ r. wake_dependents s i r >> pure r) w
      ≡ ((if b then ok (replay_result prev) else err (conflict code_conflict)), w)
finish_replay s i prev w true m h =
    bind_ok m (λ r. wake_dependents s i r >> pure r) h
    ∙ bind_ok (wake_dependents s i (replay_result prev)) (λ _. pure (replay_result prev))
        (no_wake s i prev w)
finish_replay s i prev w false m h =
    subst
      (λ r.
        (m >>= λ x. wake_dependents s i x >> pure x) w
        ≡ elim r.0 as (λ _. Result Failure SubmitResult × World) [
          | ok a ↦ (wake_dependents s i a >> pure a) r.1
          | err e ↦ (err e, r.1)
        ])
      h refl

-- In terms of `replay_result`.
pub submit-repeated :
    (s : Service) (i : SubmitInput) (t : Tables) (n : ℕ) (amount : Money) (wallet : WalletRecord)
    (prev : TxRecord)
    → check_input i (calm t n) ≡ (ok amount, calm t n)
    → check_message i (hash_of s i) (calm t n) ≡ (ok tt, calm t n)
    → find_wallet i.wallet_id t.wallets ≡ some wallet
    → text_eq i.player_id wallet.player_id ≡ true
    → text_eq i.currency wallet.currency ≡ true
    → find_first (has_provider_key i.provider_id i.idempotency_key) t.txs ≡ some prev
    → submit s i (calm t n) ≡ (repeated prev (hash_of s i), calm t n)
unfolding submit
submit-repeated s i t n amount wallet prev input message found player currency key =
    let hash = hash_of s i in
    let settle : Money → M SubmitResult =
      λ a. transact (submit_in s i a hash) >>= λ r. wake_dependents s i r >> pure r in
    bind_ok (check_input i) (λ a. check_message i hash >> settle a) input
    ∙ bind_ok (check_message i hash) (λ _. settle amount) message
    ∙ finish_replay s i prev (calm t n) (text_eq (str prev.payload_hash) hash)
        (transact (submit_in s i amount hash))
        (submit_in_replay s i amount hash t n wallet prev found player currency key)

-- Where no statement fails, a `Submit` whose input and message pass their checks, whose wallet is there
-- with its player and currency, and whose provider and idempotency key are those of a transaction that
-- is there, changes nothing. If the payload hashes are equal it returns, marked as a replay, the id of
-- that transaction with the failure code and the wallet version of its row, and for a PROCESSED or
-- REJECTED row the outcome of a replay with the balance of the row's two columns, where both are set and
-- the currency is valid; for a row in another state, a FAILED one too, it returns the pending outcome
-- and no balance. If the hashes differ it returns the conflict.
pub submit_replay :
    (s : Service) (i : SubmitInput) (t : Tables) (n : ℕ) (amount : Money) (wallet : WalletRecord)
    (prev : TxRecord)
    → check_input i (calm t n) ≡ (ok amount, calm t n)
    → check_message i (hash_of s i) (calm t n) ≡ (ok tt, calm t n)
    → find_wallet i.wallet_id t.wallets ≡ some wallet
    → text_eq i.player_id wallet.player_id ≡ true
    → text_eq i.currency wallet.currency ≡ true
    → find_first (has_provider_key i.provider_id i.idempotency_key) t.txs ≡ some prev
    → (str prev.payload_hash ≡ hash_of s i
        → (r : SubmitResult) × (submit s i (calm t n) ≡ (ok r, calm t n)) × Replays prev r)
      × (str prev.payload_hash ≢ hash_of s i
          → submit s i (calm t n) ≡ (err (conflict code_conflict), calm t n))
submit_replay s i t n amount wallet prev input message found player currency key =
    let run = submit-repeated s i t n amount wallet prev input message found player currency key in
    (
      λ same. (
        replay_result prev,
        run ∙ ap (λ a. (a, calm t n)) (rw ((text_eq_iff _ _).1 same) refl),
        replay_result-Replays prev,
      ),
      λ other.
          run
          ∙ ap (λ a. (a, calm t n))
              (elim (Bool-cases (text_eq (str prev.payload_hash) (hash_of s i))) [
                | inl e ↦ absurd (other ((text_eq_iff _ _).0 e))
                | inr e ↦ rw e refl
              ]),
    )
