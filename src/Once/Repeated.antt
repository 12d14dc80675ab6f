-- ===== src/Once/Repeated.antt =====
-- A `Submit` that is repeated (internal/wagering/accept.go).
use jg_backend_challenge_go.Prelude.{
  ℕ, ◌≡◌, refl, sym, subst, ap, ◌∙◌, true, false, Text, text_eq, text_eq_refl, is_empty, ok,
}
use jg_backend_challenge_go.Domain.Money.{Money}
use jg_backend_challenge_go.Ports.{TxRecord}
use jg_backend_challenge_go.Postgres.Db.{Tables, World, idle, M, pure, transact, ◌>>=◌, ◌>>◌}
use jg_backend_challenge_go.Postgres.Calm.{calm, bind_ok}
use jg_backend_challenge_go.Wagering.Service.{Service, SubmitInput, SubmitResult}
use jg_backend_challenge_go.Wagering.Submit.{
  check_input, check_message, hash_of, replay_result, submit_in, wake_dependents, submit,
}
use jg_backend_challenge_go.Wagering.Submit.Replay.{repeated, submit-repeated}
use jg_backend_challenge_go.Once.{view, key_of}
use jg_backend_challenge_go.Once.Adding.{new_key}
use jg_backend_challenge_go.Once.Lookups.{IsRecorded, recorded_row, owning_row}
use jg_backend_challenge_go.Once.Carried.{recorded}

answer_of :
    (s : Service) (i : SubmitInput) (id : Text) (r : TxRecord)
    → key_of r ≡ new_key i (hash_of s i) id
    → repeated r (hash_of s i) ≡ ok (replay_result r)
answer_of s i id r h = rw (ap (λ k. k.payload_hash) h, text_eq_refl (hash_of s i)) refl

replayed_id : (r : TxRecord) → (replay_result r).transaction_id ≡ r.id
unfolding replay_result
replayed_id r = refl

replayed_flag : (r : TxRecord) → (replay_result r).idempotent_replay ≡ true
unfolding replay_result
replayed_flag r = refl

answered_again :
    (s : Service) (i : SubmitInput) (t : Tables) (n : ℕ) (amount : Money) (id : Text)
    → check_input i (calm t n) ≡ (ok amount, calm t n)
    → check_message i (hash_of s i) (calm t n) ≡ (ok tt, calm t n)
    → IsRecorded i (hash_of s i) id (view t)
    → (again : SubmitResult) × (submit s i (calm t n) ≡ (ok again, calm t n))
      × (again.transaction_id ≡ id)
      × (again.idempotent_replay ≡ true)
answered_again s i t n amount id input message h =
    let wallet = owning_row i t h.owned in
    let prev = recorded_row i (hash_of s i) id t h in
    (
      replay_result prev.0,
      submit-repeated s i t n amount wallet.0 prev.0 input message wallet.1
            (subst (λ o. text_eq i.player_id o.player_id ≡ true) (sym wallet.2) h.owned.player)
            (subst (λ o. text_eq i.currency o.currency ≡ true) (sym wallet.2) h.owned.currency)
            prev.1
          ∙ ap (λ a. (a, calm t n)) (answer_of s i id prev.0 prev.2),
      replayed_id prev.0 ∙ ap (λ k. k.id) prev.2,
      replayed_flag prev.0,
    )

no_message :
    (i : SubmitInput) (hash : Text) (w : World)
    → is_empty i.message_id ≡ true
    → check_message i hash w ≡ (ok tt, w)
unfolding check_message
no_message i hash w h = rw h refl

-- After a `Submit` without a message, whose input passes its checks, that began between
-- transactions and returned an outcome that is no replay, whichever statements failed meanwhile, the
-- same `Submit` where no statement fails returns a replay with the id of that transaction, and
-- changes nothing.
pub submit-Once :
    (s : Service) (i : SubmitInput) (amount : Money) (w w' : World) (r : SubmitResult) (n : ℕ)
    → ((v : World) → check_input i v ≡ (ok amount, v))
    → is_empty i.message_id ≡ true
    → w.status ≡ idle
    → submit s i w ≡ (ok r, w')
    → r.idempotent_replay ≡ false
    → (again : SubmitResult) × (submit s i (calm w'.tables n) ≡ (ok again, calm w'.tables n))
      × (again.transaction_id ≡ r.transaction_id)
      × (again.idempotent_replay ≡ true)
unfolding submit
submit-Once s i amount w w' r n input message at_idle h fresh =
    let hash = hash_of s i in
    let settle : Money → M SubmitResult =
      λ a. transact (submit_in s i a hash) >>= λ x. wake_dependents s i x >> pure x in
    let first = bind_ok (check_input i) (λ a. check_message i hash >> settle a) (input w) in
    let second =
      bind_ok (check_message i hash) (λ _. settle amount) (no_message i hash w message) in
    answered_again s i w'.tables n amount r.transaction_id (input (calm w'.tables n))
      (no_message i hash (calm w'.tables n) message)
      (recorded s i hash amount w w' r at_idle fresh (sym (first ∙ second) ∙ h))
