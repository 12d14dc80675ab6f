-- ===== src/Books/Submitting.antt =====
-- `Submit` and the books (internal/wagering/accept.go).
use jg_backend_challenge_go.Prelude.{Text, Option, none, some}
use jg_backend_challenge_go.Domain.Money.{Money}
use jg_backend_challenge_go.Ports.{WalletRecord, TxRecord}
use jg_backend_challenge_go.Postgres.Db.{InboxRow, M}
use jg_backend_challenge_go.Postgres.AuxRepo.{find_inbox}
use jg_backend_challenge_go.Wagering.Service.{Service, SubmitInput, SubmitResult}
use jg_backend_challenge_go.Wagering.Work.{reevaluate_dependents}
use jg_backend_challenge_go.Wagering.Submit.{
  check_input, check_inbox_row, check_message, record_message, replay, replay_or, apply_new,
  in_wallet, submit_in, wake_dependents, submit,
}
use jg_backend_challenge_go.Books.Frames.{
  Quiet, quiet_rules, Quiet-pure, Quiet-fail, Quiet-fail_when, Quiet-find_by_provider_key,
  Quiet-find_by_provider_external, Quiet-insert_inbox, Quiet-complete_inbox, Quiet-bind,
}
use jg_backend_challenge_go.Books.Keeping.{Keeps, Keeps-Quiet, Keeps-after, Keeps-before}
use jg_backend_challenge_go.Books.Preserving.{Preserves, Preserves-Quiet, Preserves-lock}
use jg_backend_challenge_go.Books.Resting.{Rests, Rests-transact}
use jg_backend_challenge_go.Wagering.Settled.{
  settled_rules, Settled-pure, Settled-fail_when, Settled-query, Settled-ignore,
}
use jg_backend_challenge_go.Books.Accepting.{apply_operation-Keeps}
use jg_backend_challenge_go.Books.Resuming.{reevaluate_dependents-AtRest}

Quiet-record_message : (i : SubmitInput) (hash : Text) → Quiet (record_message i hash)
unfolding record_message
Quiet-record_message i hash = search (quiet_rules, Quiet-insert_inbox, Quiet-complete_inbox)

Quiet-replay : (hash : Text) (prev : TxRecord) → Quiet (replay hash prev)
unfolding replay
Quiet-replay hash prev = search (quiet_rules)

module _ (s : Service) (i : SubmitInput) (amount : Money) (hash : Text) where
  Keeps-apply_new : (r : WalletRecord) → Keeps r (apply_new s i amount hash r)
  unfolding apply_new
  Keeps-apply_new r =
      Keeps-before _ _ (apply_operation-Keeps s i amount hash r)
        (λ a. Quiet-bind _ _ (Quiet-record_message i hash) (λ _. Quiet-pure a))

  Keeps-replay_or :
      (r : WalletRecord) (o : Option TxRecord) (rest : M SubmitResult)
      → Keeps r rest
      → Keeps r (replay_or hash o rest)
  Keeps-replay_or r none rest h = h
  Keeps-replay_or r (some prev) rest h = Keeps-Quiet _ (Quiet-replay hash prev)

  Keeps-in_wallet : (r : WalletRecord) → Keeps r (in_wallet s i amount hash (some r))
  Keeps-in_wallet r =
      search
        (
          Keeps-after, Quiet-fail_when, Quiet-find_by_provider_key, Quiet-find_by_provider_external,
          Keeps-replay_or, Keeps-apply_new,
        )
        depth 10

  submit_in-Preserves : Preserves (submit_in s i amount hash)
  unfolding submit_in
  submit_in-Preserves =
      Preserves-lock i.wallet_id (in_wallet s i amount hash) (Preserves-Quiet _ (Quiet-fail _))
        Keeps-in_wallet

Rests-check_input : (i : SubmitInput) → Rests (check_input i)
unfolding check_input
Rests-check_input i = search (settled_rules) depth 12

Rests-check_inbox_row :
    (i : SubmitInput) (hash : Text) (o : Option InboxRow) → Rests (check_inbox_row i hash o)
Rests-check_inbox_row i hash none = Settled-pure tt
Rests-check_inbox_row i hash (some row) = Settled-fail_when _ _

Rests-find_inbox : (c m : Text) → Rests (find_inbox c m)
unfolding find_inbox
Rests-find_inbox c m = Settled-query _

Rests-check_message : (i : SubmitInput) (hash : Text) → Rests (check_message i hash)
unfolding check_message
Rests-check_message i hash = search (settled_rules, Rests-find_inbox, Rests-check_inbox_row)

Rests-reevaluate : (s : Service) (p e : Text) → Rests (reevaluate_dependents s p e)
Rests-reevaluate s p e = record { run = reevaluate_dependents-AtRest s p e }

Rests-wake_dependents :
    (s : Service) (i : SubmitInput) (r : SubmitResult) → Rests (wake_dependents s i r)
unfolding wake_dependents
Rests-wake_dependents s i r = search (settled_rules, Settled-ignore, Rests-reevaluate)

pub Rests-submit : (s : Service) (i : SubmitInput) → Rests (submit s i)
unfolding submit
Rests-submit s i =
    search
      (
        settled_rules, Rests-check_input, Rests-check_message, Rests-wake_dependents,
        Rests-transact, submit_in-Preserves,
      )
      depth 10
