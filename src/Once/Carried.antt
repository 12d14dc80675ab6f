-- ===== src/Once/Carried.antt =====
-- The body of `Submit` and the key of its operation (internal/wagering/accept.go).
use jg_backend_challenge_go.Prelude.{
  ℕ, ◌≡◌, refl, sym, subst, ap, ◌∙◌, Bool, true, false, not, ◌&&◌, Option, none, some, Text,
  text_eq, Result, ok, err,
}
use jg_backend_challenge_go.Domain.Errors.{code_text, currency_mismatch, wallet_player_mismatch}
use jg_backend_challenge_go.Domain.Money.{Money}
use jg_backend_challenge_go.Ports.{WalletRecord, TxRecord, Failure, correctable}
use jg_backend_challenge_go.Postgres.Db.{
  Tables, World, idle, M, pure, fail, fail_when, transact, ◌>>=◌, ◌>>◌,
}
use jg_backend_challenge_go.Postgres.Logic.{
  Triple, AtRest, bind_rule, pure_rule, fail_rule, pre_rule, post_rule, query_rule,
}
use jg_backend_challenge_go.Postgres.Committed.{transact_committed}
use jg_backend_challenge_go.Postgres.TxRepo.{find_by_provider_key, find_by_provider_external}
use jg_backend_challenge_go.Postgres.WalletRepo.{find_wallet, lock_for_update}
use jg_backend_challenge_go.Wagering.Service.{
  Service, SubmitInput, SubmitResult, fresh_id, now, attempt_or_fail,
}
use jg_backend_challenge_go.Wagering.Accept.{apply_operation}
use jg_backend_challenge_go.Wagering.Submit.{
  record_message, replay, replay_or, replay_result, apply_new, in_wallet, submit_in,
  wake_dependents, is_processed,
}
use jg_backend_challenge_go.Domain.Reversal.{is_bet}
use jg_backend_challenge_go.Wagering.Settled.{Settled, Settled-if, Settled-ignore, Settled-pure}
use jg_backend_challenge_go.Once.{view, Seen, Steady, Steady-fail_when, steady_rules}
use jg_backend_challenge_go.Once.Statements.{
  steady_statements, Steady-find_by_provider_key, Steady-find_by_provider_external,
}
use jg_backend_challenge_go.Once.Resuming.{reevaluate_dependents-Settled}
use jg_backend_challenge_go.Once.Adding.{Anything, loosely, Adds}
use jg_backend_challenge_go.Once.Accepting.{Adds-kind}
use jg_backend_challenge_go.Once.Lookups.{IsOwned, IsRecorded, IsOwned-row, owned_recorded}

guarded_by :
    {A : Type 0} {P : Tables → Type 0} {Q : A → Tables → Type 0} (b : Bool) (e : Failure) (k : M A)
    → (b ≡ true → Triple P k Q Anything)
    → Triple P (fail_when (not b) e >> k) Q Anything
guarded_by true e k f = record { run = λ w h. (f refl).run w h }
guarded_by {A} {P} {Q} false e k f =
    let failed : Triple {A = A} P (fail e) Q Anything = fail_rule e (λ t h. tt) in
    record { run = λ w h. failed.run w h }

next_parts :
    {A B : Type 0} (k : A → M B) (x : Result Failure A × World) (w' : World) {b : B}
    → elim x.0 as (λ _. Result Failure B × World) [ ok a ↦ k a x.1 | err e ↦ (err e, x.1) ]
      ≡ (ok b, w')
    → (a : A) × (v : World) × (x ≡ (ok a, v)) × (k a v ≡ (ok b, w'))
next_parts k (ok a, v) w' h = (a, v, refl, h)
next_parts k (err e, v) w' h = cc h

-- A sequence that returns a value.
bind_parts :
    {A B : Type 0} (m : M A) (k : A → M B) (w w' : World) {b : B}
    → (m >>= k) w ≡ (ok b, w')
    → (a : A) × (v : World) × (m w ≡ (ok a, v)) × (k a v ≡ (ok b, w'))
bind_parts m k w w' h = next_parts k (m w) w' h

ok_answer : {A : Type 0} {a b : A} {v w : World} → pure a v ≡ (ok b, w) → (a ≡ b) × (v ≡ w)
ok_answer h = (cc (ap (λ x. x.0) h), ap (λ x. x.1) h)

module _ (s : Service) (i : SubmitInput) (hash : Text) where
  abbrev Done : SubmitResult → Tables → Type 0
  Done r t = r.idempotent_replay ≡ false → IsRecorded i hash r.transaction_id (view t)

  abbrev Ready : Tables → Type 0
  Ready = Seen (IsOwned i)

  abbrev Carries : M SubmitResult → Type 0
  Carries m = Triple Ready m Done Anything

  carried_kind :
      (amount : Money) (id : Text) (time : ℕ) (m : M SubmitResult)
      → Adds (record { input = i; amount = amount; hash = hash; tx_id = id; time = time }) m
      → Carries m
  carried_kind amount id time m f =
      post_rule m (λ r t h _. subst (λ x. IsRecorded i hash x (view t)) (sym h.0.0) h.1)
        (pre_rule m (λ t h. owned_recorded i hash id (view t) h) (f.run (IsRecorded i hash id)))

  carried_operation :
      (amount : Money) (r : WalletRecord) → Carries (apply_operation s i amount hash r)
  unfolding apply_operation
  carried_operation amount r =
      bind_rule (fresh_id s) _ (loosely _ (search (steady_rules)) (IsOwned i)) (λ id.
        bind_rule (now s) _ (loosely _ (search (steady_rules)) (IsOwned i)) (λ time.
          bind_rule (attempt_or_fail _) _ (loosely _ (search (steady_rules)) (IsOwned i))
            (λ w. carried_kind amount id time _ (Adds-kind s _ w i.kind))))

  Steady-record_message : Steady (record_message i hash)
  unfolding record_message
  Steady-record_message = search (steady_statements)

  carried_new : (amount : Money) (r : WalletRecord) → Carries (apply_new s i amount hash r)
  unfolding apply_new
  carried_new amount r = bind_rule _ _ (carried_operation amount r) (λ a.
      bind_rule _ _
        (loosely _ Steady-record_message
          (λ v. a.idempotent_replay ≡ false → IsRecorded i hash a.transaction_id v))
        (λ _. pure_rule a (λ t h. h)))

  carried_replay : (prev : TxRecord) → Carries (replay hash prev)
  unfolding replay replay_result
  carried_replay prev =
      bind_rule _ _ (loosely _ (Steady-fail_when _ _) (IsOwned i))
        (λ _. pure_rule _ (λ t h e. cc e))

  carried_or : (o : Option TxRecord) (m : M SubmitResult) → Carries m → Carries (replay_or hash o m)
  carried_or none m f = f
  carried_or (some prev) m f = carried_replay prev

  abbrev looked_up : Money → WalletRecord → M SubmitResult
  looked_up amount r = do
    by_key ← find_by_provider_key i.provider_id i.idempotency_key
    replay_or hash by_key (do
      by_external ← find_by_provider_external i.provider_id i.external_id
      replay_or hash by_external (apply_new s i amount hash r))

  carried_lookups : (amount : Money) (r : WalletRecord) → Carries (looked_up amount r)
  carried_lookups amount r =
      bind_rule _ _
        (loosely _ (Steady-find_by_provider_key i.provider_id i.idempotency_key) (IsOwned i))
        (λ by_key. carried_or by_key _ (
          bind_rule _ _
            (loosely _ (Steady-find_by_provider_external i.provider_id i.external_id) (IsOwned i))
            (λ by_external. carried_or by_external _ (carried_new amount r))))

  carried_in :
      (amount : Money) (o : Option WalletRecord)
      → Triple
          (λ t. Anything t × (o ≡ find_wallet i.wallet_id t.wallets))
          (in_wallet s i amount hash o)
          Done
          Anything
  carried_in amount none = fail_rule _ (λ t h. tt)
  carried_in amount (some r) =
      guarded_by (text_eq i.player_id r.player_id) (correctable (code_text wallet_player_mismatch))
        (fail_when (not (text_eq i.currency r.currency)) (correctable (code_text currency_mismatch))
          >> looked_up amount r)
        (λ p.
          guarded_by (text_eq i.currency r.currency) (correctable (code_text currency_mismatch))
            (looked_up amount r)
            (λ c. pre_rule _ (λ t h. IsOwned-row i t (sym h.1) p c) (carried_lookups amount r)))

  carried_submit : (amount : Money) → Triple Anything (submit_in s i amount hash) Done Anything
  unfolding submit_in lock_for_update
  carried_submit amount = bind_rule _ _ (query_rule _) (carried_in amount)

  woken :
      (r : SubmitResult)
      → Settled (Seen (IsRecorded i hash r.transaction_id)) (wake_dependents s i r)
  unfolding wake_dependents
  woken r =
      Settled-if (is_processed r.outcome && is_bet i.kind) _ _
        (Settled-ignore _ (
          reevaluate_dependents-Settled s (IsRecorded i hash r.transaction_id) i.provider_id
            i.external_id))
        (Settled-pure tt)

  done_rest :
      (w : World) (a r : SubmitResult) (w' : World)
      → AtRest (Done a) w
      → r.idempotent_replay ≡ false
      → (wake_dependents s i a >> pure a) w ≡ (ok r, w')
      → Seen (IsRecorded i hash r.transaction_id) w'.tables
  done_rest w a r w' h fresh g =
      let parts = bind_parts (wake_dependents s i a) (λ _. pure a) w w' g in
      let last = ok_answer parts.3 in
      let own : a.idempotent_replay ≡ false =
        subst (λ x. x.idempotent_replay ≡ false) (sym last.0) fresh in
      let rest = (woken a).run w (record { at_idle = h.at_idle; holds = h.holds own }) in
      subst (λ x. IsRecorded i hash x.transaction_id (view w'.tables)) last.0
        (subst (λ v. IsRecorded i hash a.transaction_id (view v.tables))
          (ap (λ x. x.1) parts.2 ∙ last.1) rest.holds)

  pub recorded :
      (amount : Money) (w w' : World) (r : SubmitResult)
      → w.status ≡ idle
      → r.idempotent_replay ≡ false
      → (transact (submit_in s i amount hash) >>= λ x. wake_dependents s i x >> pure x) w
        ≡ (ok r, w')
      → Seen (IsRecorded i hash r.transaction_id) w'.tables
  recorded amount w w' r at_idle fresh h =
      let body = submit_in s i amount hash in
      let parts = bind_parts (transact body) (λ x. wake_dependents s i x >> pure x) w w' h in
      let committed =
        transact_committed Done body w (carried_submit amount)
          (record { at_idle = at_idle; holds = tt }) (ap (λ x. x.0) parts.2) in
      done_rest parts.1 parts.0 r w'
        (subst (AtRest (Done parts.0)) (ap (λ x. x.1) parts.2) committed) fresh parts.3
