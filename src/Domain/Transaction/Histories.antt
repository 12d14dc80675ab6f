-- ===== src/Domain/Transaction/Histories.antt =====
-- What holds of a transaction after any sequence of calls (internal/domain/transaction.go).
use jg_backend_challenge_go.Prelude.{
  ◌≡◌, refl, sym, ap, ◌∙◌, Bool, Bool-cases, true, false, ◌⊎◌, inl, inr, arith, ℤ, pos, Text,
  Option, none, some, List, [], ◌∷◌, ok, err,
}
use jg_backend_challenge_go.Domain.Errors.{invalid_transition}
use jg_backend_challenge_go.Domain.Money.{Money}
use jg_backend_challenge_go.Domain.Transaction
use jg_backend_challenge_go.Domain.Transaction.{
  TransactionKind, TransactionState, pending, pending_reference, processed, rejected, failed,
  is_terminal, can_transition, WagerTransaction, Marked, transition, new_transaction,
  rehydrate_transaction, other, no_money,
}
use jg_backend_challenge_go.Domain.Transaction.Lifecycle.{is_open-can_transition}
use jg_backend_challenge_go.Domain.Transaction.Calls.{
  Call, processed_by, processed_unmoved_by, rejected_by, parked, failed_by, reversed_by,
  reversal_cleared, referenced_by, invoke, aim, terminal_refused,
}

unfoldable pub run : WagerTransaction → List Call → WagerTransaction
run t [] = t
run t (c ∷ cs) = run (invoke c t).1 cs

-- What a transaction has recorded of its end.
pub record Verdict : Type 0 where
  pub state : TransactionState
  pub failure_code : Text
  pub has_result : Bool
  pub balance : Money
  pub version : ℤ

abbrev pub recorded : WagerTransaction → Verdict
recorded t = record {
  state = t.state;
  failure_code = t.failure_code;
  has_result = t.has_result;
  balance = t.result_balance;
  version = t.wallet_version_observed;
}

-- What was there when the transaction was made.
pub record Inputs : Type 0 where
  pub id : Text
  pub kind : TransactionKind
  pub amount : Money
  pub player_id : Text
  pub wallet_id : Text

abbrev pub inputs : WagerTransaction → Inputs
inputs t = record {
  id = t.id;
  kind = t.kind;
  amount = t.amount;
  player_id = t.player_id;
  wallet_id = t.wallet_id;
}

terminal_rest :
    (t : WagerTransaction) (c : Call)
    → is_terminal t.state ≡ true
    → (recorded (invoke c t).1 ≡ recorded t) × (inputs (invoke c t).1 ≡ inputs t)
unfolding invoke Transaction.mark_reversed Transaction.clear_reversal Transaction.with_reference
terminal_rest t (reversed_by k id) h = (refl, refl)
terminal_rest t reversal_cleared h = (refl, refl)
terminal_rest t (referenced_by p e r ref) h = (refl, refl)
terminal_rest t c h = rw (terminal_refused t c refl h) (refl, refl)

run_rest :
    (t : WagerTransaction) (cs : List Call)
    → is_terminal t.state ≡ true
    → (recorded (run t cs) ≡ recorded t) × (inputs (run t cs) ≡ inputs t)
unfolding run
run_rest t [] h = (refl, refl)
run_rest t (c ∷ cs) h =
    let first = terminal_rest t c h in
    let rest = run_rest (invoke c t).1 cs (ap (λ v. is_terminal v.state) first.0 ∙ h) in
    (rest.0 ∙ first.0, rest.1 ∙ first.1)

-- Once a transaction has come to rest, no calls of its methods change its state, failure code, result
-- or observed version, nor its id, kind, amount, player and wallet; and behind them every call that is
-- to move it to a state is refused with the error of an invalid transition and changes nothing.
pub run_terminal :
    (t : WagerTransaction) (cs : List Call)
    → is_terminal t.state ≡ true
    → (recorded (run t cs) ≡ recorded t)
      × (inputs (run t cs) ≡ inputs t)
      × ((c : Call) (to : TransactionState)
          → aim c ≡ some to
          → invoke c (run t cs) ≡ (err invalid_transition, run t cs))
run_terminal t cs h =
    let rest = run_rest t cs h in
    (
      rest.0,
      rest.1,
      λ c to a. terminal_refused (run t cs) c a (ap (λ v. is_terminal v.state) rest.0 ∙ h),
    )

-- The calls that end a transaction, and what each of them records.
abbrev pub verdict : Call → Option Verdict
verdict (processed_by b v) =
    some
      (record { state = processed; failure_code = []; has_result = true; balance = b; version = v })
verdict (processed_unmoved_by b v) =
    some
      (record { state = processed; failure_code = []; has_result = true; balance = b; version = v })
verdict (rejected_by c b v) =
    some
      (record { state = rejected; failure_code = c; has_result = true; balance = b; version = v })
verdict (failed_by c) = some (record {
  state = failed;
  failure_code = c;
  has_result = false;
  balance = no_money;
  version = pos 0;
})
verdict _ = none

-- Nothing is recorded.
abbrev pub blank : TransactionState → Verdict
blank s = record {
  state = s;
  failure_code = [];
  has_result = false;
  balance = no_money;
  version = pos 0;
}

abbrev pub Among : Call → List Call → Type 0
Among c [] = ⊥
Among c (d ∷ ds) = (c ≡ d) ⊎ Among c ds

-- What a transaction has recorded is the verdict of one of the calls in `S` if it has come to rest, and
-- nothing before; its inputs are those that it began with.
pub record IsRecorded (S : Call → Type 0) (start t : WagerTransaction) : Type 0 where
  pub unsettled : is_terminal t.state ≡ false → recorded t ≡ blank t.state
  pub settled : is_terminal t.state ≡ true → (c : Call) × S c × (verdict c ≡ some (recorded t))
  pub same : inputs t ≡ inputs start

abbrev processed_with : Money → ℤ → Verdict → Option Verdict
processed_with b v x =
    some (record x { state = processed; has_result = true; balance = b; version = v })

abbrev failed_with : Text → Verdict → Option Verdict
failed_with c x = some (record x { state = failed; failure_code = c })

abbrev parked_with : Verdict → Verdict
parked_with x = record x { state = pending_reference }

module _ (S : Call → Type 0) (start : WagerTransaction) where
  closing :
      (t t' : WagerTransaction) (c : Call) (to : TransactionState)
      → IsRecorded S start t
      → S c
      → can_transition t.state to ≡ true
      → inputs t' ≡ inputs t
      → is_terminal t'.state ≡ true
      → (recorded t ≡ blank t.state → verdict c ≡ some (recorded t'))
      → IsRecorded S start t'
  closing t t' c to h among can same ended given = record {
    unsettled = λ e. cc (e, ended);
    settled = λ e. (c, among, given (h.unsettled (is_open-can_transition t.state to can)));
    same = same ∙ h.same;
  }

  invoke-IsRecorded :
      (t : WagerTransaction) (c : Call)
      → S c
      → IsRecorded S start t
      → IsRecorded S start (invoke c t).1
  unfolding invoke Transaction.mark_processed Transaction.mark_processed_no_movement
      Transaction.mark_rejected Transaction.mark_pending_reference Transaction.mark_failed
      transition Transaction.mark_reversed Transaction.clear_reversal Transaction.with_reference
  invoke-IsRecorded t (processed_by b v) m h =
      elim (Bool-cases (can_transition t.state processed)) [
        | inl can ↦ rw can (
            closing t _ (processed_by b v) processed h m can refl (unfold is_terminal in refl)
              (λ e. ap (processed_with b v) (sym e)))
        | inr shut ↦ rw shut h
      ]
  invoke-IsRecorded t (processed_unmoved_by b v) m h =
      elim (Bool-cases (can_transition t.state processed)) [
        | inl can ↦ rw can (
            closing t _ (processed_unmoved_by b v) processed h m can refl
              (unfold is_terminal in refl) (λ e. ap (processed_with b v) (sym e)))
        | inr shut ↦ rw shut h
      ]
  invoke-IsRecorded t (rejected_by c b v) m h =
      elim (Bool-cases (can_transition t.state rejected)) [
        | inl can ↦ rw can (
            closing t _ (rejected_by c b v) rejected h m can refl (unfold is_terminal in refl)
              (λ e. refl))
        | inr shut ↦ rw shut h
      ]
  invoke-IsRecorded t parked m h = elim (Bool-cases (can_transition t.state pending_reference)) [
    | inl can ↦ rw can (record {
      unsettled =
          λ e. ap parked_with (h.unsettled (is_open-can_transition t.state pending_reference can));
      settled = λ e. unfold is_terminal in cc e;
      same = h.same;
    })
    | inr shut ↦ rw shut h
  ]
  invoke-IsRecorded t (failed_by c) m h = elim (Bool-cases (can_transition t.state failed)) [
    | inl can ↦ rw can (
        closing t _ (failed_by c) failed h m can refl (unfold is_terminal in refl)
          (λ e. ap (failed_with c) (sym e)))
    | inr shut ↦ rw shut h
  ]
  invoke-IsRecorded t _ m h = record { unsettled = h.unsettled; settled = h.settled; same = h.same }

run-IsRecorded :
    (S : Call → Type 0) (start t : WagerTransaction) (cs : List Call)
    → ((c : Call) → Among c cs → S c)
    → IsRecorded S start t
    → IsRecorded S start (run t cs)
unfolding run
run-IsRecorded S start t [] m h = h
run-IsRecorded S start t (c ∷ cs) m h =
    run-IsRecorded S start (invoke c t).1 cs (λ d n. m d (inr n))
      (invoke-IsRecorded S start t c (m c (inl refl)) h)

blank-new :
    (id : Text) (kind : TransactionKind) (amount : Money) (player_id wallet_id : Text)
    {t : WagerTransaction}
    → new_transaction id kind amount player_id wallet_id ≡ ok t
    → recorded t ≡ blank pending
unfolding new_transaction rehydrate_transaction
blank-new id kind amount player_id wallet_id h = ground arith

-- After any calls of its methods a new transaction that is PROCESSED, REJECTED or FAILED has recorded
-- the end that one of the calls gives: the balance and version of a call that processes it with no
-- failure code, the code, balance and version of a call that rejects it, or the code of a call that
-- fails it and no result. Before that it has recorded no failure code, result or version. Its id,
-- kind, amount, player and wallet stay.
pub new-run-IsRecorded :
    (id : Text) (kind : TransactionKind) (amount : Money) (player_id wallet_id : Text)
    {t : WagerTransaction} (cs : List Call)
    → new_transaction id kind amount player_id wallet_id ≡ ok t
    → IsRecorded (λ c. Among c cs) t (run t cs)
new-run-IsRecorded id kind amount player_id wallet_id {t} cs h =
    let fresh = blank-new id kind amount player_id wallet_id h in
    run-IsRecorded (λ c. Among c cs) t t cs (λ c m. m)
      (record {
        unsettled = λ e. fresh ∙ ap (λ v. blank v.state) (sym fresh);
        settled = λ e. unfold is_terminal in cc (e, ap (λ v. v.state) fresh);
        same = refl;
      })
