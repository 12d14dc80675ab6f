-- ===== src/Domain/Transaction/Calls.antt =====
-- The methods that mutate a transaction as calls (internal/domain/transaction.go).
use jg_backend_challenge_go.Prelude.{
  ◌≡◌, ◌↔◌, refl, ap, Bool-cases, true, false, inl, inr, ℤ, Text, Option, none, some, [], ok, err,
}
use jg_backend_challenge_go.Domain.Errors.{invalid_transition}
use jg_backend_challenge_go.Domain.Money.{Money}
use jg_backend_challenge_go.Domain.Transaction
use jg_backend_challenge_go.Domain.Transaction.{
  TransactionKind, TransactionState, pending, pending_reference, processed, rejected, failed,
  is_terminal, can_transition, WagerTransaction, Marked, transition, new_transaction,
  rehydrate_transaction, other, no_money,
}
use jg_backend_challenge_go.Domain.Transaction.Lifecycle.{
  terminal_stuck, stuck-is_terminal, open-can_fail,
}

-- A call of one of the methods that mutate a transaction.
pub data Call : Type 0 where
  processed_by processed_unmoved_by : Money → ℤ → Call
  rejected_by : Text → Money → ℤ → Call
  parked : Call
  failed_by : Text → Call
  reversed_by : TransactionKind → Text → Call
  reversal_cleared : Call
  referenced_by : Text → Text → Text → Text → Call

-- The error of the call, if it has one, and the transaction behind it.
unfoldable pub invoke : Call → WagerTransaction → Marked
invoke (processed_by b v) t = Transaction.mark_processed t b v
invoke (processed_unmoved_by b v) t = Transaction.mark_processed_no_movement t b v
invoke (rejected_by c b v) t = Transaction.mark_rejected t c b v
invoke parked t = Transaction.mark_pending_reference t
invoke (failed_by c) t = Transaction.mark_failed t c
invoke (reversed_by k id) t = (ok tt, Transaction.mark_reversed t k id)
invoke reversal_cleared t = (ok tt, Transaction.clear_reversal t)
invoke (referenced_by p e r ref) t = (ok tt, Transaction.with_reference t p e r ref)

-- The state that a call is to move the transaction to.
abbrev pub aim : Call → Option TransactionState
aim (processed_by b v) = some processed
aim (processed_unmoved_by b v) = some processed
aim (rejected_by c b v) = some rejected
aim parked = some pending_reference
aim (failed_by c) = some failed
aim _ = none

pub terminal_refused :
    (t : WagerTransaction) (c : Call) {to : TransactionState}
    → aim c ≡ some to
    → is_terminal t.state ≡ true
    → invoke c t ≡ (err invalid_transition, t)
unfolding invoke Transaction.mark_processed Transaction.mark_processed_no_movement
    Transaction.mark_rejected Transaction.mark_pending_reference Transaction.mark_failed transition
terminal_refused t (processed_by b v) a h = rw (terminal_stuck t.state processed h) refl
terminal_refused t (processed_unmoved_by b v) a h = rw (terminal_stuck t.state processed h) refl
terminal_refused t (rejected_by c b v) a h = rw (terminal_stuck t.state rejected h) refl
terminal_refused t parked a h = rw (terminal_stuck t.state pending_reference h) refl
terminal_refused t (failed_by c) a h = rw (terminal_stuck t.state failed h) refl
terminal_refused t _ a h = cc a

refused-is_terminal :
    (t : WagerTransaction)
    → ((c : Call) (to : TransactionState)
        → aim c ≡ some to
        → invoke c t ≡ (err invalid_transition, t))
    → is_terminal t.state ≡ true
unfolding invoke Transaction.mark_failed transition
refused-is_terminal t h = elim (Bool-cases (is_terminal t.state)) [
  | inl ended ↦ ended
  | inr moving ↦
      absurd
        (cc (ap (λ x. x.0) (rw (open-can_fail t.state moving) at (h (failed_by []) failed refl))))
]

-- `IsTerminal` tells exactly the transactions whose state `CanTransition` allows no move from, and
-- exactly those on which every call that is to move them to a state is refused with the error of an
-- invalid transition and changes nothing.
pub is_terminal_iff :
    (t : WagerTransaction)
    → ((is_terminal t.state ≡ true) ↔ ((to : TransactionState) → can_transition t.state to ≡ false))
      × ((is_terminal t.state ≡ true) ↔ (
          (c : Call) (to : TransactionState)
          → aim c ≡ some to
          → invoke c t ≡ (err invalid_transition, t)))
is_terminal_iff t = (
  (λ h to. terminal_stuck t.state to h, stuck-is_terminal t.state),
  (λ h c to a. terminal_refused t c a h, refused-is_terminal t),
)
