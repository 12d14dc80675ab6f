-- ===== src/Domain/Transaction/Lifecycle.antt =====
-- The state machine of a transaction as a relation, and the states that it ends in
-- (internal/domain/transaction.go).
use jg_backend_challenge_go.Prelude.{◌≡◌, refl, ◌↔◌, true, false, arith}
use jg_backend_challenge_go.Domain.Transaction.{
  TransactionState, pending, pending_reference, processed, rejected, failed, is_terminal,
  can_transition,
}

-- The states that a transaction comes to rest in.
pub data Outcome : TransactionState → Type 0 where
  succeeded : Outcome processed
  refused : Outcome rejected
  broken : Outcome failed

pub data Step : TransactionState → TransactionState → Type 0 where
  settle : {s : TransactionState} → Outcome s → Step pending s
  park : Step pending pending_reference
  resume : {s : TransactionState} → Outcome s → Step pending_reference s

can_transition-Step : (s to : TransactionState) → can_transition s to ≡ true → Step s to
unfolding can_transition
can_transition-Step pending pending h = cc
can_transition-Step pending pending_reference h = park
can_transition-Step s to h = grind (arith, settle, resume, succeeded, refused, broken)

Step-can_transition : {s to : TransactionState} → Step s to → can_transition s to ≡ true
unfolding can_transition
Step-can_transition (settle succeeded) = refl
Step-can_transition (settle refused) = refl
Step-can_transition (settle broken) = refl
Step-can_transition park = refl
Step-can_transition (resume succeeded) = refl
Step-can_transition (resume refused) = refl
Step-can_transition (resume broken) = refl

-- `CanTransition` allows exactly the steps of the state machine.
pub can_transition_iff : (s to : TransactionState) → (can_transition s to ≡ true) ↔ Step s to
can_transition_iff s to = (can_transition-Step s to, Step-can_transition)

pub is_open-can_transition :
    (s to : TransactionState) → can_transition s to ≡ true → is_terminal s ≡ false
unfolding can_transition is_terminal
is_open-can_transition s to h = ground arith

pub stuck-is_terminal :
    (s : TransactionState)
    → ((to : TransactionState) → can_transition s to ≡ false)
    → is_terminal s ≡ true
unfolding can_transition is_terminal
stuck-is_terminal pending none_left = cc (none_left processed)
stuck-is_terminal pending_reference none_left = cc (none_left processed)
stuck-is_terminal _ none_left = refl

pub terminal_stuck : (s to : TransactionState) → is_terminal s ≡ true → can_transition s to ≡ false
unfolding can_transition is_terminal
terminal_stuck s to h = ground arith

pub open-can_fail : (s : TransactionState) → is_terminal s ≡ false → can_transition s failed ≡ true
unfolding can_transition is_terminal
open-can_fail s h = ground arith
