-- ===== src/Domain/Reversal/Matrix.antt =====
-- The matrix of reversals as a relation, and the validations against it (internal/domain/reversal.go).
use jg_backend_challenge_go.Prelude.{
  ◌≡◌, refl, ◌↔◌, Bool, false, arith, some, text_eq_iff, ok, eq_of_parts,
}
use jg_backend_challenge_go.Domain.Money.{equal}
use jg_backend_challenge_go.Domain.Transaction.{
  TransactionKind, bet, win, refund, rollback, processed, WagerTransaction,
}
use jg_backend_challenge_go.Domain.Reversal.{
  check_edge, validate_reversal_target, Operation, Reference, validate_reference_agreement,
}

-- The entries marked OK in the table.
pub data Reverses : TransactionKind → TransactionKind → Type 0 where
  refund_bet : Reverses refund bet
  rollback_bet : Reverses rollback bet
  rollback_win : Reverses rollback win
  rollback_refund : Reverses rollback refund

check_edge-Reverses : (r k : TransactionKind) → check_edge r k ≡ ok tt → Reverses r k
unfolding check_edge
check_edge-Reverses r k h = grind (arith, refund_bet, rollback_bet, rollback_win, rollback_refund)

Reverses-check_edge : {r k : TransactionKind} → Reverses r k → check_edge r k ≡ ok tt
unfolding check_edge
Reverses-check_edge refund_bet = refl
Reverses-check_edge rollback_bet = refl
Reverses-check_edge rollback_win = refl
Reverses-check_edge rollback_refund = refl

-- When a reversal may go ahead.
pub record IsReversible (reverser : TransactionKind) (target : WagerTransaction)
    (has_active_win : Bool) : Type 0 where
  pub settled : target.state ≡ processed
  pub edge : Reverses reverser target.kind
  pub unreversed : target.has_reversal ≡ false
  pub no_active_win : target.kind ≡ bet → has_active_win ≡ false

reversal_target_sound :
    (r : TransactionKind) (target : WagerTransaction) (w : Bool)
    → validate_reversal_target r (some target) w ≡ ok tt
    → IsReversible r target w
unfolding validate_reversal_target
reversal_target_sound r target w h = record {
  settled = ground arith;
  edge = check_edge-Reverses r target.kind (ground arith);
  unreversed = ground arith;
  no_active_win = ground arith;
}

reversal_target_complete :
    (r : TransactionKind) (target : WagerTransaction) (w : Bool)
    → IsReversible r target w
    → validate_reversal_target r (some target) w ≡ ok tt
unfolding validate_reversal_target
reversal_target_complete r target w h = ground (arith, Reverses-check_edge h.edge, h.no_active_win)

-- `ValidateReversalTarget` passes exactly the edges of the table, from a processed target that has no
-- reversal yet and, if it is a bet, no active win.
pub validate_reversal_target_iff :
    (r : TransactionKind) (target : WagerTransaction) (w : Bool)
    → (validate_reversal_target r (some target) w ≡ ok tt) ↔ IsReversible r target w
validate_reversal_target_iff r target w =
    (reversal_target_sound r target w, reversal_target_complete r target w)

-- What the operation and its reference have to agree on.
pub record Agrees (op : Operation) (r : Reference) : Type 0 where
  pub provider : op.provider_id ≡ r.provider_id
  pub player : op.player_id ≡ r.player_id
  pub wallet : op.wallet_id ≡ r.wallet_id
  pub round : op.round_id ≡ r.round_id
  pub amount : op.amount ≡ r.amount

-- `ValidateReferenceAgreement` passes exactly if provider, player, wallet, round and the whole amount
-- with its currency agree.
pub validate_reference_agreement_iff :
    (op : Operation) (r : Reference) → (validate_reference_agreement op r ≡ ok tt) ↔ Agrees op r
unfolding validate_reference_agreement equal
validate_reference_agreement_iff op r = ground (
  arith,
  text_eq_iff op.provider_id r.provider_id,
  text_eq_iff op.player_id r.player_id,
  text_eq_iff op.wallet_id r.wallet_id,
  text_eq_iff op.round_id r.round_id,
  text_eq_iff op.amount.currency r.amount.currency,
  eq_of_parts op.amount.minor r.amount.minor,
)
