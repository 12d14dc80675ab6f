-- ===== src/Wagering/Submit/Recorded.antt =====
-- The outcome that the row of a transaction holds (internal/wagering/accept.go: replayResult).
use jg_backend_challenge_go.Prelude.{
  ◌≡◌, ◌⊎◌, inl, inr, ap, ℤ, pos, [], Option, none, refl, true, false, Text, some, arith,
}
use jg_backend_challenge_go.Domain.Money.{Money, valid_currency, new_money_from_minor}
use jg_backend_challenge_go.Domain.Transaction.{TransactionState}
use jg_backend_challenge_go.Domain.Transaction
use jg_backend_challenge_go.Ports.{TxRecord}
use jg_backend_challenge_go.Wagering.Service.{SubmitResult, str, Outcome}
use jg_backend_challenge_go.Wagering.Submit.{
  replay_result, is_decided, observed_balance, version_or_zero,
}

-- The text in a column, or none.
abbrev pub Reports : Option Text → Text → Type 0
Reports column value = ((column ≡ none) × (value ≡ [])) ⊎ (column ≡ some value)

abbrev pub IsSettled : TransactionState → Type 0
IsSettled state = (state ≡ Transaction.processed) ⊎ (state ≡ Transaction.rejected)

-- The balance that the two columns of a row hold.
pub record Observed (prev : TxRecord) (balance : Option Money) : Type 0 where
  pub shown :
      (minor : ℤ) (currency : Text)
      → prev.result_balance_minor ≡ some minor
      → prev.result_currency ≡ some currency
      → valid_currency currency ≡ true
      → balance ≡ some (record { minor = minor; currency = currency })
  pub no_amount : prev.result_balance_minor ≡ none → balance ≡ none
  pub no_currency : prev.result_currency ≡ none → balance ≡ none
  pub other_currency :
      (currency : Text)
      → prev.result_currency ≡ some currency
      → valid_currency currency ≡ false
      → balance ≡ none

-- The outcome that a row holds.
pub record Replays (prev : TxRecord) (r : SubmitResult) : Type 0 where
  pub same_id : r.transaction_id ≡ prev.id
  pub marked : r.idempotent_replay ≡ true
  pub code : Reports prev.failure_code r.failure_code
  pub version :
      ((prev.wallet_version_observed ≡ none) × (r.wallet_version ≡ pos 0))
      ⊎ (prev.wallet_version_observed ≡ some r.wallet_version)
  pub settled : IsSettled prev.state → (r.outcome ≡ Outcome.replay) × Observed prev r.balance
  pub unsettled : ¬ IsSettled prev.state → (r.outcome ≡ Outcome.pending) × (r.balance ≡ none)

is_decided-true : {state : TransactionState} → IsSettled state → is_decided state ≡ true
is_decided-true (inl e) = ap is_decided e
is_decided-true (inr e) = ap is_decided e

is_decided-false : (state : TransactionState) → ¬ IsSettled state → is_decided state ≡ false
is_decided-false Transaction.processed h = absurd (h (inl refl))
is_decided-false Transaction.rejected h = absurd (h (inr refl))
is_decided-false _ h = refl

str-Reports : (o : Option Text) → Reports o (str o)
str-Reports none = inl (refl, refl)
str-Reports (some x) = inr refl

version_reported :
    (o : Option ℤ) → ((o ≡ none) × (version_or_zero o ≡ pos 0)) ⊎ (o ≡ some (version_or_zero o))
version_reported none = inl (refl, refl)
version_reported (some v) = inr refl

observed_none : (m : Option ℤ) → observed_balance m none ≡ none
unfolding observed_balance
observed_none none = refl
observed_none (some m) = refl

valid_money :
    (minor : ℤ) (currency : Text)
    → valid_currency currency ≡ true
    → observed_balance (some minor) (some currency)
      ≡ some (record { minor = minor; currency = currency })
unfolding observed_balance new_money_from_minor
valid_money minor currency h = ground arith

invalid_money_none :
    (m : Option ℤ) (currency : Text)
    → valid_currency currency ≡ false
    → observed_balance m (some currency) ≡ none
unfolding observed_balance new_money_from_minor
invalid_money_none none currency h = refl
invalid_money_none (some m) currency h = ground arith

observed_balance-Observed :
    (prev : TxRecord)
    → Observed prev (observed_balance prev.result_balance_minor prev.result_currency)
observed_balance-Observed prev = record {
  shown = λ minor currency m c v. rw (m, c) (valid_money minor currency v);
  no_amount = λ m. rw m (unfold observed_balance in refl);
  no_currency = λ c. rw c (observed_none prev.result_balance_minor);
  other_currency = λ currency c v. rw c (invalid_money_none prev.result_balance_minor currency v);
}

pub replay_result-Replays : (prev : TxRecord) → Replays prev (replay_result prev)
unfolding replay_result
replay_result-Replays prev = record {
  same_id = refl;
  marked = refl;
  code = str-Reports prev.failure_code;
  version = version_reported prev.wallet_version_observed;
  settled = λ h. rw (is_decided-true h) (refl, observed_balance-Observed prev);
  unsettled = λ h. rw (is_decided-false prev.state h) (refl, refl);
}
