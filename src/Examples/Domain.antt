-- ===== src/Examples/Domain.antt =====
-- The theorems on internal/domain at concrete inputs.
use jg_backend_challenge_go.Prelude.{
  ◌≡◌, refl, ◌↔◌, Bool, true, false, List, [], ◌∷◌, arith, ℤ, pos, negsuc, ◌+ℤ◌, ◌-ℤ◌, ◌≤ℤ◌,
  IsInt64, max_int64, ℕ, ◌≤◌, Text, codes, Result, ok, err, some, int_laws, text_eq, parse_digits,
  value_from, length, ◌^◌, if◌then◌else◌, not, leb,
}
use jg_backend_challenge_go.Domain.Errors.{money_overflow, insufficient_balance, invalid_transition}
use jg_backend_challenge_go.Domain.Money.{Money, add, sub, negate, valid_currency}
use jg_backend_challenge_go.Domain.Money.Parse.{parse_money, parse_parts}
use jg_backend_challenge_go.Domain.Money.Format.{to_text}
use jg_backend_challenge_go.Domain.Money.Accepts.{IsAmount, parse_money_sound, parse_money_complete}
use jg_backend_challenge_go.Domain.Money.Bounds.{
  fits, exact_or_error, add-exact, sub-exact, negate-exact,
}
use jg_backend_challenge_go.Domain.Money.RoundTrip.{parse_money-to_text}
use jg_backend_challenge_go.Domain.Wallet.{Wallet, credit, debit}
use jg_backend_challenge_go.Domain.Wallet.Movements.{
  IsSound, Moves, moved_to, credit_lem, debit_lem, credit-Moves, debit-Moves,
}
use jg_backend_challenge_go.Domain.Transaction.{
  TransactionKind, bet, refund, TransactionState, pending, processed, rejected, pending_reference,
  WagerTransaction, new_transaction, rehydrate_transaction, can_transition, is_terminal,
}
use jg_backend_challenge_go.Domain.Transaction.Lifecycle.{Step, can_transition_iff}
use jg_backend_challenge_go.Domain.Transaction.Calls.{
  Call, parked, processed_by, rejected_by, reversed_by, reversal_cleared, aim, invoke,
  is_terminal_iff,
}
use jg_backend_challenge_go.Domain.Transaction.Histories.{
  recorded, inputs, Among, run, run_terminal, IsRecorded, new-run-IsRecorded,
}
use jg_backend_challenge_go.Domain.LedgerEntry.{LedgerEntry, credit as credit_direction}
use jg_backend_challenge_go.Domain.LedgerEntry.Balance.{rebuild, IsBalanced, rebuild_iff}
use jg_backend_challenge_go.Domain.Reversal.{
  Operation, Reference, validate_reversal_target, validate_reference_agreement,
}
use jg_backend_challenge_go.Domain.Reversal.Matrix.{
  IsReversible, Agrees, validate_reversal_target_iff, validate_reference_agreement_iff,
}

abbrev brl : Text
brl = codes "BRL"

abbrev money : ℤ → Money
money n = record { minor = n; currency = brl }

abbrev wallet : Wallet
wallet = record {
  id = codes "w";
  player_id = codes "p";
  currency = brl;
  balance = money (pos 1000);
  version = pos 1;
}

wallet-IsSound : IsSound wallet
unfolding valid_currency
wallet-IsSound = record {
  currency_valid = refl;
  same_currency = refl;
  balance_int64 = ground arith;
  balance_nonneg = ground arith;
  version_int64 = ground arith;
  version_pos = ground arith;
}

add-exact_example :
    add (money (pos 250)) (money (negsuc 99))
    ≡ exact_or_error (text_eq brl brl) (pos 250 +ℤ negsuc 99) (money (pos 250))
add-exact_example = add-exact (money (pos 250)) (money (negsuc 99)) (ground arith) (ground arith)

sub-exact_example :
    sub (money (negsuc 0)) (money (pos max_int64))
    ≡ exact_or_error (text_eq brl brl) (negsuc 0 -ℤ pos max_int64) (money (negsuc 0))
sub-exact_example =
    sub-exact (money (negsuc 0)) (money (pos max_int64)) (ground arith) (ground arith)

negate-exact_example :
    negate (money (negsuc max_int64))
    ≡ exact_or_error true (pos 0 -ℤ negsuc max_int64) (money (negsuc max_int64))
negate-exact_example = negate-exact (money (negsuc max_int64)) (ground arith)

parsed : parse_money (codes "12.50") brl ≡ ok (money (pos 1250))
unfolding parse_money valid_currency parse_parts parse_digits value_from
parsed = refl

parse_money_sound_example :
    (whole cents : Text) × (n : ℕ) × IsAmount (codes "12.50") whole cents n
    × (n ≤ max_int64)
    × (valid_currency brl ≡ true)
    × (money (pos 1250) ≡ record { minor = pos n; currency = brl })
parse_money_sound_example = parse_money_sound (codes "12.50") brl parsed

largest : IsAmount (codes "92233720368547758.08") (codes "92233720368547758") (codes "08") (2 ^ 63)
unfolding value_from
largest = record {
  shape = refl;
  whole_nonempty = refl;
  whole_digits = refl;
  cents_digits = refl;
  two_cents = refl;
  units = refl;
}

brl_valid : valid_currency brl ≡ true
unfolding valid_currency
brl_valid = refl

parse_money_complete_example : parse_money (codes "92233720368547758.08") brl ≡ (
    if leb (2 ^ 63) max_int64
    then ok (record { minor = pos (2 ^ 63); currency = brl })
    else err money_overflow)
parse_money_complete_example =
    parse_money_complete (codes "92233720368547758.08") brl (codes "92233720368547758") (codes "08")
      (2 ^ 63) brl_valid largest

parse_money-to_text_example : parse_money (to_text (money (pos 5))) brl ≡ ok (money (pos 5))
parse_money-to_text_example = parse_money-to_text 5 brl (omega arith) brl_valid

credit_lem_example : credit wallet (codes "p") (money (pos 250)) ≡ moved_to wallet (pos 1250)
unfolding text_eq ◌+ℤ◌
credit_lem_example = credit_lem wallet (codes "p") (money (pos 250)) wallet-IsSound (ground arith)

debit_lem_example : debit wallet (codes "p") (money (pos 1001)) ≡ err insufficient_balance
unfolding text_eq
debit_lem_example = debit_lem wallet (codes "p") (money (pos 1001)) wallet-IsSound (ground arith)

abbrev credited : Wallet
credited = record wallet { balance = money (pos 1250); version = pos 2 }

abbrev debited : Wallet
debited = record wallet { balance = money (pos 0); version = pos 2 }

credit-Moves_example :
    Moves wallet (pos 250) (money (pos 1000)) (money (pos 1250)) credited
    × (pos 1 ≤ℤ pos 250)
    × (fits (pos 1 +ℤ pos 1) ≡ true → IsSound credited)
unfolding jg_backend_challenge_go.Prelude.wrap64 ◌+ℤ◌
credit-Moves_example =
    credit-Moves wallet (codes "p") (money (pos 250)) wallet-IsSound (ground arith)
      credit_lem_example

debited_all :
    debit wallet (codes "p") (money (pos 1000)) ≡ ok (money (pos 1000), money (pos 0), debited)
unfolding text_eq ◌-ℤ◌ jg_backend_challenge_go.Prelude.wrap64 ◌+ℤ◌
debited_all = debit_lem wallet (codes "p") (money (pos 1000)) wallet-IsSound (ground arith)

debit-Moves_example :
    Moves wallet (pos 0 -ℤ pos 1000) (money (pos 1000)) (money (pos 0)) debited
    × (pos 1 ≤ℤ pos 1000)
    × (pos 1000 ≤ℤ pos 1000)
    × (fits (pos 1 +ℤ pos 1) ≡ true → IsSound debited)
debit-Moves_example =
    debit-Moves wallet (codes "p") (money (pos 1000)) wallet-IsSound (ground arith) debited_all

can_transition_iff_example :
    (can_transition pending_reference processed ≡ true) ↔ Step pending_reference processed
can_transition_iff_example = can_transition_iff pending_reference processed

abbrev tx : TransactionKind → TransactionState → WagerTransaction
tx kind state =
    rehydrate_transaction (codes "t") kind state (money (pos 250)) (codes "p") (codes "w")

is_terminal_iff_example :
    ((is_terminal (tx bet rejected).state ≡ true)
      ↔ ((to : TransactionState) → can_transition (tx bet rejected).state to ≡ false))
    × ((is_terminal (tx bet rejected).state ≡ true) ↔ (
        (c : Call) (to : TransactionState)
        → aim c ≡ some to
        → invoke c (tx bet rejected) ≡ (err invalid_transition, tx bet rejected)))
is_terminal_iff_example = is_terminal_iff (tx bet rejected)

abbrev late : List Call
late =
    parked ∷ rejected_by (codes "X") (money (pos 0)) (pos 3) ∷ reversed_by refund (codes "r") ∷ []

run_terminal_example :
    (recorded (run (tx bet processed) late) ≡ recorded (tx bet processed))
    × (inputs (run (tx bet processed) late) ≡ inputs (tx bet processed))
    × ((c : Call) (to : TransactionState)
        → aim c ≡ some to
        → invoke c (run (tx bet processed) late)
          ≡ (err invalid_transition, run (tx bet processed) late))
run_terminal_example =
    run_terminal (tx bet processed) late (unfold is_terminal rehydrate_transaction in refl)

abbrev life : List Call
life = parked ∷ processed_by (money (pos 750)) (pos 2) ∷ parked ∷ reversal_cleared ∷ []

new_tx :
    new_transaction (codes "t") bet (money (pos 250)) (codes "p") (codes "w") ≡ ok (tx bet pending)
unfolding new_transaction jg_backend_challenge_go.Domain.Transaction.validate_amount_for_kind
    jg_backend_challenge_go.Domain.Money.is_positive
new_tx = refl

new-run-IsRecorded_example :
    IsRecorded (λ c. Among c life) (tx bet pending) (run (tx bet pending) life)
new-run-IsRecorded_example =
    new-run-IsRecorded (codes "t") bet (money (pos 250)) (codes "p") (codes "w") life new_tx

abbrev opening_entry : LedgerEntry
opening_entry = record {
  id = codes "e";
  wallet_id = codes "w";
  transaction_id = codes "t";
  direction = credit_direction;
  amount = money (pos 1000);
  before = money (pos 0);
  after = money (pos 1000);
  wallet_version = pos 1;
}

rebuild_iff_example : (rebuild opening_entry ≡ ok opening_entry) ↔ IsBalanced opening_entry
rebuild_iff_example = rebuild_iff opening_entry (ground arith) (ground arith) (ground arith)

validate_reversal_target_iff_example :
    (validate_reversal_target refund (some (tx bet processed)) false ≡ ok tt)
    ↔ IsReversible refund (tx bet processed) false
validate_reversal_target_iff_example = validate_reversal_target_iff refund (tx bet processed) false

abbrev asked : Operation
asked = record {
  kind = refund;
  amount = money (pos 250);
  provider_id = codes "pr";
  player_id = codes "p";
  wallet_id = codes "w";
  round_id = codes "r";
  reference_external = codes "x";
}

abbrev referenced : Reference
referenced = record {
  kind = bet;
  state = processed;
  amount = money (pos 250);
  provider_id = codes "pr";
  player_id = codes "p";
  wallet_id = codes "w";
  round_id = codes "r";
  reversed = false;
}

validate_reference_agreement_iff_example :
    (validate_reference_agreement asked referenced ≡ ok tt) ↔ Agrees asked referenced
validate_reference_agreement_iff_example = validate_reference_agreement_iff asked referenced
