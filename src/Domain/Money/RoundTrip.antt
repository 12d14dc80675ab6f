-- ===== src/Domain/Money/RoundTrip.antt =====
-- `ParseMoney` of what `String` prints (internal/domain/money.go).
use jg_backend_challenge_go.Prelude.{
  ℕ, ◌/◌, ◌%◌, ◌<◌, ◌≤◌, ◌≡◌, refl, true, arith, pos, max_int64, Text, decimal, two_digits,
  decimal-digits, decimal-nonempty, value_from-decimal, value_from-two_digits, all_bytes, is_digit,
  ok,
}
use jg_backend_challenge_go.Domain.Money.{valid_currency}
use jg_backend_challenge_go.Domain.Money.Parse.{parse_money}
use jg_backend_challenge_go.Domain.Money.Format.{fixed_point, to_text}
use jg_backend_challenge_go.Domain.Money.Accepts.{IsAmount, parse_money_complete}

two_digits-digits : (n : ℕ) → n < 100 → all_bytes is_digit (two_digits n) ≡ true
unfolding two_digits
two_digits-digits n h = ground arith

fixed_point-IsAmount :
    (n : ℕ) → IsAmount (fixed_point n) (decimal (n / 100)) (two_digits (n % 100)) n
unfolding fixed_point
fixed_point-IsAmount n = record {
  shape = refl;
  whole_nonempty = decimal-nonempty (n / 100);
  whole_digits = decimal-digits (n / 100);
  cents_digits = two_digits-digits (n % 100) (omega arith);
  two_cents = unfold two_digits in refl;
  units =
      rw (value_from-decimal (n / 100), value_from-two_digits (n % 100) (omega arith))
        (omega arith);
}

-- An amount that is an int64 and not negative, in a valid currency, is read back from its text.
pub parse_money-to_text :
    (n : ℕ) (currency : Text)
    → n ≤ max_int64
    → valid_currency currency ≡ true
    → parse_money (to_text (record { minor = pos n; currency = currency })) currency
      ≡ ok (record { minor = pos n; currency = currency })
unfolding to_text
parse_money-to_text n currency h valid =
    rw (parse_money_complete (fixed_point n) currency _ _ n valid (fixed_point-IsAmount n))
      (ground arith)
