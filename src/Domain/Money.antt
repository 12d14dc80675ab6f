-- ===== src/Domain/Money.antt =====
-- Money (internal/domain/money.go): an int64 of minor units with a currency. The arithmetic is here,
-- the strict parser in Money/Parse and the canonical text in Money/Format.
pub mod Parse
pub mod Format
pub mod Bounds
pub mod Accepts
pub mod RoundTrip
use jg_backend_challenge_go.Prelude.{
  ℕ, ◌-◌, ◌^◌, Bool, true, ◌&&◌, not, ℤ, pos, negsuc, ◌+ℤ◌, ◌-ℤ◌, wrap64, is_neg, signs_differ,
  ltb_ℤ, eqb_ℤ, Text, text_eq, length, all_bytes, leb, ◌==◌, if◌then◌else◌, Result, ok, err, ◌>>=◌,
  ◌>>◌, fail_if,
}
use jg_backend_challenge_go.Domain.Errors.{Code, invalid_money, currency_mismatch, money_overflow}

pub record Money : Type 0 where
  pub minor : ℤ  -- int64
  pub currency : Text

unfoldable pub is_zero : Money → Bool
is_zero m = eqb_ℤ m.minor (pos 0)

unfoldable pub is_positive : Money → Bool
is_positive m = ltb_ℤ (pos 0) m.minor

unfoldable pub is_negative : Money → Bool
is_negative m = is_neg m.minor

-- Exactly three upper-case ASCII letters.
unfoldable pub valid_currency : Text → Bool
valid_currency s = length s == 3 && all_bytes (λ c. leb b'A' c && leb c b'Z') s

unfoldable pub new_money_from_minor : ℤ → Text → Result Code Money
new_money_from_minor minor currency = do
  fail_if (not (valid_currency currency)) invalid_money
  ok (record { minor = minor; currency = currency })

-- math.MinInt64
abbrev pub min_int64 : ℤ
min_int64 = negsuc (2 ^ 63 - 1)

unfoldable pub check_currency : Money → Money → Result Code (Unit {0})
check_currency m o = fail_if (not (text_eq m.currency o.currency)) currency_mismatch

-- The sum wraps around, and the test on the sign bits tells whether it did.
unfoldable pub add : Money → Money → Result Code Money
unfolding check_currency
add m o = do
  check_currency m o
  let sum = wrap64 (m.minor +ℤ o.minor)
  fail_if (signs_differ m.minor sum && signs_differ o.minor sum) money_overflow
  ok (record { minor = sum; currency = m.currency })

unfoldable pub sub : Money → Money → Result Code Money
unfolding check_currency
sub m o = do
  check_currency m o
  let diff = wrap64 (m.minor -ℤ o.minor)
  fail_if (signs_differ m.minor o.minor && signs_differ m.minor diff) money_overflow
  ok (record { minor = diff; currency = m.currency })

unfoldable pub negate : Money → Result Code Money
negate m = do
  fail_if (eqb_ℤ m.minor min_int64) money_overflow
  ok (record { minor = wrap64 (pos 0 -ℤ m.minor); currency = m.currency })

-- -1, 0 or 1.
unfoldable pub cmp : Money → Money → Result Code ℤ
unfolding check_currency
cmp m o = do
  check_currency m o
  ok (if ltb_ℤ m.minor o.minor then negsuc 0 else if ltb_ℤ o.minor m.minor then pos 1 else pos 0)

unfoldable pub equal : Money → Money → Bool
equal m o = text_eq m.currency o.currency && eqb_ℤ m.minor o.minor
