-- ===== src/Domain/Money/Parse.antt =====
-- `ParseMoney` (internal/domain/money.go): digits, one dot, two digits. The error's own text and the
-- wrapped text of strconv's error are left out.
use jg_backend_challenge_go.Prelude.{
  ℕ, suc, ◌+◌, ◌-◌, ◌*◌, ◌/◌, Bool, true, false, not, Option, none, some, pos, max_int64, Text,
  all_bytes, is_digit, index_byte, length, take, drop, parse_digits, ltb, ◌==◌, Result, ok, err,
  ◌>>=◌, ◌>>◌, fail_if,
}
use jg_backend_challenge_go.Domain.Errors.{Code, invalid_money, money_overflow}
use jg_backend_challenge_go.Domain.Money.{Money, valid_currency}

-- `err != nil` of a call of another package.
abbrev pub or_fail : {A : Type 0} → Option A → Code → Result Code A
or_fail none e = err e
or_fail (some a) e = ok a

abbrev is_none : Option ℕ → Bool
is_none none = true
is_none (some i) = false

-- What follows once the dot stands at `dot`.
unfoldable pub parse_parts : Text → Text → Text → Result Code Money
parse_parts int_part frac_part currency = do
  fail_if (not (is_none (index_byte frac_part b'.'))) invalid_money
  fail_if (not (length frac_part == 2)) invalid_money
  fail_if (length int_part == 0) invalid_money
  fail_if (not (all_bytes is_digit int_part)) invalid_money
  fail_if (not (all_bytes is_digit frac_part)) invalid_money
  dollars ← or_fail (parse_digits max_int64 int_part) money_overflow
  cents ← or_fail (parse_digits max_int64 frac_part) invalid_money
  fail_if (ltb ((max_int64 - cents) / 100) dollars) money_overflow
  ok (record { minor = pos (dollars * 100 + cents); currency = currency })

-- Both parts are digits where strconv reads them, so its reading of signs is of no account.
unfoldable pub parse_money : Text → Text → Result Code Money
parse_money amount_str currency = do
  fail_if (not (valid_currency currency)) invalid_money
  fail_if (ltb (length amount_str) 4) invalid_money
  dot ← or_fail (index_byte amount_str b'.') invalid_money
  parse_parts (take dot amount_str) (drop (suc dot) amount_str) currency
