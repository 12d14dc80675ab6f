-- ===== src/Domain/Money/Format.antt =====
-- `String` and `Format` (internal/domain/money.go): "25.00" for 2500 minor units.
use jg_backend_challenge_go.Prelude.{
  ℕ, ◌+◌, ◌/◌, ◌%◌, pos, ◌-ℤ◌, wrap64, pos_part, is_neg, eqb_ℤ, max_int64, Text, ◌∷◌, ◌++◌, decimal,
  two_digits, if◌then◌else◌,
}
use jg_backend_challenge_go.Domain.Money.{Money, min_int64}

-- `%d.%02d`
unfoldable pub fixed_point : ℕ → Text
fixed_point n = decimal (n / 100) ++ (b'.' ∷ two_digits (n % 100))

-- The value of `abs` is not negative where it is printed, so it is its positive part.
unfoldable pub to_text : Money → Text
unfolding fixed_point
to_text m =
    let neg = is_neg m.minor in
    if neg
    then if eqb_ℤ m.minor min_int64
      then b'-' ∷ fixed_point (max_int64 + 1)
      else b'-' ∷ fixed_point (pos_part (wrap64 (pos 0 -ℤ m.minor)))
    else fixed_point (pos_part m.minor)

unfoldable pub format : Money → Text
unfolding to_text
format m = to_text m
