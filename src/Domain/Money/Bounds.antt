-- ===== src/Domain/Money/Bounds.antt =====
-- The int64 arithmetic of money (internal/domain/money.go) against that of the integers.
use jg_backend_challenge_go.Prelude.{
  ◌+◌, ◌^◌, ◌≡◌, Bool, true, ◌&&◌, not, arith, ℤ, pos, pos_part, neg_part, ◌+ℤ◌, ◌-ℤ◌, +ℤ_parts,
  -ℤ_parts, IsInt64, wrap64, wrap64_eq_self, signs_differ, ltb, leb, text_eq, if◌then◌else◌, Result,
  ok, err,
}
use jg_backend_challenge_go.Domain.Errors.{Code, currency_mismatch, money_overflow}
use jg_backend_challenge_go.Domain.Money.{Money, add, sub, negate}

-- Whether an integer is one of the values of an int64.
abbrev pub fits : ℤ → Bool
fits a = ltb (pos_part a) (2 ^ 63) && leb (neg_part a) (2 ^ 63)

-- What an operation with the exact result `exact` may return.
abbrev pub exact_or_error : Bool → ℤ → Money → Result Code Money
exact_or_error same exact m =
    if not same
    then err currency_mismatch
    else if fits exact
    then ok (record { minor = exact; currency = m.currency })
    else err money_overflow

-- The sign test of `Add` finds exactly the sums `z` that do not fit.
add_sign_test :
    (a b z : ℤ)
    → IsInt64 a
    → IsInt64 b
    → pos_part z + neg_part a + neg_part b ≡ neg_part z + pos_part a + pos_part b
    → (signs_differ a (wrap64 z) && signs_differ b (wrap64 z)) ≡ not (fits z)
unfolding wrap64
add_sign_test (pos a) (pos b) (pos z) ha hb e = ground arith
add_sign_test _ _ _ ha hb e = ground arith

-- The sign test of `Sub` finds exactly the differences `z` that do not fit.
sub_sign_test :
    (a b z : ℤ)
    → IsInt64 a
    → IsInt64 b
    → pos_part z + neg_part a + pos_part b ≡ neg_part z + pos_part a + neg_part b
    → (signs_differ a b && signs_differ a (wrap64 z)) ≡ not (fits z)
unfolding wrap64
sub_sign_test (pos a) (pos b) (pos z) ha hb e = ground arith
sub_sign_test _ _ _ ha hb e = ground arith

pub wrap64_of_fits : (a : ℤ) → fits a ≡ true → wrap64 a ≡ a
wrap64_of_fits a h = wrap64_eq_self a (ground arith)

-- For two int64 amounts `Add` returns the true sum where it is an int64, the overflow error where it
-- is not, and the mismatch error for two currencies.
pub add-exact :
    (m o : Money)
    → IsInt64 m.minor
    → IsInt64 o.minor
    → add m o ≡ exact_or_error (text_eq m.currency o.currency) (m.minor +ℤ o.minor) m
unfolding add
add-exact m o hm ho =
    rw (add_sign_test m.minor o.minor (m.minor +ℤ o.minor) hm ho (+ℤ_parts m.minor o.minor))
      (ground (arith, wrap64_of_fits (m.minor +ℤ o.minor)))

-- For two int64 amounts `Sub` returns the true difference where it is an int64, the overflow error
-- where it is not, and the mismatch error for two currencies.
pub sub-exact :
    (m o : Money)
    → IsInt64 m.minor
    → IsInt64 o.minor
    → sub m o ≡ exact_or_error (text_eq m.currency o.currency) (m.minor -ℤ o.minor) m
unfolding sub
sub-exact m o hm ho =
    rw (sub_sign_test m.minor o.minor (m.minor -ℤ o.minor) hm ho (-ℤ_parts m.minor o.minor))
      (ground (arith, wrap64_of_fits (m.minor -ℤ o.minor)))

-- For an int64 amount `Negate` returns the true opposite where it is an int64, and the overflow
-- error where it is not.
pub negate-exact :
    (m : Money) → IsInt64 m.minor → negate m ≡ exact_or_error true (pos 0 -ℤ m.minor) m
unfolding negate wrap64 ◌-ℤ◌
negate-exact m h = ground arith
