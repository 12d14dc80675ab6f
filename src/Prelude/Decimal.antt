-- ===== src/Prelude/Decimal.antt =====
-- Decimal numerals: `strconv.ParseInt(s, 10, 64)` and the verbs `%d` and `%02d` of fmt.
use Prim.Native.Nat.{ℕ, zero, suc, ◌+◌, ◌-◌, ◌*◌, ◌/◌, ◌%◌, ◌^◌, ◌<◌}
use mathlib.Core.Path.{◌≡◌, refl}
use mathlib.Core.Bool.{true, false, not}
use mathlib.Core.Option
use mathlib.Core.Option.{Option, none, some}
use mathlib.Core.List.{[], ◌∷◌}
use native.Mathlib.Omega.{arith}
use jg_backend_challenge_go.Prelude.Tests.{◌==◌, ltb, if◌then◌else◌}
use jg_backend_challenge_go.Prelude.Int.{ℤ, pos, sub_ℕ}
use jg_backend_challenge_go.Prelude.Strings.{Text, is_empty, all_bytes, is_digit}

-- The number that digits spell behind `n`, with no bound.
unfoldable pub value_from : ℕ → Text → ℕ
value_from n [] = n
value_from n (c ∷ s) = value_from (n * 10 + (c - b'0')) s

-- A text of one or more digits whose value is `limit` at most.
unfoldable pub parse_digits : ℕ → Text → Option ℕ
parse_digits limit s =
    if is_empty s
    then none
    else if not (all_bytes is_digit s)
    then none
    else if ltb limit (value_from 0 s)
    then none
    else some (value_from 0 s)

-- strconv.ParseInt(s, 10, 64): one sign is allowed in front of the digits.
unfoldable pub parse_int : Text → Option ℤ
unfolding parse_digits
parse_int [] = none
parse_int (c ∷ s) =
    if c == b'-'
    then Option.map (λ n. sub_ℕ 0 n) (parse_digits (2 ^ 63) s)
    else if c == b'+'
    then Option.map pos (parse_digits (2 ^ 63 - 1) s)
    else Option.map pos (parse_digits (2 ^ 63 - 1) (c ∷ s))

-- The digits of `n` in front of `out`, a round for each digit.
unfoldable pub digits : ℕ → ℕ → Text → Text
digits zero n out = out
digits (suc f) n out =
    let c = b'0' + n % 10 in
    let rest = digits f (n / 10) (c ∷ out) in if ltb n 10 then c ∷ out else rest

-- `%d` of a number that is not negative.
unfoldable pub decimal : ℕ → Text
unfolding digits
decimal n = digits (suc n) n []

-- `%02d` of a number below 100.
unfoldable pub two_digits : ℕ → Text
two_digits n = (b'0' + n / 10) ∷ (b'0' + n % 10) ∷ []

value_from-digits :
    (f n : ℕ) (out : Text) → n < f → value_from 0 (digits f n out) ≡ value_from n out
unfolding digits value_from
value_from-digits zero n out h = elim h [ ]
value_from-digits (suc f) n out h =
    ground (arith, value_from-digits f (n / 10) ((b'0' + n % 10) ∷ out))

-- Reading a printed number gives the number.
pub value_from-decimal : (n : ℕ) → value_from 0 (decimal n) ≡ n
unfolding decimal value_from
value_from-decimal n = value_from-digits (suc n) n [] (omega arith)

digits-all :
    (f n : ℕ) (out : Text)
    → all_bytes is_digit out ≡ true
    → all_bytes is_digit (digits f n out) ≡ true
unfolding digits
digits-all zero n out h = h
digits-all (suc f) n out h = ground (arith, digits-all f (n / 10) ((b'0' + n % 10) ∷ out))

pub decimal-digits : (n : ℕ) → all_bytes is_digit (decimal n) ≡ true
unfolding decimal
decimal-digits n = digits-all (suc n) n [] refl

digits-nonempty : (f n : ℕ) (out : Text) → is_empty out ≡ false → is_empty (digits f n out) ≡ false
unfolding digits
digits-nonempty zero n out h = h
digits-nonempty (suc f) n out h = ground (arith, digits-nonempty f (n / 10) ((b'0' + n % 10) ∷ out))

pub decimal-nonempty : (n : ℕ) → is_empty (decimal n) ≡ false
unfolding decimal digits
decimal-nonempty n = ground (arith, digits-nonempty n (n / 10) ((b'0' + n % 10) ∷ []))

pub value_from-two_digits : (n : ℕ) → n < 100 → value_from 0 (two_digits n) ≡ n
unfolding value_from two_digits
value_from-two_digits n h = omega arith
