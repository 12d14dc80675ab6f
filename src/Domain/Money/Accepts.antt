-- ===== src/Domain/Money/Accepts.antt =====
-- What `ParseMoney` accepts, against the grammar of its comment: digits, one dot, two digits.
use jg_backend_challenge_go.Prelude.{
  ℕ, zero, suc, ◌+◌, ◌*◌, ◌≤◌, ◌<◌, ◌≡◌, refl, inl, inr, true, false, none, some, arith, pos,
  max_int64, Text, [], ◌∷◌, ◌++◌, is_empty, all_bytes, is_digit, index_byte, length, leb,
  length-append, if◌then◌else◌, take, drop, value_from, parse_digits, Option-cases, ok, err, ap,
}
use jg_backend_challenge_go.Domain.Errors.{invalid_money, money_overflow}
use jg_backend_challenge_go.Domain.Money.{Money, valid_currency}
use jg_backend_challenge_go.Domain.Money.Parse.{parse_parts, parse_money}

abbrev pub units_of : Text → Text → ℕ
units_of whole cents = value_from 0 whole * 100 + value_from 0 cents

-- `s` is `whole`, a dot and two digits, and stands for `n` minor units.
pub record IsAmount (s whole cents : Text) (n : ℕ) : Type 0 where
  pub shape : s ≡ whole ++ (b'.' ∷ cents)
  pub whole_nonempty : is_empty whole ≡ false
  pub whole_digits : all_bytes is_digit whole ≡ true
  pub cents_digits : all_bytes is_digit cents ≡ true
  pub two_cents : length cents ≡ 2
  pub units : n ≡ units_of whole cents

reshape :
    {s t whole cents : Text} {n : ℕ}
    → t ≡ whole ++ (b'.' ∷ cents)
    → IsAmount s whole cents n
    → IsAmount t whole cents n
reshape e h = record {
  shape = e;
  whole_nonempty = h.whole_nonempty;
  whole_digits = h.whole_digits;
  cents_digits = h.cents_digits;
  two_cents = h.two_cents;
  units = h.units;
}

index_byte-eq-some :
    (s : Text) (c : ℕ) {i : ℕ} → index_byte s c ≡ some i → s ≡ take i s ++ (c ∷ drop (suc i) s)
index_byte-eq-some [] c h = cc
index_byte-eq-some (x ∷ s) c {i = zero} h = ground arith
index_byte-eq-some (x ∷ s) c {i = suc i} h = ground (arith, index_byte-eq-some s c {i = i})

index_byte-append :
    (whole cents : Text)
    → all_bytes is_digit whole ≡ true
    → index_byte (whole ++ (b'.' ∷ cents)) b'.' ≡ some (length whole)
index_byte-append [] cents h = refl
index_byte-append (x ∷ whole) cents h = ground (arith, index_byte-append whole cents)

-- Digits hold no dot.
index_byte_digits : (s : Text) → all_bytes is_digit s ≡ true → index_byte s b'.' ≡ none
index_byte_digits [] h = refl
index_byte_digits (x ∷ s) h = ground (arith, index_byte_digits s)

take-length : (xs ys : Text) → take (length xs) (xs ++ ys) ≡ xs
take-length [] ys = refl
take-length (x ∷ xs) ys = ap (λ t. x ∷ t) (take-length xs ys)

drop-length : (xs ys : Text) (c : ℕ) → drop (suc (length xs)) (xs ++ (c ∷ ys)) ≡ ys
drop-length [] ys c = refl
drop-length (x ∷ xs) ys c = drop-length xs ys c

value_two : (s : Text) → length s ≡ 2 → all_bytes is_digit s ≡ true → value_from 0 s ≤ 99
unfolding value_from
value_two [] e h = absurd (omega arith)
value_two (a ∷ []) e h = absurd (omega arith)
value_two (a ∷ b ∷ []) e h = ground arith
value_two (a ∷ b ∷ c ∷ s) e h = absurd (omega arith)

length_pos : (s : Text) → is_empty s ≡ false → 0 < length s
length_pos [] h = cc
length_pos (x ∷ s) h = omega arith

-- What `parse_parts` accepts, and with which value.
parse_parts_sound :
    (whole cents currency : Text) {m : Money}
    → parse_parts whole cents currency ≡ ok m
    → IsAmount (whole ++ (b'.' ∷ cents)) whole cents (units_of whole cents)
      × (units_of whole cents ≤ max_int64)
      × (m ≡ record { minor = pos (units_of whole cents); currency = currency })
unfolding parse_parts parse_digits
parse_parts_sound whole cents currency h = ground (arith, value_two cents)

parse_needs_dot :
    (s currency : Text) → index_byte s b'.' ≡ none → parse_money s currency ≡ err invalid_money
unfolding parse_money
parse_needs_dot s currency e = ground arith

parse_with_dot :
    (s currency : Text) {i : ℕ} {m : Money}
    → index_byte s b'.' ≡ some i
    → parse_money s currency ≡ ok m
    → (valid_currency currency ≡ true) × (parse_parts (take i s) (drop (suc i) s) currency ≡ ok m)
unfolding parse_money
parse_with_dot s currency e h = ground arith

-- `ParseMoney` accepts only what the grammar allows, and its result is the amount spelled out: it is
-- an int64, nothing wrapped around, and the currency is valid.
pub parse_money_sound :
    (s currency : Text) {m : Money}
    → parse_money s currency ≡ ok m
    → (whole cents : Text) × (n : ℕ) × IsAmount s whole cents n
      × (n ≤ max_int64)
      × (valid_currency currency ≡ true)
      × (m ≡ record { minor = pos n; currency = currency })
unfolding parse_money
parse_money_sound s currency h = elim (Option-cases (index_byte s b'.')) [
  | inl e ↦ cc (parse_needs_dot s currency e, h)
  | inr (i, e) ↦
      let whole = take i s in
      let cents = drop (suc i) s in
      let shape = index_byte-eq-some s b'.' e in
      let (valid, rest) = parse_with_dot s currency e h in
      let (amount, fits, exact) = parse_parts_sound whole cents currency rest in
      (whole, cents, units_of whole cents, reshape shape amount, fits, valid, exact)
]

parse_parts_complete :
    (whole cents currency : Text) (n : ℕ)
    → IsAmount (whole ++ (b'.' ∷ cents)) whole cents n
    → parse_parts whole cents currency ≡ (
        if leb n max_int64
        then ok (record { minor = pos n; currency = currency })
        else err money_overflow)
unfolding parse_parts parse_digits
parse_parts_complete whole cents currency n h = ground (
  arith,
  index_byte_digits cents h.cents_digits,
  value_two cents h.two_cents h.cents_digits,
  length_pos whole h.whole_nonempty,
)

amount_long_enough :
    (whole cents : Text)
    → is_empty whole ≡ false
    → length cents ≡ 2
    → 4 ≤ length (whole ++ (b'.' ∷ cents))
amount_long_enough whole cents h e =
    omega (arith, length-append {0} whole (b'.' ∷ cents), length_pos whole h)

-- `ParseMoney` refuses nothing that the grammar allows, but an amount that is no int64: that is an
-- overflow error.
pub parse_money_complete :
    (s currency whole cents : Text) (n : ℕ)
    → valid_currency currency ≡ true
    → IsAmount s whole cents n
    → parse_money s currency ≡ (
        if leb n max_int64
        then ok (record { minor = pos n; currency = currency })
        else err money_overflow)
unfolding parse_money
parse_money_complete s currency whole cents n hc h =
    rw (h.shape, hc, index_byte-append whole cents h.whole_digits)
      (rw (take-length whole (b'.' ∷ cents), drop-length whole cents b'.')
        (ground (
          arith,
          amount_long_enough whole cents h.whole_nonempty h.two_cents,
          parse_parts_complete whole cents currency n (reshape refl h),
        )))
