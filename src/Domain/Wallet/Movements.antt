-- ===== src/Domain/Wallet/Movements.antt =====
-- What a credit and a debit do to a sound wallet (internal/domain/wallet.go).
use jg_backend_challenge_go.Prelude.{
  ◌≡◌, refl, sym, subst, ◌∙◌, true, not, arith, ℤ, pos, ◌+ℤ◌, ◌-ℤ◌, ◌≤ℤ◌, ltb_ℤ, IsInt64, wrap64,
  wrap64-IsInt64, int_laws, -ℤ_parts, Text, text_eq, text_eq_iff, if◌then◌else◌, Result, ok, err,
}
use jg_backend_challenge_go.Domain.Errors.{
  Code, currency_mismatch, wallet_player_mismatch, invalid_amount_for_kind, insufficient_balance,
  money_overflow,
}
use jg_backend_challenge_go.Domain.Money.{Money, valid_currency, is_positive, cmp}
use jg_backend_challenge_go.Domain.Money.Bounds.{fits, wrap64_of_fits, add-exact, sub-exact}
use jg_backend_challenge_go.Domain.Wallet.{Wallet, move_to, credit, debit}

-- The balance is an int64 in the wallet's own currency and not negative; versions start at 1.
pub record IsSound (w : Wallet) : Type 0 where
  pub currency_valid : valid_currency w.currency ≡ true
  pub same_currency : w.balance.currency ≡ w.currency
  pub balance_int64 : IsInt64 w.balance.minor
  pub balance_nonneg : pos 0 ≤ℤ w.balance.minor
  pub version_int64 : IsInt64 w.version
  pub version_pos : pos 1 ≤ℤ w.version

-- `w'` is `w` with `delta` added to its balance and the next version.
pub record Moves (w : Wallet) (delta : ℤ) (before after : Money) (w' : Wallet) : Type 0 where
  pub same_id : w'.id ≡ w.id
  pub same_player : w'.player_id ≡ w.player_id
  pub same_currency : w'.currency ≡ w.currency
  pub from_balance : before ≡ w.balance
  pub to_balance : after ≡ w'.balance
  pub moved : w'.balance.minor ≡ w.balance.minor +ℤ delta
  pub kept_currency : w'.balance.currency ≡ w.balance.currency
  pub next-IsVersion : w'.version ≡ wrap64 (w.version +ℤ pos 1)

abbrev pub moved_to : Wallet → ℤ → Result Code (Money × Money × Wallet)
moved_to w minor =
    let after : Money = record { minor = minor; currency = w.balance.currency } in
    ok (w.balance, after, move_to w after)

-- A credit to a sound wallet, on every branch: the two mismatches, an amount that is not positive,
-- the credit of the exact amount, and the overflow error for a sum that is no int64.
pub credit_lem :
    (w : Wallet) (player_id : Text) (amount : Money)
    → IsSound w
    → IsInt64 amount.minor
    → credit w player_id amount ≡ (
        if not (text_eq player_id w.player_id)
        then err wallet_player_mismatch
        else if not (text_eq amount.currency w.currency)
        then err currency_mismatch
        else if not (ltb_ℤ (pos 0) amount.minor)
        then err invalid_amount_for_kind
        else if fits (w.balance.minor +ℤ amount.minor)
        then moved_to w (w.balance.minor +ℤ amount.minor)
        else err money_overflow)
unfolding credit is_positive
credit_lem w player_id amount sound h = rw (add-exact w.balance amount sound.balance_int64 h) (
    ground (
      arith,
      text_eq_iff w.balance.currency amount.currency,
      text_eq_iff amount.currency w.currency,
      sound.same_currency,
    ))

-- A debit from a sound wallet, on every branch: the two mismatches, an amount that is not positive,
-- a balance that is too small, and the debit of the exact amount; nothing overflows.
pub debit_lem :
    (w : Wallet) (player_id : Text) (amount : Money)
    → IsSound w
    → IsInt64 amount.minor
    → debit w player_id amount ≡ (
        if not (text_eq player_id w.player_id)
        then err wallet_player_mismatch
        else if not (text_eq amount.currency w.currency)
        then err currency_mismatch
        else if not (ltb_ℤ (pos 0) amount.minor)
        then err invalid_amount_for_kind
        else if ltb_ℤ w.balance.minor amount.minor
        then err insufficient_balance
        else moved_to w (w.balance.minor -ℤ amount.minor))
unfolding debit is_positive cmp
debit_lem w player_id amount sound h = rw (sub-exact w.balance amount sound.balance_int64 h) (
    ground (
      arith,
      -ℤ_parts w.balance.minor amount.minor,
      text_eq_iff w.balance.currency amount.currency,
      text_eq_iff amount.currency w.currency,
      sound.same_currency,
    ))

-- A movement to a balance that is an int64 and not negative keeps the wallet sound, up to the last
-- version.
pub move_to-IsSound :
    (w : Wallet) (minor : ℤ)
    → IsSound w
    → IsInt64 minor
    → pos 0 ≤ℤ minor
    → fits (w.version +ℤ pos 1) ≡ true
    → IsSound (move_to w (record { minor = minor; currency = w.balance.currency }))
move_to-IsSound w minor sound h n v = record {
  currency_valid = sound.currency_valid;
  same_currency = sound.same_currency;
  balance_int64 = h;
  balance_nonneg = n;
  version_int64 = wrap64-IsInt64 (w.version +ℤ pos 1);
  version_pos = rw (wrap64_of_fits (w.version +ℤ pos 1) v) (omega (int_laws, sound.version_pos));
}

moved_to-Moves :
    (w : Wallet) (minor delta : ℤ) {before after : Money} {w' : Wallet}
    → minor ≡ w.balance.minor +ℤ delta
    → moved_to w minor ≡ ok (before, after, w')
    → Moves w delta before after w'
moved_to-Moves w minor delta exact e = ground arith

moved_to-IsSound :
    (w : Wallet) (minor : ℤ) {before after : Money} {w' : Wallet}
    → IsSound w
    → IsInt64 minor
    → pos 0 ≤ℤ minor
    → moved_to w minor ≡ ok (before, after, w')
    → fits (w.version +ℤ pos 1) ≡ true
    → IsSound w'
moved_to-IsSound w minor sound h n e v = subst IsSound (cc) (move_to-IsSound w minor sound h n v)

IsInt64-of_fits : (a : ℤ) → fits a ≡ true → IsInt64 a
IsInt64-of_fits a h = ground arith

debited-IsInt64 : (a b : ℤ) → IsInt64 a → a ≤ℤ b → pos 1 ≤ℤ a → IsInt64 b → IsInt64 (b -ℤ a)
unfolding ◌-ℤ◌
debited-IsInt64 (pos a) (pos b) h c p k = ground arith
debited-IsInt64 _ _ h c p k = ground arith

credit_inv :
    (w : Wallet) (player_id : Text) (amount : Money) {r : Money × Money × Wallet}
    → IsSound w
    → IsInt64 amount.minor
    → credit w player_id amount ≡ ok r
    → (pos 1 ≤ℤ amount.minor)
      × (fits (w.balance.minor +ℤ amount.minor) ≡ true)
      × (moved_to w (w.balance.minor +ℤ amount.minor) ≡ ok r)
credit_inv w player_id amount sound h e =
    ground (arith, sym (credit_lem w player_id amount sound h) ∙ e)

debit_inv :
    (w : Wallet) (player_id : Text) (amount : Money) {r : Money × Money × Wallet}
    → IsSound w
    → IsInt64 amount.minor
    → debit w player_id amount ≡ ok r
    → (pos 1 ≤ℤ amount.minor)
      × (amount.minor ≤ℤ w.balance.minor)
      × (moved_to w (w.balance.minor -ℤ amount.minor) ≡ ok r)
debit_inv w player_id amount sound h e =
    ground (arith, sym (debit_lem w player_id amount sound h) ∙ e)

-- A credit that succeeds adds its amount, which is positive, and takes the next version; the wallet
-- stays sound while a next version is left.
pub credit-Moves :
    (w : Wallet) (player_id : Text) (amount : Money) {before after : Money} {w' : Wallet}
    → IsSound w
    → IsInt64 amount.minor
    → credit w player_id amount ≡ ok (before, after, w')
    → Moves w amount.minor before after w'
      × (pos 1 ≤ℤ amount.minor)
      × (fits (w.version +ℤ pos 1) ≡ true → IsSound w')
credit-Moves w player_id amount sound h e =
    let (positive, fit, m) = credit_inv w player_id amount sound h e in
    (
      moved_to-Moves w _ amount.minor refl m,
      positive,
      moved_to-IsSound w _ sound (IsInt64-of_fits _ fit) (omega (int_laws, sound.balance_nonneg)) m,
    )

-- A debit that succeeds takes its amount, which is positive and no more than the balance, and the
-- next version; the wallet stays sound while a next version is left.
pub debit-Moves :
    (w : Wallet) (player_id : Text) (amount : Money) {before after : Money} {w' : Wallet}
    → IsSound w
    → IsInt64 amount.minor
    → debit w player_id amount ≡ ok (before, after, w')
    → Moves w (pos 0 -ℤ amount.minor) before after w'
      × (pos 1 ≤ℤ amount.minor)
      × (amount.minor ≤ℤ w.balance.minor)
      × (fits (w.version +ℤ pos 1) ≡ true → IsSound w')
debit-Moves w player_id amount sound h e =
    let (positive, covered, m) = debit_inv w player_id amount sound h e in
    (
      moved_to-Moves w _ (pos 0 -ℤ amount.minor) (omega int_laws) m,
      positive,
      covered,
      moved_to-IsSound w _ sound (debited-IsInt64 _ _ h covered positive sound.balance_int64)
          (omega int_laws) m,
    )
