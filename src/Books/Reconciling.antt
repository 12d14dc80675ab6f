-- ===== src/Books/Reconciling.antt =====
-- The reconciliation of books that hold (internal/wagering/reconcile.go).
pub mod Report
use jg_backend_challenge_go.Prelude.{
  ◌≡◌, refl, sym, ap, ◌∙◌, subst, ◌≢◌, Bool, true, false, List, [], ◌∷◌, ◌++◌, All, ℤ, pos, ◌+ℤ◌,
  ◌-ℤ◌, ◌≤ℤ◌, IsInt64, int_laws, +ℤ_parts, -ℤ_parts, eq_of_parts, text_eq_refl, Text, text_eq,
  text_eq_iff, arith, Result, ok, err, select, order_by, insert_ordered, ltb_ℤ, not, if◌then◌else◌,
  Bool-cases, inl, inr,
}
use jg_backend_challenge_go.Domain.Errors.{Code}
use jg_backend_challenge_go.Domain.Money.{Money, valid_currency, new_money_from_minor, add, sub}
use jg_backend_challenge_go.Domain.Money.Bounds.{fits, exact_or_error, add-exact, sub-exact}
use jg_backend_challenge_go.Domain.LedgerEntry.{LedgerDirection, debit, credit, other}
use jg_backend_challenge_go.Ports.{LedgerRecord}
use jg_backend_challenge_go.Postgres.Db.{World, M, pure, ◌>>=◌}
use jg_backend_challenge_go.Postgres.LedgerRepo.{check_entry, check_math, of_wallet, by_version}
use jg_backend_challenge_go.Wagering.Service.{attempt_or_fail}
use jg_backend_challenge_go.Wagering.Reconcile.{apply_entry, recalculate}
use jg_backend_challenge_go.Books.{Chain, start, entry, skip}

-- The entries that `Reconcile` reads.
unfoldable pub entries_of : Text → List LedgerRecord → List LedgerRecord
entries_of id l = order_by by_version (select (of_wallet id) l)

abbrev pub Below : ℤ → List LedgerRecord → Type 0
Below v ys = All (λ e. e.wallet_version ≤ℤ v) ys

Below-weaken : (v v' : ℤ) (ys : List LedgerRecord) → v ≤ℤ v' → Below v ys → Below v' ys
Below-weaken v v' [] h b = tt
Below-weaken v v' (y ∷ ys) h b = (omega (arith, h, b.0), Below-weaken v v' ys h b.1)

Below-append :
    (v : ℤ) (ys : List LedgerRecord) (e : LedgerRecord)
    → Below v ys
    → e.wallet_version ≤ℤ v
    → Below v (ys ++ (e ∷ []))
Below-append v [] e b h = (h, tt)
Below-append v (y ∷ ys) e b h = (b.0, Below-append v ys e b.1 h)

-- The entry with the last version comes last.
pub insert_last :
    (e : LedgerRecord) (ys : List LedgerRecord)
    → Below (e.wallet_version -ℤ pos 1) ys
    → insert_ordered by_version e ys ≡ ys ++ (e ∷ [])
unfolding insert_ordered
insert_last e [] b = refl
insert_last e (y ∷ ys) b =
    ground (arith, -ℤ_parts e.wallet_version (pos 1), b.0, insert_last e ys b.1)

pub entries_of-entry :
    (id : Text) (e : LedgerRecord) (l : List LedgerRecord)
    → e.wallet_id ≡ id
    → Below (e.wallet_version -ℤ pos 1) (entries_of id l)
    → entries_of id (e ∷ l) ≡ entries_of id l ++ (e ∷ [])
unfolding entries_of select order_by
entries_of-entry id e l same b =
    rw ((text_eq_iff e.wallet_id id).1 same) (insert_last e (entries_of id l) b)

pub entries_of-skip :
    (id : Text) (e : LedgerRecord) (l : List LedgerRecord)
    → e.wallet_id ≢ id
    → entries_of id (e ∷ l) ≡ entries_of id l
unfolding entries_of select order_by
entries_of-skip id e l differ = elim (Bool-cases (text_eq e.wallet_id id)) [
  | inl same ↦ absurd (differ ((text_eq_iff e.wallet_id id).0 same))
  | inr differs ↦ rw differs refl
]

pub Chain-Below :
    {id currency : Text} {balance version : ℤ} {l : List LedgerRecord}
    → Chain id currency balance version l
    → Below version (entries_of id l)
Chain-Below (start _ _ _) = unfold entries_of select order_by in tt
Chain-Below {id} {version} (entry {e} {l} same _ at _ _ _ rest) =
    let b = Chain-Below rest in
    rw (entries_of-entry id e l same (rw at b)) (
      Below-append version (entries_of id l) e (Below-weaken _ version _ (omega int_laws) b)
        (rw at (omega int_laws)))
Chain-Below {id} (skip {e} {l} differ rest) = rw (entries_of-skip id e l differ) (Chain-Below rest)

-- One turn of the loop.
abbrev pub Turn : LedgerRecord → Money → Money → Type 0
Turn e m next =
    (amount : Money) × (new_money_from_minor e.amount_minor e.currency ≡ ok amount)
    × (apply_entry e.direction m amount ≡ pure next)

pub data Turns : Money → List LedgerRecord → Money → Type 0 where
  done : {m : Money} → Turns m [] m
  turn :
      {m next last : Money} {e : LedgerRecord} {ys : List LedgerRecord}
      → Turn e m next
      → Turns next ys last
      → Turns m (e ∷ ys) last

Turns-append :
    {m last next : Money} {ys : List LedgerRecord} (e : LedgerRecord)
    → Turns m ys last
    → Turn e last next
    → Turns m (ys ++ (e ∷ [])) next
Turns-append e done t = turn t done
Turns-append e (turn s rest) t = turn s (Turns-append e rest t)

turn_next :
    (o : Result Code Money) (f k : Money → M Money) (amount next : Money)
    → o ≡ ok amount
    → f amount ≡ pure next
    → (attempt_or_fail o >>= λ a. f a >>= k) ≡ k next
turn_next o f k amount next made applied =
    rw made (subst (λ x. (x >>= k) ≡ k next) (sym applied) refl)

pub Turns-recalculate :
    {m last : Money} {ys : List LedgerRecord} → Turns m ys last → recalculate m ys ≡ pure last
unfolding recalculate
Turns-recalculate done = refl
Turns-recalculate {m} (turn {next} {e} {ys} (amount, made, applied) rest) =
    turn_next (new_money_from_minor e.amount_minor e.currency) (apply_entry e.direction m)
      (λ x. recalculate x ys) amount next made applied
    ∙ Turns-recalculate rest

Chain-IsInt64 :
    {id currency : Text} {balance version : ℤ} {l : List LedgerRecord}
    → Chain id currency balance version l
    → IsInt64 balance
Chain-IsInt64 (start zero _ _) = rw zero (ground arith)
Chain-IsInt64 (entry _ _ _ at h _ _) = rw (← at) h
Chain-IsInt64 (skip _ rest) = Chain-IsInt64 rest

pub made_money :
    (minor : ℤ) (currency : Text)
    → valid_currency currency ≡ true
    → new_money_from_minor minor currency ≡ ok (record { minor = minor; currency = currency })
unfolding new_money_from_minor
made_money minor currency h = ground arith

fits_of : (a : ℤ) → IsInt64 a → fits a ≡ true
fits_of a h = ground arith

added :
    (b a r : ℤ) (currency : Text)
    → r ≡ b +ℤ a
    → IsInt64 b
    → IsInt64 a
    → IsInt64 r
    → add (record { minor = b; currency = currency }) (record { minor = a; currency = currency })
      ≡ ok (record { minor = r; currency = currency })
added b a r currency e hb ha hr =
    add-exact (record { minor = b; currency = currency })
      (record { minor = a; currency = currency }) hb ha
    ∙ rw (← e, text_eq_refl currency, fits_of r hr) refl

pub subtracted :
    (b a r : ℤ) (currency : Text)
    → r ≡ b -ℤ a
    → IsInt64 b
    → IsInt64 a
    → IsInt64 r
    → sub (record { minor = b; currency = currency }) (record { minor = a; currency = currency })
      ≡ ok (record { minor = r; currency = currency })
subtracted b a r currency e hb ha hr =
    sub-exact (record { minor = b; currency = currency })
      (record { minor = a; currency = currency }) hb ha
    ∙ rw (← e, text_eq_refl currency, fits_of r hr) refl

credited_amount : (b a r : ℤ) → r ≡ b +ℤ a → pos 1 ≤ℤ a → pos 0 ≤ℤ b → IsInt64 r → IsInt64 a
credited_amount b a r e p h k = ground (arith, +ℤ_parts b a)

debited_amount : (b a r : ℤ) → r ≡ b -ℤ a → pos 1 ≤ℤ a → pos 0 ≤ℤ r → IsInt64 b → IsInt64 a
debited_amount b a r e p h k = ground (arith, -ℤ_parts b a)

apply_checked :
    (e : LedgerRecord) (d : LedgerDirection) (currency : Text)
    → check_math e d ≡ true
    → pos 1 ≤ℤ e.amount_minor
    → pos 0 ≤ℤ e.before_minor
    → pos 0 ≤ℤ e.after_minor
    → IsInt64 e.before_minor
    → IsInt64 e.after_minor
    → apply_entry d
        (record { minor = e.before_minor; currency = currency })
        (record { minor = e.amount_minor; currency = currency })
      ≡ pure (record { minor = e.after_minor; currency = currency })
unfolding apply_entry check_math
apply_checked e credit currency c p b a hb ha =
    let e' : e.after_minor ≡ e.before_minor +ℤ e.amount_minor =
      ground (arith, eq_of_parts e.after_minor (e.before_minor +ℤ e.amount_minor)) in
    ap attempt_or_fail (
      added e.before_minor e.amount_minor e.after_minor currency e' hb
        (credited_amount e.before_minor e.amount_minor e.after_minor e' p b ha) ha)
apply_checked e debit currency c p b a hb ha =
    let e' : e.after_minor ≡ e.before_minor -ℤ e.amount_minor =
      ground (arith, eq_of_parts e.after_minor (e.before_minor -ℤ e.amount_minor)) in
    ap attempt_or_fail (
      subtracted e.before_minor e.amount_minor e.after_minor currency e' hb
        (debited_amount e.before_minor e.amount_minor e.after_minor e' p a hb) ha)
apply_checked e (other d) currency c p b a hb ha = cc

entry_signs :
    (e : LedgerRecord)
    → check_entry e ≡ true
    → (check_math e e.direction ≡ true)
      × (pos 1 ≤ℤ e.amount_minor)
      × (pos 0 ≤ℤ e.before_minor)
      × (pos 0 ≤ℤ e.after_minor)
unfolding check_entry
entry_signs e h = (ground arith, ground arith, ground arith, ground arith)

entry-Turn :
    (e : LedgerRecord) (currency : Text)
    → valid_currency currency ≡ true
    → e.currency ≡ currency
    → check_entry e ≡ true
    → IsInt64 e.before_minor
    → IsInt64 e.after_minor
    → Turn e
        (record { minor = e.before_minor; currency = currency })
        (record { minor = e.after_minor; currency = currency })
entry-Turn e currency valid same c hb ha =
    let (math, p, b, a) = entry_signs e c in
    (
      record { minor = e.amount_minor; currency = currency },
      rw same (made_money e.amount_minor currency valid),
      apply_checked e e.direction currency math p b a hb ha,
    )

pub Chain-Turns :
    {id currency : Text} {balance version : ℤ} {l : List LedgerRecord}
    → valid_currency currency ≡ true
    → Chain id currency balance version l
    → Turns
        (record { minor = pos 0; currency = currency })
        (entries_of id l)
        (record { minor = balance; currency = currency })
Chain-Turns valid (start zero _ _) = rw zero (unfold entries_of select order_by in done)
Chain-Turns {id} {currency} valid (entry {e} {l} same cur at after h c rest) =
    rw (entries_of-entry id e l same (rw at (Chain-Below rest)), ← after)
      (Turns-append e (Chain-Turns valid rest)
        (entry-Turn e currency valid cur c (Chain-IsInt64 rest) h))
Chain-Turns {id} valid (skip {e} {l} differ rest) =
    rw (entries_of-skip id e l differ) (Chain-Turns valid rest)
