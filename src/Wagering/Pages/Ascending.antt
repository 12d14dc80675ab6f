-- ===== src/Wagering/Pages/Ascending.antt =====
-- Entries whose versions ascend, cut into pages (internal/wagering/reconcile.go).
use jg_backend_challenge_go.Prelude.{
  ℕ, zero, suc, ◌<◌, ◌≡◌, refl, ap, ◌∙◌, Bool, true, false, List, [], ◌∷◌, ◌++◌, All, ℤ, ltb_ℤ,
  length, take, drop, select, arith, if◌then◌else◌,
}
use jg_backend_challenge_go.Prelude.Tables.Every.{All-select}
use jg_backend_challenge_go.Ports.{LedgerRecord}
use jg_backend_challenge_go.Wagering.Pages.{last_version}

-- The entries behind a version.
abbrev pub newer : ℤ → List LedgerRecord → List LedgerRecord
newer v es = select (λ e. ltb_ℤ v e.wallet_version) es

abbrev pub AllNewer : ℤ → List LedgerRecord → Type 0
AllNewer v es = All (λ e. ltb_ℤ v e.wallet_version ≡ true) es

abbrev pub Ascending : List LedgerRecord → Type 0
Ascending [] = Unit
Ascending (e ∷ es) = AllNewer e.wallet_version es × Ascending es

newer_trans :
    (u v : ℤ) (e : LedgerRecord)
    → ltb_ℤ u v ≡ true
    → ltb_ℤ v e.wallet_version ≡ true
    → ltb_ℤ u e.wallet_version ≡ true
newer_trans u v e h g = ground arith

pub newer_all : (v : ℤ) (es : List LedgerRecord) → AllNewer v es → newer v es ≡ es
unfolding select
newer_all v [] a = refl
newer_all v (e ∷ es) a = rw (a.0) (ap (λ xs. e ∷ xs) (newer_all v es a.1))

pub newer-append :
    (v : ℤ) (es : List LedgerRecord) (e : LedgerRecord)
    → newer v (es ++ (e ∷ [])) ≡ newer v es ++ (if ltb_ℤ v e.wallet_version then e ∷ [] else [])
unfolding select
newer-append v [] e = refl
newer-append v (x ∷ es) e = ground (arith, newer-append v es e)

pub AllNewer-append :
    (v : ℤ) (es : List LedgerRecord) (e : LedgerRecord)
    → AllNewer v es
    → ltb_ℤ v e.wallet_version ≡ true
    → AllNewer v (es ++ (e ∷ []))
AllNewer-append v [] e a h = (h, tt)
AllNewer-append v (x ∷ es) e a h = (a.0, AllNewer-append v es e a.1 h)

pub Ascending-append :
    (es : List LedgerRecord) (e : LedgerRecord)
    → Ascending es
    → All (λ x. ltb_ℤ x.wallet_version e.wallet_version ≡ true) es
    → Ascending (es ++ (e ∷ []))
Ascending-append [] e a h = (tt, tt)
Ascending-append (x ∷ es) e a h =
    (AllNewer-append x.wallet_version es e a.0 h.0, Ascending-append es e a.1 h.1)

-- What is newer than a later version is among what is newer than an earlier one.
pub newer-newer :
    (u v : ℤ) (es : List LedgerRecord) → ltb_ℤ v u ≡ false → newer v (newer u es) ≡ newer v es
unfolding select
newer-newer u v [] h = refl
newer-newer u v (e ∷ es) h = ground (arith, newer-newer u v es h)

older_out :
    (v : ℤ) (e : LedgerRecord) (es : List LedgerRecord)
    → ltb_ℤ v e.wallet_version ≡ false
    → newer v (e ∷ es) ≡ newer v es
unfolding select
older_out v e es h = rw h refl

pub not_newer : (u v : ℤ) → ltb_ℤ u v ≡ true → ltb_ℤ v u ≡ false
not_newer u v h = ground arith

-- What holds of every version holds of that of the last entry of a page.
pub last_version-All :
    (P : ℤ → Type 0) (n : ℕ) (es : List LedgerRecord)
    → n < length es
    → All (λ e. P e.wallet_version) es
    → P (last_version (take (suc n) es))
unfolding last_version
last_version-All P n [] h a = absurd (omega (arith, h))
last_version-All P zero (e ∷ es) h a = a.0
last_version-All P (suc n) (e ∷ []) h a = absurd (omega (arith, h))
last_version-All P (suc n) (e ∷ f ∷ es) h a = last_version-All P n (f ∷ es) (omega (arith, h)) a.1

-- What is newer than the last entry of a page is what the page leaves.
pub newer-last :
    (n : ℕ) (es : List LedgerRecord)
    → Ascending es
    → n < length es
    → newer (last_version (take (suc n) es)) es ≡ drop (suc n) es
unfolding last_version
newer-last n [] a h = ground arith
newer-last zero (e ∷ es) a h =
    older_out e.wallet_version e es (ground arith) ∙ newer_all e.wallet_version es a.0
newer-last (suc n) (e ∷ []) a h = ground arith
newer-last (suc n) (e ∷ f ∷ es) a h =
    older_out (last_version (take (suc n) (f ∷ es))) e (f ∷ es) (
      not_newer e.wallet_version (last_version (take (suc n) (f ∷ es)))
        (last_version-All (λ v. ltb_ℤ e.wallet_version v ≡ true) n (f ∷ es) (omega (arith, h)) a.0))
    ∙ newer-last n (f ∷ es) a.1 (omega (arith, h))

AllNewer-newer : (u v : ℤ) (es : List LedgerRecord) → AllNewer v es → AllNewer v (newer u es)
AllNewer-newer u v es a = All-select _ _ _ es (λ e _ h. h) a

Ascending-if :
    (b : Bool) (e : LedgerRecord) (es : List LedgerRecord)
    → AllNewer e.wallet_version es
    → Ascending es
    → Ascending (if b then e ∷ es else es)
Ascending-if true e es h a = (h, a)
Ascending-if false e es h a = a

pub Ascending-newer : (v : ℤ) (es : List LedgerRecord) → Ascending es → Ascending (newer v es)
unfolding select
Ascending-newer v [] a = tt
Ascending-newer v (e ∷ es) a =
    Ascending-if _ e (newer v es) (AllNewer-newer v e.wallet_version es a.0)
      (Ascending-newer v es a.1)
