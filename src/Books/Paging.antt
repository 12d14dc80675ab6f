-- ===== src/Books/Paging.antt =====
-- The pages of a ledger whose books hold (internal/wagering/reconcile.go: PageLedger).
pub mod Walk
use jg_backend_challenge_go.Prelude.{
  ℕ, ◌≡◌, ◌≢◌, refl, sym, ap, ◌∙◌, inl, inr, Bool, true, false, ◌&&◌, List, [], ◌∷◌, ◌++◌, All, ℤ,
  pos, ◌-ℤ◌, ◌≤ℤ◌, ltb_ℤ, int_laws, -ℤ_parts, Text, text_eq, text_eq_iff, arith, select, order_by,
  insert_ordered, if◌then◌else◌, Bool-cases,
}
use jg_backend_challenge_go.Prelude.Tables.Every.{All-select, All-weaken}
use jg_backend_challenge_go.Ports.{LedgerRecord}
use jg_backend_challenge_go.Postgres.LedgerRepo.{of_wallet, by_version}
use jg_backend_challenge_go.Wagering.Pages.Ascending.{
  newer, newer-append, AllNewer, AllNewer-append, Ascending, Ascending-append,
}
use jg_backend_challenge_go.Books.{Chain, start, entry, skip}
use jg_backend_challenge_go.Books.Reconciling.{
  entries_of, Below, insert_last, entries_of-entry, entries_of-skip, Chain-Below,
}

-- The rows of `Page` before its limit.
unfoldable pub rows_behind : ℤ → Text → List LedgerRecord → List LedgerRecord
rows_behind v id l =
    order_by by_version (select (λ e. of_wallet id e && ltb_ℤ v e.wallet_version) l)

append_nil : (es : List LedgerRecord) → es ++ [] ≡ es
append_nil [] = refl
append_nil (e ∷ es) = ap (λ xs. e ∷ xs) (append_nil es)

rows_behind-in :
    (v : ℤ) (id : Text) (e : LedgerRecord) (l : List LedgerRecord)
    → (of_wallet id e && ltb_ℤ v e.wallet_version) ≡ true
    → rows_behind v id (e ∷ l) ≡ insert_ordered by_version e (rows_behind v id l)
unfolding rows_behind select order_by
rows_behind-in v id e l h = rw h refl

rows_behind-out :
    (v : ℤ) (id : Text) (e : LedgerRecord) (l : List LedgerRecord)
    → (of_wallet id e && ltb_ℤ v e.wallet_version) ≡ false
    → rows_behind v id (e ∷ l) ≡ rows_behind v id l
unfolding rows_behind select
rows_behind-out v id e l h = rw h refl

row_entry :
    (v : ℤ) (id : Text) (e : LedgerRecord) (l : List LedgerRecord)
    → e.wallet_id ≡ id
    → Below (e.wallet_version -ℤ pos 1) (entries_of id l)
    → rows_behind v id l ≡ newer v (entries_of id l)
    → rows_behind v id (e ∷ l) ≡ newer v (entries_of id l ++ (e ∷ []))
row_entry v id e l same below rest =
    let same_id = (text_eq_iff e.wallet_id id).1 same in
    let older = newer v (entries_of id l) in
    elim (Bool-cases (ltb_ℤ v e.wallet_version)) [
      | inl behind ↦
          rows_behind-in v id e l (rw (same_id, behind) refl)
          ∙ ap (insert_ordered by_version e) rest
          ∙ insert_last e older (All-select _ _ _ (entries_of id l) (λ x _ b. b) below)
          ∙ sym (
              newer-append v (entries_of id l) e
              ∙ ap (λ b. older ++ (if b then e ∷ [] else [])) behind)
      | inr before ↦
          rows_behind-out v id e l (rw (same_id, before) refl)
          ∙ rest
          ∙ sym (
              newer-append v (entries_of id l) e
              ∙ ap (λ b. older ++ (if b then e ∷ [] else [])) before
              ∙ append_nil older)
    ]

other_wallet :
    (id : Text) (e : LedgerRecord) (b : Bool) → e.wallet_id ≢ id → (of_wallet id e && b) ≡ false
other_wallet id e b differ = ground (arith, text_eq_iff e.wallet_id id)

pub Chain-rows :
    {id currency : Text} {balance version : ℤ} {l : List LedgerRecord}
    → (v : ℤ) → Chain id currency balance version l
    → rows_behind v id l ≡ newer v (entries_of id l)
Chain-rows v (start _ _ _) = unfold rows_behind entries_of select order_by in refl
Chain-rows {id} v (entry {e} {l} same _ at _ _ _ rest) =
    row_entry v id e l same (rw at (Chain-Below rest)) (Chain-rows v rest)
    ∙ ap (newer v) (sym (entries_of-entry id e l same (rw at (Chain-Below rest))))
Chain-rows {id} v (skip {e} {l} differ rest) =
    rows_behind-out v id e l (other_wallet id e _ differ)
    ∙ Chain-rows v rest
    ∙ ap (newer v) (sym (entries_of-skip id e l differ))

Chain-version :
    {id currency : Text} {balance version : ℤ} {l : List LedgerRecord}
    → Chain id currency balance version l
    → pos 0 ≤ℤ version
Chain-version (start _ h _) = h
Chain-version {version} (entry _ _ _ _ _ _ rest) = omega (int_laws, Chain-version rest)
Chain-version (skip _ rest) = Chain-version rest

pub Chain-Ascending :
    {id currency : Text} {balance version : ℤ} {l : List LedgerRecord}
    → Chain id currency balance version l
    → Ascending (entries_of id l)
Chain-Ascending (start _ _ _) = unfold entries_of select order_by in tt
Chain-Ascending {id} {version} (entry {e} {l} same _ at _ _ _ rest) =
    rw (entries_of-entry id e l same (rw at (Chain-Below rest))) (
      Ascending-append (entries_of id l) e (Chain-Ascending rest) (
        All-weaken _ _ _ (λ x h. rw at (ground (arith, -ℤ_parts version (pos 1), h)))
          (Chain-Below rest)))
Chain-Ascending {id} (skip {e} {l} differ rest) =
    rw (entries_of-skip id e l differ) (Chain-Ascending rest)

pub Chain-positive :
    {id currency : Text} {balance version : ℤ} {l : List LedgerRecord}
    → Chain id currency balance version l
    → AllNewer (pos 0) (entries_of id l)
Chain-positive (start _ _ _) = unfold entries_of select order_by in tt
Chain-positive {id} {version} (entry {e} {l} same _ at _ _ _ rest) =
    rw (entries_of-entry id e l same (rw at (Chain-Below rest))) (
      AllNewer-append (pos 0) (entries_of id l) e (Chain-positive rest)
        (rw at (ground (arith, -ℤ_parts version (pos 1), Chain-version rest))))
Chain-positive {id} (skip {e} {l} differ rest) =
    rw (entries_of-skip id e l differ) (Chain-positive rest)
