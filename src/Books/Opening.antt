-- ===== src/Books/Opening.antt =====
-- `OpenWallet` and the books (internal/wagering/wallet.go).
pub mod Steps
use jg_backend_challenge_go.Prelude.{
  ◌≡◌, refl, sym, ◌∙◌, subst, ◌≢◌, ℕ, ◌≤◌, Bool, true, false, List, [], ◌∷◌, All, ℤ, pos, ◌-ℤ◌,
  ◌≤ℤ◌, IsInt64, max_int64, int_laws, Text, text_eq, text_eq_iff, Option, none, some, arith,
  Bool-cases, inl, inr, Result, ok, err, if◌then◌else◌, find_first, any_row,
}
use jg_backend_challenge_go.Domain.Money.{Money, valid_currency, is_zero, is_negative}
use jg_backend_challenge_go.Domain.Wallet.{Wallet, new_wallet}
use jg_backend_challenge_go.Ports.{WalletRecord, LedgerRecord, Failure}
use jg_backend_challenge_go.Postgres.Db.{Tables, World, M, pure, execute, ◌>>=◌, ◌>>◌}
use jg_backend_challenge_go.Postgres.Logic.{Ends, Triple, execute_rule}
use jg_backend_challenge_go.Postgres.WalletRepo.{find_wallet, has_id}
use jg_backend_challenge_go.Postgres.WalletRepo
use jg_backend_challenge_go.Postgres.LedgerRepo.{check_entry, append, append_row}
use jg_backend_challenge_go.Wagering.OpenWallet.{conflict_if_unique, insert_wallet, wallet_record}
use jg_backend_challenge_go.Books.{Chain, start, entry, skip, Balanced, WalletState, Books}
use jg_backend_challenge_go.Books.Frames.{Frame}
use jg_backend_challenge_go.Books.Movement.{check_entry_after, skip_state}

-- A row as `NewWallet` gives it.
pub record IsNew (r : WalletRecord) : Type 0 where
  pub currency_valid : valid_currency r.currency ≡ true
  pub balance_nonneg : pos 0 ≤ℤ r.balance_minor
  pub balance_int64 : IsInt64 r.balance_minor
  pub first_version : r.version ≡ pos 1

-- The row stands before the others, whose books hold, and has no entries yet.
abbrev pub Opened : WalletRecord → List WalletRecord → List LedgerRecord → Type 0
Opened r ws l =
    (old : List WalletRecord) × (ws ≡ r ∷ old) × Books old l × (find_wallet r.id old ≡ none)

none-Chain :
    (id currency : Text) (version : ℤ) (l : List LedgerRecord)
    → pos 0 ≤ℤ version
    → version ≤ℤ pos 1
    → All (λ e. e.wallet_id ≢ id) l
    → Chain id currency (pos 0) version l
none-Chain id currency version [] a b h = start refl a b
none-Chain id currency version (e ∷ l) a b h = skip h.0 (none-Chain id currency version l a b h.1)

no_entries :
    (r : WalletRecord) (old : List WalletRecord) (l : List LedgerRecord)
    → Books old l
    → find_wallet r.id old ≡ none
    → All (λ e. e.wallet_id ≢ r.id) l
no_entries r old l books missing = subst (λ o. WalletState r.id o l) missing (books.of r.id)

find_wallet-first :
    (r : WalletRecord) (old : List WalletRecord) (id : Text)
    → find_wallet id (r ∷ old) ≡ (if text_eq r.id id then some r else find_wallet id old)
unfolding find_wallet find_first
find_wallet-first r old id = ground arith

-- The state of the wallet that was opened decides.
open_books :
    (r : WalletRecord) (old : List WalletRecord) (l : List LedgerRecord)
    → Balanced r.id r l
    → ((id : Text) → r.id ≢ id → WalletState id (find_wallet id old) l)
    → Books (r ∷ old) l
open_books r old l new others = record {
  of = λ id. rw (find_wallet-first r old id) (elim (Bool-cases (text_eq r.id id)) [
    | inl same ↦ rw same (subst (λ k. Balanced k r l) ((text_eq_iff r.id id).0 same) new)
    | inr differ ↦ rw differ (others id (λ at. ground (arith, text_eq_iff r.id id, differ, at)))
  ]);
}

new-Balanced :
    (r : WalletRecord) (l : List LedgerRecord)
    → IsNew r
    → Chain r.id r.currency r.balance_minor (pos 1) l
    → Balanced r.id r l
new-Balanced r l n c = record {
  same_id = refl;
  currency_valid = n.currency_valid;
  balance_nonneg = n.balance_nonneg;
  balance_int64 = n.balance_int64;
  version_pos = rw n.first_version (ground arith);
  version_int64 = rw n.first_version (ground arith);
  chain = rw n.first_version c;
}

-- A wallet that is opened without money.
pub empty-Books :
    (r : WalletRecord) (ws : List WalletRecord) (l : List LedgerRecord)
    → IsNew r
    → r.balance_minor ≡ pos 0
    → Opened r ws l
    → Books ws l
empty-Books r ws l n zero (old, at, books, missing) = rw at (
    open_books r old l
      (new-Balanced r l n (
        rw zero (
          none-Chain r.id r.currency (pos 1) l (ground arith) (ground arith)
            (no_entries r old l books missing))))
      (λ id _. books.of id))

-- The entry that opens a wallet with money.
pub record Opens (r : WalletRecord) (e : LedgerRecord) : Type 0 where
  pub same_wallet : e.wallet_id ≡ r.id
  pub same_currency : e.currency ≡ r.currency
  pub from_zero : e.before_minor ≡ pos 0
  pub to_balance : e.after_minor ≡ r.balance_minor
  pub first_version : e.wallet_version ≡ pos 1

pub funded-Books :
    (r : WalletRecord) (e : LedgerRecord) (ws : List WalletRecord) (l : List LedgerRecord)
    → IsNew r
    → Opens r e
    → check_entry e ≡ true
    → Opened r ws l
    → Books ws (e ∷ l)
funded-Books r e ws l n o c (old, at, books, missing) =
    let free = no_entries r old l books missing in
    rw at (
      open_books r old (e ∷ l)
        (new-Balanced r (e ∷ l) n (
          entry o.same_wallet o.same_currency o.first_version o.to_balance
            (rw o.to_balance n.balance_int64) c
            (rw o.from_zero (
              none-Chain r.id r.currency (pos 1 -ℤ pos 1) l (omega int_laws) (omega int_laws)
                free))))
        (λ id ne.
          skip_state id (find_wallet id old) e l (λ q. ne (sym o.same_wallet ∙ q)) (books.of id)))
