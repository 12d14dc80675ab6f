-- ===== src/Books.antt =====
-- The books: what ties the wallets to the ledger (the tables of migrations/00001_wallets.sql and
-- migrations/00003_wallet_ledger.sql, as internal/wagering keeps them).
pub mod Movement
pub mod Frames
pub mod Keeping
pub mod Movers
pub mod Preserving
pub mod Accepting
pub mod Resuming
pub mod Submitting
pub mod Resting
pub mod Reaching
pub mod Opening
pub mod Working
pub mod Serving
pub mod Histories
pub mod Reconciling
pub mod Paging
use jg_backend_challenge_go.Prelude.{
  ◌≡◌, ◌≢◌, true, Option, none, some, List, [], ◌∷◌, All, ℤ, pos, ◌-ℤ◌, ◌≤ℤ◌, IsInt64, Text,
}
use jg_backend_challenge_go.Domain.Money.{valid_currency}
use jg_backend_challenge_go.Ports.{WalletRecord, LedgerRecord}
use jg_backend_challenge_go.Postgres.WalletRepo.{find_wallet}
use jg_backend_challenge_go.Postgres.LedgerRepo.{check_entry}

-- The entries of the wallet `id`, the newest first, lead from a balance of zero to `balance`: each
-- starts where the one before it ended, is in the wallet's currency, keeps the constraints of its
-- table, and the versions run without a gap, down from `version` to 1 if the wallet was opened with
-- money and to 2 if not.
pub data Chain (id currency : Text) : ℤ → ℤ → List LedgerRecord → Type 0 where
  start :
      {balance version : ℤ}
      → balance ≡ pos 0
      → pos 0 ≤ℤ version
      → version ≤ℤ pos 1
      → Chain id currency balance version []
  entry :
      {balance version : ℤ} {e : LedgerRecord} {l : List LedgerRecord}
      → e.wallet_id ≡ id
      → e.currency ≡ currency
      → e.wallet_version ≡ version
      → e.after_minor ≡ balance
      → IsInt64 e.after_minor
      → check_entry e ≡ true
      → Chain id currency e.before_minor (version -ℤ pos 1) l
      → Chain id currency balance version (e ∷ l)
  skip :
      {balance version : ℤ} {e : LedgerRecord} {l : List LedgerRecord}
      → e.wallet_id ≢ id
      → Chain id currency balance version l
      → Chain id currency balance version (e ∷ l)

-- A wallet whose balance and version are those of its entries.
pub record Balanced (id : Text) (w : WalletRecord) (l : List LedgerRecord) : Type 0 where
  pub same_id : w.id ≡ id
  pub currency_valid : valid_currency w.currency ≡ true
  pub balance_nonneg : pos 0 ≤ℤ w.balance_minor
  pub balance_int64 : IsInt64 w.balance_minor
  pub version_pos : pos 1 ≤ℤ w.version
  pub version_int64 : IsInt64 w.version
  pub chain : Chain id w.currency w.balance_minor w.version l

-- An id that names no wallet has no entries.
abbrev pub WalletState : Text → Option WalletRecord → List LedgerRecord → Type 0
WalletState id none l = All (λ e. e.wallet_id ≢ id) l
WalletState id (some w) l = Balanced id w l

pub record Books (wallets : List WalletRecord) (ledger : List LedgerRecord) : Type 0 where
  pub of : (id : Text) → WalletState id (find_wallet id wallets) ledger
