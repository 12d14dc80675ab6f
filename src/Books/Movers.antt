-- ===== src/Books/Movers.antt =====
-- What a movement of a wallet that was just read leaves for the ledger and the row: the facts that the
-- methods of internal/domain/wallet.go and NewLedgerEntry give on every input.
use jg_backend_challenge_go.Prelude.{
  ◌≡◌, arith, ℤ, pos, ◌+ℤ◌, ◌-ℤ◌, IsInt64, wrap64, wrap64-IsInt64, Text, text_eq_iff, ok,
}
use jg_backend_challenge_go.Domain.Money.{Money, new_money_from_minor, add, sub}
use jg_backend_challenge_go.Domain.Wallet.{Wallet, rehydrate_wallet, credit, debit}
use jg_backend_challenge_go.Domain.LedgerEntry.{LedgerDirection, LedgerEntry, new_ledger_entry}
use jg_backend_challenge_go.Ports.{WalletRecord}
use jg_backend_challenge_go.Postgres.Db.{M, ◌>>◌}
use jg_backend_challenge_go.Postgres.WalletRepo.{update_balance}
use jg_backend_challenge_go.Postgres.LedgerRepo.{append}
use jg_backend_challenge_go.Wagering.Accept.{to_ledger_record}
use jg_backend_challenge_go.Books.Frames.{Quiet}
use jg_backend_challenge_go.Books.Keeping.{Keeps, Keeps-movement}
use jg_backend_challenge_go.Books.Movement.{Fits}

-- The aggregate that a row is read as.
pub record IsRead (r : WalletRecord) (w : Wallet) : Type 0 where
  pub same_id : w.id ≡ r.id
  pub same_version : w.version ≡ r.version
  pub same_minor : w.balance.minor ≡ r.balance_minor
  pub same_currency : w.balance.currency ≡ r.currency

pub rehydrate-IsRead :
    (r : WalletRecord) {w : Wallet}
    → rehydrate_wallet r.id r.player_id r.currency r.balance_minor r.version ≡ ok w
    → IsRead r w
unfolding rehydrate_wallet new_money_from_minor
rehydrate-IsRead r h = ground arith

-- The aggregate behind one movement.
pub record IsMoved (r : WalletRecord) (before after : Money) (w : Wallet) : Type 0 where
  pub same_id : w.id ≡ r.id
  pub next : w.version ≡ wrap64 (r.version +ℤ pos 1)
  pub from_minor : before.minor ≡ r.balance_minor
  pub from_currency : before.currency ≡ r.currency
  pub after_int64 : IsInt64 after.minor

add-IsInt64 : (m o n : Money) → add m o ≡ ok n → IsInt64 n.minor
unfolding add
add-IsInt64 m o n h = ground (arith, wrap64-IsInt64 (m.minor +ℤ o.minor))

sub-IsInt64 : (m o n : Money) → sub m o ≡ ok n → IsInt64 n.minor
unfolding sub
sub-IsInt64 m o n h = ground (arith, wrap64-IsInt64 (m.minor -ℤ o.minor))

pub credit-IsMoved :
    (r : WalletRecord) (w : Wallet) (player_id : Text) (amount : Money) {m : Money × Money × Wallet}
    → IsRead r w
    → credit w player_id amount ≡ ok m
    → IsMoved r m.0 m.1 m.2
unfolding credit
credit-IsMoved r w player_id amount {m} f h = ground (arith, add-IsInt64 w.balance amount m.1)

pub debit-IsMoved :
    (r : WalletRecord) (w : Wallet) (player_id : Text) (amount : Money) {m : Money × Money × Wallet}
    → IsRead r w
    → debit w player_id amount ≡ ok m
    → IsMoved r m.0 m.1 m.2
unfolding debit
debit-IsMoved r w player_id amount {m} f h = ground (arith, sub-IsInt64 w.balance amount m.1)

pub new_ledger_entry_inv :
    (id wallet_id tx : Text) (d : LedgerDirection) (amount before after : Money) (v : ℤ)
    {e : LedgerEntry}
    → new_ledger_entry id wallet_id tx d amount before after v ≡ ok e
    → (e.wallet_id ≡ wallet_id)
      × (e.amount.currency ≡ before.currency)
      × (e.before ≡ before)
      × (e.after ≡ after)
      × (e.wallet_version ≡ v)
unfolding new_ledger_entry
new_ledger_entry_inv id wallet_id tx d amount before after v h =
    ground (arith, text_eq_iff amount.currency before.currency)

-- The entry fits the row, and has the balance and the version of the aggregate.
pub entry-Fits :
    (r : WalletRecord) (w : Wallet) (id tx : Text) (d : LedgerDirection)
    (amount before after : Money) {e : LedgerEntry}
    → IsMoved r before after w
    → new_ledger_entry id w.id tx d amount before after w.version ≡ ok e
    → Fits r (to_ledger_record e)
      × (after.minor ≡ (to_ledger_record e).after_minor)
      × (w.version ≡ (to_ledger_record e).wallet_version)
unfolding to_ledger_record
entry-Fits r w id tx d amount before after {e} m h =
    let i = new_ledger_entry_inv id w.id tx d amount before after w.version h in
    (
      record {
        same_wallet = ground arith;
        same_currency = ground arith;
        from_balance = ground arith;
        next = ground arith;
        after_int64 = ground arith;
      },
      ground arith,
      ground arith,
    )

pub Keeps-entry :
    {A : Type 0} (r : WalletRecord) (w : Wallet) (id tx : Text) (d : LedgerDirection)
    (amount before after : Money) (e : LedgerEntry) (rest : M A)
    → IsMoved r before after w
    → new_ledger_entry id w.id tx d amount before after w.version ≡ ok e
    → Quiet rest
    → Keeps r (append (to_ledger_record e) >> (update_balance w.id after.minor w.version >> rest))
Keeps-entry r w id tx d amount before after e rest m h q =
    let (fits, minor, version) = entry-Fits r w id tx d amount before after m h in
    Keeps-movement r (to_ledger_record e) w.id after.minor w.version rest fits m.same_id minor
      version q
