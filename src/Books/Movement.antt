-- ===== src/Books/Movement.antt =====
-- An entry, the balance that goes with it, and the books
-- (internal/adapters/postgres/ledger_repo.go and wallet_repo.go).
use jg_backend_challenge_go.Prelude.{
  ◌≡◌, refl, ◌∙◌, subst, ◌≢◌, inl, inr, true, Option, none, some, List, [], ◌∷◌, arith, ℤ, pos,
  ◌+ℤ◌, ◌-ℤ◌, ◌≤ℤ◌, IsInt64, wrap64, wrap64-IsInt64, int_laws, Text, text_eq, text_eq_iff,
  Bool-cases, find_first, update_where, if◌then◌else◌,
}
use jg_backend_challenge_go.Ports.{WalletRecord, LedgerRecord}
use jg_backend_challenge_go.Postgres.WalletRepo.{find_wallet, has_id, set_balance}
use jg_backend_challenge_go.Postgres.LedgerRepo.{check_entry}
use jg_backend_challenge_go.Books.{entry, skip, Balanced, WalletState, Books}

-- The version behind `v`, where the table takes it, is the next integer.
next-IsVersion :
    (v v' : ℤ) → IsInt64 v → pos 1 ≤ℤ v → v' ≡ wrap64 (v +ℤ pos 1) → pos 1 ≤ℤ v' → v' ≡ v +ℤ pos 1
unfolding wrap64 ◌+ℤ◌
next-IsVersion (pos n) v' h p e q = ground arith
next-IsVersion _ v' h p e q = ground arith

version_before : (v v' : ℤ) → v' ≡ v +ℤ pos 1 → v' -ℤ pos 1 ≡ v
version_before v v' e = rw e (omega int_laws)

find_wallet-update :
    (id id' : Text) (balance version : ℤ) (ws : List WalletRecord)
    → find_wallet id' (update_where (has_id id) (set_balance balance version) ws) ≡ (
        if text_eq id id'
        then (elim (find_wallet id' ws) [
          | none ↦ none
          | some w ↦ some (set_balance balance version w)
        ])
        else find_wallet id' ws)
unfolding find_wallet update_where find_first
find_wallet-update id id' balance version [] = ground arith
find_wallet-update id id' balance version (w ∷ ws) = ground (
  arith,
  text_eq_iff w.id id,
  text_eq_iff w.id id',
  text_eq_iff id id',
  find_wallet-update id id' balance version ws,
)

-- An entry of another wallet.
pub skip_state :
    (id : Text) (o : Option WalletRecord) (e : LedgerRecord) (l : List LedgerRecord)
    → e.wallet_id ≢ id
    → WalletState id o l
    → WalletState id o (e ∷ l)
skip_state id none e l ne h = (ne, h)
skip_state id (some w) e l ne h = record {
  same_id = h.same_id;
  currency_valid = h.currency_valid;
  balance_nonneg = h.balance_nonneg;
  balance_int64 = h.balance_int64;
  version_pos = h.version_pos;
  version_int64 = h.version_int64;
  chain = skip ne h.chain;
}

-- The wallet that an entry is for, its row as it was found, and the entry that fits it.
pub record Fits (w : WalletRecord) (e : LedgerRecord) : Type 0 where
  pub same_wallet : e.wallet_id ≡ w.id
  pub same_currency : e.currency ≡ w.currency
  pub from_balance : e.before_minor ≡ w.balance_minor
  pub next : e.wallet_version ≡ wrap64 (w.version +ℤ pos 1)
  pub after_int64 : IsInt64 e.after_minor

pub check_entry_after : (e : LedgerRecord) → check_entry e ≡ true → pos 0 ≤ℤ e.after_minor
unfolding check_entry
check_entry_after e h = ground arith

entry_state :
    (id : Text) (w : WalletRecord) (e : LedgerRecord) (l : List LedgerRecord)
    → Fits w e
    → check_entry e ≡ true
    → pos 1 ≤ℤ e.wallet_version
    → Balanced id w l
    → Balanced id (set_balance e.after_minor e.wallet_version w) (e ∷ l)
entry_state id w e l f c p h =
    let v = next-IsVersion w.version e.wallet_version h.version_int64 h.version_pos f.next p in
    record {
      same_id = h.same_id;
      currency_valid = h.currency_valid;
      balance_nonneg = check_entry_after e c;
      balance_int64 = f.after_int64;
      version_pos = p;
      version_int64 = rw f.next (wrap64-IsInt64 (w.version +ℤ pos 1));
      chain =
          entry (f.same_wallet ∙ h.same_id) f.same_currency refl refl f.after_int64 c
            (rw (version_before w.version e.wallet_version v, f.from_balance) h.chain);
    }

moved_state :
    (id : Text) (o : Option WalletRecord) (w : WalletRecord) (e : LedgerRecord)
    (l : List LedgerRecord)
    → o ≡ some w
    → Fits w e
    → check_entry e ≡ true
    → pos 1 ≤ℤ e.wallet_version
    → WalletState id o l
    → WalletState id
        (elim o [ none ↦ none | some x ↦ some (set_balance e.after_minor e.wallet_version x) ])
        (e ∷ l)
moved_state id none w e l q f c p h = cc
moved_state id (some x) w e l q f c p h =
    let same : x ≡ w = cc in rw same (entry_state id w e l f c p (rw (← same) h))

-- A movement keeps the books: the entry is appended, and the wallet takes its balance and version.
pub movement-Books :
    (ws : List WalletRecord) (l : List LedgerRecord) (w : WalletRecord) (e : LedgerRecord)
    → Books ws l
    → find_wallet w.id ws ≡ some w
    → Fits w e
    → check_entry e ≡ true
    → pos 1 ≤ℤ e.wallet_version
    → Books (update_where (has_id w.id) (set_balance e.after_minor e.wallet_version) ws) (e ∷ l)
movement-Books ws l w e books found f c p = record {
  of = λ id.
      rw (find_wallet-update w.id id e.after_minor e.wallet_version ws)
        (elim (Bool-cases (text_eq w.id id)) [
          | inl same ↦
              let at : w.id ≡ id = (text_eq_iff w.id id).0 same in
              rw same (
                moved_state id (find_wallet id ws) w e l
                  (subst (λ k. find_wallet k ws ≡ some w) at found) f c p (books.of id))
          | inr differ ↦ rw differ (
              skip_state id (find_wallet id ws) e l
                (λ at. ground (arith, text_eq_iff w.id id, differ, at, f.same_wallet))
                (books.of id))
        ]);
}
