-- ===== src/Books/Keeping.antt =====
-- What keeps the books once the row of a wallet is locked.
use jg_backend_challenge_go.Prelude.{
  ◌≡◌, refl, Bool, true, false, List, [], ◌∷◌, ℤ, pos, ◌≤ℤ◌, Text, some, arith, Result, ok, err,
  if◌then◌else◌, any_row, update_where, find_first,
}
use jg_backend_challenge_go.Domain.Errors.{Code}
use jg_backend_challenge_go.Ports.{WalletRecord, LedgerRecord, coded}
use jg_backend_challenge_go.Postgres.Db.{M, ◌>>=◌, ◌>>◌}
use jg_backend_challenge_go.Postgres.Logic.{Triple, bind_rule, post_rule, error_rule, execute_rule}
use jg_backend_challenge_go.Postgres.WalletRepo.{
  find_wallet, has_id, set_balance, update_balance, update_balance_row,
}
use jg_backend_challenge_go.Postgres.LedgerRepo.{append, append_row, check_entry}
use jg_backend_challenge_go.Wagering.Service.{attempt, attempt_or_fail}
use jg_backend_challenge_go.Books.{Books}
use jg_backend_challenge_go.Books.Frames.{Frame, Quiet, Quiet-fail}
use jg_backend_challenge_go.Books.Movement.{Fits, movement-Books}

-- The books hold, and the row of the wallet is `r`.
abbrev pub Locked : WalletRecord → List WalletRecord → List LedgerRecord → Type 0
Locked r ws l = Books ws l × (find_wallet r.id ws ≡ some r)

pub record Keeps {A : Type 0} (r : WalletRecord) (m : M A) : Type 0 where
  pub run : Triple (Frame (Locked r)) m (λ _. Frame Books) (Frame Books)

quiet_locked :
    {A : Type 0} (r : WalletRecord) (m : M A)
    → Quiet m
    → Triple (Frame (Locked r)) m (λ _. Frame (Locked r)) (Frame Books)
quiet_locked r m q = error_rule m (λ t h. h.0) (q.run (Locked r))

pub Keeps-Quiet : {A : Type 0} {r : WalletRecord} (m : M A) → Quiet m → Keeps r m
Keeps-Quiet {r} m q = record { run = post_rule m (λ a t h. h.0) (quiet_locked r m q) }

pub Keeps-after :
    {A B : Type 0} {r : WalletRecord} (m : M A) (k : A → M B)
    → Quiet m
    → ((a : A) → Keeps r (k a))
    → Keeps r (m >>= k)
Keeps-after {r} m k q f = record { run = bind_rule m k (quiet_locked r m q) (λ a. (f a).run) }

pub Keeps-before :
    {A B : Type 0} {r : WalletRecord} (m : M A) (k : A → M B)
    → Keeps r m
    → ((a : A) → Quiet (k a))
    → Keeps r (m >>= k)
Keeps-before m k f q = record { run = bind_rule m k f.run (λ a. (q a).run Books) }

pub Keeps-if :
    {A : Type 0} {r : WalletRecord} (b : Bool) (m n : M A)
    → Keeps r m
    → Keeps r n
    → Keeps r (if b then m else n)
Keeps-if true m n f g = f
Keeps-if false m n f g = g

pub Keeps-attempt :
    {A B : Type 0} {r : WalletRecord} (o : Result Code A) (h : Code → M B) (k : A → M B)
    → ((e : Code) → Keeps r (h e))
    → ((a : A) → o ≡ ok a → Keeps r (k a))
    → Keeps r (attempt o h k)
Keeps-attempt (ok a) h k f g = g a refl
Keeps-attempt (err e) h k f g = f e

pub Keeps-attempt_or_fail :
    {A B : Type 0} {r : WalletRecord} (o : Result Code A) (k : A → M B)
    → ((a : A) → o ≡ ok a → Keeps r (k a))
    → Keeps r (attempt_or_fail o >>= k)
Keeps-attempt_or_fail (ok a) k g = record { run = record { run = λ w p. (g a refl).run.run w p } }
Keeps-attempt_or_fail (err e) k g = record { run = (Keeps-Quiet _ (Quiet-fail (coded e))).run }

-- The entry is in the ledger, and the wallet not moved yet.
abbrev Half : WalletRecord → LedgerRecord → List WalletRecord → List LedgerRecord → Type 0
Half r e ws l =
    (before : List LedgerRecord) × (l ≡ e ∷ before) × Locked r ws before × (check_entry e ≡ true)

append_triple :
    (r : WalletRecord) (e : LedgerRecord)
    → Triple (Frame (Locked r)) (append e) (λ _. Frame (Half r e)) (Frame Books)
unfolding append append_row
append_triple r e = execute_rule _ (λ t t' h q.
    let done : (t' ≡ record t { ledger = e ∷ t.ledger }) × (check_entry e ≡ true) = ground arith in
    rw done.0 (t.ledger, refl, h, done.1))

found_any :
    (id : Text) (ws : List WalletRecord) {r : WalletRecord}
    → find_wallet id ws ≡ some r
    → any_row (has_id id) ws ≡ true
unfolding find_wallet find_first any_row
found_any id [] h = cc
found_any id (w ∷ ws) {r} h = ground (arith, found_any id ws {r = r})

update_triple :
    (r : WalletRecord) (e : LedgerRecord)
    → Fits r e
    → Triple
        (Frame (Half r e))
        (update_balance r.id e.after_minor e.wallet_version)
        (λ _. Frame Books)
        (Frame Books)
unfolding update_balance update_balance_row
update_triple r e fits = execute_rule _ (λ t t' (before, at, (books, found), checked) q.
    let any = found_any r.id t.wallets found in
    let done : (t' ≡ record t {
      wallets = update_where (has_id r.id) (set_balance e.after_minor e.wallet_version) t.wallets;
    })
        × (pos 1 ≤ℤ e.wallet_version) =
      ground arith in
    rw (done.0, at) (movement-Books t.wallets before r e books found fits checked done.1))

-- The ledger entry and the balance, and what moves no money.
pub Keeps-movement :
    {A : Type 0} (r : WalletRecord) (e : LedgerRecord) (id : Text) (minor version : ℤ) (rest : M A)
    → Fits r e
    → id ≡ r.id
    → minor ≡ e.after_minor
    → version ≡ e.wallet_version
    → Quiet rest
    → Keeps r (append e >> (update_balance id minor version >> rest))
Keeps-movement r e id minor version rest fits same_id same_minor same_version q = record {
  run = bind_rule (append e) _ (append_triple r e) (λ _.
      bind_rule (update_balance id minor version) _
        (rw (same_id, same_minor, same_version) (update_triple r e fits)) (λ _. q.run Books));
}

pub ruleset keeps_rules = (Keeps-Quiet, Keeps-if, Keeps-attempt, Keeps-attempt_or_fail)
