-- ===== src/Books/Opening/Steps.antt =====
-- The statements of `OpenWallet`, in order (internal/wagering/wallet.go).
use jg_backend_challenge_go.Prelude.{
  ◌≡◌, refl, sym, ap, ◌∙◌, Bool, true, false, List, [], ◌∷◌, pos, IsInt64, Text, none, arith,
  Result, ok, err, if◌then◌else◌, find_first, any_row,
}
use jg_backend_challenge_go.Domain.Errors.{Code, code_text, invalid_money}
use jg_backend_challenge_go.Domain.Money.{
  Money, valid_currency, is_zero, is_negative, new_money_from_minor,
}
use jg_backend_challenge_go.Domain.Money.Parse.{parse_money}
use jg_backend_challenge_go.Domain.Money.Accepts.{parse_money_sound}
use jg_backend_challenge_go.Domain.Wallet.{Wallet, new_wallet}
use jg_backend_challenge_go.Domain.LedgerEntry.{LedgerEntry, credit, new_ledger_entry}
use jg_backend_challenge_go.Ports.{WalletRecord, LedgerRecord, Failure, correctable}
use jg_backend_challenge_go.Postgres.Db.{
  Tables, World, M, pure, fail, fail_when, execute, ◌>>=◌, ◌>>◌, transact,
}
use jg_backend_challenge_go.Postgres.Logic.{Ends, pure_rule, execute_rule, transact_rule}
use jg_backend_challenge_go.Postgres.WalletRepo.{find_wallet, has_id, insert_row, check_wallet}
use jg_backend_challenge_go.Postgres.WalletRepo
use jg_backend_challenge_go.Postgres.LedgerRepo.{check_entry, append, append_row}
use jg_backend_challenge_go.Wagering.Service.{Service, attempt, fresh_id}
use jg_backend_challenge_go.Wagering.Accept.{to_ledger_record, money_or_zero}
use jg_backend_challenge_go.Wagering.OpenWallet.{
  conflict_if_unique, insert_wallet, wallet_record, open_with, open_in, open_wallet,
}
use jg_backend_challenge_go.Books.{Books}
use jg_backend_challenge_go.Books.Frames.{
  Frame, Quiet, Quiet-bind, Quiet-fresh_id, Quiet-now, Quiet-insert_tx_row, Quiet-stage, Quiet-pure,
}
use jg_backend_challenge_go.Books.Reaching.{
  Anything, Reaches, Reaches-Quiet, Reaches-bind, Reaches-attempt_or_fail, Reaches-after,
  Reaches-attempt,
}
use jg_backend_challenge_go.Books.Movers.{new_ledger_entry_inv}
use jg_backend_challenge_go.Books.Resting.{Rests}
use jg_backend_challenge_go.Wagering.Settled.{Settled-fresh_id, Settled-bind, Settled-fail_when}
use jg_backend_challenge_go.Books.Opening.{IsNew, Opened, empty-Books, Opens, funded-Books}

missing_row :
    (id : Text) (ws : List WalletRecord) → any_row (has_id id) ws ≡ false → find_wallet id ws ≡ none
unfolding any_row find_wallet find_first
missing_row id [] h = refl
missing_row id (w ∷ ws) h = ground (arith, missing_row id ws)

insert_row-Opened :
    (r : WalletRecord) (t t' : Tables)
    → Books t.wallets t.ledger
    → insert_row r t ≡ ok t'
    → Opened r t'.wallets t'.ledger
unfolding insert_row
insert_row-Opened r t t' books q =
    let done : (t' ≡ record t { wallets = r ∷ t.wallets })
        × (any_row (has_id r.id) t.wallets ≡ false) =
      ground arith in
    rw done.0 (t.wallets, refl, books, missing_row r.id t.wallets done.1)

mapped_ends :
    (Q : Tables → Type 0) (r : Result Failure (Unit {0}) × World)
    → Ends {A = Unit {0}} (λ _. Q) Anything r
    → Ends {A = Unit {0}}
        (λ _. Q)
        Anything
        (elim r.0 [ ok u ↦ (ok u, r.1) | err e ↦ (err (conflict_if_unique e), r.1) ])
mapped_ends Q (ok u, w) h = h
mapped_ends Q (err e, w) h = h

insert_wallet-Opened : (r : WalletRecord) → Reaches Books (Opened r) (insert_wallet r)
unfolding insert_wallet WalletRepo.insert
insert_wallet-Opened r = record {
  run = record {
    run = λ w h. mapped_ends (Frame (Opened r)) (execute (insert_row r) w) (
        (execute_rule {P = Frame Books} {Q = Frame (Opened r)} {E = Anything} (insert_row r)
            (λ t t' b q. insert_row-Opened r t t' b q)).run
          w h);
  };
}

append-Books :
    (r : WalletRecord) (e : LedgerRecord)
    → IsNew r
    → Opens r e
    → Reaches (Opened r) Books (append e)
unfolding append append_row
append-Books r e n o = record {
  run = execute_rule _ (λ t t' h q.
      let done : (t' ≡ record t { ledger = e ∷ t.ledger }) × (check_entry e ≡ true) =
        ground arith in
      rw done.0 (funded-Books r e t.wallets t.ledger n o done.1 h));
}

valid_zero :
    (currency : Text)
    → valid_currency currency ≡ true
    → money_or_zero (pos 0) currency ≡ record { minor = pos 0; currency = currency }
unfolding money_or_zero new_money_from_minor
valid_zero currency h = ground arith

entry-Opens :
    (r : WalletRecord) (id tx : Text) (initial : Money) {e : LedgerEntry}
    → r.version ≡ pos 1
    → valid_currency r.currency ≡ true
    → initial.minor ≡ r.balance_minor
    → new_ledger_entry id r.id tx credit initial (money_or_zero (pos 0) r.currency) initial (pos 1)
      ≡ ok e
    → Opens r (to_ledger_record e)
unfolding to_ledger_record
entry-Opens r id tx initial v valid balance h =
    let i =
      new_ledger_entry_inv id r.id tx credit initial (money_or_zero (pos 0) r.currency) initial
        (pos 1) h in
    let z = valid_zero r.currency valid in
    record {
      same_wallet = ground arith;
      same_currency = ground arith;
      from_zero = ground arith;
      to_balance = ground arith;
      first_version = ground arith;
    }

Rests-attempt_known :
    {A B : Type 0} (o : Result Code A) (f : Code → Failure) (k : A → M B)
    → ((a : A) → o ≡ ok a → Rests (k a))
    → Rests (attempt o (λ e. fail (f e)) pure >>= k)
Rests-attempt_known (ok a) f k g = record { run = λ w h. (g a refl).run w h }
Rests-attempt_known (err e) f k g = record { run = λ w h. h }

append_then :
    {A : Type 0} (r : WalletRecord) (e : LedgerRecord) (rest : M A)
    → IsNew r
    → Opens r e
    → Quiet rest
    → Reaches (Opened r) Books (append e >> rest)
append_then r e rest n o q =
    Reaches-bind (append e) (λ _. rest) (append-Books r e n o) (λ _. Reaches-Quiet rest q)

open_with-Books :
    (s : Service) (player_id initial_text : Text) (r : WalletRecord) (initial : Money)
    → IsNew r
    → r.version ≡ pos 1
    → valid_currency r.currency ≡ true
    → initial.minor ≡ r.balance_minor
    → Reaches (Opened r) Books (open_with s player_id r.currency initial_text r.id initial)
unfolding open_with
open_with-Books s player_id initial_text r initial n v valid balance =
    search
      (
        Reaches-after, Reaches-attempt_or_fail, append_then, entry-Opens, Quiet-fresh_id, Quiet-now,
        Quiet-insert_tx_row, Quiet-bind, Quiet-stage,
      )
      depth 16

-- The wallet that is opened, and its row.
new_wallet-IsNew :
    (id player_id currency : Text) (initial : Money) {w : Wallet}
    → IsInt64 initial.minor
    → new_wallet id player_id currency initial ≡ ok w
    → IsNew (wallet_record w) × (w.id ≡ id) × (w.currency ≡ currency) × (w.balance ≡ initial)
unfolding new_wallet is_negative
new_wallet-IsNew id player_id currency initial h q = (
  record {
    currency_valid = ground arith;
    balance_nonneg = ground arith;
    balance_int64 = ground arith;
    first_version = ground arith;
  },
  ground arith,
  ground arith,
  ground arith,
)

zero_minor : (m : Money) → is_zero m ≡ true → m.minor ≡ pos 0
unfolding is_zero
zero_minor m h = ground arith

open_money :
    (s : Service) (player_id initial_text : Text) (r : WalletRecord) (initial : Money) (b : Bool)
    → is_zero initial ≡ b
    → IsNew r
    → initial.minor ≡ r.balance_minor
    → Reaches
        (Opened r)
        Books
        (if b then pure tt else open_with s player_id r.currency initial_text r.id initial)
open_money s player_id initial_text r initial true z n balance = record {
  run =
      pure_rule tt
        (λ t h. empty-Books r t.wallets t.ledger n (sym balance ∙ zero_minor initial z) h);
}
open_money s player_id initial_text r initial false z n balance =
    open_with-Books s player_id initial_text r initial n n.first_version n.currency_valid balance

-- The body of the transaction, once the aggregate is built.
open_row-Books :
    (s : Service) (player_id initial_text : Text) (r : WalletRecord) (initial : Money)
    → IsNew r
    → initial.minor ≡ r.balance_minor
    → Reaches Books Books (
        insert_wallet r
        >> ((if is_zero initial
              then pure tt
              else open_with s player_id r.currency initial_text r.id initial)
            >> pure r))
open_row-Books s player_id initial_text r initial n balance =
    Reaches-bind _ _ (insert_wallet-Opened r) (λ _.
      Reaches-bind
        (if is_zero initial
          then pure tt
          else open_with s player_id r.currency initial_text r.id initial)
        (λ _. pure r)
        (open_money s player_id initial_text r initial (is_zero initial) refl n balance)
        (λ _. Reaches-Quiet _ (Quiet-pure r)))

built-Books :
    (s : Service) (player_id currency initial_text id : Text) (initial : Money) (w : Wallet)
    → IsInt64 initial.minor
    → new_wallet id player_id currency initial ≡ ok w
    → Reaches Books Books (
        insert_wallet (wallet_record w)
        >> ((if is_zero initial
              then pure tt
              else open_with s player_id currency initial_text id initial)
            >> pure (wallet_record w)))
built-Books s player_id currency initial_text id initial w h q =
    let (n, same_id, same_currency, same_balance) =
      new_wallet-IsNew id player_id currency initial h q in
    rw (← same_id, ← same_currency)
      (open_row-Books s player_id initial_text (wallet_record w) initial n
        (ap (λ m. m.minor) (sym same_balance)))

open_in-Books :
    (s : Service) (player_id currency initial_text id : Text) (initial : Money)
    → IsInt64 initial.minor
    → Reaches Books Books (open_in s player_id currency initial_text id initial)
unfolding open_in
open_in-Books s player_id currency initial_text id initial h =
    Reaches-attempt (new_wallet id player_id currency initial) _ _
      (λ w q. built-Books s player_id currency initial_text id initial w h q)

parsed-IsInt64 :
    (amount currency : Text) {m : Money} → parse_money amount currency ≡ ok m → IsInt64 m.minor
parsed-IsInt64 amount currency h =
    let (whole, cents, n, shape, fit, valid, same) = parse_money_sound amount currency h in
    ground arith

Rests-open :
    (s : Service) (player_id currency initial_text id : Text) (initial : Money)
    → IsInt64 initial.minor
    → Rests (transact (open_in s player_id currency initial_text id initial))
Rests-open s player_id currency initial_text id initial h = record {
  run = λ w k.
      transact_rule (open_in s player_id currency initial_text id initial) w
        (open_in-Books s player_id currency initial_text id initial h).run k;
}

pub Rests-open_wallet :
    (s : Service) (player_id currency initial_text : Text)
    → Rests (open_wallet s player_id currency initial_text)
unfolding open_wallet
Rests-open_wallet s player_id currency initial_text =
    Rests-attempt_known (parse_money initial_text currency)
      (λ _. correctable (code_text invalid_money))
      (λ initial. do
        fail_when (is_negative initial) (correctable (code_text invalid_money))
        id ← fresh_id s
        transact (open_in s player_id currency initial_text id initial))
      (λ initial h.
        search (Settled-bind, Settled-fail_when, Settled-fresh_id, Rests-open, parsed-IsInt64))
