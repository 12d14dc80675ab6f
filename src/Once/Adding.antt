-- ===== src/Once/Adding.antt =====
-- Parts of `applyOperation` that add the key of the operation to the view and give its answer
-- (internal/wagering/accept.go).
use jg_backend_challenge_go.Prelude.{
  ◌≡◌, sym, subst, Text, Bool, true, false, Option, some, ◌∷◌, Result, ok, err, if◌then◌else◌,
  arith,
}
use jg_backend_challenge_go.Domain.Errors.{Code}
use jg_backend_challenge_go.Domain.Money.{Money}
use jg_backend_challenge_go.Domain.Wallet.{Wallet}
use jg_backend_challenge_go.Domain.Transaction.{TransactionState}
use jg_backend_challenge_go.Ports.{TxRecord, Failure}
use jg_backend_challenge_go.Postgres.Db.{Tables, M, pure, fail, ◌>>=◌, ◌>>◌}
use jg_backend_challenge_go.Postgres.Logic.{
  Triple, bind_rule, pure_rule, fail_rule, error_rule, execute_rule,
}
use jg_backend_challenge_go.Postgres.TxRepo
use jg_backend_challenge_go.Wagering.Service.{SubmitInput, SubmitResult, attempt}
use jg_backend_challenge_go.Wagering.Accept.{Context, tx_record, insert_tx}
use jg_backend_challenge_go.Once.{View, Key, Seen, Steady, key_of, view}
use jg_backend_challenge_go.Once.Statements.{steady_statements, Steady-find_by_provider_external}

abbrev pub new_key : SubmitInput → Text → Text → Key
new_key i hash id = record {
  id = id;
  provider_id = some i.provider_id;
  external_id = some i.external_id;
  idempotency_key = some i.idempotency_key;
  payload_hash = some hash;
}

abbrev pub with_key : Key → View → View
with_key k v = record v { keys = k ∷ v.keys }

abbrev pub key_in : Context → Key
key_in c = new_key c.input c.hash c.tx_id

abbrev pub IsAnswer : Text → SubmitResult → Type 0
IsAnswer id r = (r.transaction_id ≡ id) × (r.idempotent_replay ≡ false)

abbrev pub Anything : Tables → Type 0
Anything _ = Unit {0}

-- What follows the row of the operation: the answer to it.
pub record Answers (c : Context) (m : M SubmitResult) : Type 1 where
  pub run : (Q : View → Type 0) → Triple (Seen Q) m (λ r t. IsAnswer c.tx_id r × Seen Q t) Anything

-- The row of the operation is added, and its answer given.
pub record Adds (c : Context) (m : M SubmitResult) : Type 1 where
  pub run :
      (Q : View → Type 0)
      → Triple
          (Seen (λ v. Q (with_key (key_in c) v)))
          m
          (λ r t. IsAnswer c.tx_id r × Seen Q t)
          Anything

pub loosely :
    {A : Type 0} (m : M A)
    → Steady m
    → (Q : View → Type 0) → Triple (Seen Q) m (λ _. Seen Q) (λ _. Unit {0})
loosely m f Q = error_rule m (λ t h. tt) (f.run Q)

module _ (c : Context) where
  pub Answers-pure : (r : SubmitResult) → IsAnswer c.tx_id r → Answers c (pure r)
  Answers-pure r h = record { run = λ Q. pure_rule r (λ t q. (h, q)) }

  pub Answers-after :
      {A : Type 0} (m : M A) (k : A → M SubmitResult)
      → Steady m
      → ((a : A) → Answers c (k a))
      → Answers c (m >>= k)
  Answers-after m k f g = record { run = λ Q. bind_rule m k (loosely m f Q) (λ a. (g a).run Q) }

  pub Adds-after :
      {A : Type 0} (m : M A) (k : A → M SubmitResult)
      → Steady m
      → ((a : A) → Adds c (k a))
      → Adds c (m >>= k)
  Adds-after m k f g = record {
    run = λ Q. bind_rule m k (loosely m f (λ v. Q (with_key (key_in c) v))) (λ a. (g a).run Q);
  }

  pub Adds-fail : (e : Failure) → Adds c (fail e)
  Adds-fail e = record { run = λ Q. fail_rule e (λ t h. tt) }

  pub Adds-if :
      (b : Bool) (m n : M SubmitResult) → Adds c m → Adds c n → Adds c (if b then m else n)
  Adds-if true m n f g = f
  Adds-if false m n f g = g

  pub Adds-attempt :
      {B : Type 0} (o : Result Code B) (h : Code → M SubmitResult) (k : B → M SubmitResult)
      → ((e : Code) → Adds c (h e))
      → ((b : B) → Adds c (k b))
      → Adds c (attempt o h k)
  Adds-attempt (ok a) h k f g = g a
  Adds-attempt (err e) h k f g = f e

  -- Behind an answer, what leaves the view alone.
  pub Adds-then :
      (m : M SubmitResult) (n n' : SubmitResult → M (Unit {0}))
      → Adds c m
      → ((r : SubmitResult) → Steady (n r))
      → ((r : SubmitResult) → Steady (n' r))
      → Adds c (m >>= λ r. n r >> (n' r >> pure r))
  Adds-then m n n' f g h = record {
    run = λ Q. bind_rule m _ (f.run Q) (λ r.
        bind_rule (n r) _ (loosely (n r) (g r) (λ v. IsAnswer c.tx_id r × Q v)) (λ _.
          bind_rule (n' r) _ (loosely (n' r) (h r) (λ v. IsAnswer c.tx_id r × Q v))
            (λ _. pure_rule r (λ t q. q))));
  }

  inserted :
      (r : TxRecord) (t t' : Tables)
      → TxRepo.insert_row r t ≡ ok t'
      → view t' ≡ with_key (key_of r) (view t)
  unfolding TxRepo.insert_row
  inserted r t t' h = ground arith

  pub Adds-insert :
      (w : Wallet) (state : TransactionState) (code : Text) (b : Option Money) (ref : Text)
      (k : Unit {0} → M SubmitResult)
      → ((u : Unit {0}) → Answers c (k u))
      → Adds c (insert_tx c w state code b ref >>= k)
  unfolding insert_tx tx_record TxRepo.insert
  Adds-insert w state code b ref k g = record {
    run = λ Q.
        bind_rule _ k (execute_rule _ (λ t t' q e. subst Q (sym (inserted _ t t' e)) q))
          (λ u. (g u).run Q);
  }

  pub ruleset answer_rules = (Answers-pure, Answers-after, steady_statements)

  pub ruleset adds_rules = (Adds-after, Adds-fail, Adds-if, Adds-attempt, steady_statements)
