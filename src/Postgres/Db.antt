-- ===== src/Postgres/Db.antt =====
-- The tables, a statement and a transaction (internal/adapters/postgres/db.go and models.go). A
-- statement may fail at any time, as the list of faults says; PostgreSQL then refuses what follows in
-- the same transaction, also the commit, and rolls the tables back.
use jg_backend_challenge_go.Prelude.{
  ℕ, Bool, true, false, Option, List, [], ◌∷◌, Text, Result, ok, err,
}
use jg_backend_challenge_go.Ports.{
  WalletRecord, TxRecord, LedgerRecord, Json, Fault, unavailable, transaction_aborted, Failure,
  database,
}

pub record InboxRow : Type 0 where
  pub consumer : Text
  pub message_id : Text
  pub payload_hash : Text
  pub concluded : Bool

pub record OutboxRow : Type 0 where
  pub event_id : Text
  pub aggregate_id : Text
  pub event_type : Text
  pub payload : Json
  pub occurred_at : ℕ
  pub attempts : ℕ
  pub next_send_at : ℕ
  pub published_at : Option ℕ
  pub lease_owner : Option Text
  pub lease_expires_at : Option ℕ

pub record WorkRow : Type 0 where
  pub transaction_id : Text
  pub kind : Text
  pub ref_attempts : ℕ
  pub infra_attempts : ℕ
  pub next_attempt_at : ℕ
  pub lease_owner : Option Text
  pub lease_expires_at : Option ℕ
  pub created_at : ℕ

-- The rows of each table, the newest first.
pub record Tables : Type 0 where
  pub wallets : List WalletRecord
  pub txs : List TxRecord
  pub ledger : List LedgerRecord
  pub inbox : List InboxRow
  pub outbox : List OutboxRow
  pub work : List WorkRow

-- Outside a transaction, in one, or in one that a failed statement has spoilt.
pub data Status : Type 0 where
  idle active broken : Status

-- `faults` tells of each coming statement whether it fails; behind its end none does. `ticks` counts
-- the readings of the clock and the draws of ids.
pub record World : Type 0 where
  pub tables : Tables
  pub status : Status
  pub faults : List Bool
  pub ticks : ℕ

abbrev pub M : Type 0 → Type 0
M A = World → Result Failure A × World

abbrev pub pure : {A : Type 0} → A → M A
pure a w = (ok a, w)

abbrev pub fail : {A : Type 0} → Failure → M A
fail e w = (err e, w)

infixl 5 ◌>>=◌ ◌>>◌
abbrev pub ◌>>=◌ : {A B : Type 0} → M A → (A → M B) → M B
◌>>=◌ m f w = let (r, w') = m w in elim r [ ok a ↦ f a w' | err e ↦ (err e, w') ]

abbrev pub ◌>>◌ : {A B : Type 0} → M A → M B → M B
m >> k = m >>= λ _. k

-- `if bad { return e }`
abbrev pub fail_when : Bool → Failure → M (Unit {0})
fail_when true e = fail e
fail_when false e = pure tt

-- A domain call inside a use case.
abbrev pub lift : {A : Type 0} → Result Failure A → M A
lift r w = (r, w)

-- A failed statement spoils the transaction that it stands in.
abbrev pub spoilt : Status → Status
spoilt idle = idle
spoilt active = broken
spoilt broken = broken

unfoldable pub spoil : World → World
spoil w = record w { status = spoilt w.status }

-- One round trip to the database.
unfoldable pub answer : Status → List Bool → World → Result Failure (Unit {0}) × World
unfolding spoil
answer broken _ w = (err (database transaction_aborted), w)
answer _ [] w = (ok tt, w)
answer _ (false ∷ rest) w = (ok tt, record w { faults = rest })
answer _ (true ∷ rest) w = (err (database unavailable), spoil (record w { faults = rest }))

unfoldable pub call : M (Unit {0})
unfolding answer
call w = answer w.status w.faults w

-- A statement that reads.
unfoldable pub query : {A : Type 0} → (Tables → A) → M A
query f = do call; λ w. (ok (f w.tables), w)

abbrev pub written : Result Fault Tables → World → Result Failure (Unit {0}) × World
written (ok t) w = (ok tt, record w { tables = t })
written (err e) w = (err (database e), spoil w)

-- A statement that writes, or meets a constraint and writes nothing.
unfoldable pub execute : (Tables → Result Fault Tables) → M (Unit {0})
unfolding spoil
execute f = do call; λ w. written (f w.tables) w

-- The answer to COMMIT.
abbrev pub conclude :
    {A : Type 0} → Tables → A → Result Failure (Unit {0}) × World → Result Failure A × World
conclude before a (ok _, w) = (ok a, record w { status = idle })
conclude before a (err e, w) = (err e, record w { status = idle; tables = before })

-- COMMIT, or ROLLBACK to the tables at the beginning.
unfoldable pub finish : {A : Type 0} → Tables → Result Failure A × World → Result Failure A × World
unfolding call
finish before (ok a, w) = conclude before a (call w)
finish before (err e, w) = (err e, record w { status = idle; tables = before })

-- What follows BEGIN.
abbrev pub begun : {A : Type 0} → M A → M A
begun body w = finish w.tables (body (record w { status = active }))

-- `Transact`, and `TransactRepeatableRead` where the transactions follow one another.
unfoldable pub transact : {A : Type 0} → M A → M A
unfolding call finish
transact body = call >> begun body

-- A call whose error is dropped; what it did to the world stays done.
abbrev pub ignore : {A : Type 0} → M A → M (Unit {0})
ignore m w = (ok tt, (m w).1)
