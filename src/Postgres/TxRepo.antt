-- ===== src/Postgres/TxRepo.antt =====
-- The wager transactions (internal/adapters/postgres/tx_repo.go and
-- migrations/00002_wager_transactions.sql). A row and the record that is built from it have the same
-- fields; the creation times are left out. A comparison with NULL finds nothing.
use jg_backend_challenge_go.Prelude.{
  Bool, true, false, not, ◌&&◌, ◌||◌, Option, none, some, List, ◌∷◌, Text, text_eq, find_first,
  select, update_where, any_row, if◌then◌else◌, Result, ok, fail_if, ◌>>◌,
}
use jg_backend_challenge_go.Domain.Transaction.{
  TransactionKind, opening, win, other, TransactionState, processed,
}
use jg_backend_challenge_go.Ports.{
  TxRecord, Origin, internal, external, Fault, unique_violation, check_violation,
  foreign_key_violation,
}
use jg_backend_challenge_go.Postgres.Db.{Tables, M, query, execute}
use jg_backend_challenge_go.Postgres.WalletRepo.{has_id as has_wallet_id}

-- `column = ?`
abbrev pub holds : Option Text → Text → Bool
holds none v = false
holds (some u) v = text_eq u v

abbrev pub is_set : {A : Type 0} → Option A → Bool
is_set none = false
is_set (some a) = true

abbrev pub is_external : Origin → Bool
is_external internal = false
is_external external = true

abbrev pub is_opening : TransactionKind → Bool
is_opening opening = true
is_opening _ = false

abbrev pub is_win : TransactionKind → Bool
is_win win = true
is_win _ = false

-- tx_kind
abbrev pub is_known : TransactionKind → Bool
is_known (other k) = false
is_known _ = true

abbrev pub has_id : Text → TxRecord → Bool
has_id id r = text_eq r.id id

abbrev pub has_provider_key : Text → Text → TxRecord → Bool
has_provider_key provider_id key r = holds r.provider_id provider_id && holds r.idempotency_key key

abbrev pub has_provider_external : Text → Text → TxRecord → Bool
has_provider_external provider_id external_id r =
    holds r.provider_id provider_id && holds r.external_id external_id

abbrev pub depends_on : Text → Text → TxRecord → Bool
depends_on provider_id reference_external_id r =
    holds r.provider_id provider_id && holds r.reference_external_id reference_external_id

-- tx_origin_fields
unfoldable pub check_origin : TxRecord → Bool
check_origin r =
    if is_external r.origin
    then is_set r.provider_id
      && is_set r.external_id
      && is_set r.idempotency_key
      && is_set r.payload_hash
      && is_set r.round_id
      && is_set r.game_id
      && not (is_opening r.kind)
    else not (is_set r.provider_id)
      && not (is_set r.external_id)
      && not (is_set r.idempotency_key)
      && not (is_set r.payload_hash)
      && not (is_set r.round_id)
      && not (is_set r.game_id)
      && not (is_set r.reference_external_id)
      && is_opening r.kind

-- The partial unique indexes and the primary key: whether two rows may not stand together.
abbrev pub same_text : Option Text → Option Text → Bool
same_text none v = false
same_text (some u) v = holds v u

unfoldable pub clashes : TxRecord → TxRecord → Bool
clashes a b =
    text_eq a.id b.id
    || is_external a.origin
      && is_external b.origin
      && same_text a.provider_id b.provider_id
      && (same_text a.idempotency_key b.idempotency_key || same_text a.external_id b.external_id)
    || not (is_external a.origin) && not (is_external b.origin) && text_eq a.wallet_id b.wallet_id

-- REFERENCES wager_transactions (id)
abbrev pub refers : Option Text → List TxRecord → Bool
refers none txs = true
refers (some id) txs = any_row (has_id id) txs

unfoldable pub insert_row : TxRecord → Tables → Result Fault Tables
insert_row r t = do
  fail_if (not (is_known r.kind && check_origin r)) check_violation
  fail_if (any_row (clashes r) t.txs) unique_violation
  fail_if
      (not (
        any_row (has_wallet_id r.wallet_id) t.wallets
        && refers r.reference_tx_id (r ∷ t.txs)
        && refers r.reversed_by_tx_id (r ∷ t.txs)))
      foreign_key_violation
  ok (record t { txs = r ∷ t.txs })

unfoldable pub insert : TxRecord → M (Unit {0})
insert r = execute (insert_row r)

unfoldable pub get : Text → M (Option TxRecord)
get id = query (λ t. find_first (has_id id) t.txs)

unfoldable pub find_by_provider_key : Text → Text → M (Option TxRecord)
find_by_provider_key provider_id key =
    query (λ t. find_first (has_provider_key provider_id key) t.txs)

unfoldable pub find_by_provider_external : Text → Text → M (Option TxRecord)
find_by_provider_external provider_id external_id =
    query (λ t. find_first (has_provider_external provider_id external_id) t.txs)

unfoldable pub find_dependents : Text → Text → M (List TxRecord)
find_dependents provider_id reference_external_id =
    query (λ t. select (depends_on provider_id reference_external_id) t.txs)

-- The columns that `UpdateState` writes.
abbrev pub outcome_of : TxRecord → TxRecord → TxRecord
outcome_of r row = record row {
  state = r.state;
  failure_code = r.failure_code;
  result_balance_minor = r.result_balance_minor;
  result_currency = r.result_currency;
  reference_tx_id = r.reference_tx_id;
  wallet_version_observed = r.wallet_version_observed;
}

unfoldable pub update_state_row : TxRecord → Tables → Result Fault Tables
update_state_row r t = do
  fail_if (any_row (has_id r.id) t.txs && not (refers r.reference_tx_id t.txs))
      foreign_key_violation
  ok (record t { txs = update_where (has_id r.id) (outcome_of r) t.txs })

unfoldable pub update_state : TxRecord → M (Unit {0})
update_state r = execute (update_state_row r)

abbrev pub reversed_by : TransactionKind → Text → TxRecord → TxRecord
reversed_by by_kind by_tx_id row = record row {
  reversed_by_kind = some by_kind;
  reversed_by_tx_id = some by_tx_id;
}

unfoldable pub mark_reversed_row : Text → TransactionKind → Text → Tables → Result Fault Tables
mark_reversed_row target_id by_kind by_tx_id t = do
  fail_if (any_row (has_id target_id) t.txs && not (any_row (has_id by_tx_id) t.txs))
      foreign_key_violation
  ok (record t { txs = update_where (has_id target_id) (reversed_by by_kind by_tx_id) t.txs })

unfoldable pub mark_reversed : Text → TransactionKind → Text → M (Unit {0})
mark_reversed target_id by_kind by_tx_id = execute (mark_reversed_row target_id by_kind by_tx_id)

abbrev pub unreversed : TxRecord → TxRecord
unreversed row = record row { reversed_by_kind = none; reversed_by_tx_id = none }

unfoldable pub clear_reversal_row : Text → Tables → Result Fault Tables
clear_reversal_row target_id t =
    ok (record t { txs = update_where (has_id target_id) unreversed t.txs })

unfoldable pub clear_reversal : Text → M (Unit {0})
clear_reversal target_id = execute (clear_reversal_row target_id)

abbrev pub is_processed_state : TransactionState → Bool
is_processed_state processed = true
is_processed_state _ = false

unfoldable pub is_active_win : Text → TxRecord → Bool
is_active_win bet_tx_id r =
    holds r.reference_tx_id bet_tx_id
    && is_win r.kind
    && is_processed_state r.state
    && not (is_set r.reversed_by_tx_id)

-- `count(*) > 0`
unfoldable pub has_active_win : Text → M Bool
unfolding is_active_win
has_active_win bet_tx_id = query (λ t. any_row (is_active_win bet_tx_id) t.txs)
