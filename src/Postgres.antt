-- ===== src/Postgres.antt =====
-- The database adapter (internal/adapters/postgres): its tables with the constraints of migrations/,
-- the repositories' statements over them, and the transaction boundary.
pub mod Db
pub mod Logic
pub mod Atomic
pub mod Committed
pub mod Calm
pub mod WalletRepo
pub mod TxRepo
pub mod LedgerRepo
pub mod AuxRepo
