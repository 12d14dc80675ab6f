-- ===== src/Domain.antt =====
-- The domain package (internal/domain).
pub mod Errors
pub mod Money
pub mod Wallet
pub mod Transaction
pub mod LedgerEntry
pub mod Reversal
