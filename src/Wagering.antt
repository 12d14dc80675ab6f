-- ===== src/Wagering.antt =====
-- The use cases (internal/wagering).
pub mod Service
pub mod Settled
pub mod Reading
pub mod Hash
pub mod Backoff
pub mod Events
pub mod Accept
pub mod Work
pub mod Submit
pub mod OpenWallet
pub mod Pages
pub mod Reconcile
