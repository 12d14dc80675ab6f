-- ===== src/Http.antt =====
-- The HTTP adapter (internal/adapters/http).
pub mod Identity
pub mod Oidc
pub mod Bodies
pub mod Middleware
pub mod Handler
pub mod Transactions
pub mod Engine
pub mod Shows
pub mod Plain
pub mod Scope
pub mod Reading
pub mod Harmless
pub mod Effects
