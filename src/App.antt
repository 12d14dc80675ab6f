-- ===== src/App.antt =====
-- The application (internal/app): its configuration.
pub mod Config
