-- ===== src/Examples.antt =====
-- The theorems at concrete inputs.
pub mod Domain
pub mod Wagering
pub mod Replay
pub mod Repeats
pub mod Failures
pub mod Adapters
