-- ===== src/Sqs.antt =====
-- The SQS adapter (internal/adapters/sqs).
pub mod Publisher
pub mod Envelope
pub mod Consumer
