-- ===== src/Log.antt =====
-- The event log and the idempotency records: what each operation appends to them.
pub mod Statements
pub mod Operations
pub mod Closing
pub mod Retries
pub mod Histories
pub mod Replays
pub mod Answers
