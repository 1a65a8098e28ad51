-- ===== src/Invariant.antt =====
-- What the tables of sessions, claims and fence counters hold between two operations.
pub mod Counts
pub mod Statements
pub mod Claiming
pub mod Operations
pub mod Closing
pub mod Histories
