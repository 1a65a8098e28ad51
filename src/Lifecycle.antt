-- ===== src/Lifecycle.antt =====
-- src/ops/workflow/lifecycle.rs and src/ops/workflow/completion.rs: claims, their leases and the
-- outcomes of direct work. Every operation takes the wall clock's reading, and the identifiers that
-- `make_id` draws, as arguments.
pub mod Statements
pub mod Claiming
pub mod Selecting
pub mod Following
pub mod ClaimingNext
pub mod Taking
pub mod Holding
pub mod Completing
pub mod Creating
pub mod Deduping
