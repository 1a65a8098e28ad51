-- ===== src/Reviews.antt =====
-- src/ops/workflow/artifact_review.rs: artifacts and the rounds of their review.
pub mod Publishing
pub mod Requesting
pub mod Enqueuing
pub mod Deciding
pub mod Duties
pub mod Pending
pub mod Rounds
pub mod Republished
