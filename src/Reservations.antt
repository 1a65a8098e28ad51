-- ===== src/Reservations.antt =====
-- src/ops/reservation.rs, the overlap queries of src/overlap.rs and the scopes of
-- src/model/records.rs.
pub mod Scope
pub mod Queries
pub mod Meets
pub mod Overlaps
pub mod Requests
pub mod Operations
pub mod Candidates
pub mod Grounded
pub mod Recorded
pub mod Panics
