-- ===== src/Fencing.antt =====
-- Fencing: claims that ended or ran out of their lease.
pub mod Current
pub mod Statements
pub mod Dead
pub mod Operations
pub mod Histories
pub mod Once
pub mod Newest
