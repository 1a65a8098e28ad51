-- ===== src/Paths.antt =====
-- src/overlap.rs: the scopes of reservations, their normal form and their overlaps.
mod Strings
pub mod Scopes
pub mod Ancestors
pub mod Ranges
pub mod Normal
pub mod Fixed
unfoldable pub use Strings.*
