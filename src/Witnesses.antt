-- ===== src/Witnesses.antt =====
-- Runs of the operations at concrete stores.
mod Data
mod Examples
mod Successes
mod Paths
mod Choosing
mod Reserving
mod Reviewing
mod Deciding
