-- ===== src/Examples.antt =====
-- Runs of the theorems on a small lock.
pub mod World
mod Data
mod Lock
mod Sessions
mod Moves
mod Links
mod Radio
mod Storage
mod Lines
mod Ways
