-- ===== src/Tests.antt =====
-- Runs of the theorems at concrete inputs.
pub mod Data
mod Keys
mod Buckets
mod Searches
mod Stores
mod Nodes
mod Sessions
mod Starts
mod Threads
mod Networks
mod Handles
