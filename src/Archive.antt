-- ===== src/Archive.antt =====
-- The observation archive of gh_puller/github/observations.py.
pub mod Json
pub mod Model
pub mod Action
pub mod Keeps
pub mod Leaves
pub mod Fixed
pub mod Atomic
pub mod After
pub mod Stable
pub mod Prepare
pub mod Cycles
pub mod Discovery
pub mod Tasks
pub mod Facts
pub mod Lookups
pub mod Publish
pub mod Maintenance
pub mod Attempts
pub mod Calls
pub mod Invariants
mod Examples
mod Runs
