-- ===== src/Archive/Invariants.antt =====
-- What holds of every reachable archive of gh_puller/github/observations.py.
pub mod Heads
pub mod CurrentFact
pub mod History
pub mod Settled
pub mod Running
pub mod Batches
pub mod OneBatch
