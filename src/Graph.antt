-- ===== src/Graph.antt =====
-- gh_puller/codebase/archive.py: the append-only Merkle trees of code graphs.
pub mod Keys
pub mod Pages
pub mod Tree
pub mod Reader
mod Examples
