-- ===== src/Plan.antt =====
-- gh_puller/github/maintenance.py: which fact families a refresh observes.
pub mod Families
pub mod Closure
pub mod Needed
pub mod Requests
mod Examples
