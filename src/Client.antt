-- ===== src/Client.antt =====
-- The rate-limit rules of `GitHubClient` in gh_puller/github/client.py.
pub mod Quota
pub mod Limits
pub mod Transport
mod Examples
