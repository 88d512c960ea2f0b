-- ===== src/Agents.antt =====
-- gh_puller/agent/events.py: the observed events of an agent session.
pub mod Redaction
pub mod Events
pub mod Items
pub mod Recorder
pub mod Compact
pub mod Bus
pub mod Files
pub mod Replay
pub mod Examples
