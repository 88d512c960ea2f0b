-- ===== src/Client/Limits/Blocks.antt =====
-- A rate-limited response blocks its resource, and never shortens a block.
use gh_puller.Base.{text_instance}
use gh_puller.Client.Quota.{Limits}
