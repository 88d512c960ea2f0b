-- ===== src/Archive/Model.antt =====
-- The rows of the archive's SQLite tables (`SCHEMA` in gh_puller/github/archive_format.py) and
-- the drafts that callers hand to it (gh_puller/github/observations.py).
use gh_puller.Archive.Json.{Fields}
use gh_puller.Base.{Bool, Comparable, List, Option, String, arith, false, true, ℕ, ◌↔◌, ◌≡◌}

-- A `datetime`: microseconds of UTC for an aware value; `naive` has no time zone.
pub data Timestamp : Type 0 where
  aware : ℕ → Timestamp
  naive : Timestamp

pub data Coverage : Type 0 where
  complete null partial forbidden unavailable : Coverage

pub data Origin : Type 0 where
  api git derived import : Origin

pub record FactDraft : Type 0 where
  pub family : String
  pub subject_key : String
  pub observed_from : Timestamp
  pub observed_until : Timestamp
  pub coverage : Coverage
  pub origin : Origin
  pub payload : Fields
  pub resource_number : Option ℕ
  pub source_digest : Option String
  pub schema_version : ℕ

pub record TaskDraft : Type 0 where
  pub task_key : String
  pub kind : String
  pub subject_key : String
  pub payload : Fields
  pub resource_number : Option ℕ

pub record DiscoveryItemDraft : Type 0 where
  pub number : ℕ
  pub kind : String
  pub observed_from : Timestamp
  pub observed_until : Timestamp
  pub summary : Fields

pub data Status : Type 0 where
  active finished : Status

abbrev pub is_active : Status → Bool
is_active active = true
is_active finished = false

-- A row of `sync_cycles`.
pub record SyncCycle : Type 0 where
  pub id : ℕ
  pub started_at : ℕ
  pub checkpoint_from : Option ℕ
  pub completed_at : Option ℕ
  pub status : Status
  pub discovery_started : Bool
  pub discovery_cursor : Option String
  pub discovery_complete : Bool
  pub discovery_pages : ℕ
  pub discovered_items : ℕ
  pub request_count : ℕ

-- A row of `sync_tasks`.
pub record SyncTask : Type 0 where
  pub id : ℕ
  pub cycle_id : ℕ
  pub task_key : String
  pub kind : String
  pub subject_key : String
  pub resource_number : Option ℕ
  pub input_digest : String
  pub completed_at : Option ℕ
  pub attempts : ℕ
  pub last_error : Option String

-- A row of `discovery_items`.
pub record DiscoveryItem : Type 0 where
  pub cycle_id : ℕ
  pub number : ℕ
  pub kind : String
  pub observed_from : ℕ
  pub observed_until : ℕ
  pub summary_digest : String

-- A row of `discovery_signals`.
pub record DiscoverySignal : Type 0 where
  pub cycle_id : ℕ
  pub number : ℕ
  pub issue_comments : Bool
  pub pull_comments : Bool

-- A row of `payload_blobs`; the codec's round trip is the standard library's.
pub record Blob : Type 0 where
  pub digest : String
  pub payload : Fields

-- A row of `maintenance_jobs`.
pub record MaintenanceJob : Type 0 where
  pub id : ℕ
  pub job_key : String
  pub kind : String
  pub requested_at : ℕ
  pub completed_at : Option ℕ
  pub status : Status
  pub scope_digest : String
  pub total_tasks : ℕ
  pub completed_tasks : ℕ
  pub request_count : ℕ

-- A row of `maintenance_tasks`.
pub record MaintenanceTask : Type 0 where
  pub id : ℕ
  pub job_id : ℕ
  pub task_key : String
  pub kind : String
  pub subject_key : String
  pub resource_number : Option ℕ
  pub input_digest : String
  pub completed_at : Option ℕ
  pub outcome : Option Coverage
  pub attempts : ℕ
  pub last_attempt_from : Option ℕ
  pub last_attempt_until : Option ℕ
  pub last_error : Option String

-- A row of `fact_batches`.
pub record FactBatch : Type 0 where
  pub id : ℕ
  pub publication_key : String
  pub kind : String
  pub cycle_id : Option ℕ
  pub task_id : Option ℕ
  pub maintenance_task_id : Option ℕ
  pub published_at : ℕ
  pub fact_count : ℕ

-- A row of `fact_observations`.
pub record FactObservation : Type 0 where
  pub id : ℕ
  pub batch_id : ℕ
  pub ordinal : ℕ
  pub family : String
  pub schema_version : ℕ
  pub subject_key : String
  pub resource_number : Option ℕ
  pub source_digest : Option String
  pub origin : Origin
  pub observed_from : ℕ
  pub observed_until : ℕ
  pub coverage : Coverage
  pub payload_digest : String

-- A row of `commit_reference_index`.
pub record IndexRow : Type 0 where
  pub observation_id : ℕ
  pub ordinal : ℕ
  pub sha : String

-- A row of `fact_heads`.
pub record FactHead : Type 0 where
  pub family : String
  pub subject_key : String
  pub observation_id : ℕ

-- The committed tables, each in the order of its identities. `discovery_checkpoint` is the
-- value of that key in `archive_meta`.
pub record Tables : Type 0 where
  pub discovery_checkpoint : Option ℕ
  pub payload_blobs : List Blob
  pub sync_cycles : List SyncCycle
  pub discovery_items : List DiscoveryItem
  pub discovery_signals : List DiscoverySignal
  pub sync_tasks : List SyncTask
  pub maintenance_jobs : List MaintenanceJob
  pub maintenance_tasks : List MaintenanceTask
  pub fact_batches : List FactBatch
  pub fact_observations : List FactObservation
  pub commit_reference_index : List IndexRow
  pub fact_heads : List FactHead

-- The open archive: its tables, and whether the connection has a transaction open. A statement
-- that changes rows opens one by itself, and only `commit` or `rollback` ends it.
pub record Archive : Type 0 where
  pub tables : Tables
  pub in_transaction : Bool

abbrev pub coverage_beq : Coverage → Coverage → Bool
coverage_beq complete complete = true
coverage_beq null null = true
coverage_beq partial partial = true
coverage_beq forbidden forbidden = true
coverage_beq unavailable unavailable = true
coverage_beq _ _ = false

abbrev pub origin_beq : Origin → Origin → Bool
origin_beq api api = true
origin_beq git git = true
origin_beq derived derived = true
origin_beq import import = true
origin_beq _ _ = false

coverage_beq_iff : (a b : Coverage) → (coverage_beq a b ≡ true) ↔ (a ≡ b)
coverage_beq_iff a b = ground arith

origin_beq_iff : (a b : Origin) → (origin_beq a b ≡ true) ↔ (a ≡ b)
origin_beq_iff a b = ground arith

instance abbrev pub coverage_instance : Comparable Coverage
unfolding coverage_beq_iff
coverage_instance = record { agrees = coverage_beq; agrees_iff = coverage_beq_iff }

instance abbrev pub origin_instance : Comparable Origin
unfolding origin_beq_iff
origin_instance = record { agrees = origin_beq; agrees_iff = origin_beq_iff }
