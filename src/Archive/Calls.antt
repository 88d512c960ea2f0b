-- ===== src/Archive/Calls.antt =====
-- The calls that change an archive, and the states that they reach from an empty one.
use gh_puller.Archive.Cycles
use gh_puller.Archive.Discovery
use gh_puller.Archive.Tasks
use gh_puller.Archive.Publish
use gh_puller.Archive.Maintenance
use gh_puller.Archive.Attempts
use gh_puller.Archive.Cycles.{discovery_checkpoint}
use gh_puller.Archive.Discovery.{discovery_signals}
use gh_puller.Archive.Facts.{Publication}
use gh_puller.Archive.Json.{Fields}
use gh_puller.Archive.Model.{Archive, Coverage, DiscoveryItemDraft, Tables, TaskDraft, Timestamp}
use gh_puller.Base.{
  List, Option, String, [], false, nat_instance, none, option_instance, text_instance, ℕ,
}

-- One call of a method of `ObservationArchive` with its arguments.
pub data Call : Type 0 where
  start_cycle : Timestamp → Call
  add_requests : ℕ → ℕ → Call
  complete_cycle : ℕ → Timestamp → Call
  record_discovery_signals : ℕ → List ℕ → List ℕ → Call
  begin_discovery : ℕ → String → Call
  save_discovery_page : ℕ → String → Option String → List DiscoveryItemDraft → List TaskDraft → Call
  enqueue_tasks : ℕ → List TaskDraft → Call
  take_tasks : ℕ → ℕ → Option (List String) → Call
  record_task_error : ℕ → String → Call
  complete_task : ℕ → Timestamp → Call
  publish : Publication → Call
  start_maintenance_job : String → String → Timestamp → Fields → List TaskDraft → Call
  take_maintenance_tasks : ℕ → ℕ → Timestamp → Option String → Call
  record_maintenance_task_error : ℕ → Timestamp → String → Call
  complete_maintenance_task : ℕ → Timestamp → Coverage → Call
  add_maintenance_requests : ℕ → ℕ → Call

abbrev pub empty_tables : Tables
empty_tables = record {
  discovery_checkpoint = none;
  payload_blobs = [];
  sync_cycles = [];
  discovery_items = [];
  discovery_signals = [];
  sync_tasks = [];
  maintenance_jobs = [];
  maintenance_tasks = [];
  fact_batches = [];
  fact_observations = [];
  commit_reference_index = [];
  fact_heads = [];
}

-- A new archive.
abbrev pub empty : Archive
empty = record { tables = empty_tables; in_transaction = false }

module _ (digest : Fields → String) where
  -- The archive after a call, whatever it returned or raised.
  unfoldable pub perform : Call → Archive → Archive
  perform (Call.start_cycle at) s = (Cycles.start_cycle at s).1
  perform (Call.add_requests c n) s = (Cycles.add_requests c n s).1
  perform (Call.complete_cycle c at) s = (Cycles.complete_cycle c at s).1
  perform (Call.record_discovery_signals c is ps) s =
      (Discovery.record_discovery_signals c is ps s).1
  perform (Call.begin_discovery c cursor) s = (Discovery.begin_discovery c cursor s).1
  perform (Call.save_discovery_page c cursor next items tasks) s =
      (Discovery.save_discovery_page digest c cursor next items tasks s).1
  perform (Call.enqueue_tasks c tasks) s = (Tasks.enqueue_tasks digest c tasks s).1
  perform (Call.take_tasks c n kinds) s = (Tasks.take_tasks c n kinds s).1
  perform (Call.record_task_error task error) s = (Tasks.record_task_error task error s).1
  perform (Call.complete_task task at) s = (Tasks.complete_task task at s).1
  perform (Call.publish p) s = (Publish.publish digest p s).1
  perform (Call.start_maintenance_job key kind at scope tasks) s =
      (Maintenance.start_maintenance_job digest key kind at scope tasks s).1
  perform (Call.take_maintenance_tasks job n at kind) s =
      (Attempts.take_maintenance_tasks job n at kind s).1
  perform (Call.record_maintenance_task_error task at error) s =
      (Attempts.record_maintenance_task_error task at error s).1
  perform (Call.complete_maintenance_task task at outcome) s =
      (Attempts.complete_maintenance_task task at outcome s).1
  perform (Call.add_maintenance_requests job n) s = (Attempts.add_maintenance_requests job n s).1

  -- Any sequence of calls.
  pub data Reachable : Archive → Type 0 where
    opened : Reachable empty
    called : {s : Archive} → Reachable s → (c : Call) → Reachable (perform c s)

  -- A property of the tables that every call keeps holds of every reachable archive.
  pub Reachable-induction :
      (P : Tables → Type 0)
      → P empty_tables
      → ((c : Call) (s : Archive) → P s.tables → P (perform c s).tables)
      → {s : Archive} → Reachable s
      → P s.tables
  Reachable-induction P base step opened = base
  Reachable-induction P base step (called {s = s} r c) =
      step c s (Reachable-induction P base step r)
