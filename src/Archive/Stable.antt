-- ===== src/Archive/Stable.antt =====
-- What a property of the tables has to withstand, step by step, so that every call keeps it.
pub mod Steps
pub mod Every
pub mod Published
use gh_puller.Archive.Cycles.{close_active, cycle_active, cycle_is}
use gh_puller.Archive.Discovery.{discovery_signals}
use gh_puller.Archive.Facts.{Publication}
use gh_puller.Archive.Keeps.{Keeps}
use gh_puller.Archive.Model.{
  Blob, DiscoveryItem, DiscoverySignal, FactBatch, FactHead, FactObservation, IndexRow,
  MaintenanceJob, MaintenanceTask, SyncCycle, SyncTask, Tables, is_active,
}
use gh_puller.Archive.Prepare.{PreparedFact}
use gh_puller.Archive.Publish.{publish_new}
use gh_puller.Archive.Tasks.{is_active_row}
use gh_puller.Base.{
  Bool, Found, List, [], any, false, find, is_none, none, true, update, ℕ, ◌++◌, ◌∷◌, ◌≡◌,
}

-- The identity names an active cycle.
abbrev pub IsRunning : ℕ → Tables → Type 0
IsRunning cycle_id t = Found (λ c. is_active c.status ≡ true) (cycle_is cycle_id) t.sync_cycles

-- An `UPDATE` of `sync_cycles` that opens or closes no cycle.
pub record CycleStep (f : SyncCycle → SyncCycle) : Type 0 where
  pub same_id : (c : SyncCycle) → (f c).id ≡ c.id
  pub same_status : (c : SyncCycle) → (f c).status ≡ c.status

-- An `UPDATE` of `sync_tasks` that reopens no task.
pub record TaskStep (f : SyncTask → SyncTask) : Type 0 where
  pub same_id : (row : SyncTask) → (f row).id ≡ row.id
  pub same_cycle : (row : SyncTask) → (f row).cycle_id ≡ row.cycle_id
  pub stays_done :
      (row : SyncTask) → is_none row.completed_at ≡ false → is_none (f row).completed_at ≡ false

-- The steps that change neither a cycle's status nor a fact.
pub record Steady (P : Tables → Type 0) : Type 0 where
  pub blobs :
      (t : Tables) (b : Blob) → P t → P (record t { payload_blobs = t.payload_blobs ++ b ∷ [] })
  pub signals :
      (t : Tables) (ss : List DiscoverySignal) → P t → P (record t { discovery_signals = ss })
  pub items : (t : Tables) (is : List DiscoveryItem) → P t → P (record t { discovery_items = is })
  pub cycle_changed :
      (t : Tables) (p : SyncCycle → Bool) (f : SyncCycle → SyncCycle)
      → CycleStep f
      → P t
      → P (record t { sync_cycles = update p f t.sync_cycles })
  pub task_added :
      (t : Tables) (row : SyncTask)
      → IsRunning row.cycle_id t
      → row.completed_at ≡ none
      → P t
      → P (record t { sync_tasks = t.sync_tasks ++ row ∷ [] })
  pub task_changed :
      (t : Tables) (p : SyncTask → Bool) (f : SyncTask → SyncTask)
      → TaskStep f
      → P t
      → P (record t { sync_tasks = update p f t.sync_tasks })

-- All the steps of the calls.
pub record Stable (P : Tables → Type 0) : Type 0 where
  pub steady : Steady P
  pub cycle_added :
      (t : Tables) (c : SyncCycle)
      → any cycle_active t.sync_cycles ≡ false
      → P t
      → P (record t { sync_cycles = t.sync_cycles ++ c ∷ [] })
  pub cycle_closed :
      (cycle_id completed : ℕ) (row : SyncCycle) → Keeps P (close_active cycle_id completed row)
  pub maintenance :
      (t : Tables) (js : List MaintenanceJob) (ts : List MaintenanceTask)
      → P t
      → P (record t { maintenance_jobs = js; maintenance_tasks = ts })
  pub published : (p : Publication) (n : ℕ) (ps : List PreparedFact) → Keeps P (publish_new p n ps)

-- The rows that the facts of a publication append, and the heads that they move.
pub record RowSteps (P : Tables → Type 0) : Type 0 where
  pub observation :
      (t : Tables) (row : FactObservation)
      → P t
      → P (record t { fact_observations = t.fact_observations ++ row ∷ [] })
  pub index :
      (t : Tables) (rows : List IndexRow) → P t → P (record t { commit_reference_index = rows })
  pub heads : (t : Tables) (hs : List FactHead) → P t → P (record t { fact_heads = hs })

-- The same with its batch.
pub record FactSteps (P : Tables → Type 0) : Type 0 where
  pub batch :
      (t : Tables) (b : FactBatch) → P t → P (record t { fact_batches = t.fact_batches ++ b ∷ [] })
  pub observation :
      (t : Tables) (row : FactObservation)
      → P t
      → P (record t { fact_observations = t.fact_observations ++ row ∷ [] })
  pub index :
      (t : Tables) (rows : List IndexRow) → P t → P (record t { commit_reference_index = rows })
  pub heads : (t : Tables) (hs : List FactHead) → P t → P (record t { fact_heads = hs })
