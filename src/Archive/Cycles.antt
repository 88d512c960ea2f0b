-- ===== src/Archive/Cycles.antt =====
-- The sync cycles of `ObservationArchive` in gh_puller/github/observations.py: start, resume,
-- request accounting and completion.
pub mod Closing
use gh_puller.Archive.Action.{
  Action, autocommit, gets, guard, integrity_error, iso, lift, modify, or_raise, pure, query, raise,
  runtime_error, transaction, value_error, ◌>>=◌, ◌>>◌,
}
use gh_puller.Archive.Model.{Archive, Status, SyncCycle, SyncTask, Tables, Timestamp, is_active}
use gh_puller.Base.{
  Bool, Option, [], any, count, false, find, if◌then◌else◌, inl, inr, is_none, leb, ltb,
  nat_instance, next_id, none, not, option_instance, some, text_instance, update, ℕ, ◌&&◌, ◌++◌,
  ◌+◌, ◌==◌, ◌∷◌, ◌⊎◌,
}

abbrev pub cycle_is : ℕ → SyncCycle → Bool
cycle_is cycle_id c = c.id == cycle_id

abbrev pub cycle_active : SyncCycle → Bool
cycle_active c = is_active c.status

abbrev pub active_row : Tables → Option SyncCycle
active_row t = find cycle_active t.sync_cycles

-- `active_cycle`.
unfoldable pub active_cycle : Action Archive (Option SyncCycle)
active_cycle = query active_row

-- `discovery_checkpoint`.
unfoldable pub discovery_checkpoint : Action Archive (Option ℕ)
discovery_checkpoint = query (λ t. t.discovery_checkpoint)

-- `_active_cycle_row`.
unfoldable pub active_cycle_row : ℕ → Action Tables SyncCycle
active_cycle_row cycle_id = do
  found ← gets (λ t. find (cycle_is cycle_id) t.sync_cycles)
  row ← or_raise found runtime_error
  guard (is_active row.status) runtime_error
  pure row

abbrev pub precedes : ℕ → Option ℕ → Bool
precedes started none = false
precedes started (some checkpoint) = ltb started checkpoint

abbrev pub new_cycle : ℕ → Tables → SyncCycle
new_cycle started t = record {
  id = next_id (λ c. c.id) t.sync_cycles;
  started_at = started;
  checkpoint_from = t.discovery_checkpoint;
  completed_at = none;
  status = Status.active;
  discovery_started = false;
  discovery_cursor = none;
  discovery_complete = false;
  discovery_pages = 0;
  discovered_items = 0;
  request_count = 0;
}

-- The `INSERT INTO sync_cycles`; the index `one_active_sync_cycle` refuses a second active row.
unfoldable pub insert_cycle : SyncCycle → Action Tables (Unit {0})
insert_cycle c = do
  cycles ← gets (λ t. t.sync_cycles)
  guard (not (any cycle_active cycles)) integrity_error
  modify (λ t. record t { sync_cycles = t.sync_cycles ++ c ∷ [] })

-- The body of the transaction of `start_cycle`: the active row, or a new row's identity.
abbrev pub create_cycle : ℕ → Option SyncCycle → Action Tables (SyncCycle ⊎ ℕ)
create_cycle started (some c) = pure (inl c)
create_cycle started none = do
  checkpoint ← gets (λ t. t.discovery_checkpoint)
  guard (not (precedes started checkpoint)) value_error
  c ← gets (new_cycle started)
  insert_cycle c
  pure (inr c.id)

abbrev pub read_created : SyncCycle ⊎ ℕ → Action Archive SyncCycle
read_created (inl c) = pure c
read_created (inr cycle_id) = do
  row ← query (λ t. find (cycle_is cycle_id) t.sync_cycles)
  or_raise row runtime_error

unfoldable pub begin_cycle : Timestamp → Action Archive SyncCycle
begin_cycle started_at = do
  started ← iso started_at
  created ← transaction (do row ← gets active_row; create_cycle started row)
  read_created created

abbrev pub resume_or_begin : Timestamp → Option SyncCycle → Action Archive SyncCycle
resume_or_begin started_at (some c) = pure c
resume_or_begin started_at none = begin_cycle started_at

-- `start_cycle`.
unfoldable pub start_cycle : Timestamp → Action Archive SyncCycle
start_cycle started_at = do row ← query active_row; resume_or_begin started_at row

-- `UPDATE sync_cycles SET … WHERE id = ?`.
abbrev pub set_cycle : ℕ → (SyncCycle → SyncCycle) → Tables → Tables
set_cycle cycle_id f t = record t { sync_cycles = update (cycle_is cycle_id) f t.sync_cycles }

abbrev pub count_requests : ℕ → SyncCycle → SyncCycle
count_requests n c = record c { request_count = c.request_count + n }

abbrev pub active_cycle_is : ℕ → SyncCycle → Bool
active_cycle_is cycle_id c = c.id == cycle_id && is_active c.status

-- The `UPDATE` of `add_requests`, if it finds its row.
abbrev pub requests_added : ℕ → ℕ → Tables → Option Tables
requests_added cycle_id n t =
    if any (active_cycle_is cycle_id) t.sync_cycles
    then some (record t {
      sync_cycles = update (active_cycle_is cycle_id) (count_requests n) t.sync_cycles;
    })
    else none

-- `add_requests`; a count is never negative here.
unfoldable pub add_requests : ℕ → ℕ → Action Archive (Unit {0})
add_requests cycle_id n = do
  updated ← query (requests_added cycle_id n)
  autocommit updated runtime_error

abbrev pub pending_in : ℕ → SyncTask → Bool
pending_in cycle_id task = task.cycle_id == cycle_id && is_none task.completed_at

-- `ON CONFLICT(key) DO UPDATE … WHERE archive_meta.value <= excluded.value`.
abbrev pub advance_checkpoint : ℕ → Option ℕ → Option ℕ
advance_checkpoint started none = some started
advance_checkpoint started (some old) = if leb old started then some started else some old

abbrev pub close_cycle : ℕ → SyncCycle → SyncCycle
close_cycle completed c = record c { completed_at = some completed; status = Status.finished }

-- The branch of `complete_cycle` for a row that is not complete.
unfoldable pub close_active : ℕ → ℕ → SyncCycle → Action Tables (Unit {0})
close_active cycle_id completed row = do
  guard row.discovery_complete runtime_error
  pending ← gets (λ t. count (pending_in cycle_id) t.sync_tasks)
  guard (pending == 0) runtime_error
  guard (leb row.started_at completed) value_error
  modify (set_cycle cycle_id (close_cycle completed))
  modify (λ t. record t {
    discovery_checkpoint = advance_checkpoint row.started_at t.discovery_checkpoint;
  })

abbrev pub complete_row : ℕ → ℕ → Option SyncCycle → Action Tables (Option SyncCycle)
complete_row cycle_id completed none = lift (raise runtime_error)
complete_row cycle_id completed (some row) =
    if is_active row.status
    then (do close_active cycle_id completed row; pure none)
    else pure (some row)

abbrev pub read_completed : ℕ → Option SyncCycle → Action Archive SyncCycle
read_completed cycle_id (some row) = pure row
read_completed cycle_id none = do
  row ← query (λ t. find (cycle_is cycle_id) t.sync_cycles)
  or_raise row runtime_error

-- `complete_cycle`.
unfoldable pub complete_cycle : ℕ → Timestamp → Action Archive SyncCycle
complete_cycle cycle_id completed_at = do
  completed ← iso completed_at
  already ← transaction (do
    row ← gets (λ t. find (cycle_is cycle_id) t.sync_cycles)
    complete_row cycle_id completed row)
  read_completed cycle_id already
