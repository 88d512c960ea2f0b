-- ===== src/Archive/Tasks.antt =====
-- The sync tasks of `ObservationArchive` in gh_puller/github/observations.py: enqueueing,
-- claiming, errors and completion without a fact.
use gh_puller.Archive.Action.{
  Action, autocommit, each, gets, guard, iso, modify, or_raise, pure, query, runtime_error,
  transaction, value_error, ◌>>=◌, ◌>>◌,
}
use gh_puller.Archive.Cycles.{active_cycle_row, cycle_is}
use gh_puller.Archive.Json.{Fields}
use gh_puller.Archive.Model.{Archive, SyncCycle, SyncTask, Tables, TaskDraft, Timestamp, is_active}
use gh_puller.Archive.Prepare.{PreparedTask, prepare_task, put_encoded_blob}
use gh_puller.Base.{
  Bool, List, Option, String, [], all, any, false, find, if◌then◌else◌, is_none, leb, nat_instance,
  next_id, none, not, option_instance, select, some, take, text_instance, true, update, ℕ, ◌&&◌,
  ◌++◌, ◌+◌, ◌==◌, ◌∷◌,
}

abbrev pub task_is : ℕ → SyncTask → Bool
task_is task_id task = task.id == task_id

abbrev pub task_keyed : ℕ → String → SyncTask → Bool
task_keyed cycle_id task_key task = task.cycle_id == cycle_id && task.task_key == task_key

-- `stored == definition` in `_insert_task`.
abbrev pub same_definition : SyncTask → TaskDraft → String → Bool
same_definition row task input_digest =
    row.kind == task.kind
    && row.subject_key == task.subject_key
    && row.resource_number == task.resource_number
    && row.input_digest == input_digest

abbrev pub new_task : ℕ → TaskDraft → String → Tables → SyncTask
new_task cycle_id task input_digest t = record {
  id = next_id (λ row. row.id) t.sync_tasks;
  cycle_id = cycle_id;
  task_key = task.task_key;
  kind = task.kind;
  subject_key = task.subject_key;
  resource_number = task.resource_number;
  input_digest = input_digest;
  completed_at = none;
  attempts = 0;
  last_error = none;
}

abbrev pub reuse_or_insert : ℕ → TaskDraft → String → Option SyncTask → Action Tables SyncTask
reuse_or_insert cycle_id task input_digest (some row) = do
  guard (same_definition row task input_digest) value_error
  pure row
reuse_or_insert cycle_id task input_digest none = do
  row ← gets (new_task cycle_id task input_digest)
  modify (λ t. record t { sync_tasks = t.sync_tasks ++ row ∷ [] })
  pure row

-- `_insert_task`.
unfoldable pub insert_task : ℕ → TaskDraft → String → Action Tables SyncTask
insert_task cycle_id task input_digest = do
  found ← gets (λ t. find (task_keyed cycle_id task.task_key) t.sync_tasks)
  reuse_or_insert cycle_id task input_digest found

-- One round of the loop of `enqueue_tasks` and `save_discovery_page`.
unfoldable pub put_task : ℕ → PreparedTask → Action Tables SyncTask
put_task cycle_id p = do
  modify (put_encoded_blob p.input_digest p.task.payload)
  insert_task cycle_id p.task p.input_digest

module _ (digest : Fields → String) where
  -- `enqueue_tasks`.
  unfoldable pub enqueue_tasks : ℕ → List TaskDraft → Action Archive (List SyncTask)
  enqueue_tasks cycle_id tasks = do
    prepared ← each (prepare_task digest) tasks
    transaction (do active_cycle_row cycle_id; each (put_task cycle_id) prepared)

abbrev pub is_done : Option SyncTask → Bool
is_done none = false
is_done (some row) = not (is_none row.completed_at)

-- `task_completed`.
unfoldable pub task_completed : ℕ → String → Action Archive Bool
task_completed cycle_id task_key =
    query (λ t. is_done (find (task_keyed cycle_id task_key) t.sync_tasks))

abbrev pub in_kinds : Option (List String) → SyncTask → Bool
in_kinds none task = true
in_kinds (some kinds) task = any (λ kind. task.kind == kind) kinds

abbrev pub claimable : ℕ → Option (List String) → SyncTask → Bool
claimable cycle_id kinds task =
    task.cycle_id == cycle_id && is_none task.completed_at && in_kinds kinds task

abbrev pub kinds_valid : Option (List String) → Bool
kinds_valid none = true
kinds_valid (some []) = false
kinds_valid (some (kind ∷ kinds)) = all (λ k. not (k == "")) (kind ∷ kinds)

-- `UPDATE sync_tasks SET … WHERE id = ?`.
abbrev pub set_task : ℕ → (SyncTask → SyncTask) → Tables → Tables
set_task task_id f t = record t { sync_tasks = update (task_is task_id) f t.sync_tasks }

abbrev pub attempt : SyncTask → SyncTask
attempt task = record task { attempts = task.attempts + 1 }

-- The `executemany` of `take_tasks`.
unfoldable pub attempt_all : List SyncTask → Tables → Tables
attempt_all [] t = t
attempt_all (row ∷ rows) t = attempt_all rows (set_task row.id attempt t)

unfoldable pub reread : SyncTask → Action Tables SyncTask
reread row = do found ← gets (λ t. find (task_is row.id) t.sync_tasks); or_raise found runtime_error

-- `take_tasks`.
unfoldable pub take_tasks : ℕ → ℕ → Option (List String) → Action Archive (List SyncTask)
take_tasks cycle_id limit kinds = do
  guard (leb 1 limit) value_error
  guard (kinds_valid kinds) value_error
  transaction (do
    active_cycle_row cycle_id
    rows ← gets (λ t. take limit (select (claimable cycle_id kinds) t.sync_tasks))
    modify (attempt_all rows)
    each reread rows)

abbrev pub pending_is : ℕ → SyncTask → Bool
pending_is task_id task = task.id == task_id && is_none task.completed_at

abbrev pub fail_with : String → SyncTask → SyncTask
fail_with error task = record task { last_error = some error }

-- The `UPDATE` of `record_task_error`, if it finds its row.
abbrev pub error_recorded : ℕ → String → Tables → Option Tables
error_recorded task_id error t =
    if any (pending_is task_id) t.sync_tasks
    then some (record t { sync_tasks = update (pending_is task_id) (fail_with error) t.sync_tasks })
    else none

-- `record_task_error`.
unfoldable pub record_task_error : ℕ → String → Action Archive (Unit {0})
record_task_error task_id error = do
  guard (not (error == "")) value_error
  updated ← query (error_recorded task_id error)
  autocommit updated runtime_error

abbrev pub finish_task : ℕ → SyncTask → SyncTask
finish_task completed task = record task { completed_at = some completed; last_error = none }

-- `_active_cycle_row` outside a transaction.
abbrev pub is_active_row : Option SyncCycle → Bool
is_active_row none = false
is_active_row (some c) = is_active c.status

abbrev pub completed_by : ℕ → ℕ → Tables → Option Tables
completed_by task_id completed t = some (set_task task_id (finish_task completed) t)

-- The branch of `complete_task` for a pending task: `_active_cycle_row`, then the `UPDATE`.
unfoldable pub complete_pending : ℕ → ℕ → SyncTask → Action Archive SyncTask
complete_pending task_id completed row = do
  cycle ← query (λ t. find (cycle_is row.cycle_id) t.sync_cycles)
  guard (is_active_row cycle) runtime_error
  (do updated ← query (completed_by task_id completed); autocommit updated runtime_error)
  again ← query (λ t. find (task_is task_id) t.sync_tasks)
  or_raise again runtime_error

abbrev pub complete_found : ℕ → ℕ → SyncTask → Action Archive SyncTask
complete_found task_id completed row =
    if is_none row.completed_at then complete_pending task_id completed row else pure row

-- `complete_task`.
unfoldable pub complete_task : ℕ → Timestamp → Action Archive SyncTask
complete_task task_id completed_at = do
  completed ← iso completed_at
  found ← query (λ t. find (task_is task_id) t.sync_tasks)
  row ← or_raise found runtime_error
  complete_found task_id completed row
