-- ===== src/Archive/Attempts.antt =====
-- The tasks of a maintenance job in gh_puller/github/observations.py: their attempts, their
-- outcomes, and the end of the job with the last of them.
use gh_puller.Archive.Action.{
  Action, Error, autocommit, each, gets, guard, iso, modify, ok, or_raise, query, raise,
  runtime_error, transaction, value_error, ◌>>=◌, ◌>>◌,
}
use gh_puller.Archive.Maintenance.{active_maintenance_job_row, in_job, job_is, job_task_is}
use gh_puller.Archive.Model.{
  coverage_instance, Archive, Coverage, MaintenanceJob, MaintenanceTask, Status, Tables, Timestamp,
  is_active,
}
use gh_puller.Base.{
  Bool, List, Option, String, [], any, count, false, find, if◌then◌else◌, is_none, leb,
  nat_instance, none, not, option_instance, select, some, take, text_instance, true, update, ℕ,
  ◌&&◌, ◌+◌, ◌==◌, ◌∷◌,
}

abbrev pub kind_matches : Option String → MaintenanceTask → Bool
kind_matches none task = true
kind_matches (some kind) task = task.kind == kind

abbrev pub job_claimable : ℕ → Option String → MaintenanceTask → Bool
job_claimable job_id kind task =
    task.job_id == job_id && is_none task.completed_at && kind_matches kind task

abbrev pub job_attempt : ℕ → MaintenanceTask → MaintenanceTask
job_attempt started task = record task {
  attempts = task.attempts + 1;
  last_attempt_from = some started;
  last_attempt_until = none;
  last_error = none;
}

abbrev pub set_job_task : ℕ → (MaintenanceTask → MaintenanceTask) → Tables → Tables
set_job_task task_id f t = record t {
  maintenance_tasks = update (job_task_is task_id) f t.maintenance_tasks;
}

unfoldable pub attempt_job_tasks : ℕ → List MaintenanceTask → Tables → Tables
attempt_job_tasks started [] t = t
attempt_job_tasks started (row ∷ rows) t =
    attempt_job_tasks started rows (set_job_task row.id (job_attempt started) t)

unfoldable pub reread_job_task : MaintenanceTask → Action Tables MaintenanceTask
reread_job_task row = do
  found ← gets (λ t. find (job_task_is row.id) t.maintenance_tasks)
  or_raise found runtime_error

-- `take_maintenance_tasks`.
unfoldable pub take_maintenance_tasks :
    ℕ → ℕ → Timestamp → Option String → Action Archive (List MaintenanceTask)
take_maintenance_tasks job_id limit started_at kind = do
  guard (leb 1 limit) value_error
  started ← iso started_at
  transaction (do
    active_maintenance_job_row job_id
    rows ← gets (λ t. take limit (select (job_claimable job_id kind) t.maintenance_tasks))
    modify (attempt_job_tasks started rows)
    each reread_job_task rows)

abbrev pub began_by : ℕ → Option ℕ → Bool
began_by ended none = false
began_by ended (some started) = leb started ended

abbrev pub attempt_open : ℕ → ℕ → MaintenanceTask → Bool
attempt_open task_id ended task =
    task.id == task_id && is_none task.completed_at && began_by ended task.last_attempt_from

abbrev pub job_task_fails : ℕ → String → MaintenanceTask → MaintenanceTask
job_task_fails ended error task = record task {
  last_attempt_until = some ended;
  last_error = some error;
}

abbrev pub job_error_recorded : ℕ → ℕ → String → Tables → Option Tables
job_error_recorded task_id ended error t =
    if any (attempt_open task_id ended) t.maintenance_tasks
    then some (record t {
      maintenance_tasks =
          update (attempt_open task_id ended) (job_task_fails ended error) t.maintenance_tasks;
    })
    else none

-- The `UPDATE` of `record_maintenance_task_error` rolls back where it finds no row.
abbrev pub rolled_back : Option Tables → Error → Action Archive (Unit {0})
rolled_back none e s = (raise e, record s { in_transaction = false })
rolled_back (some t) e s = (ok tt, record { tables = t; in_transaction = false })

-- `record_maintenance_task_error`.
unfoldable pub record_maintenance_task_error : ℕ → Timestamp → String → Action Archive (Unit {0})
record_maintenance_task_error task_id observed_until error = do
  guard (not (error == "")) value_error
  ended ← iso observed_until
  updated ← query (job_error_recorded task_id ended error)
  rolled_back updated runtime_error

abbrev pub job_task_done : ℕ → Coverage → MaintenanceTask → MaintenanceTask
job_task_done completed outcome task = record task {
  completed_at = some completed;
  outcome = some outcome;
  last_attempt_until = some completed;
  last_error = none;
}

abbrev pub done_in_job : ℕ → MaintenanceTask → Bool
done_in_job job_id task = task.job_id == job_id && not (is_none task.completed_at)

abbrev pub job_progressed : ℕ → ℕ → ℕ → MaintenanceJob → MaintenanceJob
job_progressed total completed at j = record j {
  completed_tasks = completed;
  status = if completed == total then Status.finished else Status.active;
  completed_at = if completed == total then some at else none;
}

abbrev pub active_job_is : ℕ → MaintenanceJob → Bool
active_job_is job_id j = j.id == job_id && is_active j.status

-- `_advance_maintenance_job`.
unfoldable pub advance_maintenance_job : ℕ → ℕ → Tables → Tables
advance_maintenance_job job_id completed_at t = record t {
  maintenance_jobs =
      update (active_job_is job_id)
        (job_progressed (count (in_job job_id) t.maintenance_tasks)
          (count (done_in_job job_id) t.maintenance_tasks) completed_at)
        t.maintenance_jobs;
}

abbrev pub finish_job_task : ℕ → Coverage → MaintenanceTask → Action Tables (Unit {0})
finish_job_task completed outcome row =
    if is_none row.completed_at
    then (do
      active_maintenance_job_row row.job_id
      guard (began_by completed row.last_attempt_from) runtime_error
      modify (set_job_task row.id (job_task_done completed outcome))
      modify (advance_maintenance_job row.job_id completed))
    else guard (row.outcome == some outcome) runtime_error

-- `complete_maintenance_task`.
unfoldable pub complete_maintenance_task : ℕ → Timestamp → Coverage → Action Archive MaintenanceTask
complete_maintenance_task task_id completed_at outcome = do
  completed ← iso completed_at
  transaction (do
    found ← gets (λ t. find (job_task_is task_id) t.maintenance_tasks)
    row ← or_raise found runtime_error
    finish_job_task completed outcome row)
  current ← query (λ t. find (job_task_is task_id) t.maintenance_tasks)
  or_raise current runtime_error

abbrev pub job_requests : ℕ → MaintenanceJob → MaintenanceJob
job_requests n j = record j { request_count = j.request_count + n }

abbrev pub job_requests_added : ℕ → ℕ → Tables → Option Tables
job_requests_added job_id n t =
    if any (job_is job_id) t.maintenance_jobs
    then some
        (record t { maintenance_jobs = update (job_is job_id) (job_requests n) t.maintenance_jobs })
    else none

-- `add_maintenance_requests`; a count is never negative here.
unfoldable pub add_maintenance_requests : ℕ → ℕ → Action Archive (Unit {0})
add_maintenance_requests job_id n = do
  updated ← query (job_requests_added job_id n)
  autocommit updated runtime_error
