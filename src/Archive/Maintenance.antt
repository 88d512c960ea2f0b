-- ===== src/Archive/Maintenance.antt =====
-- The maintenance jobs of `ObservationArchive` in gh_puller/github/observations.py: an immutable
-- scope, its tasks, their attempts, and the completion of the job with its last task.
use gh_puller.Archive.Action.{
  Action, Error, each, gets, guard, iso, key_error, modify, or_raise, pure, query, runtime_error,
  transaction, value_error, ◌>>=◌, ◌>>◌,
}
use gh_puller.Archive.Json.{Fields}
use gh_puller.Archive.Model.{
  Archive, MaintenanceJob, MaintenanceTask, Status, Tables, TaskDraft, Timestamp, coverage_instance,
  is_active,
}
use gh_puller.Archive.Prepare.{PreparedTask, prepare_task, put_encoded_blob}
use gh_puller.Base.{
  Bool, List, Option, String, [], any, false, find, if◌then◌else◌, length, nat_instance, next_id,
  none, not, option_instance, precedes_text, select, some, text_instance, true, ℕ, ◌&&◌, ◌++◌, ◌==◌,
  ◌||◌, ◌∷◌,
}

abbrev pub job_is : ℕ → MaintenanceJob → Bool
job_is job_id j = j.id == job_id

abbrev pub job_keyed : String → MaintenanceJob → Bool
job_keyed job_key j = j.job_key == job_key

abbrev pub job_is_active : MaintenanceJob → Bool
job_is_active j = is_active j.status

abbrev pub job_task_is : ℕ → MaintenanceTask → Bool
job_task_is task_id task = task.id == task_id

abbrev pub in_job : ℕ → MaintenanceTask → Bool
in_job job_id task = task.job_id == job_id

-- `sorted(…, key=task_key)`: insertion into a sorted list, before its equals.
module _ {A : Type 0} (key : A → String) where
  abbrev pub insert_by : A → List A → List A
  insert_by a [] = a ∷ []
  insert_by a (b ∷ bs) =
      let rest = insert_by a bs in if precedes_text (key b) (key a) then b ∷ rest else a ∷ b ∷ bs

  abbrev pub sort_by : List A → List A
  sort_by [] = []
  sort_by (a ∷ as') = insert_by a (sort_by as')

abbrev pub distinct_keys : List PreparedTask → Bool
distinct_keys [] = true
distinct_keys (p ∷ ps) = not (any (λ q. q.task.task_key == p.task.task_key) ps) && distinct_keys ps

abbrev pub same_task : MaintenanceTask → PreparedTask → Bool
same_task row p =
    row.task_key == p.task.task_key
    && row.kind == p.task.kind
    && row.subject_key == p.task.subject_key
    && row.resource_number == p.task.resource_number
    && row.input_digest == p.input_digest

abbrev pub same_tasks : List MaintenanceTask → List PreparedTask → Bool
same_tasks [] [] = true
same_tasks [] (p ∷ ps) = false
same_tasks (row ∷ rows) [] = false
same_tasks (row ∷ rows) (p ∷ ps) = same_task row p && same_tasks rows ps

abbrev pub same_scope : MaintenanceJob → String → ℕ → String → ℕ → Bool
same_scope j kind requested scope_digest n =
    j.kind == kind
    && j.requested_at == requested
    && j.scope_digest == scope_digest
    && j.total_tasks == n

-- `_verify_maintenance_job`.
unfoldable pub verify_maintenance_job :
    MaintenanceJob → String → ℕ → String → List PreparedTask → Action Tables (Unit {0})
verify_maintenance_job j kind requested scope_digest prepared = do
  guard (same_scope j kind requested scope_digest (length prepared)) value_error
  rows ← gets (λ t. sort_by (λ row. row.task_key) (select (in_job j.id) t.maintenance_tasks))
  guard (same_tasks rows prepared) value_error

abbrev pub new_job : String → String → ℕ → String → ℕ → Tables → MaintenanceJob
new_job job_key kind requested scope_digest n t = record {
  id = next_id (λ j. j.id) t.maintenance_jobs;
  job_key = job_key;
  kind = kind;
  requested_at = requested;
  completed_at = if n == 0 then some requested else none;
  status = if n == 0 then Status.finished else Status.active;
  scope_digest = scope_digest;
  total_tasks = n;
  completed_tasks = 0;
  request_count = 0;
}

abbrev pub new_job_task : ℕ → PreparedTask → Tables → MaintenanceTask
new_job_task job_id p t = record {
  id = next_id (λ row. row.id) t.maintenance_tasks;
  job_id = job_id;
  task_key = p.task.task_key;
  kind = p.task.kind;
  subject_key = p.task.subject_key;
  resource_number = p.task.resource_number;
  input_digest = p.input_digest;
  completed_at = none;
  outcome = none;
  attempts = 0;
  last_attempt_from = none;
  last_attempt_until = none;
  last_error = none;
}

unfoldable pub insert_job_task : ℕ → PreparedTask → Action Tables (Unit {0})
insert_job_task job_id p = do
  modify (put_encoded_blob p.input_digest p.task.payload)
  modify (λ t. record t { maintenance_tasks = t.maintenance_tasks ++ new_job_task job_id p t ∷ [] })

-- The branch of `start_maintenance_job` for a key that is new.
unfoldable pub create_job :
    String → String → ℕ → Fields → String → List PreparedTask → Action Tables MaintenanceJob
create_job job_key kind requested scope scope_digest prepared = do
  active ← gets (λ t. any job_is_active t.maintenance_jobs)
  guard (not active) runtime_error
  modify (put_encoded_blob scope_digest scope)
  j ← gets (new_job job_key kind requested scope_digest (length prepared))
  modify (λ t. record t { maintenance_jobs = t.maintenance_jobs ++ j ∷ [] })
  each (insert_job_task j.id) prepared
  pure j

abbrev pub reuse_or_create :
    String
    → String
    → ℕ
    → Fields
    → String
    → List PreparedTask
    → Option MaintenanceJob
    → Action Tables MaintenanceJob
reuse_or_create job_key kind requested scope scope_digest prepared (some j) = do
  verify_maintenance_job j kind requested scope_digest prepared
  pure j
reuse_or_create job_key kind requested scope scope_digest prepared none =
    create_job job_key kind requested scope scope_digest prepared

abbrev pub read_job : ℕ → Error → Action Archive MaintenanceJob
read_job job_id e = do row ← query (λ t. find (job_is job_id) t.maintenance_jobs); or_raise row e

module _ (digest : Fields → String) where
  -- `start_maintenance_job`.
  unfoldable pub start_maintenance_job :
      String → String → Timestamp → Fields → List TaskDraft → Action Archive MaintenanceJob
  start_maintenance_job job_key kind requested_at scope tasks = do
    guard (not (job_key == "") && (kind == "backfill" || kind == "refresh")) value_error
    requested ← iso requested_at
    drafts ← each (prepare_task digest) tasks
    let prepared = sort_by (λ p. p.task.task_key) drafts
    guard (distinct_keys prepared) value_error
    j ← transaction (do
      existing ← gets (λ t. find (job_keyed job_key) t.maintenance_jobs)
      reuse_or_create job_key kind requested scope (digest scope) prepared existing)
    read_job j.id runtime_error

-- `active_maintenance_job`.
unfoldable pub active_maintenance_job : Action Archive (Option MaintenanceJob)
active_maintenance_job = query (λ t. find job_is_active t.maintenance_jobs)

-- `maintenance_job`.
unfoldable pub maintenance_job : ℕ → Action Archive MaintenanceJob
maintenance_job job_id = read_job job_id key_error

-- `maintenance_job_by_key`.
unfoldable pub maintenance_job_by_key : String → Action Archive (Option MaintenanceJob)
maintenance_job_by_key job_key = query (λ t. find (job_keyed job_key) t.maintenance_jobs)

-- `_active_maintenance_job_row`.
unfoldable pub active_maintenance_job_row : ℕ → Action Tables MaintenanceJob
active_maintenance_job_row job_id = do
  found ← gets (λ t. find (job_is job_id) t.maintenance_jobs)
  row ← or_raise found runtime_error
  guard (is_active row.status) runtime_error
  pure row
