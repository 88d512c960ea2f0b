-- ===== src/Archive/Publish.antt =====
-- `ObservationArchive.publish` in gh_puller/github/observations.py.
pub mod Rows
pub mod Batch
pub mod Repeat
use gh_puller.Archive.Action.{
  Action, each, gets, guard, integrity_error, iso, modify, pure, query, runtime_error, transaction,
  value_error, ◌>>=◌, ◌>>◌,
}
use gh_puller.Archive.Cycles.{active_cycle_row}
use gh_puller.Archive.Facts.{
  Publication, batch_facts, batch_keyed, insert_facts, verify_existing_batch,
}
use gh_puller.Archive.Json.{Fields}
use gh_puller.Archive.Model.{
  Archive, FactBatch, FactObservation, MaintenanceJob, MaintenanceTask, SyncTask, Tables, is_active,
}
use gh_puller.Archive.Prepare.{PreparedFact, blob_exists, prepare_fact, put_encoded_blob}
use gh_puller.Archive.Tasks.{finish_task, set_task, task_is}
use gh_puller.Base.{
  Bool, List, Option, String, [], all, any, false, find, is_none, leb, length, nat_instance,
  next_id, none, not, option_instance, some, text_instance, true, ℕ, ◌&&◌, ◌++◌, ◌==◌, ◌||◌, ◌∷◌,
}

abbrev pub kind_valid : String → Bool
kind_valid kind = kind == "sync" || kind == "import" || kind == "refresh"

-- The checks of the arguments, in the order of the code.
unfoldable pub check_publication : {S : Type 0} → Publication → Action S (Unit {0})
check_publication p = do
  guard (not (p.publication_key == "")) value_error
  guard (kind_valid p.kind) value_error
  guard (is_none p.task_id || not (is_none p.cycle_id)) value_error
  guard (is_none p.task_id || is_none p.maintenance_task_id) value_error
  guard (is_none p.maintenance_task_id || is_none p.cycle_id) value_error
  guard (is_none p.maintenance_task_id || p.kind == "refresh") value_error

abbrev pub same_subject : PreparedFact → PreparedFact → Bool
same_subject p q = p.fact.family == q.fact.family && p.fact.subject_key == q.fact.subject_key

-- `len(identities) == len(set(identities))`.
abbrev pub distinct_subjects : List PreparedFact → Bool
distinct_subjects [] = true
distinct_subjects (p ∷ ps) = not (any (same_subject p) ps) && distinct_subjects ps

-- The checks of the prepared facts against the time of publication.
unfoldable pub check_facts : {S : Type 0} → ℕ → List PreparedFact → Action S (Unit {0})
check_facts published prepared = do
  guard (not (length prepared == 0)) value_error
  guard (distinct_subjects prepared) value_error
  guard (all (λ q. leb q.observed_until published) prepared) value_error

abbrev pub check_cycle : Option ℕ → Action Tables (Unit {0})
check_cycle none = pure tt
check_cycle (some cycle_id) = do active_cycle_row cycle_id; pure tt

abbrev pub task_pends : Option ℕ → Option SyncTask → Bool
task_pends cycle_id none = false
task_pends cycle_id (some task) = some task.cycle_id == cycle_id && is_none task.completed_at

abbrev pub check_task : Option ℕ → Option ℕ → Action Tables (Unit {0})
check_task cycle_id none = pure tt
check_task cycle_id (some task_id) = do
  found ← gets (λ t. find (task_is task_id) t.sync_tasks)
  guard (task_pends cycle_id found) runtime_error

abbrev pub job_active : Option MaintenanceJob → Bool
job_active none = false
job_active (some job) = is_active job.status

-- The join of `maintenance_tasks` with its job, and the test on it.
abbrev pub maintenance_pends : Option MaintenanceTask → Tables → Bool
maintenance_pends none t = false
maintenance_pends (some task) t =
    is_none task.completed_at && job_active (find (λ j. j.id == task.job_id) t.maintenance_jobs)

abbrev pub check_maintenance : Option ℕ → Action Tables (Unit {0})
check_maintenance none = pure tt
check_maintenance (some task_id) = do
  pends ← gets (λ t. maintenance_pends (find (λ task. task.id == task_id) t.maintenance_tasks) t)
  guard pends runtime_error

unfoldable pub put_payload : PreparedFact → Action Tables (Unit {0})
put_payload p = modify (put_encoded_blob p.payload_digest p.fact.payload)

abbrev pub source_known : Option String → Tables → Bool
source_known none t = true
source_known (some d) t = blob_exists d t

unfoldable pub check_source : PreparedFact → Action Tables (Unit {0})
check_source p = do known ← gets (source_known p.fact.source_digest); guard known value_error

abbrev pub batch_row : Publication → ℕ → ℕ → Tables → FactBatch
batch_row p published n t = record {
  id = next_id (λ b. b.id) t.fact_batches;
  publication_key = p.publication_key;
  kind = p.kind;
  cycle_id = p.cycle_id;
  task_id = p.task_id;
  maintenance_task_id = p.maintenance_task_id;
  published_at = published;
  fact_count = n;
}

abbrev pub shares_task : Option ℕ → FactBatch → Bool
shares_task none b = false
shares_task (some task_id) b = b.task_id == some task_id

-- The `INSERT INTO fact_batches`; the index `one_fact_batch_per_task` refuses a second batch of
-- one task.
unfoldable pub insert_batch : FactBatch → Action Tables (Unit {0})
insert_batch b = do
  batches ← gets (λ t. t.fact_batches)
  guard (not (any (shares_task b.task_id) batches)) integrity_error
  modify (λ t. record t { fact_batches = t.fact_batches ++ b ∷ [] })

abbrev pub finish_published : Option ℕ → ℕ → Tables → Tables
finish_published none published t = t
finish_published (some task_id) published t = set_task task_id (finish_task published) t

-- The branch of the transaction for a key that is new.
unfoldable pub publish_new : Publication → ℕ → List PreparedFact → Action Tables ℕ
publish_new p published prepared = do
  check_cycle p.cycle_id
  check_task p.cycle_id p.task_id
  check_maintenance p.maintenance_task_id
  each put_payload prepared
  each check_source prepared
  b ← gets (batch_row p published (length prepared))
  insert_batch b
  insert_facts b.id 0 prepared
  modify (finish_published p.task_id published)
  pure b.id

abbrev pub reuse_or_publish :
    Publication → ℕ → List PreparedFact → Option FactBatch → Action Tables ℕ
reuse_or_publish p published prepared (some b) = do verify_existing_batch b p prepared; pure b.id
reuse_or_publish p published prepared none = publish_new p published prepared

-- The body of the transaction of `publish`.
unfoldable pub publish_prepared : Publication → ℕ → List PreparedFact → Action Tables ℕ
publish_prepared p published prepared = do
  existing ← gets (λ t. find (batch_keyed p.publication_key) t.fact_batches)
  reuse_or_publish p published prepared existing

module _ (digest : Fields → String) where
  -- `publish`.
  unfoldable pub publish : Publication → Action Archive (List FactObservation)
  publish p = do
    check_publication p
    published ← iso p.published_at
    prepared ← each (prepare_fact digest) p.facts
    check_facts published prepared
    batch_id ← transaction (publish_prepared p published prepared)
    query (batch_facts batch_id)
