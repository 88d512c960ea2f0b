-- ===== src/Archive/Examples.antt =====
-- Small archives on which the theorems of the archive are used.
use gh_puller.Archive.Action.{ok, operational_error, raise, runtime_error, steps, transaction}
use gh_puller.Archive.Atomic.{Atomic}
use gh_puller.Archive.Atomic.Transactions.{transactional_calls-Atomic}
use gh_puller.Archive.Attempts.{take_maintenance_tasks}
use gh_puller.Archive.Calls.{Call, Reachable, empty, empty_tables, perform}
use gh_puller.Archive.Cycles.{
  active_cycle_row, begin_cycle, close_active, complete_cycle, insert_cycle, start_cycle,
}
use gh_puller.Archive.Discovery.{
  begin_discovery, record_discovery_signals, resume_discovery, save_discovery_page, save_page,
}
use gh_puller.Archive.Facts.{
  Publication, advance_head, current_fact, index_references, insert_fact, insert_facts,
  verify_existing_batch,
}
use gh_puller.Archive.Facts.Heads.{Newest}
use gh_puller.Archive.Invariants.Batches.{publish-repeats}
use gh_puller.Archive.Invariants.CurrentFact.{current_fact-Newest}
use gh_puller.Archive.Invariants.History.{AppendOnly, perform-AppendOnly}
use gh_puller.Archive.Invariants.Running.{OneRunning, Reachable-OneRunning}
use gh_puller.Archive.Invariants.Settled.{Settled, perform-Settled}
use gh_puller.Archive.Json.{Fields}
use gh_puller.Archive.Lookups.{Answers, latest_complete_fact, latest_complete_fact-Answers}
use gh_puller.Archive.Model.{
  Archive, Coverage, FactBatch, FactDraft, FactObservation, Origin, Status, SyncCycle, TaskDraft,
  Timestamp, aware,
}
use gh_puller.Archive.Prepare.{
  blob_exists, fact_versions, is_digest, prepare_discovery_item, prepare_fact, prepare_task,
  put_encoded_blob,
}
use gh_puller.Archive.Publish.{
  check_facts, check_publication, check_source, insert_batch, publish, publish_new,
  publish_prepared, put_payload,
}
use gh_puller.Archive.Tasks.{enqueue_tasks, record_task_error, take_tasks}
use gh_puller.Base.{List, Option, String, [], ap, false, none, refl, some, subst, true, ℕ, ◌∷◌, ◌≡◌}

abbrev d : Fields → String
d payload = "d"

abbrev issue_draft : FactDraft
issue_draft = record {
  family = "issue";
  subject_key = "1";
  observed_from = aware 10;
  observed_until = aware 20;
  coverage = Coverage.complete;
  origin = Origin.api;
  payload = Fields.end;
  resource_number = some 1;
  source_digest = none;
  schema_version = 1;
}

abbrev issue_publication : Publication
issue_publication = record {
  publication_key = "k";
  kind = "import";
  published_at = aware 30;
  facts = issue_draft ∷ [];
  cycle_id = none;
  task_id = none;
  maintenance_task_id = none;
}

abbrev issue_row : FactObservation
issue_row = record {
  id = 1;
  batch_id = 1;
  ordinal = 0;
  family = "issue";
  schema_version = 1;
  subject_key = "1";
  resource_number = some 1;
  source_digest = none;
  origin = Origin.api;
  observed_from = 10;
  observed_until = 20;
  coverage = Coverage.complete;
  payload_digest = "d";
}

abbrev issue_batch : FactBatch
issue_batch = record {
  id = 1;
  publication_key = "k";
  kind = "import";
  cycle_id = none;
  task_id = none;
  maintenance_task_id = none;
  published_at = 30;
  fact_count = 1;
}

abbrev issue_archive : Archive
issue_archive = record {
  in_transaction = false;
  tables = record empty_tables {
    payload_blobs = (record { digest = "d"; payload = Fields.end }) ∷ [];
    fact_batches = issue_batch ∷ [];
    fact_observations = issue_row ∷ [];
    fact_heads = (record { family = "issue"; subject_key = "1"; observation_id = 1 }) ∷ [];
  };
}

issue_published : publish d issue_publication empty ≡ (ok (issue_row ∷ []), issue_archive)
unfolding publish check_publication check_facts prepare_fact fact_versions is_digest
    publish_prepared publish_new put_payload check_source put_encoded_blob blob_exists insert_batch
    insert_facts insert_fact index_references advance_head active_cycle_row verify_existing_batch
    steps
issue_published = refl

-- The archive after the publication is reached by it.
issue_archive-Reachable : Reachable d issue_archive
unfolding perform
issue_archive-Reachable =
    subst (Reachable d) (ap (λ x. x.1) issue_published)
      (Reachable.called Reachable.opened (Call.publish issue_publication))

current_fact-Newest_example :
    (c : Option FactObservation) × (current_fact "issue" "1" issue_archive ≡ (ok c, issue_archive))
    × Newest "issue" "1" issue_archive.tables.fact_observations c
current_fact-Newest_example = current_fact-Newest d "issue" "1" issue_archive-Reachable

publish-repeats_example :
    publish d issue_publication issue_archive ≡ (ok (issue_row ∷ []), issue_archive)
publish-repeats_example =
    publish-repeats d issue_publication issue_archive (issue_row ∷ []) Reachable.opened
      issue_published

perform-AppendOnly_example :
    AppendOnly issue_archive.tables
      (perform d (Call.publish issue_publication) issue_archive).tables
perform-AppendOnly_example = perform-AppendOnly d (Call.publish issue_publication) issue_archive

perform-Settled_example :
    Settled issue_archive.tables (perform d (Call.start_cycle (aware 40)) issue_archive).tables
perform-Settled_example = perform-Settled d (Call.start_cycle (aware 40)) issue_archive

Reachable-OneRunning_example : OneRunning issue_archive.tables
Reachable-OneRunning_example = Reachable-OneRunning d issue_archive-Reachable

transactional_calls-Atomic_example :
    ((p : Publication) → Atomic (publish d p))
    × ((c : ℕ) (tasks : List TaskDraft) → Atomic (enqueue_tasks d c tasks))
    × ((c n : ℕ) (kinds : Option (List String)) → Atomic (take_tasks c n kinds))
    × ((c : ℕ) (cursor : String) → Atomic (begin_discovery c cursor))
    × ((c : ℕ) (issues pulls : List ℕ) → Atomic (record_discovery_signals c issues pulls))
    × ((j n : ℕ) (at : Timestamp) (kind : Option String)
        → Atomic (take_maintenance_tasks j n at kind))
transactional_calls-Atomic_example = transactional_calls-Atomic d

abbrev cycle_calls : List Call
cycle_calls =
    Call.start_cycle (aware 40)
    ∷ Call.begin_discovery 1 "first"
    ∷ Call.save_discovery_page 1 "first" none [] []
    ∷ Call.complete_cycle 1 (aware 50)
    ∷ []

perform_all : List Call → Archive → Archive
perform_all [] s = s
perform_all (c ∷ cs) s = perform_all cs (perform d c s)

perform_all-Reachable :
    (cs : List Call) (s : Archive) → Reachable d s → Reachable d (perform_all cs s)
unfolding perform_all
perform_all-Reachable [] s r = r
perform_all-Reachable (c ∷ cs) s r = perform_all-Reachable cs (perform d c s) (Reachable.called r c)

abbrev closed_cycle : SyncCycle
closed_cycle = record {
  id = 1;
  started_at = 40;
  checkpoint_from = none;
  completed_at = some 50;
  status = Status.finished;
  discovery_started = true;
  discovery_cursor = none;
  discovery_complete = true;
  discovery_pages = 1;
  discovered_items = 0;
  request_count = 0;
}

abbrev closed_archive : Archive
closed_archive = record {
  in_transaction = false;
  tables = record empty_tables { discovery_checkpoint = some 40; sync_cycles = closed_cycle ∷ [] };
}

cycle_ran : perform_all cycle_calls empty ≡ closed_archive
unfolding perform_all perform start_cycle begin_cycle insert_cycle begin_discovery resume_discovery
    save_discovery_page save_page prepare_task prepare_discovery_item complete_cycle close_active
    active_cycle_row steps
cycle_ran = refl

latest_complete_fact-Answers_example :
    (c : Option FactObservation) × (latest_complete_fact "issue" "1" issue_archive
      ≡ (ok c, issue_archive))
    × Answers "issue" "1" issue_archive.tables.fact_observations c
latest_complete_fact-Answers_example = latest_complete_fact-Answers "issue" "1" issue_archive

-- A refused error of a task leaves the transaction of its `UPDATE` open, which refuses the next one.
abbrev left_open : Archive
left_open = record issue_archive { in_transaction = true }

refused_error : record_task_error 7 "boom" issue_archive ≡ (raise runtime_error, left_open)
unfolding record_task_error steps
refused_error = refl

refused_begin :
    transaction (publish_prepared issue_publication 30 []) left_open
    ≡ (raise operational_error, left_open)
unfolding steps
refused_begin = refl
