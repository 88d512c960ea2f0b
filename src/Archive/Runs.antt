-- ===== src/Archive/Runs.antt =====
-- One small sync cycle, step by step, on which the theorems about cycles are used.
use gh_puller.Archive.Action.{ok, steps}
use gh_puller.Archive.Calls.{Call, Reachable, empty, empty_tables, perform}
use gh_puller.Archive.Cycles.{
  active_cycle_row, begin_cycle, close_active, complete_cycle, insert_cycle, start_cycle,
}
use gh_puller.Archive.Cycles.Closing.{complete_cycle-complete_cycle}
use gh_puller.Archive.Discovery.{begin_discovery, save_discovery_page, save_page}
use gh_puller.Archive.Discovery.Cursor.{save_discovery_page-begin_discovery}
use gh_puller.Archive.Invariants.OneBatch.{Reachable-BatchesDone}
use gh_puller.Archive.Json.{Fields}
use gh_puller.Archive.Model.{Archive, Status, SyncCycle, SyncTask, TaskDraft, aware, is_active}
use gh_puller.Archive.Prepare.{prepare_discovery_item, prepare_task, put_encoded_blob}
use gh_puller.Archive.Publish.{shares_task}
use gh_puller.Archive.Tasks.{enqueue_tasks, insert_task, put_task}
use gh_puller.Base.{String, [], any, false, none, refl, some, subst, true, ◌∷◌, ◌≡◌}

abbrev begun_cycle : SyncCycle
begun_cycle = record {
  id = 1;
  started_at = 40;
  checkpoint_from = none;
  completed_at = none;
  status = Status.active;
  discovery_started = true;
  discovery_cursor = some "first";
  discovery_complete = false;
  discovery_pages = 0;
  discovered_items = 0;
  request_count = 0;
}

abbrev of_cycle : SyncCycle → Archive
of_cycle c = record {
  in_transaction = false;
  tables = record empty_tables { sync_cycles = c ∷ [] };
}

abbrev saved_cycle : SyncCycle
saved_cycle = record begun_cycle { discovery_cursor = some "second"; discovery_pages = 1 }

abbrev no_digest : Fields → String
no_digest payload = "d"

page_saved :
    save_discovery_page no_digest 1 "first" (some "second") [] [] (of_cycle begun_cycle)
    ≡ (ok saved_cycle, of_cycle saved_cycle)
unfolding save_discovery_page save_page prepare_task prepare_discovery_item active_cycle_row steps
page_saved = refl

save_discovery_page-begin_discovery_example :
    begin_discovery 1 "first" (of_cycle saved_cycle) ≡ (ok (some "second"), of_cycle saved_cycle)
save_discovery_page-begin_discovery_example =
    save_discovery_page-begin_discovery no_digest 1 "first" "first" (some "second") [] []
      (of_cycle begun_cycle) (of_cycle saved_cycle) saved_cycle refl page_saved

abbrev last_cycle : SyncCycle
last_cycle = record begun_cycle { discovery_cursor = none; discovery_complete = true }

abbrev ended_cycle : SyncCycle
ended_cycle = record last_cycle { completed_at = some 50; status = Status.finished }

abbrev ended : Archive
ended = record {
  in_transaction = false;
  tables = record empty_tables { discovery_checkpoint = some 40; sync_cycles = ended_cycle ∷ [] };
}

cycle_completed : complete_cycle 1 (aware 50) (of_cycle last_cycle) ≡ (ok ended_cycle, ended)
unfolding complete_cycle close_active steps
cycle_completed = refl

complete_cycle-complete_cycle_example :
    (is_active ended_cycle.status ≡ false)
    × (complete_cycle 1 (aware 60) ended ≡ (ok ended_cycle, ended))
complete_cycle-complete_cycle_example =
    complete_cycle-complete_cycle 1 60 (aware 50) (of_cycle last_cycle) ended ended_cycle
      cycle_completed

abbrev draft : TaskDraft
draft = record {
  task_key = "issue:1";
  kind = "issue";
  subject_key = "1";
  payload = Fields.end;
  resource_number = some 1;
}

abbrev new_cycle_row : SyncCycle
new_cycle_row = record begun_cycle { discovery_started = false; discovery_cursor = none }

abbrev pending_task : SyncTask
pending_task = record {
  id = 1;
  cycle_id = 1;
  task_key = "issue:1";
  kind = "issue";
  subject_key = "1";
  resource_number = some 1;
  input_digest = "d";
  completed_at = none;
  attempts = 0;
  last_error = none;
}

abbrev enqueued : Archive
enqueued = record {
  in_transaction = false;
  tables = record empty_tables {
    payload_blobs = (record { digest = "d"; payload = Fields.end }) ∷ [];
    sync_cycles = new_cycle_row ∷ [];
    sync_tasks = pending_task ∷ [];
  };
}

task_enqueued :
    perform no_digest
      (Call.enqueue_tasks 1 (draft ∷ []))
      (perform no_digest (Call.start_cycle (aware 40)) empty)
    ≡ enqueued
unfolding perform start_cycle begin_cycle insert_cycle enqueue_tasks prepare_task put_task
    insert_task put_encoded_blob active_cycle_row steps
task_enqueued = refl

Reachable-BatchesDone_example : any (shares_task (some 1)) enqueued.tables.fact_batches ≡ false
Reachable-BatchesDone_example =
    Reachable-BatchesDone no_digest pending_task
      (subst (Reachable no_digest) task_enqueued (
        Reachable.called (Reachable.called Reachable.opened (Call.start_cycle (aware 40)))
          (Call.enqueue_tasks 1 (draft ∷ []))))
      refl refl
