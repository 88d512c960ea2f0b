-- ===== src/Archive/Stable/Every.antt =====
-- Each call of the archive keeps a stable property, whatever its outcome.
use gh_puller.Archive.Action.{autocommit, each, modify, query, runtime_error, steps, ◌>>=◌, ◌>>◌}
use gh_puller.Archive.Attempts.{
  add_maintenance_requests, advance_maintenance_job, attempt_job_tasks, complete_maintenance_task,
  job_attempt, job_error_recorded, record_maintenance_task_error, rolled_back, set_job_task,
  take_maintenance_tasks,
}
use gh_puller.Archive.Calls.{Call, perform}
use gh_puller.Archive.Cycles.{
  active_cycle_row, add_requests, begin_cycle, close_active, complete_cycle, complete_row,
  count_requests, create_cycle, cycle_active, insert_cycle, read_completed, read_created,
  resume_or_begin, set_cycle, start_cycle,
}
use gh_puller.Archive.Discovery.{
  begin_discovery, record_discovery_signals, resume_discovery, save_discovery_page, save_page,
  start_at, turn_page,
}
use gh_puller.Archive.Facts.{Publication}
use gh_puller.Archive.Json.{Fields}
use gh_puller.Archive.Keeps.{
  Keeps, Keeps-bind, Keeps-each, Keeps-gets, Keeps-if, Keeps-modify, Keeps-pure, Keeps-then,
  keeping,
}
use gh_puller.Archive.Leaves.{
  Leaves, Leaves-autocommit, Leaves-bind, Leaves-guard, Leaves-prepare_discovery_item,
  Leaves-prepare_fact, Leaves-prepare_task, Leaves-pure, Leaves-query, Leaves-rolled_back,
  Leaves-then, leaving,
}
use gh_puller.Archive.Maintenance.{
  create_job, insert_job_task, reuse_or_create, start_maintenance_job,
}
use gh_puller.Archive.Model.{
  Archive, Coverage, DiscoveryItemDraft, FactBatch, MaintenanceJob, MaintenanceTask, SyncCycle,
  Tables, TaskDraft, Timestamp,
}
use gh_puller.Archive.Prepare.{PreparedFact, PreparedItem, PreparedTask}
use gh_puller.Archive.Publish.{publish, publish_prepared, reuse_or_publish}
use gh_puller.Archive.Stable.{IsRunning, Stable, Steady}
use gh_puller.Archive.Stable.Steps.{
  Steady-IsRunning, attempts-Steady, count_requests-CycleStep, fail_with-TaskStep,
  finish_task-TaskStep, put_blob-Steady, put_item-Steady, put_task-Steady, set_cycle-Steady,
  start_at-CycleStep, turn_page-CycleStep, while_running,
}
use gh_puller.Archive.Tasks.{
  complete_pending, complete_task, completed_by, enqueue_tasks, fail_with, finish_task, put_task,
  record_task_error, take_tasks,
}
use gh_puller.Base.{
  Bool-cases, List, Option, String, [], any, inl, inr, none, of_if_some, some, true, ℕ, ◌∷◌, ◌⊎◌,
}

module _ {P : Tables → Type 0} (k : Stable P) (digest : Fields → String) where
  create_job-Stable :
      (key kind : String) (n : ℕ) (scope : Fields) (d : String) (ps : List PreparedTask)
      → Keeps P (create_job key kind n scope d ps)
  unfolding create_job insert_job_task
  create_job-Stable key kind n scope d ps =
      search (keeping, put_blob-Steady k.steady, Keeps-modify, k.maintenance) depth 12

  publish-Stable : (p : Publication) → Leaves P (publish digest p)
  unfolding publish publish_prepared
  publish-Stable p = search (leaving, Leaves-prepare_fact, body) depth 10
    where
      reuse :
          (n : ℕ) (ps : List PreparedFact) (o : Option FactBatch)
          → Keeps P (reuse_or_publish p n ps o)
      reuse n ps none = k.published p n ps
      reuse n ps (some b) = search keeping

      body : (n : ℕ) (ps : List PreparedFact) → Keeps P (publish_prepared p n ps)
      body n ps = Keeps-bind (Keeps-gets _) (λ o. reuse n ps o)

  insert_cycle-Stable : (c : SyncCycle) → Keeps P (insert_cycle c)
  unfolding insert_cycle steps
  insert_cycle-Stable c = record {
    at = λ t h. elim (Bool-cases (any cycle_active t.sync_cycles)) [
      | inl e ↦ simp e tt
      | inr e ↦ simp e (k.cycle_added t c e h)
    ];
  }

  start_cycle-Stable : (at : Timestamp) → Leaves P (start_cycle at)
  unfolding start_cycle begin_cycle
  start_cycle-Stable at = Leaves-bind (Leaves-query _) (λ o. resume o)
    where
      create : (n : ℕ) (o : Option SyncCycle) → Keeps P (create_cycle n o)
      create n none = search (keeping, insert_cycle-Stable) depth 8
      create n (some c) = Keeps-pure _

      created : (r : SyncCycle ⊎ ℕ) → Leaves P (read_created r)
      created (inl c) = Leaves-pure c
      created (inr i) = search leaving

      resume : (o : Option SyncCycle) → Leaves P (resume_or_begin at o)
      resume none = search (leaving, keeping, create, created) depth 8
      resume (some c) = Leaves-pure c

  complete_cycle-Stable : (c : ℕ) (at : Timestamp) → Leaves P (complete_cycle c at)
  unfolding complete_cycle
  complete_cycle-Stable c at = search (leaving, keeping, row, completed) depth 10
    where
      closed : (n : ℕ) (r : SyncCycle) → Keeps P (close_active c n r)
      closed n r = k.cycle_closed c n r

      row : (n : ℕ) (o : Option SyncCycle) → Keeps P (complete_row c n o)
      row n none = search keeping
      row n (some r) = search (keeping, closed) depth 10

      completed : (o : Option SyncCycle) → Leaves P (read_completed c o)
      completed none = search leaving
      completed (some r) = search leaving

  add_requests-Stable : (c n : ℕ) → Leaves P (add_requests c n)
  unfolding add_requests
  add_requests-Stable c n = Leaves-autocommit _ _ (λ t u h e.
      of_if_some P _ _ u e
        (k.steady.cycle_changed t _ (count_requests n) (count_requests-CycleStep n) h))

  signals-Stable : (c : ℕ) (is ps : List ℕ) → Leaves P (record_discovery_signals c is ps)
  unfolding record_discovery_signals
  signals-Stable c is ps = search (leaving, keeping, Keeps-modify, k.steady.signals) depth 8

  begin_discovery-Stable : (c : ℕ) (cursor : String) → Leaves P (begin_discovery c cursor)
  unfolding begin_discovery resume_discovery
  begin_discovery-Stable c cursor = search (leaving, keeping, body) depth 10
    where
      started : Keeps P (modify (set_cycle c (start_at cursor)))
      started = set_cycle-Steady k.steady c (start_at cursor) (start_at-CycleStep cursor)

      body : (row : SyncCycle) → Keeps P (resume_discovery c cursor row)
      body row = Keeps-if row.discovery_complete (Keeps-pure none) (
          Keeps-if row.discovery_started (Keeps-pure row.discovery_cursor)
            (Keeps-then started (Keeps-pure (some cursor))))

  -- The state while the cycle of a call runs.
  running : (c : ℕ) → Steady (λ t. P t × IsRunning c t)
  running c = Steady-IsRunning P c k.steady

  save_page-Stable :
      (c : ℕ) (cursor : String) (next : Option String) (items : List DiscoveryItemDraft)
      (tasks : List TaskDraft)
      → Leaves P (save_discovery_page digest c cursor next items tasks)
  unfolding save_discovery_page save_page
  save_page-Stable c cursor next items tasks =
      search (leaving, Leaves-prepare_task, Leaves-prepare_discovery_item, body) depth 12
    where
      turned : (n : ℕ) → Keeps (λ t. P t × IsRunning c t) (modify (set_cycle c (turn_page next n)))
      turned n = set_cycle-Steady (running c) c (turn_page next n) (turn_page-CycleStep next n)

      put : (p : PreparedTask) → Keeps (λ t. P t × IsRunning c t) (put_task c p)
      put p = put_task-Steady (running c) c p (λ t h. h.1)

      body :
          (page : List PreparedItem) (prepared : List PreparedTask)
          → Keeps P (save_page c cursor next page prepared)
      body page prepared =
          while_running c _
            (λ row. search (keeping, put_item-Steady (running c), put, turned) depth 10)

  enqueue-Stable : (c : ℕ) (tasks : List TaskDraft) → Leaves P (enqueue_tasks digest c tasks)
  unfolding enqueue_tasks ◌>>◌
  enqueue-Stable c tasks = search (leaving, Leaves-prepare_task, body) depth 8
    where
      put : (p : PreparedTask) → Keeps (λ t. P t × IsRunning c t) (put_task c p)
      put p = put_task-Steady (running c) c p (λ t h. h.1)

      body : (ps : List PreparedTask) → Keeps P (active_cycle_row c >> each (put_task c) ps)
      body ps = while_running c _ (λ row. Keeps-each (put_task c) ps put)

  take_tasks-Stable : (c n : ℕ) (kinds : Option (List String)) → Leaves P (take_tasks c n kinds)
  unfolding take_tasks
  take_tasks-Stable c n kinds =
      search (leaving, keeping, Keeps-modify, attempts-Steady k.steady) depth 10

  record_task_error-Stable : (i : ℕ) (error : String) → Leaves P (record_task_error i error)
  unfolding record_task_error
  record_task_error-Stable i error = Leaves-then (Leaves-guard _ _) (
      Leaves-autocommit _ _ (λ t u h e.
        of_if_some P _ _ u e
          (k.steady.task_changed t _ (fail_with error) (fail_with-TaskStep error) h)))

  complete_task-Stable : (i : ℕ) (at : Timestamp) → Leaves P (complete_task i at)
  unfolding complete_task complete_pending
  complete_task-Stable i at = search (leaving, completed) depth 10
    where
      completed : (n : ℕ) → Leaves P (query (completed_by i n) >>= λ u. autocommit u runtime_error)
      completed n = Leaves-autocommit _ _ (λ t u h e.
          of_if_some P true _ u e
            (k.steady.task_changed t _ (finish_task n) (finish_task-TaskStep n) h))

  start_job-Stable :
      (key kind : String) (at : Timestamp) (scope : Fields) (tasks : List TaskDraft)
      → Leaves P (start_maintenance_job digest key kind at scope tasks)
  unfolding start_maintenance_job
  start_job-Stable key kind at scope tasks =
      search (leaving, keeping, Leaves-prepare_task, reuse) depth 10
    where
      reuse :
          (n : ℕ) (d : String) (ps : List PreparedTask) (o : Option MaintenanceJob)
          → Keeps P (reuse_or_create key kind n scope d ps o)
      reuse n d ps none = create_job-Stable key kind n scope d ps
      reuse n d ps (some j) = search keeping

  job_attempts-Stable :
      (n : ℕ) (rows : List MaintenanceTask) (t : Tables) → P t → P (attempt_job_tasks n rows t)
  unfolding attempt_job_tasks
  job_attempts-Stable n [] t h = h
  job_attempts-Stable n (row ∷ rows) t h =
      job_attempts-Stable n rows (set_job_task row.id (job_attempt n) t) (k.maintenance t _ _ h)

  take_job_tasks-Stable :
      (j n : ℕ) (at : Timestamp) (kind : Option String)
      → Leaves P (take_maintenance_tasks j n at kind)
  unfolding take_maintenance_tasks
  take_job_tasks-Stable j n at kind =
      search (leaving, keeping, Keeps-modify, job_attempts-Stable) depth 10

  job_error-Stable :
      (i : ℕ) (at : Timestamp) (error : String)
      → Leaves P (record_maintenance_task_error i at error)
  unfolding record_maintenance_task_error
  job_error-Stable i at error = search (leaving, recorded)
    where
      recorded :
          (n : ℕ)
          → Leaves P (query (job_error_recorded i n error) >>= λ u. rolled_back u runtime_error)
      recorded n = Leaves-rolled_back _ _ (λ t u h e. of_if_some P _ _ u e (k.maintenance t _ _ h))

  complete_job_task-Stable :
      (i : ℕ) (at : Timestamp) (outcome : Coverage)
      → Leaves P (complete_maintenance_task i at outcome)
  unfolding complete_maintenance_task advance_maintenance_job
  complete_job_task-Stable i at outcome =
      search (leaving, keeping, Keeps-modify, k.maintenance) depth 12

  job_requests-Stable : (j n : ℕ) → Leaves P (add_maintenance_requests j n)
  unfolding add_maintenance_requests
  job_requests-Stable j n =
      Leaves-autocommit _ _ (λ t u h e. of_if_some P _ _ u e (k.maintenance t _ _ h))

  pub perform-Stable : (c : Call) (s : Archive) → P s.tables → P (perform digest c s).tables
  unfolding perform
  perform-Stable (Call.start_cycle at) = (start_cycle-Stable at).at
  perform-Stable (Call.add_requests c n) = (add_requests-Stable c n).at
  perform-Stable (Call.complete_cycle c at) = (complete_cycle-Stable c at).at
  perform-Stable (Call.record_discovery_signals c is ps) = (signals-Stable c is ps).at
  perform-Stable (Call.begin_discovery c cursor) = (begin_discovery-Stable c cursor).at
  perform-Stable (Call.save_discovery_page c cursor next items tasks) =
      (save_page-Stable c cursor next items tasks).at
  perform-Stable (Call.enqueue_tasks c tasks) = (enqueue-Stable c tasks).at
  perform-Stable (Call.take_tasks c n kinds) = (take_tasks-Stable c n kinds).at
  perform-Stable (Call.record_task_error i error) = (record_task_error-Stable i error).at
  perform-Stable (Call.complete_task i at) = (complete_task-Stable i at).at
  perform-Stable (Call.publish p) = (publish-Stable p).at
  perform-Stable (Call.start_maintenance_job key kind at scope tasks) =
      (start_job-Stable key kind at scope tasks).at
  perform-Stable (Call.take_maintenance_tasks j n at kind) = (take_job_tasks-Stable j n at kind).at
  perform-Stable (Call.record_maintenance_task_error i at error) = (job_error-Stable i at error).at
  perform-Stable (Call.complete_maintenance_task i at outcome) =
      (complete_job_task-Stable i at outcome).at
  perform-Stable (Call.add_maintenance_requests j n) = (job_requests-Stable j n).at
