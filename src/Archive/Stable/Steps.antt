-- ===== src/Archive/Stable/Steps.antt =====
-- The steps inside the transactions keep a steady property.
use gh_puller.Archive.Action.{Action, modify, steps, ◌>>=◌}
use gh_puller.Archive.After.{OnOk-mono}
use gh_puller.Archive.Cycles.{active_cycle_row, count_requests, cycle_is, set_cycle}
use gh_puller.Archive.Discovery.{put_item, start_at, turn_page}
use gh_puller.Archive.Json.{Fields}
use gh_puller.Archive.Keeps.{
  Keeps, Keeps-bind, Keeps-gets, Keeps-modify, Keeps-then, keeping, put_encoded_blob_keeps,
}
use gh_puller.Archive.Model.{SyncCycle, SyncTask, Tables, is_active}
use gh_puller.Archive.Prepare.{PreparedFact, PreparedItem, PreparedTask, put_encoded_blob}
use gh_puller.Archive.Publish.{finish_published, put_payload}
use gh_puller.Archive.Stable.{CycleStep, IsRunning, Steady, TaskStep}
use gh_puller.Archive.Tasks.{
  attempt, attempt_all, fail_with, finish_task, insert_task, put_task, reuse_or_insert, set_task,
  task_keyed,
}
use gh_puller.Base.{
  Bool, Bool-cases, Found-update, List, Option, Option-cases, String, [], ap, find, inl, inr,
  nat_instance, none, option_instance, refl, some, text_instance, true, update, ℕ, ◌==◌, ◌∙◌, ◌∷◌,
  ◌≡◌,
}

pub finish_task-TaskStep : (n : ℕ) → TaskStep (finish_task n)
finish_task-TaskStep n = record {
  same_id = λ r. refl;
  same_cycle = λ r. refl;
  stays_done = λ r h. refl;
}

pub attempt-TaskStep : TaskStep attempt
attempt-TaskStep = record { same_id = λ r. refl; same_cycle = λ r. refl; stays_done = λ r h. h }

pub fail_with-TaskStep : (error : String) → TaskStep (fail_with error)
fail_with-TaskStep error = record {
  same_id = λ r. refl;
  same_cycle = λ r. refl;
  stays_done = λ r h. h;
}

pub count_requests-CycleStep : (n : ℕ) → CycleStep (count_requests n)
count_requests-CycleStep n = record { same_id = λ c. refl; same_status = λ c. refl }

pub start_at-CycleStep : (cursor : String) → CycleStep (start_at cursor)
start_at-CycleStep cursor = record { same_id = λ c. refl; same_status = λ c. refl }

pub turn_page-CycleStep : (next : Option String) (n : ℕ) → CycleStep (turn_page next n)
turn_page-CycleStep next n = record { same_id = λ c. refl; same_status = λ c. refl }

-- A running cycle runs on through an `UPDATE` that closes none.
pub IsRunning-update :
    (i : ℕ) (p : SyncCycle → Bool) (f : SyncCycle → SyncCycle) (t : Tables)
    → CycleStep f
    → IsRunning i t
    → IsRunning i (record t { sync_cycles = update p f t.sync_cycles })
IsRunning-update i p f t k h =
    Found-update (λ c. is_active c.status ≡ true) (cycle_is i) p f t.sync_cycles
      (λ c. ap (λ n. n == i) (k.same_id c)) (λ c e. ap is_active (k.same_status c) ∙ e) h

pub Steady-IsRunning : (P : Tables → Type 0) (c : ℕ) → Steady P → Steady (λ t. P t × IsRunning c t)
Steady-IsRunning P c k = record {
  blobs = λ t b h. (k.blobs t b h.0, h.1);
  signals = λ t ss h. (k.signals t ss h.0, h.1);
  items = λ t is h. (k.items t is h.0, h.1);
  cycle_changed = λ t p f st h. (k.cycle_changed t p f st h.0, IsRunning-update c p f t st h.1);
  task_added = λ t row run new h. (k.task_added t row run new h.0, h.1);
  task_changed = λ t p f st h. (k.task_changed t p f st h.0, h.1);
}

module _ {P : Tables → Type 0} (k : Steady P) where
  pub put_blob-Steady : (d : String) (raw : Fields) → Keeps P (modify (put_encoded_blob d raw))
  put_blob-Steady d raw =
      Keeps-modify (put_encoded_blob d raw) (put_encoded_blob_keeps P k.blobs d raw)

  pub put_item-Steady : (c : ℕ) (p : PreparedItem) → Keeps P (put_item c p)
  unfolding put_item
  put_item-Steady c p =
      Keeps-then (put_blob-Steady p.summary_digest p.item.summary)
        (Keeps-modify _ (λ t h. k.items t _ h))

  pub set_cycle-Steady :
      (c : ℕ) (f : SyncCycle → SyncCycle) → CycleStep f → Keeps P (modify (set_cycle c f))
  set_cycle-Steady c f st = Keeps-modify _ (λ t h. k.cycle_changed t _ f st h)

  pub put_payload-Steady : (p : PreparedFact) → Keeps P (put_payload p)
  unfolding put_payload
  put_payload-Steady p = put_blob-Steady p.payload_digest p.fact.payload

  pub finish-Steady : (task_id : Option ℕ) (n : ℕ) → Keeps P (modify (finish_published task_id n))
  finish-Steady none n = Keeps-modify _ (λ t h. h)
  finish-Steady (some task_id) n =
      Keeps-modify _ (λ t h. k.task_changed t _ (finish_task n) (finish_task-TaskStep n) h)

  pub attempts-Steady : (rows : List SyncTask) (t : Tables) → P t → P (attempt_all rows t)
  unfolding attempt_all
  attempts-Steady [] t h = h
  attempts-Steady (row ∷ rows) t h =
      attempts-Steady rows (set_task row.id attempt t)
        (k.task_changed t _ attempt attempt-TaskStep h)

  -- A task is put into a cycle that runs.
  pub put_task-Steady :
      (c : ℕ) (p : PreparedTask) → ((t : Tables) → P t → IsRunning c t) → Keeps P (put_task c p)
  unfolding put_task insert_task steps
  put_task-Steady c p running = Keeps-then (put_blob-Steady p.input_digest p.task.payload) (
      Keeps-bind (Keeps-gets (λ t. find (task_keyed c p.task.task_key) t.sync_tasks))
        (λ found. reuse found))
    where
      added : Keeps P (reuse_or_insert c p.task p.input_digest none)
      added = record { at = λ t h. k.task_added t _ (running t h) refl h }

      reuse : (o : Option SyncTask) → Keeps P (reuse_or_insert c p.task p.input_digest o)
      reuse none = added
      reuse (some row) = search keeping

-- What follows a successful `_active_cycle_row` may rely on the cycle running.
pub while_running :
    {A : Type 0} {P : Tables → Type 0} (c : ℕ) (f : SyncCycle → Action Tables A)
    → ((row : SyncCycle) → Keeps (λ t. P t × IsRunning c t) (f row))
    → Keeps P (active_cycle_row c >>= f)
unfolding active_cycle_row steps
while_running {P = P} c f k = record {
  at = λ t h. elim (Option-cases (find (cycle_is c) t.sync_cycles)) [
    | inl e ↦ simp e tt
    | inr (row, e) ↦ elim (Bool-cases (is_active row.status)) [
      | inl i ↦ simp (e, i) (OnOk-mono (f row t) (λ u q. q.0) ((k row).at t (h, (row, e, i))))
      | inr i ↦ simp (e, i) tt
    ]
  ];
}
