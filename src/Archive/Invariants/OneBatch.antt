-- ===== src/Archive/Invariants/OneBatch.antt =====
-- A task with a published batch is completed, so no task gets a second batch.
use gh_puller.Archive.Action.{gets, modify, proceed, pure, steps, ◌>>=◌, ◌>>◌}
use gh_puller.Archive.After.{OnOk-after}
use gh_puller.Archive.Calls.{Reachable, Reachable-induction}
use gh_puller.Archive.Cycles.{advance_checkpoint, close_active, close_cycle, set_cycle}
use gh_puller.Archive.Facts.{Publication, insert_facts}
use gh_puller.Archive.Invariants.Settled.{Done}
use gh_puller.Archive.Json.{Fields}
use gh_puller.Archive.Keeps.{
  Keeps, Keeps-check_cycle, Keeps-check_maintenance, Keeps-check_source, Keeps-each, Keeps-modify,
  OnOk, OnOk-proceed, keeping,
}
use gh_puller.Archive.Model.{Archive, FactBatch, SyncCycle, SyncTask, Tables}
use gh_puller.Archive.Prepare.{PreparedFact}
use gh_puller.Archive.Publish.{
  batch_row, check_source, check_task, finish_published, insert_batch, publish_new, put_payload,
  shares_task, task_pends,
}
use gh_puller.Archive.Stable.{RowSteps, Stable, Steady}
use gh_puller.Archive.Stable.Every.{perform-Stable}
use gh_puller.Archive.Stable.Published.{insert_facts-free}
use gh_puller.Archive.Stable.Steps.{put_payload-Steady}
use gh_puller.Archive.Tasks.{finish_task, task_is}
use gh_puller.Base.{
  All, All-any, All-append, All-mono, Bool-cases, Found, Found-append, Found-update, List, Option,
  Option-cases, String, [], any, ap, false, find, find-update_self, inl, inr, is_none, length,
  nat_instance, none, option_beq_iff, option_instance, refl, some, some-injective, subst, sym,
  text_instance, true, update, ℕ, ◌++◌, ◌==◌, ◌↔◌, ◌∙◌, ◌∷◌, ◌≡◌, ◌⊎◌,
}

abbrev HasTask : ℕ → Tables → Type 0
HasTask i t = Found (λ row. row.id ≡ row.id) (task_is i) t.sync_tasks

abbrev IsDone : ℕ → Tables → Type 0
IsDone i t = Found Done (task_is i) t.sync_tasks

-- Every batch of a task has its task completed, the task `current` perhaps excepted, which is
-- there.
pub record BatchesDone (current : Option ℕ) (t : Tables) : Type 0 where
  pub done :
      All (λ b. (i : ℕ) → b.task_id ≡ some i → (current ≡ some i) ⊎ IsDone i t) t.fact_batches
  pub there : (i : ℕ) → current ≡ some i → HasTask i t

abbrev Settles : Option ℕ → List SyncTask → FactBatch → Type 0
Settles current tasks b =
    (i : ℕ) → b.task_id ≡ some i → (current ≡ some i) ⊎ Found Done (task_is i) tasks

module _ (current : Option ℕ) where
  done-Steady : Steady (BatchesDone current)
  done-Steady = record {
    blobs = λ t b h. record { done = h.done; there = h.there };
    signals = λ t ss h. record { done = h.done; there = h.there };
    items = λ t is h. record { done = h.done; there = h.there };
    cycle_changed = λ t p f st h. record { done = h.done; there = h.there };
    task_added = λ t row run new h. record {
      done =
          All-mono (Settles current t.sync_tasks) (Settles current (t.sync_tasks ++ row ∷ []))
            t.fact_batches
            (λ b k i e. elim (k i e) [
              | inl c ↦ inl c
              | inr d ↦ inr (Found-append Done (task_is i) t.sync_tasks (row ∷ []) d)
            ])
            h.done;
      there =
          λ i e. Found-append (λ x. x.id ≡ x.id) (task_is i) t.sync_tasks (row ∷ []) (h.there i e);
    };
    task_changed = λ t p f st h. record {
      done =
          All-mono (Settles current t.sync_tasks) (Settles current (update p f t.sync_tasks))
            t.fact_batches
            (λ b k i e. elim (k i e) [
              | inl c ↦ inl c
              | inr d ↦ inr (
                  Found-update Done (task_is i) p f t.sync_tasks
                    (λ x. ap (λ n. n == i) (st.same_id x)) st.stays_done d)
            ])
            h.done;
      there = λ i e.
          Found-update (λ x. x.id ≡ x.id) (task_is i) p f t.sync_tasks
            (λ x. ap (λ n. n == i) (st.same_id x)) (λ x q. refl) (h.there i e);
    };
  }

  done-RowSteps : RowSteps (BatchesDone current)
  done-RowSteps = record {
    observation = λ t row h. record { done = h.done; there = h.there };
    index = λ t rows h. record { done = h.done; there = h.there };
    heads = λ t hs h. record { done = h.done; there = h.there };
  }

  -- The batch of the current task.
  insert_batch-BatchesDone :
      (b : FactBatch) → b.task_id ≡ current → Keeps (BatchesDone current) (insert_batch b)
  unfolding insert_batch steps
  insert_batch-BatchesDone b same = record {
    at = λ t h. elim (Bool-cases (any (shares_task b.task_id) t.fact_batches)) [
      | inl e ↦ simp e tt
      | inr e ↦ simp e (record {
        done =
            All-append (Settles current t.sync_tasks) t.fact_batches (b ∷ []) h.done
              ((λ i q. inl (sym same ∙ q)), tt);
        there = h.there;
      })
    ];
  }

-- With its task finished, no batch is excepted.
finish-BatchesDone :
    (current : Option ℕ) (n : ℕ) (t : Tables)
    → BatchesDone current t
    → BatchesDone none (finish_published current n t)
finish-BatchesDone none n t h = record { done = h.done; there = h.there }
finish-BatchesDone (some j) n t h = record {
  done =
      All-mono (Settles (some j) t.sync_tasks)
        (Settles none (update (task_is j) (finish_task n) t.sync_tasks)) t.fact_batches
        (λ b k i e. elim (k i e) [
          | inl c ↦
              let same : j ≡ i = some-injective _ _ c in
              inr (
                subst
                  (λ m. Found Done (task_is m) (update (task_is j) (finish_task n) t.sync_tasks))
                  same (finished (h.there j refl)))
          | inr d ↦ inr (
              Found-update Done (task_is i) (task_is j) (finish_task n) t.sync_tasks (λ x. refl)
                (λ x q. refl) d)
        ])
        h.done;
  there = λ i e. absurd (cc);
}
  where
    finished :
        HasTask j t → Found Done (task_is j) (update (task_is j) (finish_task n) t.sync_tasks)
    finished (r, e, _) = (
      finish_task n r,
      find-update_self (task_is j) (finish_task n) t.sync_tasks {r = r} (λ x. refl) e,
      refl,
    )

check_task-BatchesDone :
    (c o : Option ℕ) (t : Tables)
    → BatchesDone none t
    → OnOk (λ _. BatchesDone o) (check_task c o t)
unfolding steps
check_task-BatchesDone c none t h = h
check_task-BatchesDone c (some j) t h = elim (Option-cases (find (task_is j) t.sync_tasks)) [
  | inl e ↦ simp e tt
  | inr (row, e) ↦ elim (Bool-cases (task_pends c (some row))) [
    | inr i ↦ simp (e, i) tt
    | inl i ↦
        simp (e, i)
          (record {
            done =
                All-mono (Settles none t.sync_tasks) (Settles (some j) t.sync_tasks) t.fact_batches
                  (λ b k m q. elim (k m q) [ inl never ↦ absurd (cc) | inr d ↦ inr d ]) h.done;
            there = λ m q.
                let same : j ≡ m = some-injective _ _ q in
                subst (λ x. HasTask x t) same (row, e, refl);
          })
  ]
]

-- The insertion of the batch and of its facts, and the completion of its task.
batch_inserted :
    (p : Publication) (n : ℕ) (ps : List PreparedFact) (t : Tables)
    → BatchesDone p.task_id t
    → OnOk
        (λ _. BatchesDone none)
        ((do
          b ← gets (batch_row p n (length ps))
          insert_batch b
          insert_facts b.id 0 ps
          modify (finish_published p.task_id n)
          pure b.id)
          t)
unfolding gets ◌>>=◌ ◌>>◌ proceed pure modify
batch_inserted p n ps t h =
    OnOk-after R _ (insert_batch-BatchesDone p.task_id (batch_row p n (length ps) t) refl) h
      (λ _ u k.
        OnOk-after R _
          (insert_facts-free (done-RowSteps p.task_id) (batch_row p n (length ps) t).id 0 ps) k
          (λ _ w l. finish-BatchesDone p.task_id n w l))
  where
    R : ℕ → Tables → Type 0
    R _ = BatchesDone none

publish_new-BatchesDone :
    (p : Publication) (n : ℕ) (ps : List PreparedFact)
    → Keeps (BatchesDone none) (publish_new p n ps)
unfolding publish_new ◌>>◌ ◌>>=◌
publish_new-BatchesDone p n ps = record {
  at = λ t h. OnOk-after R _ (Keeps-check_cycle p.cycle_id) h (λ _ t1 h1.
      OnOk-proceed (λ _. BatchesDone p.task_id) R (check_task p.cycle_id p.task_id t1) _
        (check_task-BatchesDone p.cycle_id p.task_id t1 h1)
        (λ _ t2 h2. OnOk-after R _ (Keeps-check_maintenance p.maintenance_task_id) h2 (λ _ t3 h3.
          OnOk-after R _ (Keeps-each put_payload ps (put_payload-Steady (done-Steady p.task_id))) h3
            (λ _ t4 h4.
              OnOk-after R _ (Keeps-each check_source ps Keeps-check_source) h4
                (λ _ t5 h5. batch_inserted p n ps t5 h5)))));
}
  where
    R : ℕ → Tables → Type 0
    R _ = BatchesDone none

closed-BatchesDone : (c n : ℕ) (row : SyncCycle) → Keeps (BatchesDone none) (close_active c n row)
unfolding close_active
closed-BatchesDone c n row = search (keeping, Keeps-modify, closes, checkpoints) depth 10
  where
    closes : (t : Tables) → BatchesDone none t → BatchesDone none (set_cycle c (close_cycle n) t)
    closes t h = record { done = h.done; there = h.there }

    checkpoints :
        (t : Tables)
        → BatchesDone none t
        → BatchesDone none (record t {
          discovery_checkpoint = advance_checkpoint row.started_at t.discovery_checkpoint;
        })
    checkpoints t h = record { done = h.done; there = h.there }

BatchesDone-Stable : Stable (BatchesDone none)
BatchesDone-Stable = record {
  steady = done-Steady none;
  cycle_added = λ t c e h. record { done = h.done; there = h.there };
  cycle_closed = closed-BatchesDone;
  maintenance = λ t js ts h. record { done = h.done; there = h.there };
  published = publish_new-BatchesDone;
}

-- In every archive that calls reach from a new one, a task that a batch names is completed: so a
-- pending task has no batch, and the index `one_fact_batch_per_task` refuses no publication that
-- passed the test of its task.
pub Reachable-BatchesDone :
    (digest : Fields → String) {s : Archive} (task : SyncTask)
    → Reachable digest s
    → find (task_is task.id) s.tables.sync_tasks ≡ some task
    → is_none task.completed_at ≡ true
    → any (shares_task (some task.id)) s.tables.fact_batches ≡ false
Reachable-BatchesDone digest {s} task r found pending =
    elim (Bool-cases (any (shares_task (some task.id)) s.tables.fact_batches)) [
      | inr e ↦ e
      | inl e ↦
          let inv =
            Reachable-induction digest (BatchesDone none)
              (record { done = tt; there = λ i q. absurd (cc) })
              (perform-Stable BatchesDone-Stable digest) r in
          let (b, k, i) =
            All-any (Settles none s.tables.sync_tasks) (shares_task (some task.id))
              s.tables.fact_batches inv.done e in
          absurd (second b k (option_beq_iff b.task_id (some task.id)) i)
    ]
  where
    second :
        (b : FactBatch)
        → Settles none s.tables.sync_tasks b
        → ((b.task_id == some task.id) ≡ true) ↔ (b.task_id ≡ some task.id)
        → (b.task_id == some task.id) ≡ true
        → ⊥
    second b k iff i = elim (k task.id (iff.0 i)) [
      | inl never ↦ absurd (cc)
      | inr (u, e, done) ↦
          let q : u ≡ task = some-injective _ _ (sym e ∙ found) in
          let not_done : is_none task.completed_at ≡ false =
            ap (λ x. is_none x.completed_at) (sym q) ∙ done in
          absurd (cc)
    ]
