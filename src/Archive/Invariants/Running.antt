-- ===== src/Archive/Invariants/Running.antt =====
-- At most one cycle is active, and every pending task belongs to it.
use gh_puller.Archive.Action.{steps}
use gh_puller.Archive.Calls.{Reachable, Reachable-induction}
use gh_puller.Archive.Cycles.{
  close_active, close_cycle, cycle_active, cycle_is, pending_in, set_cycle,
}
use gh_puller.Archive.Json.{Fields}
use gh_puller.Archive.Keeps.{Keeps}
use gh_puller.Archive.Model.{Archive, SyncCycle, SyncTask, Tables, is_active}
use gh_puller.Archive.Stable.{FactSteps, IsRunning, Stable, Steady}
use gh_puller.Archive.Stable.Every.{perform-Stable}
use gh_puller.Archive.Stable.Published.{publish_new-free}
use gh_puller.Archive.Stable.Steps.{IsRunning-update}
use gh_puller.Base.{
  All, All-append, All-both, All-mono, All-of_count_zero, All-update, Bool-cases, Found,
  Found-append, List, String, [], any, ap, arith, count, count-append, count-update-le,
  count-update_same, count_of_find-none, false, find, find-none_of_any, find-update_ne, inl, inr,
  is_none, leb, nat_instance, option_instance, refl, subst, sym, text_instance, true, update, ℕ,
  ◌++◌, ◌==◌, ◌∙◌, ◌∷◌, ◌≡◌, ◌≤◌,
}

-- Every task that is not completed belongs to an active cycle, and at most one cycle is active.
pub record OneRunning (t : Tables) : Type 0 where
  pub at_most_one : count cycle_active t.sync_cycles ≤ 1
  pub pending : All (λ row. is_none row.completed_at ≡ true → IsRunning row.cycle_id t) t.sync_tasks

-- The same with the rows apart.
abbrev PendingRuns : List SyncCycle → SyncTask → Type 0
PendingRuns cycles row =
    is_none row.completed_at ≡ true
    → Found (λ c. is_active c.status ≡ true) (cycle_is row.cycle_id) cycles

running-Steady : Steady OneRunning
running-Steady = record {
  blobs = λ t b h. record { at_most_one = h.at_most_one; pending = h.pending };
  signals = λ t ss h. record { at_most_one = h.at_most_one; pending = h.pending };
  items = λ t is h. record { at_most_one = h.at_most_one; pending = h.pending };
  cycle_changed = λ t p f st h. record {
    at_most_one =
        subst (λ n. n ≤ 1)
          (sym (
            count-update_same cycle_active p f t.sync_cycles
              (λ c. ap is_active (st.same_status c))))
          h.at_most_one;
    pending =
        All-mono (PendingRuns t.sync_cycles) (PendingRuns (update p f t.sync_cycles)) t.sync_tasks
          (λ row run e. IsRunning-update row.cycle_id p f t st (run e)) h.pending;
  };
  task_added = λ t row run new h. record {
    at_most_one = h.at_most_one;
    pending =
        All-append (PendingRuns t.sync_cycles) t.sync_tasks (row ∷ []) h.pending ((λ e. run), tt);
  };
  task_changed = λ t p f st h. record {
    at_most_one = h.at_most_one;
    pending =
        All-update (PendingRuns t.sync_cycles) p f t.sync_tasks
          (λ row hit run e. elim (Bool-cases (is_none row.completed_at)) [
            | inl i ↦
                subst (λ n. Found (λ c. is_active c.status ≡ true) (cycle_is n) t.sync_cycles)
                  (sym (st.same_cycle row)) (run i)
            | inr i ↦ let no = st.stays_done row i in absurd (cc)
          ])
          h.pending;
  };
}

running-FactSteps : FactSteps OneRunning
running-FactSteps = record {
  batch = λ t b h. record { at_most_one = h.at_most_one; pending = h.pending };
  observation = λ t row h. record { at_most_one = h.at_most_one; pending = h.pending };
  index = λ t rows h. record { at_most_one = h.at_most_one; pending = h.pending };
  heads = λ t hs h. record { at_most_one = h.at_most_one; pending = h.pending };
}

running-added :
    (t : Tables) (c : SyncCycle)
    → any cycle_active t.sync_cycles ≡ false
    → OneRunning t
    → OneRunning (record t { sync_cycles = t.sync_cycles ++ c ∷ [] })
running-added t c e h = record {
  at_most_one =
      let no =
        count_of_find-none cycle_active t.sync_cycles
          (find-none_of_any cycle_active t.sync_cycles e) in
      let sum = count-append cycle_active t.sync_cycles (c ∷ []) in ground arith;
  pending =
      All-mono (PendingRuns t.sync_cycles) (PendingRuns (t.sync_cycles ++ c ∷ [])) t.sync_tasks
        (λ row run i.
          Found-append (λ x. is_active x.status ≡ true) (cycle_is row.cycle_id) t.sync_cycles
            (c ∷ []) (run i))
        h.pending;
}

-- A cycle without a pending task may close.
running-close :
    (t : Tables) (c n : ℕ)
    → count (pending_in c) t.sync_tasks ≡ 0
    → OneRunning t
    → OneRunning (set_cycle c (close_cycle n) t)
running-close t c n none_pending h = record {
  at_most_one =
      let fewer =
        count-update-le cycle_active (cycle_is c) (close_cycle n) t.sync_cycles (λ x e. refl) in
      omega (arith, fewer, h.at_most_one);
  pending =
      All-mono (λ row. PendingRuns t.sync_cycles row × (pending_in c row ≡ false))
        (PendingRuns (update (cycle_is c) (close_cycle n) t.sync_cycles)) t.sync_tasks
        (λ row q i. let (r, e, a) = q.0 i in (r, other row r i q.1 ∙ e, a))
        (All-both (PendingRuns t.sync_cycles) (λ row. pending_in c row ≡ false) t.sync_tasks
          h.pending (All-of_count_zero (pending_in c) t.sync_tasks none_pending));
}
  where
    other :
        (row : SyncTask) (r : SyncCycle)
        → is_none row.completed_at ≡ true
        → pending_in c row ≡ false
        → find (cycle_is row.cycle_id) (update (cycle_is c) (close_cycle n) t.sync_cycles)
          ≡ find (cycle_is row.cycle_id) t.sync_cycles
    other row r i apart =
        find-update_ne (cycle_is row.cycle_id) (cycle_is c) (close_cycle n) t.sync_cycles
          (λ x. refl) (λ x e. ground arith)

cycle_closed-OneRunning : (c n : ℕ) (row : SyncCycle) → Keeps OneRunning (close_active c n row)
unfolding close_active steps
cycle_closed-OneRunning c n row = record {
  at = λ t h. elim (Bool-cases row.discovery_complete) [
    | inr e ↦ simp e tt
    | inl e ↦ elim (Bool-cases (count (pending_in c) t.sync_tasks == 0)) [
      | inr i ↦ simp (e, i) tt
      | inl i ↦ elim (Bool-cases (leb row.started_at n)) [
        | inr j ↦ simp (e, i, j) tt
        | inl j ↦
            let closed = running-close t c n (ground arith) h in
            simp (e, i, j) (record { at_most_one = closed.at_most_one; pending = closed.pending })
      ]
    ]
  ];
}

running-Stable : Stable OneRunning
running-Stable = record {
  steady = running-Steady;
  cycle_added = running-added;
  cycle_closed = cycle_closed-OneRunning;
  maintenance = λ t js ts h. record { at_most_one = h.at_most_one; pending = h.pending };
  published = publish_new-free running-Steady running-FactSteps;
}

-- In every archive that calls reach from a new one, at most one cycle is active, and every task
-- that is not completed belongs to an active cycle.
pub Reachable-OneRunning :
    (digest : Fields → String) {s : Archive} → Reachable digest s → OneRunning s.tables
Reachable-OneRunning digest r =
    Reachable-induction digest OneRunning (record { at_most_one = omega arith; pending = tt })
      (perform-Stable running-Stable digest) r
