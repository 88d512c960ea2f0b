-- ===== src/Archive/Discovery/Cursor.antt =====
-- The cursor that a saved page leaves is the one that discovery resumes at.
use gh_puller.Archive.Action.{
  Action, Error, Result, each, modify, ok, or_raise, query, raise, runtime_error, steps,
  transaction, ◌>>=◌, ◌>>◌,
}
use gh_puller.Archive.After.{OnOk-after}
use gh_puller.Archive.Cycles.{active_cycle_row, cycle_is, set_cycle}
use gh_puller.Archive.Discovery.{
  begin_discovery, put_item, resume_discovery, save_discovery_page, save_page, turn_page,
}
use gh_puller.Archive.Fixed.{
  Fixed-each, Fixed-guard, Fixed-prepare_discovery_item, Fixed-prepare_task, GoesOn, GoesOn-bind,
}
use gh_puller.Archive.Json.{Fields}
use gh_puller.Archive.Keeps.{
  Keeps, Keeps-bind, Keeps-each, Keeps-gets, Keeps-modify, Keeps-then, OnOk, keeping,
  put_encoded_blob_keeps,
}
use gh_puller.Archive.Model.{
  Archive, DiscoveryItemDraft, SyncCycle, SyncTask, Tables, TaskDraft, is_active,
}
use gh_puller.Archive.Prepare.{
  PreparedItem, PreparedTask, prepare_discovery_item, prepare_task, put_encoded_blob,
}
use gh_puller.Archive.Tasks.{insert_task, put_task, reuse_or_insert, task_keyed}
use gh_puller.Base.{
  Bool-cases, Found, List, Option, Option-cases, String, ap, arith, false, find, find-update_self,
  inl, inr, is_none, length, nat_instance, none, option_instance, refl, some, subst, sym,
  text_instance, true, ℕ, ◌&&◌, ◌==◌, ◌∙◌, ◌≡◌,
}

-- The cycle is active, its discovery has begun, and `next` is what it requests next.
abbrev AtCursor : Option String → SyncCycle → Type 0
AtCursor next row =
    (is_active row.status ≡ true)
    × (row.discovery_started ≡ true)
    × (row.discovery_complete ≡ is_none next)
    × (row.discovery_cursor ≡ next)

abbrev SameCycles : List SyncCycle → Tables → Type 0
SameCycles cs t = t.sync_cycles ≡ cs

put_blob-SameCycles :
    (cs : List SyncCycle) (d : String) (raw : Fields)
    → Keeps (SameCycles cs) (modify (put_encoded_blob d raw))
put_blob-SameCycles cs d raw =
    Keeps-modify (put_encoded_blob d raw)
      (put_encoded_blob_keeps (SameCycles cs) (λ t b h. h) d raw)

put_item-SameCycles :
    (cs : List SyncCycle) (c : ℕ) (p : PreparedItem) → Keeps (SameCycles cs) (put_item c p)
unfolding put_item
put_item-SameCycles cs c p =
    Keeps-then (put_blob-SameCycles cs p.summary_digest p.item.summary) (Keeps-modify _ (λ t h. h))

put_task-SameCycles :
    (cs : List SyncCycle) (c : ℕ) (p : PreparedTask) → Keeps (SameCycles cs) (put_task c p)
unfolding put_task insert_task
put_task-SameCycles cs c p = Keeps-then (put_blob-SameCycles cs p.input_digest p.task.payload) (
    Keeps-bind (Keeps-gets (λ t. find (task_keyed c p.task.task_key) t.sync_tasks))
      (λ found. reuse found))
  where
    reuse :
        (o : Option SyncTask) → Keeps (SameCycles cs) (reuse_or_insert c p.task p.input_digest o)
    reuse none = search (keeping, Keeps-modify)
    reuse (some row) = search keeping

-- The page's rows, then the last `UPDATE`.
page_turned :
    (c : ℕ) (next : Option String) (page : List PreparedItem) (prepared : List PreparedTask)
    (t : Tables) (row : SyncCycle)
    → find (cycle_is c) t.sync_cycles ≡ some row
    → is_active row.status ≡ true
    → row.discovery_started ≡ true
    → OnOk
        (λ _ u. Found (AtCursor next) (cycle_is c) u.sync_cycles)
        ((each (put_item c) page
            >> (each (put_task c) prepared >> modify (set_cycle c (turn_page next (length page)))))
          t)
unfolding ◌>>◌ modify
page_turned c next page prepared t row found active started =
    OnOk-after R _ (Keeps-each (put_item c) page (put_item-SameCycles t.sync_cycles c)) refl
      (λ _ u same.
        OnOk-after R _ (Keeps-each (put_task c) prepared (put_task-SameCycles t.sync_cycles c)) same
          (λ _ w here. (
            turn_page next (length page) row,
            find-update_self (cycle_is c) (turn_page next (length page)) w.sync_cycles {r = row}
                (λ x. refl) (ap (find (cycle_is c)) here ∙ found),
            (active, started, refl, refl),
          )))
  where
    R : Unit {0} → Tables → Type 0
    R _ u = Found (AtCursor next) (cycle_is c) u.sync_cycles

save_page-AtCursor :
    (c : ℕ) (cursor : String) (next : Option String) (page : List PreparedItem)
    (prepared : List PreparedTask) (t : Tables)
    → OnOk
        (λ _ u. Found (AtCursor next) (cycle_is c) u.sync_cycles)
        (save_page c cursor next page prepared t)
unfolding save_page active_cycle_row steps
save_page-AtCursor c cursor next page prepared t =
    elim (Option-cases (find (cycle_is c) t.sync_cycles)) [
      | inl e ↦ simp e tt
      | inr (row, e) ↦ elim (Bool-cases (is_active row.status)) [
        | inr i ↦ simp (e, i) tt
        | inl i ↦ elim (Bool-cases (row.discovery_started && row.discovery_cursor == some cursor)) [
          | inr j ↦ simp (e, i, j) tt
          | inl j ↦ simp (e, i, j) (page_turned c next page prepared t row e i (ground arith))
        ]
      ]
    ]

-- Discovery of a cycle at a cursor resumes there.
begin_discovery-AtCursor :
    (c : ℕ) (initial : String) (next : Option String) (s : Archive)
    → (initial == "") ≡ false
    → s.in_transaction ≡ false
    → Found (AtCursor next) (cycle_is c) s.tables.sync_cycles
    → begin_discovery c initial s ≡ (ok next, s)
unfolding begin_discovery resume_discovery active_cycle_row steps
begin_discovery-AtCursor c initial none s named idle
      (row, found, (active, started, complete, cursor)) =
    rw (named, idle, found, active, complete)
      (ap (λ b. (ok none, record { tables = s.tables; in_transaction = b })) idle)
begin_discovery-AtCursor c initial (some x) s named idle
      (row, found, (active, started, complete, cursor)) =
    rw (named, idle, found, active, complete, started, cursor)
      (ap (λ b. (ok (some x), record { tables = s.tables; in_transaction = b })) idle)

module _ (digest : Fields → String) where
  -- What `save_discovery_page` does once its arguments pass the checks that read no state.
  abbrev page_checked :
      ℕ → String → Option String → List PreparedItem × List PreparedTask → Action Archive SyncCycle
  page_checked c cursor next (page, prepared) =
      transaction (save_page c cursor next page prepared)
      >> (query (λ t. find (cycle_is c) t.sync_cycles) >>= λ row. or_raise row runtime_error)

  save_discovery_page-GoesOn :
      (c : ℕ) (cursor : String) (next : Option String) (items : List DiscoveryItemDraft)
      (tasks : List TaskDraft)
      → GoesOn (page_checked c cursor next) (save_discovery_page digest c cursor next items tasks)
  unfolding save_discovery_page ◌>>◌
  save_discovery_page-GoesOn c cursor next items tasks =
      GoesOn-bind (page_checked c cursor next) _ _ (Fixed-guard _ _) (λ _.
        GoesOn-bind (page_checked c cursor next) _ _ (Fixed-guard _ _) (λ _.
          GoesOn-bind (page_checked c cursor next) _ _
            (Fixed-each (prepare_discovery_item digest) items (Fixed-prepare_discovery_item digest))
            (λ page.
              GoesOn-bind (page_checked c cursor next) _ _
                (Fixed-each (prepare_task digest) tasks (Fixed-prepare_task digest))
                (λ prepared. inr ((page, prepared), λ s. refl)))))

  page_checked-begin_discovery :
      (c : ℕ) (cursor initial : String) (next : Option String)
      (x : List PreparedItem × List PreparedTask) (s s' : Archive) (row : SyncCycle)
      → (initial == "") ≡ false
      → page_checked c cursor next x s ≡ (ok row, s')
      → begin_discovery c initial s' ≡ (ok next, s')
  unfolding steps
  page_checked-begin_discovery c cursor initial next (page, prepared) s s' row named q =
      elim (Bool-cases s.in_transaction) [
        | inl e ↦
            let no : page_checked c cursor next (page, prepared) s
                ≡ (raise Error.operational_error, s) =
              rw e refl in
            absurd (cc)
        | inr e ↦
            go (save_page c cursor next page prepared s.tables) refl
              (save_page-AtCursor c cursor next page prepared s.tables) e
      ]
    where
      go :
          (r : Result (Unit {0}) × Tables)
          → save_page c cursor next page prepared s.tables ≡ r
          → OnOk (λ _ u. Found (AtCursor next) (cycle_is c) u.sync_cycles) r
          → s.in_transaction ≡ false
          → begin_discovery c initial s' ≡ (ok next, s')
      go (raise er, u) out h e =
          let no : page_checked c cursor next (page, prepared) s ≡ (raise er, s) =
            rw (e, out) refl in
          absurd (cc)
      go (ok a, u) out h e =
          let saved : page_checked c cursor next (page, prepared) s
              ≡ (ok h.0, record s { tables = u }) =
            rw (e, out, h.1) refl in
          let same : record s { tables = u } ≡ s' = ap (λ x. x.1) (sym saved ∙ q) in
          subst (λ x. begin_discovery c initial x ≡ (ok next, x)) same
            (begin_discovery-AtCursor c initial next (record s { tables = u }) named e h)

  -- After a page is saved, discovery resumes at the cursor that the page named, or is complete
  -- where it named none, whatever initial cursor the caller brings.
  pub save_discovery_page-begin_discovery :
      (c : ℕ) (cursor initial : String) (next : Option String) (items : List DiscoveryItemDraft)
      (tasks : List TaskDraft) (s s' : Archive) (row : SyncCycle)
      → (initial == "") ≡ false
      → save_discovery_page digest c cursor next items tasks s ≡ (ok row, s')
      → begin_discovery c initial s' ≡ (ok next, s')
  save_discovery_page-begin_discovery c cursor initial next items tasks s s' row named q =
      elim (save_discovery_page-GoesOn c cursor next items tasks) [
        | inl (e, h) ↦ let no = h s in absurd (cc)
        | inr (x, h) ↦
            page_checked-begin_discovery c cursor initial next x s s' row named (sym (h s) ∙ q)
      ]
