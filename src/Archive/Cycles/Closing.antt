-- ===== src/Archive/Cycles/Closing.antt =====
-- What `complete_cycle` leaves behind, and its repetition.
use gh_puller.Archive.Action.{
  Action, Error, Result, gets, iso, lift, ok, proceed, pure, raise, steps, transaction, ◌>>=◌, ◌>>◌,
}
use gh_puller.Archive.Cycles.{
  close_active, close_cycle, complete_cycle, complete_row, cycle_is, pending_in, read_completed,
}
use gh_puller.Archive.Keeps.{OnOk, OnOk-proceed}
use gh_puller.Archive.Model.{Archive, SyncCycle, Tables, Timestamp, aware, is_active, naive}
use gh_puller.Base.{
  Bool-cases, Option, Option-cases, count, false, find, find-update_self, inl, inr, leb,
  nat_instance, none, option_instance, refl, some, subst, sym, text_instance, true, ℕ, ◌==◌, ◌∙◌,
  ◌≡◌, ◌⊎◌,
}

-- The cycle is closed, and is the row that was read, if one was.
abbrev ClosedAs : ℕ → Option SyncCycle → Tables → Type 0
ClosedAs c o t =
    (r : SyncCycle) × (find (cycle_is c) t.sync_cycles ≡ some r)
    × (is_active r.status ≡ false)
    × ((o ≡ none) ⊎ (o ≡ some r))

close_active-ClosedAs :
    (c n : ℕ) (row : SyncCycle) (t : Tables)
    → find (cycle_is c) t.sync_cycles ≡ some row
    → OnOk (λ _ u. ClosedAs c none u) (close_active c n row t)
unfolding close_active steps
close_active-ClosedAs c n row t found = elim (Bool-cases row.discovery_complete) [
  | inr e ↦ simp e tt
  | inl e ↦ elim (Bool-cases (count (pending_in c) t.sync_tasks == 0)) [
    | inr i ↦ simp (e, i) tt
    | inl i ↦ elim (Bool-cases (leb row.started_at n)) [
      | inr j ↦ simp (e, i, j) tt
      | inl j ↦
          simp (e, i, j)
            (
              close_cycle n row,
              find-update_self (cycle_is c) (close_cycle n) t.sync_cycles {r = row} (λ x. refl)
                  found,
              refl,
              inl refl,
            )
    ]
  ]
]

complete_row-ClosedAs :
    (c n : ℕ) (t : Tables)
    → OnOk (ClosedAs c) (complete_row c n (find (cycle_is c) t.sync_cycles) t)
unfolding ◌>>◌ ◌>>=◌ proceed pure lift
complete_row-ClosedAs c n t = elim (Option-cases (find (cycle_is c) t.sync_cycles)) [
  | inl e ↦ rw e tt
  | inr (row, e) ↦ rw e (elim (Bool-cases (is_active row.status)) [
    | inr i ↦ rw i (row, e, i, inr refl)
    | inl i ↦ rw i (
        OnOk-proceed (λ _ u. ClosedAs c none u) (ClosedAs c) (close_active c n row t) _
          (close_active-ClosedAs c n row t e) (λ _ u h. h))
  ])
]

-- `complete_cycle` at a time that has a zone.
abbrev closing : ℕ → ℕ → Action Archive SyncCycle
closing c n =
    transaction (gets (λ t. find (cycle_is c) t.sync_cycles) >>= λ row. complete_row c n row)
    >>= λ already. read_completed c already

closed_twice :
    (c m : ℕ) (r : SyncCycle) (u : Tables)
    → find (cycle_is c) u.sync_cycles ≡ some r
    → is_active r.status ≡ false
    → (s : Archive) → s.in_transaction ≡ false
    → closing c m (record s { tables = u }) ≡ (ok r, record s { tables = u })
unfolding steps
closed_twice c m r u found closed s idle = rw (idle, found, closed) refl

closed_once :
    (c n : ℕ) (r : SyncCycle) (o : Option SyncCycle) (u : Tables) (s : Archive)
    → find (cycle_is c) u.sync_cycles ≡ some r
    → (o ≡ none) ⊎ (o ≡ some r)
    → complete_row c n (find (cycle_is c) s.tables.sync_cycles) s.tables ≡ (ok o, u)
    → s.in_transaction ≡ false
    → closing c n s ≡ (ok r, record s { tables = u })
unfolding steps
closed_once c n r o u s found (inl e) out idle = rw (idle, out, e) (rw found refl)
closed_once c n r o u s found (inr e) out idle = rw (idle, out, e) refl

closing_refused :
    (c n : ℕ) (s : Archive)
    → s.in_transaction ≡ true
    → closing c n s ≡ (raise Error.operational_error, s)
unfolding steps
closing_refused c n s e = rw e refl

closing_raised :
    (c n : ℕ) (s : Archive) (er : Error) (u : Tables)
    → complete_row c n (find (cycle_is c) s.tables.sync_cycles) s.tables ≡ (raise er, u)
    → s.in_transaction ≡ false
    → closing c n s ≡ (raise er, s)
unfolding steps
closing_raised c n s er u out e = rw (e, out) refl

closing-repeats :
    (c n m : ℕ) (s s' : Archive) (row : SyncCycle)
    → closing c n s ≡ (ok row, s')
    → (is_active row.status ≡ false) × (closing c m s' ≡ (ok row, s'))
closing-repeats c n m s s' row q = elim (Bool-cases s.in_transaction) [
  | inl e ↦ absurd (refused e)
  | inr e ↦
      go (complete_row c n (find (cycle_is c) s.tables.sync_cycles) s.tables) refl
        (complete_row-ClosedAs c n s.tables) e
]
  where
    refused : s.in_transaction ≡ true → ⊥
    refused e = let no = closing_refused c n s e in absurd (cc)

    go :
        (x : Result (Option SyncCycle) × Tables)
        → complete_row c n (find (cycle_is c) s.tables.sync_cycles) s.tables ≡ x
        → OnOk (ClosedAs c) x
        → s.in_transaction ≡ false
        → (is_active row.status ≡ false) × (closing c m s' ≡ (ok row, s'))
    go (raise er, u) out h e = let no = closing_raised c n s er u out e in absurd (cc)
    go (ok o, u) out (r, found, closed, which) e =
        let first = closed_once c n r o u s found which out e in
        subst (λ x. OnOk (λ y t. (is_active y.status ≡ false) × (closing c m t ≡ (ok y, t))) x)
          (sym first ∙ q) (closed, closed_twice c m r u found closed s e)

-- A cycle that `complete_cycle` returns is closed, and a repetition at any time returns the same
-- row and changes nothing.
pub complete_cycle-complete_cycle :
    (c again : ℕ) (at : Timestamp) (s s' : Archive) (row : SyncCycle)
    → complete_cycle c at s ≡ (ok row, s')
    → (is_active row.status ≡ false) × (complete_cycle c (aware again) s' ≡ (ok row, s'))
unfolding complete_cycle ◌>>=◌ proceed iso
complete_cycle-complete_cycle c again (aware n) s s' row q = closing-repeats c n again s s' row q
complete_cycle-complete_cycle c again naive s s' row q = absurd (cc)
