-- ===== src/Archive/Invariants/Batches.antt =====
-- The observations of a reachable archive name its batches, so a publication can be repeated.
use gh_puller.Archive.Action.{ok}
use gh_puller.Archive.After.{OnOk-weaken}
use gh_puller.Archive.Calls.{Reachable, Reachable-induction}
use gh_puller.Archive.Cycles.{close_active}
use gh_puller.Archive.Facts.{Publication}
use gh_puller.Archive.Json.{Fields}
use gh_puller.Archive.Keeps.{Keeps, Keeps-modify, keeping}
use gh_puller.Archive.Model.{Archive, FactObservation, SyncCycle, Tables}
use gh_puller.Archive.Prepare.{PreparedFact}
use gh_puller.Archive.Publish.{publish, publish_new}
use gh_puller.Archive.Publish.Batch.{Appended, BatchesKnown, publish_new-Appended}
use gh_puller.Archive.Publish.Repeat.{publish-repeats_known}
use gh_puller.Archive.Stable.{Stable, Steady}
use gh_puller.Archive.Stable.Every.{perform-Stable}
use gh_puller.Base.{
  All, All-append, All-mono, List, String, [], arith, lt-next_id-append, next_id, next_id-append_le,
  subst₂, sym, ℕ, ◌++◌, ◌<◌, ◌∷◌, ◌≡◌,
}

known-Steady : Steady BatchesKnown
known-Steady = record {
  blobs = λ t b h. h;
  signals = λ t ss h. h;
  items = λ t is h. h;
  cycle_changed = λ t p f st h. h;
  task_added = λ t row run new h. h;
  task_changed = λ t p f st h. h;
}

known-published :
    (p : Publication) (n : ℕ) (ps : List PreparedFact) → Keeps BatchesKnown (publish_new p n ps)
known-published p n ps = record {
  at = λ t h. OnOk-weaken (publish_new p n ps t) (grown t h) (publish_new-Appended p n ps t);
}
  where
    grown :
        (t : Tables)
        → BatchesKnown t
        → (i : ℕ) (u : Tables) → Appended p ps t.fact_batches t.fact_observations i u
        → BatchesKnown u
    grown t h i u (b, id, fresh, keyed, operation, eb, rows, eo, same, own) =
        let more = next_id-append_le (λ x. x.id) t.fact_batches (b ∷ []) in
        let last : b.id < next_id (λ x. x.id) (t.fact_batches ++ b ∷ []) =
          lt-next_id-append (λ x. x.id) t.fact_batches b in
        subst₂ (λ bs os. All (λ o. o.batch_id < next_id (λ x. x.id) bs) os) (sym eb) (sym eo)
          (All-append (λ o. o.batch_id < next_id (λ x. x.id) (t.fact_batches ++ b ∷ []))
            t.fact_observations rows
            (All-mono (λ o. o.batch_id < next_id (λ x. x.id) t.fact_batches)
              (λ o. o.batch_id < next_id (λ x. x.id) (t.fact_batches ++ b ∷ [])) t.fact_observations
              (λ o lt. omega (arith, lt, more)) h)
            (All-mono (λ o. o.batch_id ≡ i)
              (λ o. o.batch_id < next_id (λ x. x.id) (t.fact_batches ++ b ∷ [])) rows
              (λ o e. omega (arith, e, id, last)) own))

known-closed : (c n : ℕ) (row : SyncCycle) → Keeps BatchesKnown (close_active c n row)
unfolding close_active
known-closed c n row = search (keeping, Keeps-modify) depth 10

known-Stable : Stable BatchesKnown
known-Stable = record {
  steady = known-Steady;
  cycle_added = λ t c e h. h;
  cycle_closed = known-closed;
  maintenance = λ t js ts h. h;
  published = known-published;
}

-- In every archive that calls reach from a new one, a publication that returned its rows returns
-- the same rows when it is repeated, and the repetition changes nothing.
pub publish-repeats :
    (digest : Fields → String) {s : Archive} (p : Publication) (s' : Archive)
    (rows : List FactObservation)
    → Reachable digest s
    → publish digest p s ≡ (ok rows, s')
    → publish digest p s' ≡ (ok rows, s')
publish-repeats digest {s} p s' rows r =
    publish-repeats_known digest p s s' rows
      (Reachable-induction digest BatchesKnown tt (perform-Stable known-Stable digest) r)
