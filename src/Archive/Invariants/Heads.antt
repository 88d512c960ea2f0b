-- ===== src/Archive/Invariants/Heads.antt =====
-- `fact_heads` names the latest observation of every fact in every reachable archive.
use gh_puller.Archive.Action.{modify}
use gh_puller.Archive.Calls.{Reachable, Reachable-induction, empty_tables}
use gh_puller.Archive.Cycles.{close_active}
use gh_puller.Archive.Facts.{Publication, insert_facts}
use gh_puller.Archive.Facts.Advance.{HeadsOk}
use gh_puller.Archive.Facts.Insertion.{insert_fact-HeadsOk}
use gh_puller.Archive.Json.{Fields}
use gh_puller.Archive.Keeps.{Keeps, Keeps-modify, Keeps-pure, Keeps-then, keeping}
use gh_puller.Archive.Model.{Archive, FactBatch, SyncCycle}
use gh_puller.Archive.Prepare.{PreparedFact}
use gh_puller.Archive.Publish.{finish_published, insert_batch, publish_new, put_payload}
use gh_puller.Archive.Stable.{Stable, Steady}
use gh_puller.Archive.Stable.Every.{perform-Stable}
use gh_puller.Archive.Stable.Steps.{finish-Steady, put_payload-Steady}
use gh_puller.Base.{List, Option, String, [], ℕ, ◌+◌, ◌∷◌}

HeadsOk-Steady : Steady HeadsOk
HeadsOk-Steady = record {
  blobs = λ t b h. h;
  signals = λ t ss h. h;
  items = λ t is h. h;
  cycle_changed = λ t p f st h. h;
  task_added = λ t row run new h. h;
  task_changed = λ t p f st h. h;
}

insert_facts-HeadsOk : (b n : ℕ) (ps : List PreparedFact) → Keeps HeadsOk (insert_facts b n ps)
unfolding insert_facts
insert_facts-HeadsOk b n [] = Keeps-pure tt
insert_facts-HeadsOk b n (p ∷ ps) =
    Keeps-then (insert_fact-HeadsOk b n p) (insert_facts-HeadsOk b (n + 1) ps)

insert_batch-HeadsOk : (b : FactBatch) → Keeps HeadsOk (insert_batch b)
unfolding insert_batch
insert_batch-HeadsOk b = search (keeping, Keeps-modify)

publish_new-HeadsOk :
    (p : Publication) (n : ℕ) (ps : List PreparedFact) → Keeps HeadsOk (publish_new p n ps)
unfolding publish_new
publish_new-HeadsOk p n ps =
    search (keeping, insert_batch-HeadsOk, insert_facts-HeadsOk, payload, finish) depth 14
  where
    payload : (q : PreparedFact) → Keeps HeadsOk (put_payload q)
    payload q = put_payload-Steady HeadsOk-Steady q

    finish : (o : Option ℕ) (m : ℕ) → Keeps HeadsOk (modify (finish_published o m))
    finish o m = finish-Steady HeadsOk-Steady o m

closed-HeadsOk : (c n : ℕ) (row : SyncCycle) → Keeps HeadsOk (close_active c n row)
unfolding close_active
closed-HeadsOk c n row = search (keeping, Keeps-modify) depth 10

pub HeadsOk-Stable : Stable HeadsOk
HeadsOk-Stable = record {
  steady = HeadsOk-Steady;
  cycle_added = λ t c e h. h;
  cycle_closed = closed-HeadsOk;
  maintenance = λ t js ts h. h;
  published = publish_new-HeadsOk;
}

pub Reachable-HeadsOk :
    (digest : Fields → String) {s : Archive} → Reachable digest s → HeadsOk s.tables
Reachable-HeadsOk digest r =
    Reachable-induction digest HeadsOk start (perform-Stable HeadsOk-Stable digest) r
  where
    start : HeadsOk empty_tables
    start = record { identified = tt; grounded = tt; distinct = tt; newest = λ f s. tt }
