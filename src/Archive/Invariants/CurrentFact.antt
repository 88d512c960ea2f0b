-- ===== src/Archive/Invariants/CurrentFact.antt =====
-- What `current_fact` answers in every reachable archive.
use gh_puller.Archive.Action.{ok, steps}
use gh_puller.Archive.Calls.{Reachable}
use gh_puller.Archive.Facts.{current_fact, is_current}
use gh_puller.Archive.Facts.Current.{find-is_current}
use gh_puller.Archive.Facts.Heads.{Newest}
use gh_puller.Archive.Invariants.Heads.{Reachable-HeadsOk}
use gh_puller.Archive.Json.{Fields}
use gh_puller.Archive.Model.{Archive, FactObservation}
use gh_puller.Base.{Option, String, find, refl, subst, sym, ◌≡◌}

-- In every archive that calls reach from a new one, whatever they returned or raised,
-- `current_fact` returns without a change of the archive, and its answer is the latest
-- observation of the fact by read window and identity, or nothing where the fact has none.
pub current_fact-Newest :
    (digest : Fields → String) {s : Archive} (family subject_key : String)
    → Reachable digest s
    → (c : Option FactObservation) × (current_fact family subject_key s ≡ (ok c, s))
      × Newest family subject_key s.tables.fact_observations c
unfolding current_fact steps
current_fact-Newest digest {s} family subject_key r =
    let inv = Reachable-HeadsOk digest r in
    (
      find (is_current family subject_key s.tables.fact_heads) s.tables.fact_observations,
      refl,
      subst (Newest family subject_key s.tables.fact_observations)
          (sym
            (find-is_current s.tables.fact_observations s.tables.fact_heads inv family subject_key))
          (inv.newest family subject_key),
    )
