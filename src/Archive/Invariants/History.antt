-- ===== src/Archive/Invariants/History.antt =====
-- The rows that no call of the archive takes back.
use gh_puller.Archive.Calls.{Call, perform}
use gh_puller.Archive.Cycles.{close_active}
use gh_puller.Archive.Json.{Fields}
use gh_puller.Archive.Keeps.{Keeps, Keeps-modify, keeping}
use gh_puller.Archive.Model.{Archive, SyncCycle, Tables}
use gh_puller.Archive.Stable.{FactSteps, Stable, Steady}
use gh_puller.Archive.Stable.Every.{perform-Stable}
use gh_puller.Archive.Stable.Published.{publish_new-free}
use gh_puller.Base.{Extends, Extends-append, Extends-refl, String, [], ℕ, ◌∷◌}

-- `new` has the rows of `old`, in their order, and perhaps more.
abbrev pub AppendOnly : Tables → Tables → Type 0
AppendOnly old new =
    Extends old.fact_batches new.fact_batches
    × Extends old.fact_observations new.fact_observations
    × Extends old.payload_blobs new.payload_blobs

module _ (old : Tables) where
  history-Steady : Steady (AppendOnly old)
  history-Steady = record {
    blobs = λ t b h. (h.0, h.1, Extends-append old.payload_blobs t.payload_blobs (b ∷ []) h.2);
    signals = λ t ss h. h;
    items = λ t is h. h;
    cycle_changed = λ t p f st h. h;
    task_added = λ t row run new h. h;
    task_changed = λ t p f st h. h;
  }

  history-FactSteps : FactSteps (AppendOnly old)
  history-FactSteps = record {
    batch = λ t b h. (Extends-append old.fact_batches t.fact_batches (b ∷ []) h.0, h.1, h.2);
    observation = λ t row h.
        (h.0, Extends-append old.fact_observations t.fact_observations (row ∷ []) h.1, h.2);
    index = λ t rows h. h;
    heads = λ t hs h. h;
  }

  closed-history : (c n : ℕ) (row : SyncCycle) → Keeps (AppendOnly old) (close_active c n row)
  unfolding close_active
  closed-history c n row = search (keeping, Keeps-modify) depth 10

  history-Stable : Stable (AppendOnly old)
  history-Stable = record {
    steady = history-Steady;
    cycle_added = λ t c e h. h;
    cycle_closed = closed-history;
    maintenance = λ t js ts h. h;
    published = publish_new-free history-Steady history-FactSteps;
  }

-- Every call of the archive, whatever it returns or raises, leaves the batches, the observations
-- and the payloads that were there as they were and in their order; it can only add to their ends.
pub perform-AppendOnly :
    (digest : Fields → String) (c : Call) (s : Archive)
    → AppendOnly s.tables (perform digest c s).tables
perform-AppendOnly digest c s = perform-Stable (history-Stable s.tables) digest c s (
  Extends-refl s.tables.fact_batches,
  Extends-refl s.tables.fact_observations,
  Extends-refl s.tables.payload_blobs,
)
