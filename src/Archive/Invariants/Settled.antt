-- ===== src/Archive/Invariants/Settled.antt =====
-- What is settled stays settled: closed cycles, completed tasks and the discovery checkpoint.
use gh_puller.Archive.Calls.{Call, perform}
use gh_puller.Archive.Cycles.{advance_checkpoint, close_active, close_cycle, cycle_is, set_cycle}
use gh_puller.Archive.Json.{Fields}
use gh_puller.Archive.Keeps.{Keeps, Keeps-modify, keeping}
use gh_puller.Archive.Model.{Archive, SyncCycle, SyncTask, Tables, is_active}
use gh_puller.Archive.Stable.{FactSteps, Stable, Steady}
use gh_puller.Archive.Stable.Every.{perform-Stable}
use gh_puller.Archive.Stable.Published.{publish_new-free}
use gh_puller.Archive.Tasks.{task_is}
use gh_puller.Base.{
  Bool, Bool-cases, Found, Found-append, Found-update, Option, String, [], ap, arith, false, inl,
  inr, is_none, leb, nat_instance, none, option_instance, refl, some, some-injective, text_instance,
  update, ℕ, ◌==◌, ◌∙◌, ◌∷◌, ◌≡◌, ◌≤◌,
}

abbrev pub Done : SyncTask → Type 0
Done row = is_none row.completed_at ≡ false

abbrev pub Closed : SyncCycle → Type 0
Closed c = is_active c.status ≡ false

-- The second checkpoint is no earlier than the first.
abbrev pub NotEarlier : Option ℕ → Option ℕ → Type 0
NotEarlier none b = Unit
NotEarlier (some m) b = (n : ℕ) × (b ≡ some n) × (m ≤ n)

pub record Settled (old : Tables) (new : Tables) : Type 0 where
  pub done : (i : ℕ) → Found Done (task_is i) old.sync_tasks → Found Done (task_is i) new.sync_tasks
  pub closed :
      (i : ℕ)
      → Found Closed (cycle_is i) old.sync_cycles
      → Found Closed (cycle_is i) new.sync_cycles
  pub checkpoint : NotEarlier old.discovery_checkpoint new.discovery_checkpoint

NotEarlier-refl : (a : Option ℕ) → NotEarlier a a
NotEarlier-refl none = tt
NotEarlier-refl (some n) = (n, refl, omega arith)

NotEarlier-advance :
    (a b : Option ℕ) (n : ℕ) → NotEarlier a b → NotEarlier a (advance_checkpoint n b)
NotEarlier-advance none b n h = tt
NotEarlier-advance (some m) none n h = absurd (ground arith)
NotEarlier-advance (some m) (some k) n (k', e, le) =
    let same : k ≡ k' = some-injective _ _ e in
    elim (Bool-cases (leb k n)) [
      | inl i ↦ rw i (n, refl, ground arith)
      | inr i ↦ rw i (k, refl, ground arith)
    ]

module _ (old : Tables) where
  Settled-cycles :
      (t : Tables) (p : SyncCycle → Bool) (f : SyncCycle → SyncCycle)
      → ((c : SyncCycle) → (f c).id ≡ c.id)
      → ((c : SyncCycle) → Closed c → Closed (f c))
      → Settled old t
      → Settled old (record t { sync_cycles = update p f t.sync_cycles })
  Settled-cycles t p f id keep h = record {
    done = h.done;
    closed = λ i k.
        Found-update Closed (cycle_is i) p f t.sync_cycles (λ c. ap (λ n. n == i) (id c)) keep
          (h.closed i k);
    checkpoint = h.checkpoint;
  }

  Settled-Steady : Steady (Settled old)
  Settled-Steady = record {
    blobs = λ t b h. record { done = h.done; closed = h.closed; checkpoint = h.checkpoint };
    signals = λ t ss h. record { done = h.done; closed = h.closed; checkpoint = h.checkpoint };
    items = λ t is h. record { done = h.done; closed = h.closed; checkpoint = h.checkpoint };
    cycle_changed = λ t p f st h.
        Settled-cycles t p f st.same_id (λ c e. ap is_active (st.same_status c) ∙ e) h;
    task_added = λ t row run new h. record {
      done = λ i k. Found-append Done (task_is i) t.sync_tasks (row ∷ []) (h.done i k);
      closed = h.closed;
      checkpoint = h.checkpoint;
    };
    task_changed = λ t p f st h. record {
      done = λ i k.
          Found-update Done (task_is i) p f t.sync_tasks (λ x. ap (λ n. n == i) (st.same_id x))
            st.stays_done (h.done i k);
      closed = h.closed;
      checkpoint = h.checkpoint;
    };
  }

  Settled-FactSteps : FactSteps (Settled old)
  Settled-FactSteps = record {
    batch = λ t b h. record { done = h.done; closed = h.closed; checkpoint = h.checkpoint };
    observation = λ t row h. record { done = h.done; closed = h.closed; checkpoint = h.checkpoint };
    index = λ t rows h. record { done = h.done; closed = h.closed; checkpoint = h.checkpoint };
    heads = λ t hs h. record { done = h.done; closed = h.closed; checkpoint = h.checkpoint };
  }

  cycle_closed-Settled : (c n : ℕ) (row : SyncCycle) → Keeps (Settled old) (close_active c n row)
  unfolding close_active
  cycle_closed-Settled c n row = search (keeping, Keeps-modify, closes, advances) depth 10
    where
      closes : (t : Tables) → Settled old t → Settled old (set_cycle c (close_cycle n) t)
      closes t h = Settled-cycles t _ (close_cycle n) (λ x. refl) (λ x e. refl) h

      advances :
          (t : Tables)
          → Settled old t
          → Settled old (record t {
            discovery_checkpoint = advance_checkpoint row.started_at t.discovery_checkpoint;
          })
      advances t h = record {
        done = h.done;
        closed = h.closed;
        checkpoint =
            NotEarlier-advance old.discovery_checkpoint t.discovery_checkpoint row.started_at
              h.checkpoint;
      }

  Settled-Stable : Stable (Settled old)
  Settled-Stable = record {
    steady = Settled-Steady;
    cycle_added = λ t c e h. record {
      done = h.done;
      closed = λ i k. Found-append Closed (cycle_is i) t.sync_cycles (c ∷ []) (h.closed i k);
      checkpoint = h.checkpoint;
    };
    cycle_closed = cycle_closed-Settled;
    maintenance =
        λ t js ts h. record { done = h.done; closed = h.closed; checkpoint = h.checkpoint };
    published = publish_new-free Settled-Steady Settled-FactSteps;
  }

-- Every call of the archive, whatever it returns or raises, leaves a completed task completed
-- and a closed cycle closed, and the discovery checkpoint never moves back.
pub perform-Settled :
    (digest : Fields → String) (c : Call) (s : Archive)
    → Settled s.tables (perform digest c s).tables
perform-Settled digest c s = perform-Stable (Settled-Stable s.tables) digest c s (record {
  done = λ i k. k;
  closed = λ i k. k;
  checkpoint = NotEarlier-refl s.tables.discovery_checkpoint;
})
