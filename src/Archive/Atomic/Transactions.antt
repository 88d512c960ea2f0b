-- ===== src/Archive/Atomic/Transactions.antt =====
-- The calls that are one transaction after checks of their arguments.
use gh_puller.Archive.Action.{query, transaction, ◌>>=◌}
use gh_puller.Archive.Atomic.{
  Atomic, Atomic-after, Atomic-read, Atomic-then, Atomic-transaction, Calm-check_facts,
  Calm-check_publication, Calm-prepare_fact, Calm-prepare_task, atomic, calm,
}
use gh_puller.Archive.Attempts.{take_maintenance_tasks}
use gh_puller.Archive.Discovery.{begin_discovery, record_discovery_signals}
use gh_puller.Archive.Facts.{Publication, batch_facts}
use gh_puller.Archive.Json.{Fields}
use gh_puller.Archive.Model.{TaskDraft, Timestamp}
use gh_puller.Archive.Prepare.{PreparedFact}
use gh_puller.Archive.Publish.{publish, publish_prepared}
use gh_puller.Archive.Tasks.{enqueue_tasks, take_tasks}
use gh_puller.Base.{List, Option, String, ℕ}

publish-Atomic : (digest : Fields → String) (p : Publication) → Atomic (publish digest p)
unfolding publish
publish-Atomic digest p =
    search
      (
        calm, Atomic-then, Atomic-after, Calm-check_publication, Calm-prepare_fact,
        Calm-check_facts, stored,
      )
      depth 10
  where
    stored :
        (n : ℕ) (ps : List PreparedFact)
        → Atomic (transaction (publish_prepared p n ps) >>= λ i. query (batch_facts i))
    stored n ps = Atomic-read _ batch_facts (Atomic-transaction (publish_prepared p n ps))

enqueue_tasks-Atomic :
    (digest : Fields → String) (c : ℕ) (tasks : List TaskDraft)
    → Atomic (enqueue_tasks digest c tasks)
unfolding enqueue_tasks
enqueue_tasks-Atomic digest c tasks = search (calm, atomic, Calm-prepare_task) depth 8

take_tasks-Atomic : (c n : ℕ) (kinds : Option (List String)) → Atomic (take_tasks c n kinds)
unfolding take_tasks
take_tasks-Atomic c n kinds = search (calm, atomic) depth 8

begin_discovery-Atomic : (c : ℕ) (cursor : String) → Atomic (begin_discovery c cursor)
unfolding begin_discovery
begin_discovery-Atomic c cursor = search (calm, atomic) depth 8

record_discovery_signals-Atomic :
    (c : ℕ) (issues pulls : List ℕ) → Atomic (record_discovery_signals c issues pulls)
unfolding record_discovery_signals
record_discovery_signals-Atomic c issues pulls = search (calm, atomic) depth 8

take_maintenance_tasks-Atomic :
    (j n : ℕ) (at : Timestamp) (kind : Option String) → Atomic (take_maintenance_tasks j n at kind)
unfolding take_maintenance_tasks
take_maintenance_tasks-Atomic j n at kind = search (calm, atomic) depth 8

-- Where one of these six calls raises, the archive is exactly as it was before the call:
-- `publish`, `enqueue_tasks`, `take_tasks`, `begin_discovery`, `record_discovery_signals` and
-- `take_maintenance_tasks`.
pub transactional_calls-Atomic :
    (digest : Fields → String)
    → ((p : Publication) → Atomic (publish digest p))
      × ((c : ℕ) (tasks : List TaskDraft) → Atomic (enqueue_tasks digest c tasks))
      × ((c n : ℕ) (kinds : Option (List String)) → Atomic (take_tasks c n kinds))
      × ((c : ℕ) (cursor : String) → Atomic (begin_discovery c cursor))
      × ((c : ℕ) (issues pulls : List ℕ) → Atomic (record_discovery_signals c issues pulls))
      × ((j n : ℕ) (at : Timestamp) (kind : Option String)
          → Atomic (take_maintenance_tasks j n at kind))
transactional_calls-Atomic digest = (
  publish-Atomic digest,
  enqueue_tasks-Atomic digest,
  take_tasks-Atomic,
  begin_discovery-Atomic,
  record_discovery_signals-Atomic,
  take_maintenance_tasks-Atomic,
)
