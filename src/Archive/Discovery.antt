-- ===== src/Archive/Discovery.antt =====
-- Catalogue discovery of `ObservationArchive` in gh_puller/github/observations.py: the comment
-- feeds' signals, the page cursor, and the items that a page retains.
pub mod Cursor
use gh_puller.Archive.Action.{
  Action, each, guard, modify, or_raise, pure, query, runtime_error, transaction, value_error,
  ◌>>=◌, ◌>>◌,
}
use gh_puller.Archive.Cycles.{active_cycle_row, cycle_is, set_cycle}
use gh_puller.Archive.Json.{Fields}
use gh_puller.Archive.Model.{
  Archive, DiscoveryItem, DiscoveryItemDraft, DiscoverySignal, SyncCycle, Tables, TaskDraft,
}
use gh_puller.Archive.Prepare.{
  PreparedItem, PreparedTask, has_digest, prepare_discovery_item, prepare_task, put_encoded_blob,
}
use gh_puller.Archive.Tasks.{put_task}
use gh_puller.Base.{
  Bool, List, Option, String, [], all, any, false, find, if◌then◌else◌, is_none, leb, length,
  nat_instance, none, not, option_instance, some, sorted_set, text_instance, true, update, ℕ, ◌&&◌,
  ◌++◌, ◌+◌, ◌==◌, ◌||◌, ◌∷◌,
}

abbrev pub signal_is : ℕ → ℕ → DiscoverySignal → Bool
signal_is cycle_id n row = row.cycle_id == cycle_id && row.number == n

abbrev pub raise_flags : Bool → Bool → DiscoverySignal → DiscoverySignal
raise_flags issue pull row = record row {
  issue_comments = row.issue_comments || issue;
  pull_comments = row.pull_comments || pull;
}

-- `INSERT INTO discovery_signals … ON CONFLICT … DO UPDATE SET … = MAX(…)`.
unfoldable pub put_signal : ℕ → Bool → Bool → ℕ → List DiscoverySignal → List DiscoverySignal
put_signal cycle_id issue pull n rows =
    if any (signal_is cycle_id n) rows
    then update (signal_is cycle_id n) (raise_flags issue pull) rows
    else rows
      ++ (record { cycle_id = cycle_id; number = n; issue_comments = issue; pull_comments = pull })
        ∷ []

abbrev pub member : ℕ → List ℕ → Bool
member n ns = any (λ m. m == n) ns

unfoldable pub put_signals :
    ℕ → List ℕ → List ℕ → List ℕ → List DiscoverySignal → List DiscoverySignal
put_signals cycle_id issues pulls [] rows = rows
put_signals cycle_id issues pulls (n ∷ ns) rows =
    put_signals cycle_id issues pulls ns
      (put_signal cycle_id (member n issues) (member n pulls) n rows)

-- `record_discovery_signals`.
unfoldable pub record_discovery_signals : ℕ → List ℕ → List ℕ → Action Archive (Unit {0})
record_discovery_signals cycle_id issue_comments pull_comments = do
  let numbers = sorted_set (issue_comments ++ pull_comments)
  guard (all (leb 1) numbers) value_error
  transaction (do
    active_cycle_row cycle_id
    modify (λ t. record t {
      discovery_signals =
          put_signals cycle_id issue_comments pull_comments numbers t.discovery_signals;
    }))

abbrev pub signal_flags : Option DiscoverySignal → Bool × Bool
signal_flags none = (false, false)
signal_flags (some row) = (row.issue_comments, row.pull_comments)

-- `discovery_signals`.
unfoldable pub discovery_signals : ℕ → ℕ → Action Archive (Bool × Bool)
discovery_signals cycle_id n =
    query (λ t. signal_flags (find (signal_is cycle_id n) t.discovery_signals))

abbrev pub start_at : String → SyncCycle → SyncCycle
start_at cursor c = record c { discovery_started = true; discovery_cursor = some cursor }

-- The body of the transaction of `begin_discovery`, on the cycle's row.
unfoldable pub resume_discovery : ℕ → String → SyncCycle → Action Tables (Option String)
resume_discovery cycle_id initial_cursor row =
    if row.discovery_complete
    then pure none
    else if row.discovery_started
    then pure row.discovery_cursor
    else (do modify (set_cycle cycle_id (start_at initial_cursor)); pure (some initial_cursor))

-- `begin_discovery`.
unfoldable pub begin_discovery : ℕ → String → Action Archive (Option String)
begin_discovery cycle_id initial_cursor = do
  guard (not (initial_cursor == "")) value_error
  transaction (do row ← active_cycle_row cycle_id; resume_discovery cycle_id initial_cursor row)

abbrev pub item_is : ℕ → ℕ → DiscoveryItem → Bool
item_is cycle_id n row = row.cycle_id == cycle_id && row.number == n

-- `discovery_item`: the row, and the summary that its digest names.
abbrev pub with_summary : Option DiscoveryItem → Tables → Option (DiscoveryItem × Fields)
with_summary none t = none
with_summary (some row) t = elim (find (has_digest row.summary_digest) t.payload_blobs) [
  | none ↦ none
  | some b ↦ some (row, b.payload)
]

unfoldable pub discovery_item : ℕ → ℕ → Action Archive (Option (DiscoveryItem × Fields))
discovery_item cycle_id n =
    query (λ t. with_summary (find (item_is cycle_id n) t.discovery_items) t)

abbrev pub item_row : ℕ → PreparedItem → DiscoveryItem
item_row cycle_id p = record {
  cycle_id = cycle_id;
  number = p.item.number;
  kind = p.item.kind;
  observed_from = p.observed_from;
  observed_until = p.observed_until;
  summary_digest = p.summary_digest;
}

-- `DO UPDATE SET … WHERE discovery_items.observed_until <= excluded.observed_until`.
abbrev pub newer_item : DiscoveryItem → DiscoveryItem → DiscoveryItem
newer_item new old = if leb old.observed_until new.observed_until then new else old

abbrev pub upsert_item : DiscoveryItem → List DiscoveryItem → List DiscoveryItem
upsert_item new rows =
    if any (item_is new.cycle_id new.number) rows
    then update (item_is new.cycle_id new.number) (newer_item new) rows
    else rows ++ new ∷ []

unfoldable pub put_item : ℕ → PreparedItem → Action Tables (Unit {0})
put_item cycle_id p = do
  modify (put_encoded_blob p.summary_digest p.item.summary)
  modify (λ t. record t { discovery_items = upsert_item (item_row cycle_id p) t.discovery_items })

-- The last `UPDATE sync_cycles` of `save_discovery_page`.
abbrev pub turn_page : Option String → ℕ → SyncCycle → SyncCycle
turn_page next_cursor items c = record c {
  discovery_cursor = next_cursor;
  discovery_complete = is_none next_cursor;
  discovery_pages = c.discovery_pages + 1;
  discovered_items = c.discovered_items + items;
}

-- The body of the transaction of `save_discovery_page`.
unfoldable pub save_page :
    ℕ → String → Option String → List PreparedItem → List PreparedTask → Action Tables (Unit {0})
save_page cycle_id request_cursor next_cursor page prepared = do
  row ← active_cycle_row cycle_id
  guard (row.discovery_started && row.discovery_cursor == some request_cursor) runtime_error
  each (put_item cycle_id) page
  each (put_task cycle_id) prepared
  modify (set_cycle cycle_id (turn_page next_cursor (length page)))

module _ (digest : Fields → String) where
  -- `save_discovery_page`.
  unfoldable pub save_discovery_page :
      ℕ
      → String
      → Option String
      → List DiscoveryItemDraft
      → List TaskDraft
      → Action Archive SyncCycle
  save_discovery_page cycle_id request_cursor next_cursor items tasks = do
    guard (not (request_cursor == "")) value_error
    guard (not (next_cursor == some "")) value_error
    page ← each (prepare_discovery_item digest) items
    prepared ← each (prepare_task digest) tasks
    transaction (save_page cycle_id request_cursor next_cursor page prepared)
    row ← query (λ t. find (cycle_is cycle_id) t.sync_cycles)
    or_raise row runtime_error
