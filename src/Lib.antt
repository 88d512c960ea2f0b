-- ===== src/Lib.antt =====
-- Verification of gh-puller: its observation archive, the client's quota rules, the planning of
-- refreshes, the trees of code graphs, the recording of agent sessions.
--
-- gh-puller mirrors a GitHub repository's issues, pull requests and Git objects into one SQLite
-- archive (`ObservationArchive`). A sync cycle walks the catalogue page by page (discovery),
-- enqueues tasks, and each task publishes facts in one atomic batch; a cycle closes when its
-- discovery and its tasks are done. Maintenance jobs refresh facts outside a cycle.
--
--   Base                  Boolean tests, equality as an interface, lists as tables, texts
--   CommitReferences      gh_puller/github/commit_references.py: extraction of commit identities from
--                         source facts, and the rows of the SHA index
--   Archive.Model         the tables of gh_puller/github/archive_format.py and the drafts of
--                         gh_puller/github/observations.py
--   Archive.Action        a call on the connection: a result or an exception, and the archive after
--   Archive.Prepare       `_prepare_fact`, `_prepare_task`, `_prepare_discovery_item`
--   Archive.Cycles        `start_cycle`, `complete_cycle`, `add_requests`
--   Archive.Tasks         `enqueue_tasks`, `take_tasks`, `complete_task`, `record_task_error`
--   Archive.Discovery     `begin_discovery`, `save_discovery_page`, the comment signals
--   Archive.Facts         observations, heads, `_advance_head`, `current_fact`
--   Archive.Publish       `publish`
--   Archive.Lookups       `latest_complete_fact`
--   Archive.Maintenance   the maintenance jobs; Archive.Attempts their tasks
--   Archive.Calls         any sequence of calls from a new archive
--   Archive.Keeps, Archive.Leaves, Archive.After, Archive.Stable, Archive.Fixed, Archive.Atomic
--                         what a call leaves behind, as rules for `search`
--   Archive.Invariants    what holds in every archive that calls reach
--   Client.Quota          gh_puller/github/client.py: the quota windows, `_remember_quota`
--   Client.Limits         the blocks and waits: `_remember_primary_limit`, `_wait_for_limit`
--   Client.Transport      `_transport_order` and `_either`
--   Plan.Families         gh_puller/github/maintenance.py: `parent_family_plan`
--   Plan.Requests         `refresh_request`, `refresh_plan`, `parent_refresh_scope`
--   Ordered               texts by their code points, dictionaries and sets with their sorting
--   Graph.Keys            gh_puller/codebase/archive.py: `_key_bytes`, `_key_path`
--   Graph.Pages           the frames and pages: `append`, `store_page`, `read_page`
--   Graph.Tree            `RadixTree`: `apply`, `build`
--   Graph.Reader          `_typed_page`, `_records`
--   Agents.Redaction      gh_puller/agent/events.py: `_secret_key`, `_redacted`
--   Agents.Events         what `new_event` accepts, `is_compact_event`, `fold_state`
--   Agents.Items          the builders of context items
--   Agents.Recorder       `EventRecorder`; Agents.Recorder.Sessions any sequence of its calls
--   Agents.Compact        the compact log of gh_puller/agent/sinks.py
--   Agents.Bus            `EventBus`: the queues of its sinks
--   Agents.Files          gh_puller/agent/sinks.py: `FileSink`
--   Agents.Replay         the log of a recorder, as `FileSink` writes it
--
-- The agents' recorder publishes state, activity and markers of a session on a bus, whose sinks drain
-- their queues in any order. An accepted event is appended to the log and numbered; a refused one
-- raises (`ValueError` stands for `TypeError` too) and the caller goes on. `event` itself is public
-- too: adapters publish markers through it, past the recorder's account of them, and what is stated
-- of the account is stated of calls that do not. `fold_state` has no answer where it raises. Times, the keep-warm
-- task, the cost, `_jsonable` and `normalize_usage` are left out; a key is of ASCII characters. What
-- `json.loads`, `json.dumps` and `str` return are parameters, of which no theorem asks anything.
-- A bus is enabled for the whole life of a recorder or not at all. A file is the lines that were
-- written to it; no write and no consumer fails.
--
-- The state is the committed tables and whether the connection has a transaction open. A body
-- under `BEGIN IMMEDIATE` works on the tables and is undone where it raises; an `UPDATE` outside
-- one opens a transaction by itself, which only a commit or a rollback ends. A table is the list of its
-- rows in the order of their identities; a new identity is one past the greatest. Times are the
-- microseconds of UTC, which order as the stored texts do; a time without a zone is refused.
-- SHA-256 of the canonical JSON of a payload is the parameter `digest` of the calls that use it:
-- no theorem asks anything of it.
--
-- The client's clock is a number of microseconds, `sleep` and the two transports' operations are
-- parameters, and so is what the other coroutines make of the shared limits during a sleep.
-- `_wait_for_limit` is recursion on fuel: one round per recheck, and a round takes at least a
-- microsecond, so that more fuel than the wait in microseconds is enough.
--
-- The closure of families is recursion on fuel. Five rounds are enough: no chain of dependencies has
-- more than four families. A set is the ascending list of its members.
--
-- A file of graphs is the list of its frames with their offsets. The hash of a page's logical content
-- and the size of its compressed bytes are parameters, of which no theorem asks anything. Texts are
-- their code points, and texts with a lone surrogate, which have no UTF-8, are not excluded. A page
-- that was written is read at once, as from the page cache, which is not modelled.
--
-- Not modelled: SQLite itself, the payload codec, the creation and opening of a database, negative
-- request counts, and arguments of a wrong Python type; the HTTP client's transfers, the
-- collector, the Git store, the monitor, the agents' adapters, their other sinks and the web applications.
pub mod Base
pub mod CommitReferences
pub mod Archive
pub mod Client
pub mod Ordered
pub mod Agents
pub mod Graph
pub mod Plan
