-- ===== src/Archive/Prepare.antt =====
-- `_prepare_fact`, `_prepare_task` and `_prepare_discovery_item` of
-- gh_puller/github/observations.py: the checks on a draft before a transaction begins.
use gh_puller.Archive.Action.{Action, guard, iso, pure, value_error, ◌>>=◌, ◌>>◌}
use gh_puller.Archive.Json.{Fields, Json, get}
use gh_puller.Archive.Model.{Blob, DiscoveryItemDraft, FactDraft, Tables, TaskDraft}
use gh_puller.Base.{
  Bool, List, Option, String, [], all, any, codes, false, if◌then◌else◌, is_hex, leb, length,
  nat_instance, none, not, option_instance, some, text_instance, true, ℕ, ◌&&◌, ◌++◌, ◌==◌, ◌||◌,
  ◌∷◌,
}

-- The families of `FACT_SCHEMAS` whose only version is 1.
abbrev pub single_version_families : List String
single_version_families =
    "catalog-item" ∷ "commit-references" ∷ "git-refs" ∷ "issue" ∷ "issue-comment-reactions"
    ∷ "issue-comments" ∷ "issue-events" ∷ "issue-reactions" ∷ "issue-relations" ∷ "issue-timeline"
    ∷ "pull" ∷ "pull-closing-issues" ∷ "pull-commits" ∷ "pull-git" ∷ "pull-requested-reviewers"
    ∷ "pull-review-comments" ∷ "pull-review-comment-reactions" ∷ "pull-review-threads"
    ∷ "pull-reviews" ∷ []

-- `FACT_SCHEMAS` of gh_puller/github/archive_format.py: the versions of one family.
unfoldable pub fact_versions : String → List ℕ
fact_versions f =
    if f == "commit-object"
    then 1 ∷ 2 ∷ []
    else if any (λ known. known == f) single_version_families
    then 1 ∷ []
    else []

-- `_is_digest`.
unfoldable pub is_digest : String → Bool
is_digest value = length (codes value) == 64 && all is_hex (codes value)

abbrev pub is_positive : Option ℕ → Bool
is_positive none = true
is_positive (some n) = leb 1 n

abbrev pub is_digest? : Option String → Bool
is_digest? none = true
is_digest? (some value) = is_digest value

-- A fact draft with its payload digest and the two ends of its read window.
pub record PreparedFact : Type 0 where
  pub fact : FactDraft
  pub payload_digest : String
  pub observed_from : ℕ
  pub observed_until : ℕ

pub record PreparedTask : Type 0 where
  pub task : TaskDraft
  pub input_digest : String

pub record PreparedItem : Type 0 where
  pub item : DiscoveryItemDraft
  pub summary_digest : String
  pub observed_from : ℕ
  pub observed_until : ℕ

-- `item.summary.get("number") != item.number`.
abbrev pub names_number : Option Json → ℕ → Bool
names_number (some (Json.number m)) n = m == n
names_number (some (Json.boolean b)) n = (if b then 1 else 0) == n
names_number _ n = false

-- `digest` stands for SHA-256 of the canonical JSON text.
module _ (digest : Fields → String) {S : Type 0} where
  unfoldable pub prepare_fact : FactDraft → Action S PreparedFact
  prepare_fact fact = do
    guard (any (λ version. version == fact.schema_version) (fact_versions fact.family)) value_error
    guard (not (fact.subject_key == "")) value_error
    guard (is_positive fact.resource_number) value_error
    observed_from ← iso fact.observed_from
    observed_until ← iso fact.observed_until
    guard (leb observed_from observed_until) value_error
    guard (is_digest? fact.source_digest) value_error
    pure (record {
      fact = fact;
      payload_digest = digest fact.payload;
      observed_from = observed_from;
      observed_until = observed_until;
    })

  unfoldable pub prepare_task : TaskDraft → Action S PreparedTask
  prepare_task task = do
    guard (not (task.task_key == "" || task.kind == "" || task.subject_key == "")) value_error
    guard (is_positive task.resource_number) value_error
    pure (record { task = task; input_digest = digest task.payload })

  unfoldable pub prepare_discovery_item : DiscoveryItemDraft → Action S PreparedItem
  prepare_discovery_item item = do
    guard (leb 1 item.number && (item.kind == "issue" || item.kind == "pull")) value_error
    observed_from ← iso item.observed_from
    observed_until ← iso item.observed_until
    guard (leb observed_from observed_until) value_error
    guard (names_number (get "number" item.summary) item.number) value_error
    pure (record {
      item = item;
      summary_digest = digest item.summary;
      observed_from = observed_from;
      observed_until = observed_until;
    })

abbrev pub has_digest : String → Blob → Bool
has_digest d b = b.digest == d

-- `_put_encoded_blob`: `INSERT OR IGNORE`.
unfoldable pub put_encoded_blob : String → Fields → Tables → Tables
put_encoded_blob d raw t =
    if any (has_digest d) t.payload_blobs
    then t
    else record t { payload_blobs = t.payload_blobs ++ (record { digest = d; payload = raw }) ∷ [] }

-- `_blob_exists`.
unfoldable pub blob_exists : String → Tables → Bool
blob_exists d t = any (has_digest d) t.payload_blobs
