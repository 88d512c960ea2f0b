-- ===== src/Archive/Facts.antt =====
-- Publication of facts by `ObservationArchive` in gh_puller/github/observations.py: one atomic
-- batch of observations, its idempotency key, and the head of every fact.
pub mod Indexing
pub mod Order
pub mod Heads
pub mod Advance
pub mod Insertion
pub mod Current
pub mod Examples
use gh_puller.Archive.Action.{
  Action, gets, guard, integrity_error, modify, ok, or_raise, pure, query, runtime_error,
  value_error, ◌>>=◌, ◌>>◌,
}
use gh_puller.Archive.Model.{
  coverage_instance, origin_instance, Archive, Coverage, FactBatch, FactDraft, FactHead,
  FactObservation, IndexRow, Tables, Timestamp,
}
use gh_puller.Archive.Prepare.{PreparedFact}
use gh_puller.Base.{
  Bool, List, Option, String, [], all, any, codes, false, find, if◌then◌else◌, leb, length, ltb,
  nat_instance, next_id, none, option_instance, select, some, text_instance, true, update, ℕ, ◌&&◌,
  ◌++◌, ◌+◌, ◌==◌, ◌||◌, ◌∷◌,
}
use gh_puller.CommitReferences.{commit_reference_index_rows}

-- The arguments of `publish`.
pub record Publication : Type 0 where
  pub publication_key : String
  pub kind : String
  pub published_at : Timestamp
  pub facts : List FactDraft
  pub cycle_id : Option ℕ
  pub task_id : Option ℕ
  pub maintenance_task_id : Option ℕ

abbrev pub fact_is : String → String → FactObservation → Bool
fact_is family subject_key o = o.family == family && o.subject_key == subject_key

abbrev pub head_is : String → String → FactHead → Bool
head_is family subject_key h = h.family == family && h.subject_key == subject_key

abbrev pub observation_is : ℕ → FactObservation → Bool
observation_is observation_id o = o.id == observation_id

-- `_observation_order(a) >= _observation_order(b)`.
abbrev pub not_before : FactObservation → FactObservation → Bool
not_before a b =
    ltb b.observed_until a.observed_until
    || (b.observed_until == a.observed_until
        && (ltb b.observed_from a.observed_from
            || (b.observed_from == a.observed_from && leb b.id a.id)))

-- The observation that the head of a fact names.
abbrev pub observation_of : Option FactHead → List FactObservation → Option FactObservation
observation_of none os = none
observation_of (some h) os = find (observation_is h.observation_id) os

abbrev pub set_head : String → String → ℕ → List FactHead → List FactHead
set_head family subject_key observation_id heads =
    if any (head_is family subject_key) heads
    then update (head_is family subject_key) (λ h. record h { observation_id = observation_id })
        heads
    else heads
      ++ (record { family = family; subject_key = subject_key; observation_id = observation_id })
        ∷ []

abbrev pub keeps_head : Option FactObservation → FactObservation → Bool
keeps_head none candidate = false
keeps_head (some current) candidate = not_before current candidate

abbrev pub advance_to : String → String → Option FactObservation → FactObservation → Tables → Tables
advance_to family subject_key current candidate t =
    if keeps_head current candidate
    then t
    else record t { fact_heads = set_head family subject_key candidate.id t.fact_heads }

-- `_advance_head`.
unfoldable pub advance_head : ℕ → String → String → Action Tables (Unit {0})
advance_head observation_id family subject_key = do
  current ←
      gets
        (λ t. observation_of (find (head_is family subject_key) t.fact_heads) t.fact_observations)
  found ← gets (λ t. find (observation_is observation_id) t.fact_observations)
  candidate ← or_raise found runtime_error
  modify (advance_to family subject_key current candidate)

abbrev pub observation_row : ℕ → ℕ → PreparedFact → Tables → FactObservation
observation_row batch_id ordinal p t = record {
  id = next_id (λ o. o.id) t.fact_observations;
  batch_id = batch_id;
  ordinal = ordinal;
  family = p.fact.family;
  schema_version = p.fact.schema_version;
  subject_key = p.fact.subject_key;
  resource_number = p.fact.resource_number;
  source_digest = p.fact.source_digest;
  origin = p.fact.origin;
  observed_from = p.observed_from;
  observed_until = p.observed_until;
  coverage = p.fact.coverage;
  payload_digest = p.payload_digest;
}

-- `CHECK (length(sha) IN (40, 64))` of `commit_reference_index`.
abbrev pub sha_fits : IndexRow → Bool
sha_fits row = length (codes row.sha) == 40 || length (codes row.sha) == 64

abbrev pub is_complete : Coverage → Bool
is_complete Coverage.complete = true
is_complete _ = false

-- The `INSERT INTO commit_reference_index` of a complete `commit-references` fact.
unfoldable pub index_references : ℕ → FactDraft → Action Tables (Unit {0})
index_references observation_id fact =
    if fact.family == "commit-references" && is_complete fact.coverage
    then (do
      rows ← or_raise (commit_reference_index_rows observation_id fact.payload) value_error
      guard (all sha_fits rows) integrity_error
      modify (λ t. record t { commit_reference_index = t.commit_reference_index ++ rows }))
    else pure tt

-- One round of the loop of `publish` over the prepared facts.
unfoldable pub insert_fact : ℕ → ℕ → PreparedFact → Action Tables (Unit {0})
insert_fact batch_id ordinal p = do
  row ← gets (observation_row batch_id ordinal p)
  modify (λ t. record t { fact_observations = t.fact_observations ++ row ∷ [] })
  index_references row.id p.fact
  advance_head row.id p.fact.family p.fact.subject_key

unfoldable pub insert_facts : ℕ → ℕ → List PreparedFact → Action Tables (Unit {0})
insert_facts batch_id ordinal [] = pure tt
insert_facts batch_id ordinal (p ∷ ps) =
    insert_fact batch_id ordinal p >> insert_facts batch_id (ordinal + 1) ps

abbrev pub batch_keyed : String → FactBatch → Bool
batch_keyed publication_key b = b.publication_key == publication_key

-- `_batch_facts`: the observations of a batch, which stand in the order of their ordinals.
abbrev pub batch_facts : ℕ → Tables → List FactObservation
batch_facts batch_id t = select (λ o. o.batch_id == batch_id) t.fact_observations

abbrev pub facts_of : Option FactBatch → Tables → Option (List FactObservation)
facts_of none t = none
facts_of (some b) t = some (batch_facts b.id t)

-- `publication`.
unfoldable pub publication : String → Action Archive (Option (List FactObservation))
publication publication_key =
    query (λ t. facts_of (find (batch_keyed publication_key) t.fact_batches) t)

-- The `WHERE` of `_CURRENT_FACT_QUERY` over its join with `fact_heads`.
abbrev pub is_current : String → String → List FactHead → FactObservation → Bool
is_current family subject_key heads o =
    fact_is family subject_key o && any (λ h. h.observation_id == o.id) heads

-- `current_fact`.
unfoldable pub current_fact : String → String → Action Archive (Option FactObservation)
current_fact family subject_key =
    query (λ t. find (is_current family subject_key t.fact_heads) t.fact_observations)

-- `_stored_signature(row) == _draft_signature(fact, digest)`.
abbrev pub same_signature : FactObservation → PreparedFact → Bool
same_signature o p =
    o.family == p.fact.family
    && o.schema_version == p.fact.schema_version
    && o.subject_key == p.fact.subject_key
    && o.resource_number == p.fact.resource_number
    && o.source_digest == p.fact.source_digest
    && o.origin == p.fact.origin
    && o.observed_from == p.observed_from
    && o.observed_until == p.observed_until
    && o.coverage == p.fact.coverage
    && o.payload_digest == p.payload_digest

abbrev pub same_signatures : List FactObservation → List PreparedFact → Bool
same_signatures [] [] = true
same_signatures [] (p ∷ ps) = false
same_signatures (o ∷ os) [] = false
same_signatures (o ∷ os) (p ∷ ps) = same_signature o p && same_signatures os ps

abbrev pub same_operation : FactBatch → Publication → ℕ → Bool
same_operation b p n =
    b.kind == p.kind
    && b.cycle_id == p.cycle_id
    && b.task_id == p.task_id
    && b.maintenance_task_id == p.maintenance_task_id
    && b.fact_count == n

-- `_verify_existing_batch`.
unfoldable pub verify_existing_batch :
    FactBatch → Publication → List PreparedFact → Action Tables (Unit {0})
verify_existing_batch b p prepared = do
  guard (same_operation b p (length prepared)) runtime_error
  rows ← gets (batch_facts b.id)
  guard (same_signatures rows prepared) runtime_error
