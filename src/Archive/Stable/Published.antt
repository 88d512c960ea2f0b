-- ===== src/Archive/Stable/Published.antt =====
-- A property that a publication's own rows leave alone is kept by the publication.
use gh_puller.Archive.Action.{modify}
use gh_puller.Archive.Facts.{
  Publication, advance_head, advance_to, index_references, insert_fact, insert_facts, keeps_head,
}
use gh_puller.Archive.Keeps.{Keeps, Keeps-modify, Keeps-pure, Keeps-then, keeping}
use gh_puller.Archive.Model.{FactBatch, FactDraft, FactObservation, Tables}
use gh_puller.Archive.Prepare.{PreparedFact}
use gh_puller.Archive.Publish.{finish_published, insert_batch, publish_new, put_payload}
use gh_puller.Archive.Stable.{FactSteps, RowSteps, Steady}
use gh_puller.Archive.Stable.Steps.{finish-Steady, put_payload-Steady}
use gh_puller.Base.{Bool-cases, List, Option, String, [], inl, inr, ℕ, ◌+◌, ◌∷◌}

module _ {P : Tables → Type 0} (free : RowSteps P) where
  advance_to-free :
      (f s : String) (cur : Option FactObservation) (row : FactObservation) (t : Tables)
      → P t
      → P (advance_to f s cur row t)
  advance_to-free f s cur row t h = elim (Bool-cases (keeps_head cur row)) [
    | inl e ↦ simp e h
    | inr e ↦ simp e (free.heads t _ h)
  ]

  index_references-free : (i : ℕ) (fact : FactDraft) → Keeps P (index_references i fact)
  unfolding index_references
  index_references-free i fact = search (keeping, Keeps-modify, free.index)

  advance_head-free : (i : ℕ) (f s : String) → Keeps P (advance_head i f s)
  unfolding advance_head
  advance_head-free i f s = search (keeping, Keeps-modify, advance_to-free)

  insert_fact-free : (b n : ℕ) (p : PreparedFact) → Keeps P (insert_fact b n p)
  unfolding insert_fact
  insert_fact-free b n p =
      search (keeping, Keeps-modify, free.observation, index_references-free, advance_head-free)

  pub insert_facts-free : (b n : ℕ) (ps : List PreparedFact) → Keeps P (insert_facts b n ps)
  unfolding insert_facts
  insert_facts-free b n [] = Keeps-pure tt
  insert_facts-free b n (p ∷ ps) =
      Keeps-then (insert_fact-free b n p) (insert_facts-free b (n + 1) ps)

abbrev rows_of : {P : Tables → Type 0} → FactSteps P → RowSteps P
rows_of free = record { observation = free.observation; index = free.index; heads = free.heads }

module _ {P : Tables → Type 0} (k : Steady P) (free : FactSteps P) where
  insert_batch-free : (b : FactBatch) → Keeps P (insert_batch b)
  unfolding insert_batch
  insert_batch-free b = search (keeping, Keeps-modify, free.batch)

  pub publish_new-free :
      (p : Publication) (n : ℕ) (ps : List PreparedFact) → Keeps P (publish_new p n ps)
  unfolding publish_new
  publish_new-free p n ps = search (keeping, insert_batch-free, facts, payload, finish) depth 14
    where
      facts : (b m : ℕ) (qs : List PreparedFact) → Keeps P (insert_facts b m qs)
      facts b m qs = insert_facts-free (rows_of free) b m qs

      payload : (q : PreparedFact) → Keeps P (put_payload q)
      payload q = put_payload-Steady k q

      finish : (o : Option ℕ) (m : ℕ) → Keeps P (modify (finish_published o m))
      finish o m = finish-Steady k o m
