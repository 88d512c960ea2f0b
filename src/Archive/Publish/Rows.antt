-- ===== src/Archive/Publish/Rows.antt =====
-- The rows that a publication inserts, compared with the facts that it was given.
use gh_puller.Archive.Action.{steps}
use gh_puller.Archive.After.{OnOk-weaken}
use gh_puller.Archive.Facts.{
  advance_head, advance_to, index_references, insert_fact, insert_facts, keeps_head,
  observation_row, same_signature, same_signatures,
}
use gh_puller.Archive.Keeps.{Keeps, Keeps-modify, Keeps-then, OnOk, OnOk-proceed, keeping}
use gh_puller.Archive.Model.{FactBatch, FactDraft, FactObservation, Tables}
use gh_puller.Archive.Prepare.{PreparedFact}
use gh_puller.Base.{
  All, Bool-cases, List, Option, String, [], ap, append-nil, append_assoc, beq_refl, inl, inr,
  nat_instance, option_instance, refl, sym, text_instance, true, ℕ, ◌++◌, ◌+◌, ◌∙◌, ◌∷◌, ◌≡◌,
}

-- `insert_facts` appends one row of the batch for each fact, in order, and no batch.
abbrev pub Inserted : ℕ → List PreparedFact → Tables → Tables → Type 0
Inserted batch_id ps t u =
    (u.fact_batches ≡ t.fact_batches)
    × (rows : List FactObservation) × (u.fact_observations ≡ t.fact_observations ++ rows)
    × (same_signatures rows ps ≡ true)
    × All (λ o. o.batch_id ≡ batch_id) rows

same_signature_row :
    (b n : ℕ) (p : PreparedFact) (t : Tables) → same_signature (observation_row b n p t) p ≡ true
same_signature_row b n p t =
    rw
      (
        beq_refl p.fact.family,
        beq_refl p.fact.schema_version,
        beq_refl p.fact.subject_key,
        beq_refl p.fact.resource_number,
        beq_refl p.fact.source_digest,
        beq_refl p.fact.origin,
        beq_refl p.observed_from,
        beq_refl p.observed_until,
        beq_refl p.fact.coverage,
        beq_refl p.payload_digest,
      )
      refl

-- What neither an index nor a head changes.
abbrev pub SameRows : List FactBatch → List FactObservation → Tables → Type 0
SameRows bs os t = (t.fact_batches ≡ bs) × (t.fact_observations ≡ os)

index_references-SameRows :
    (bs : List FactBatch) (os : List FactObservation) (i : ℕ) (fact : FactDraft)
    → Keeps (SameRows bs os) (index_references i fact)
unfolding index_references
index_references-SameRows bs os i fact = search (keeping, Keeps-modify)

advance_to-SameRows :
    (bs : List FactBatch) (os : List FactObservation) (f s : String) (cur : Option FactObservation)
    (row : FactObservation) (t : Tables)
    → SameRows bs os t
    → SameRows bs os (advance_to f s cur row t)
advance_to-SameRows bs os f s cur row t h = elim (Bool-cases (keeps_head cur row)) [
  | inl e ↦ simp e h
  | inr e ↦ simp e h
]

advance_head-SameRows :
    (bs : List FactBatch) (os : List FactObservation) (i : ℕ) (f s : String)
    → Keeps (SameRows bs os) (advance_head i f s)
unfolding advance_head
advance_head-SameRows bs os i f s = search (keeping, Keeps-modify, advance_to-SameRows)

insert_fact-SameRows :
    (b n : ℕ) (p : PreparedFact) (t : Tables)
    → OnOk
        (λ _. SameRows t.fact_batches (t.fact_observations ++ observation_row b n p t ∷ []))
        (insert_fact b n p t)
unfolding insert_fact steps
insert_fact-SameRows b n p t =
    let row = observation_row b n p t in
    let os = t.fact_observations ++ row ∷ [] in
    (Keeps-then (index_references-SameRows t.fact_batches os row.id p.fact)
        (advance_head-SameRows t.fact_batches os row.id p.fact.family p.fact.subject_key)).at
      (record t { fact_observations = os }) (refl, refl)

pub insert_facts-Inserted :
    (b n : ℕ) (ps : List PreparedFact) (t : Tables)
    → OnOk (λ _. Inserted b ps t) (insert_facts b n ps t)
unfolding insert_facts steps
insert_facts-Inserted b n [] t = (refl, [], sym (append-nil t.fact_observations), refl, tt)
insert_facts-Inserted b n (p ∷ ps) t =
    OnOk-proceed
      (λ _. SameRows t.fact_batches (t.fact_observations ++ observation_row b n p t ∷ []))
      (λ _. Inserted b (p ∷ ps) t) (insert_fact b n p t) (λ _. insert_facts b (n + 1) ps)
      (insert_fact-SameRows b n p t)
      (λ _ u same.
        OnOk-weaken (insert_facts b (n + 1) ps u) (λ _. inserted u same)
          (insert_facts-Inserted b (n + 1) ps u))
  where
    inserted :
        (u : Tables)
        → SameRows t.fact_batches (t.fact_observations ++ observation_row b n p t ∷ []) u
        → (w : Tables) → Inserted b ps u w
        → Inserted b (p ∷ ps) t w
    inserted u (eb, eo) w (fb, rows, fo, same, own) = (
      fb ∙ eb,
      observation_row b n p t ∷ rows,
      fo
          ∙ ap (λ os. os ++ rows) eo
          ∙ append_assoc t.fact_observations (observation_row b n p t ∷ []) rows,
      rw (same_signature_row b n p t) same,
      (refl, own),
    )
