-- ===== src/Archive/Publish/Batch.antt =====
-- The batch that a publication leaves behind, and the check of a repeated one against it.
use gh_puller.Archive.Action.{gets, modify, pure, steps, ◌>>=◌, ◌>>◌}
use gh_puller.Archive.After.{OnOk-after, OnOk-weaken}
use gh_puller.Archive.Facts.{
  Publication, batch_facts, batch_keyed, insert_facts, same_operation, same_signatures,
}
use gh_puller.Archive.Keeps.{
  Keeps, Keeps-check_cycle, Keeps-check_maintenance, Keeps-check_source, Keeps-check_task,
  Keeps-each, Keeps-modify, OnOk, OnOk-proceed, put_encoded_blob_keeps,
}
use gh_puller.Archive.Model.{FactBatch, FactObservation, Tables}
use gh_puller.Archive.Prepare.{PreparedFact, put_encoded_blob}
use gh_puller.Archive.Publish.{
  batch_row, check_source, finish_published, insert_batch, publish_new, put_payload, shares_task,
}
use gh_puller.Archive.Publish.Rows.{Inserted, SameRows, insert_facts-Inserted}
use gh_puller.Base.{
  All, All-mono, Bool, Bool-cases, List, Option, [], any, ap, arith, beq_refl, false, find,
  find-append_none, inl, inr, length, nat_instance, next_id, none, option_instance, refl, select,
  some, subst₂, text_instance, true, ℕ, ◌++◌, ◌<◌, ◌==◌, ◌∙◌, ◌∷◌, ◌≡◌,
}

-- The batch of identity `batch_id` holds the facts, one row for each in order.
abbrev pub HoldsFacts : Publication → List PreparedFact → ℕ → Tables → Type 0
HoldsFacts p ps batch_id t =
    (b : FactBatch) × (b.id ≡ batch_id)
    × (find (batch_keyed p.publication_key) t.fact_batches ≡ some b)
    × (same_operation b p (length ps) ≡ true)
    × (same_signatures (batch_facts batch_id t) ps ≡ true)

same_operation_row :
    (p : Publication) (published n : ℕ) (t : Tables)
    → same_operation (batch_row p published n t) p n ≡ true
same_operation_row p published n t =
    rw
      (
        beq_refl p.kind,
        beq_refl p.cycle_id,
        beq_refl p.task_id,
        beq_refl p.maintenance_task_id,
        beq_refl n,
      )
      refl

module _ {A : Type 0} where
  pub select-append_none :
      (q : A → Bool) (xs ys : List A)
      → All (λ x. q x ≡ false) xs
      → All (λ y. q y ≡ true) ys
      → select q (xs ++ ys) ≡ ys
  select-append_none q [] [] h k = refl
  select-append_none q [] (y ∷ ys) h k =
      rw (k.0) (ap (λ zs. y ∷ zs) (select-append_none q [] ys h k.1))
  select-append_none q (x ∷ xs) ys h k = rw (h.0) (select-append_none q xs ys h.1 k)

abbrev of_batch : ℕ → FactObservation → Bool
of_batch batch_id o = o.batch_id == batch_id

-- The observations name batches that are there.
abbrev pub BatchesKnown : Tables → Type 0
BatchesKnown t = All (λ o. o.batch_id < next_id (λ b. b.id) t.fact_batches) t.fact_observations

finished :
    (published : ℕ) (o : Option ℕ) (bs : List FactBatch) (os : List FactObservation)
    → Keeps (SameRows bs os) (modify (finish_published o published))
finished published none bs os = Keeps-modify _ (λ u h. h)
finished published (some i) bs os = Keeps-modify _ (λ u h. h)

put_payload-SameRows :
    (bs : List FactBatch) (os : List FactObservation) (q : PreparedFact)
    → Keeps (SameRows bs os) (put_payload q)
unfolding put_payload
put_payload-SameRows bs os q =
    Keeps-modify (put_encoded_blob q.payload_digest q.fact.payload)
      (put_encoded_blob_keeps (SameRows bs os) (λ u b h. h) q.payload_digest q.fact.payload)

-- A publication appended one batch to `bs`, and one row of it for each fact to `os`.
abbrev pub Appended :
    Publication → List PreparedFact → List FactBatch → List FactObservation → ℕ → Tables → Type 0
Appended p ps bs os batch_id u =
    (b : FactBatch) × (b.id ≡ batch_id)
    × (b.id ≡ next_id (λ x. x.id) bs)
    × (batch_keyed p.publication_key b ≡ true)
    × (same_operation b p (length ps) ≡ true)
    × (u.fact_batches ≡ bs ++ b ∷ [])
    × (rows : List FactObservation) × (u.fact_observations ≡ os ++ rows)
    × (same_signatures rows ps ≡ true)
    × All (λ o. o.batch_id ≡ batch_id) rows

pub Appended-HoldsFacts :
    (p : Publication) (ps : List PreparedFact) (t : Tables) (i : ℕ) (u : Tables)
    → BatchesKnown t
    → find (batch_keyed p.publication_key) t.fact_batches ≡ none
    → Appended p ps t.fact_batches t.fact_observations i u
    → HoldsFacts p ps i u
Appended-HoldsFacts p ps t i u known new (b, id, fresh, keyed, operation, eb, rows, eo, same, own) =
    (
      b,
      id,
      ap (find (batch_keyed p.publication_key)) eb
          ∙ find-append_none (batch_keyed p.publication_key) t.fact_batches (b ∷ []) new
          ∙ rw keyed refl,
      operation,
      rw eo (
          rw
            (select-append_none (of_batch i) t.fact_observations rows
              (All-mono (λ o. o.batch_id < next_id (λ x. x.id) t.fact_batches)
                (λ o. of_batch i o ≡ false) t.fact_observations (λ o lt. ground arith) known)
              (All-mono (λ o. o.batch_id ≡ i) (λ o. of_batch i o ≡ true) rows (λ o e. ground arith)
                own))
            same),
    )

module _ (p : Publication) (published : ℕ) (ps : List PreparedFact) (t : Tables) where
  abbrev row : FactBatch
  row = batch_row p published (length ps) t

  -- The insertion of the batch and of its facts, and what follows them.
  inserted-Appended : OnOk (Appended p ps t.fact_batches t.fact_observations) (
      (do
        b ← gets (batch_row p published (length ps))
        insert_batch b
        insert_facts b.id 0 ps
        modify (finish_published p.task_id published)
        pure b.id)
        t)
  unfolding insert_batch steps
  inserted-Appended = elim (Bool-cases (any (shares_task row.task_id) t.fact_batches)) [
    | inl e ↦ simp e tt
    | inr e ↦ simp e (
        OnOk-proceed (λ _. Inserted row.id ps with_batch)
          (Appended p ps t.fact_batches t.fact_observations) (insert_facts row.id 0 ps with_batch) _
          (insert_facts-Inserted row.id 0 ps with_batch)
          (λ _ u i.
            let (eb, eo) =
              (finished published p.task_id u.fact_batches u.fact_observations).at u (refl, refl) in
            (
              row,
              refl,
              refl,
              beq_refl p.publication_key,
              same_operation_row p published (length ps) t,
              eb ∙ i.0,
              i.1,
              eo ∙ i.2,
              i.3,
              i.4,
            )))
  ]
    where
      with_batch : Tables
      with_batch = record t { fact_batches = t.fact_batches ++ row ∷ [] }

pub publish_new-Appended :
    (p : Publication) (published : ℕ) (ps : List PreparedFact) (t : Tables)
    → OnOk (Appended p ps t.fact_batches t.fact_observations) (publish_new p published ps t)
unfolding publish_new ◌>>◌
publish_new-Appended p published ps t =
    OnOk-after {P = before} R _ (Keeps-check_cycle p.cycle_id) (refl, refl)
      (λ _ t1 h1. OnOk-after {P = before} R _ (Keeps-check_task p.cycle_id p.task_id) h1 (λ _ t2 h2.
        OnOk-after {P = before} R _ (Keeps-check_maintenance p.maintenance_task_id) h2 (λ _ t3 h3.
          OnOk-after {P = before} R _ (Keeps-each put_payload ps (put_payload-SameRows _ _)) h3
            (λ _ t4 h4.
              OnOk-after {P = before} R _ (Keeps-each check_source ps Keeps-check_source) h4
                (λ _ t5 h5.
                  OnOk-weaken _ (λ i u h. subst₂ (λ bs os. Appended p ps bs os i u) h5.0 h5.1 h)
                    (inserted-Appended p published ps t5))))))
  where
    before : Tables → Type 0
    before = SameRows t.fact_batches t.fact_observations

    R : ℕ → Tables → Type 0
    R = Appended p ps t.fact_batches t.fact_observations

pub publish_new-HoldsFacts :
    (p : Publication) (published : ℕ) (ps : List PreparedFact) (t : Tables)
    → BatchesKnown t
    → find (batch_keyed p.publication_key) t.fact_batches ≡ none
    → OnOk (HoldsFacts p ps) (publish_new p published ps t)
publish_new-HoldsFacts p published ps t known new =
    OnOk-weaken (publish_new p published ps t) (λ i u h. Appended-HoldsFacts p ps t i u known new h)
      (publish_new-Appended p published ps t)
