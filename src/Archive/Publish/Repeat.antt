-- ===== src/Archive/Publish/Repeat.antt =====
-- A publication that succeeded is accepted again as it is.
use gh_puller.Archive.Action.{
  Action, Error, Result, gets, ok, proceed, pure, query, raise, steps, transaction, ◌>>=◌, ◌>>◌,
}
use gh_puller.Archive.Facts.{
  Publication, batch_facts, batch_keyed, same_operation, same_signatures, verify_existing_batch,
}
use gh_puller.Archive.Fixed.{
  Fixed-check_facts, Fixed-check_publication, Fixed-each, Fixed-iso, Fixed-prepare_fact, GoesOn,
  GoesOn-bind,
}
use gh_puller.Archive.Json.{Fields}
use gh_puller.Archive.Keeps.{OnOk}
use gh_puller.Archive.Model.{Archive, FactBatch, FactObservation, Tables}
use gh_puller.Archive.Prepare.{PreparedFact, prepare_fact}
use gh_puller.Archive.Publish.{publish, publish_prepared}
use gh_puller.Archive.Publish.Batch.{BatchesKnown, HoldsFacts, publish_new-HoldsFacts}
use gh_puller.Base.{
  Bool-cases, List, Option-cases, String, ap, false, find, inl, inr, length, nat_instance,
  option_instance, refl, some, subst, sym, text_instance, true, ℕ, ◌∙◌, ◌≡◌,
}

existing-HoldsFacts :
    (p : Publication) (ps : List PreparedFact) (b : FactBatch) (t : Tables)
    → find (batch_keyed p.publication_key) t.fact_batches ≡ some b
    → OnOk (HoldsFacts p ps) ((verify_existing_batch b p ps >> pure b.id) t)
unfolding verify_existing_batch steps
existing-HoldsFacts p ps b t found = elim (Bool-cases (same_operation b p (length ps))) [
  | inr e ↦ simp e tt
  | inl e ↦ elim (Bool-cases (same_signatures (batch_facts b.id t) ps)) [
    | inr i ↦ simp (e, i) tt
    | inl i ↦ simp (e, i) (b, refl, found, e, refl)
  ]
]

pub publish_prepared-HoldsFacts :
    (p : Publication) (published : ℕ) (ps : List PreparedFact) (t : Tables)
    → BatchesKnown t
    → OnOk (HoldsFacts p ps) (publish_prepared p published ps t)
unfolding publish_prepared ◌>>=◌ proceed gets
publish_prepared-HoldsFacts p published ps t known =
    elim (Option-cases (find (batch_keyed p.publication_key) t.fact_batches)) [
      | inl e ↦ rw e (publish_new-HoldsFacts p published ps t known e)
      | inr (b, e) ↦ rw e (existing-HoldsFacts p ps b t e)
    ]

pub publish_prepared-repeats :
    (p : Publication) (published : ℕ) (ps : List PreparedFact) (i : ℕ) (t : Tables)
    → HoldsFacts p ps i t
    → publish_prepared p published ps t ≡ (ok i, t)
unfolding publish_prepared verify_existing_batch steps
publish_prepared-repeats p published ps i t (b, id, found, operation, facts) =
    let here : same_signatures (batch_facts b.id t) ps ≡ true =
      ap (λ n. same_signatures (batch_facts n t) ps) id ∙ facts in
    rw (found, operation, here) (ap (λ n. (ok n, t)) id)

module _ (digest : Fields → String) where
  -- What `publish` does once its arguments pass the checks that read no state.
  abbrev publish_checked :
      Publication → ℕ × List PreparedFact → Action Archive (List FactObservation)
  publish_checked p (published, ps) =
      transaction (publish_prepared p published ps) >>= λ i. query (batch_facts i)

  publish-GoesOn : (p : Publication) → GoesOn (publish_checked p) (publish digest p)
  unfolding publish ◌>>◌
  publish-GoesOn p = GoesOn-bind (publish_checked p) _ _ (Fixed-check_publication p) (λ _.
      GoesOn-bind (publish_checked p) _ _ (Fixed-iso p.published_at) (λ published.
        GoesOn-bind (publish_checked p) _ _
          (Fixed-each (prepare_fact digest) p.facts (Fixed-prepare_fact digest))
          (λ ps.
            GoesOn-bind (publish_checked p) _ _ (Fixed-check_facts published ps)
              (λ _. inr ((published, ps), λ s. refl)))))

  checked-repeats :
      (p : Publication) (x : ℕ × List PreparedFact) (s s' : Archive) (rows : List FactObservation)
      → BatchesKnown s.tables
      → publish_checked p x s ≡ (ok rows, s')
      → publish_checked p x s' ≡ (ok rows, s')
  unfolding steps
  checked-repeats p (n, ps) s s' rows known q = elim (Bool-cases s.in_transaction) [
    | inl e ↦
        let no : publish_checked p (n, ps) s ≡ (raise Error.operational_error, s) = rw e refl in
        absurd (cc)
    | inr e ↦
        go (publish_prepared p n ps s.tables) refl
          (publish_prepared-HoldsFacts p n ps s.tables known) e
  ]
    where
      go :
          (r : Result ℕ × Tables)
          → publish_prepared p n ps s.tables ≡ r
          → OnOk (HoldsFacts p ps) r
          → s.in_transaction ≡ false
          → publish_checked p (n, ps) s' ≡ (ok rows, s')
      go (raise er, u) out h e =
          let no : publish_checked p (n, ps) s ≡ (raise er, s) = rw (e, out) refl in absurd (cc)
      go (ok i, u) out h e =
          let after : Archive = record s { tables = u } in
          let first : publish_checked p (n, ps) s ≡ (ok (batch_facts i u), after) =
            rw (e, out) refl in
          let second : publish_checked p (n, ps) after ≡ (ok (batch_facts i u), after) =
            rw (e, publish_prepared-repeats p n ps i u h) refl in
          subst (λ x. publish_checked p (n, ps) x.1 ≡ x) (sym first ∙ q) second

  pub publish-repeats_known :
      (p : Publication) (s s' : Archive) (rows : List FactObservation)
      → BatchesKnown s.tables
      → publish digest p s ≡ (ok rows, s')
      → publish digest p s' ≡ (ok rows, s')
  publish-repeats_known p s s' rows known q = elim (publish-GoesOn p) [
    | inl (e, h) ↦ let no = h s in absurd (cc)
    | inr (x, h) ↦ h s' ∙ checked-repeats p x s s' rows known (sym (h s) ∙ q)
  ]
