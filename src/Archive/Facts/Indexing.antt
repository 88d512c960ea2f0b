-- ===== src/Archive/Facts/Indexing.antt =====
-- What `publish` does with the references of a derived fact, of whatever length their identities are.
use gh_puller.Archive.Action.{ok, raise, integrity_error, steps}
use gh_puller.Archive.Facts.{index_references, sha_fits}
use gh_puller.Archive.Json.{Fields, Json, get}
use gh_puller.Archive.Model.{Coverage, FactDraft, Tables}
use gh_puller.Base.{
  Bool, Bool-cases, List, String, [], all, ap, codes, if◌then◌else◌, inl, inr, length, map,
  nat_instance, refl, some, text_instance, ℕ, ◌&&◌, ◌+◌, ◌++◌, ◌==◌, ◌||◌, ◌∷◌, ◌≡◌, ◌∙◌,
}
use gh_puller.CommitReferences.{number_rows}
use gh_puller.CommitReferences.Extract.{
  CommitReference, Segment, encoded, observation_commit_references,
}
use gh_puller.CommitReferences.Indexed.{commit_reference_index_rows-extracted}

-- `CHECK (length(sha) IN (40, 64))`.
abbrev pub has_index_length : CommitReference → Bool
has_index_length r = length (codes r.sha) == 40 || length (codes r.sha) == 64

all-sha_fits :
    (observation_id ordinal : ℕ) (rs : List CommitReference)
    → all sha_fits (number_rows observation_id ordinal (map (λ r. r.sha) rs))
      ≡ all has_index_length rs
all-sha_fits observation_id ordinal [] = refl
all-sha_fits observation_id ordinal (r ∷ rs) =
    ap (λ b. has_index_length r && b) (all-sha_fits observation_id (ordinal + 1) rs)

-- A complete fact of the family `commit-references` that holds the references extracted from a source
-- is indexed where each of their identities has 40 or 64 digits: it gets one row for each reference,
-- with its commit, in the order of extraction. Where one has another length, `IntegrityError` is
-- raised and no row is added.
pub index_references-extracted :
    (path : List Segment → String) (family : String) (source : Fields) (fact : FactDraft)
    (observation_id : ℕ) (rs : List CommitReference) (t : Tables)
    → observation_commit_references family source ≡ some rs
    → fact.family ≡ "commit-references"
    → fact.coverage ≡ Coverage.complete
    → get "references" fact.payload ≡ some (Json.array (encoded path rs))
    → index_references observation_id fact t ≡ (
        if all has_index_length rs
        then (
          ok tt,
          record t {
            commit_reference_index =
                t.commit_reference_index ++ number_rows observation_id 0 (map (λ r. r.sha) rs);
          },
        )
        else (raise integrity_error, t))
unfolding index_references steps
index_references-extracted path family source fact observation_id rs t extracted derived whole
      stored =
    let rows =
      commit_reference_index_rows-extracted path family source fact.payload observation_id rs
        extracted stored in
    elim (Bool-cases (all has_index_length rs)) [
      | inl e ↦ simp (derived, whole, rows, all-sha_fits observation_id 0 rs ∙ e, e) refl
      | inr e ↦ simp (derived, whole, rows, all-sha_fits observation_id 0 rs ∙ e, e) refl
    ]
