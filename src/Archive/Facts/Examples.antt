-- ===== src/Archive/Facts/Examples.antt =====
-- A pull request's commits, extracted and indexed.
use gh_puller.Archive.Json.{Fields, Items, Json}
use gh_puller.Base.{none, all, if◌then◌else◌, List, String, [], refl, some, ◌∷◌, ◌≡◌}
use gh_puller.CommitReferences.{is_sha, number_rows}
use gh_puller.CommitReferences.Extract.{
  CommitReference, Segment, encoded, enumerate, observation_commit_references,
}
use gh_puller.Archive.Action.{ok, raise, integrity_error}
use gh_puller.Archive.Calls.{empty_tables}
use gh_puller.Archive.Facts.{index_references}
use gh_puller.Archive.Facts.Indexing.{has_index_length, index_references-extracted}
use gh_puller.Archive.Model.{Coverage, FactDraft, Origin, aware}

abbrev commit_sha : String
commit_sha = "0123456789abcdef0123456789abcdef01234567"

abbrev pull_commits : Fields
pull_commits =
    Fields.field "value"
      (Json.array
        (Items.cons (Json.object (Fields.field "sha" (Json.text commit_sha) Fields.end)) Items.nil))
      Fields.end

abbrev reference : CommitReference
reference = record {
  sha = commit_sha;
  field_path = Segment.key "value" ∷ Segment.at 0 ∷ Segment.key "sha" ∷ [];
  source_kind = "pull_commit";
  source_id = some (Json.text commit_sha);
}

abbrev no_path : List Segment → String
no_path path = "/value/0/sha"

abbrev derived : Fields
derived = Fields.field "references" (Json.array (encoded no_path (reference ∷ []))) Fields.end

extracted : observation_commit_references "pull-commits" pull_commits ≡ some (reference ∷ [])
unfolding observation_commit_references enumerate is_sha
extracted = refl

abbrev derived_fact : FactDraft
derived_fact = record {
  family = "commit-references";
  subject_key = "pull-commits:1";
  observed_from = aware 10;
  observed_until = aware 20;
  coverage = Coverage.complete;
  origin = Origin.derived;
  payload = derived;
  resource_number = some 1;
  source_digest = none;
  schema_version = 1;
}

index_references-extracted_example : index_references 5 derived_fact empty_tables ≡ (
    if all has_index_length (reference ∷ [])
    then (ok tt, record empty_tables { commit_reference_index = number_rows 5 0 (commit_sha ∷ []) })
    else (raise integrity_error, empty_tables))
index_references-extracted_example =
    index_references-extracted no_path "pull-commits" pull_commits derived_fact 5 (reference ∷ [])
      empty_tables extracted refl refl refl
