-- ===== src/CommitReferences.antt =====
-- gh_puller/github/commit_references.py: the commit identities that one published
-- `commit-references` fact names.
pub mod Extract
pub mod Indexed
use gh_puller.Archive.Json.{Fields, Json, get, to_list}
use gh_puller.Archive.Model.{IndexRow}
use gh_puller.Base.{
  Bool, List, Option, String, [], all, codes, if◌then◌else◌, is_hex, leb, length, none, some, ℕ,
  ◌&&◌, ◌+◌, ◌∷◌,
}

-- `_SHA.fullmatch`: 40 to 64 lower-case hexadecimal digits.
unfoldable pub is_sha : String → Bool
is_sha value =
    leb 40 (length (codes value)) && leb (length (codes value)) 64 && all is_hex (codes value)

-- The `sha` of one member of `references`: `none` where the member is malformed.
abbrev pub reference_sha : Json → Option String
reference_sha (Json.object fs) = elim (get "sha" fs) [
  | some (Json.text sha) ↦ if is_sha sha then some sha else none
  | _ ↦ none
]
reference_sha _ = none

abbrev pub cons_sha : Option String → Option (List String) → Option (List String)
cons_sha none rest = none
cons_sha (some sha) none = none
cons_sha (some sha) (some rest) = some (sha ∷ rest)

abbrev pub all_shas : List Json → Option (List String)
all_shas [] = some []
all_shas (v ∷ vs) = cons_sha (reference_sha v) (all_shas vs)

abbrev pub member_shas : Option Json → Option (List String)
member_shas (some (Json.array xs)) = all_shas (to_list xs)
member_shas _ = none

-- `commit_reference_provenance`, of which the index keeps the `sha`; `none` for `ValueError`.
unfoldable pub reference_shas : Fields → Option (List String)
reference_shas payload = member_shas (get "references" payload)

abbrev pub number_rows : ℕ → ℕ → List String → List IndexRow
number_rows observation_id ordinal [] = []
number_rows observation_id ordinal (sha ∷ shas) =
    (record { observation_id = observation_id; ordinal = ordinal; sha = sha })
    ∷ number_rows observation_id (ordinal + 1) shas

abbrev pub number_all : ℕ → Option (List String) → Option (List IndexRow)
number_all observation_id none = none
number_all observation_id (some shas) = some (number_rows observation_id 0 shas)

-- `commit_reference_index_rows`.
unfoldable pub commit_reference_index_rows : ℕ → Fields → Option (List IndexRow)
commit_reference_index_rows observation_id payload =
    number_all observation_id (reference_shas payload)
