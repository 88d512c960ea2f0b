-- ===== src/CommitReferences/Indexed.antt =====
-- Every extracted reference has a row.
use gh_puller.Archive.Json.{Fields, Json, get, to_list}
use gh_puller.Base.{
  All, All-append, Bool, Bool-cases, List, Option, String, [], ap, ap₂, false, if◌then◌else◌, inl,
  inr, map, none, refl, some, subst, true, ℕ, ◌+◌, ◌∙◌, ◌∷◌, ◌≡◌,
}
use gh_puller.CommitReferences.{
  all_shas, commit_reference_index_rows, cons_sha, is_sha, member_shas, number_all, number_rows,
  reference_sha, reference_shas,
}
use gh_puller.CommitReferences.Extract.{
  CommitReference, Segment, append_reference, commit_reference_payload, encoded, enumerate,
  observation_commit_references, review_thread_commit_references, then_references,
}

abbrev Shas : Option (List CommitReference) → Type 0
Shas none = Unit
Shas (some rs) = All (λ r. is_sha r.sha ≡ true) rs

-- The references of an extraction that raises nothing are commit identities.
record Sound (o : Option (List CommitReference)) : Type 0 where
  all_shas_valid : Shas o

append_reference-Shas :
    (v : Option Json) (path : List Segment) (kind : String) (source_id : Option Json)
    → Shas (append_reference v path kind source_id)
append_reference-Shas none path kind source_id = tt
append_reference-Shas (some Json.null) path kind source_id = tt
append_reference-Shas (some (Json.text sha)) path kind source_id = elim (Bool-cases (is_sha sha)) [
  | inl e ↦ rw e (e, tt)
  | inr e ↦ rw e tt
]
append_reference-Shas (some (Json.number n)) path kind source_id = tt
append_reference-Shas (some (Json.boolean b)) path kind source_id = tt
append_reference-Shas (some (Json.array xs)) path kind source_id = tt
append_reference-Shas (some (Json.object fs)) path kind source_id = tt

append_reference-Sound :
    (v : Option Json) (path : List Segment) (kind : String) (source_id : Option Json)
    → Sound (append_reference v path kind source_id)
append_reference-Sound v path kind source_id = record {
  all_shas_valid = append_reference-Shas v path kind source_id;
}

nothing-Sound : Sound (some [])
nothing-Sound = record { all_shas_valid = tt }

then_references-Shas :
    (a b : Option (List CommitReference)) → Shas a → Shas b → Shas (then_references a b)
then_references-Shas none b h k = tt
then_references-Shas (some xs) none h k = tt
then_references-Shas (some xs) (some ys) h k = All-append (λ r. is_sha r.sha ≡ true) xs ys h k

then_references-Sound :
    (a b : Option (List CommitReference)) → Sound a → Sound b → Sound (then_references a b)
then_references-Sound a b h k = record {
  all_shas_valid = then_references-Shas a b h.all_shas_valid k.all_shas_valid;
}

enumerate-Sound :
    (f : ℕ → Fields → Option (List CommitReference)) (n : ℕ) (xs : List Fields)
    → ((m : ℕ) (fs : Fields) → Sound (f m fs))
    → Sound (enumerate f n xs)
unfolding enumerate
enumerate-Sound f n [] k = record { all_shas_valid = tt }
enumerate-Sound f n (x ∷ xs) k = record {
  all_shas_valid =
      then_references-Shas (f n x) (enumerate f (n + 1) xs) (k n x).all_shas_valid
        (enumerate-Sound f (n + 1) xs k).all_shas_valid;
}

if-Sound :
    (b : Bool) {x y : Option (List CommitReference)}
    → Sound x
    → Sound y
    → Sound (if b then x else y)
if-Sound true h k = h
if-Sound false h k = k

ruleset sound =
    (if-Sound, nothing-Sound, append_reference-Sound, then_references-Sound, enumerate-Sound)

observation-Sound :
    (family : String) (payload : Fields) → Sound (observation_commit_references family payload)
unfolding observation_commit_references review_thread_commit_references
observation-Sound family payload = search sound depth 12

shas : List CommitReference → List String
shas rs = map (λ r. r.sha) rs

reference_sha-payload :
    (path : List Segment → String) (r : CommitReference)
    → is_sha r.sha ≡ true
    → reference_sha (Json.object (commit_reference_payload path r)) ≡ some r.sha
reference_sha-payload path r h = simp h refl

all_shas-encoded :
    (path : List Segment → String) (rs : List CommitReference)
    → All (λ r. is_sha r.sha ≡ true) rs
    → all_shas (to_list (encoded path rs)) ≡ some (shas rs)
unfolding shas
all_shas-encoded path [] h = refl
all_shas-encoded path (r ∷ rs) h =
    ap₂ cons_sha (reference_sha-payload path r h.0) (all_shas-encoded path rs h.1)

-- A derived fact that holds the references extracted from a source has one row for each reference,
-- with its commit, in the order of extraction. The index may refuse the rows.
pub commit_reference_index_rows-extracted :
    (path : List Segment → String) (family : String) (source payload : Fields) (observation_id : ℕ)
    (rs : List CommitReference)
    → observation_commit_references family source ≡ some rs
    → get "references" payload ≡ some (Json.array (encoded path rs))
    → commit_reference_index_rows observation_id payload
      ≡ some (number_rows observation_id 0 (map (λ r. r.sha) rs))
unfolding commit_reference_index_rows reference_shas shas
commit_reference_index_rows-extracted path family source payload observation_id rs extracted
      stored =
    let sound : Sound (some rs) = subst Sound extracted (observation-Sound family source) in
    ap (λ v. number_all observation_id (member_shas v)) stored
    ∙ ap (number_all observation_id) (all_shas-encoded path rs sound.all_shas_valid)
