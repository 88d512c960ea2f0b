-- ===== src/CommitReferences/Extract.antt =====
-- gh_puller/github/commit_references.py: the commit identities that a source fact names.
use gh_puller.Archive.Json.{Fields, Items, Json, get, to_list}
use gh_puller.Base.{
  Bool, List, Option, String, [], false, if◌then◌else◌, nat_instance, none, option_instance, some,
  text_instance, ℕ, ◌++◌, ◌+◌, ◌==◌, ◌||◌, ◌∷◌,
}
use gh_puller.CommitReferences.{is_sha}

-- One segment of a JSON path, which the program writes after a slash.
pub data Segment : Type 0 where
  key : String → Segment
  at : ℕ → Segment

pub record CommitReference : Type 0 where
  pub sha : String
  pub field_path : List Segment
  pub source_kind : String
  pub source_id : Option Json

-- `isinstance(source_id, (int, str))`; a Boolean is an `int`.
abbrev pub identity : Option Json → Option Json
identity (some (Json.number n)) = some (Json.number n)
identity (some (Json.text t)) = some (Json.text t)
identity (some (Json.boolean b)) = some (Json.boolean b)
identity _ = none

-- `_append`: nothing for a missing value, and `none` for `ValueError`.
abbrev pub append_reference :
    Option Json → List Segment → String → Option Json → Option (List CommitReference)
append_reference none path kind source_id = some []
append_reference (some Json.null) path kind source_id = some []
append_reference (some (Json.text sha)) path kind source_id =
    if is_sha sha
    then some (
        (record {
          sha = sha;
          field_path = path;
          source_kind = kind;
          source_id = identity source_id;
        })
        ∷ [])
    else none
append_reference (some _) path kind source_id = none

-- The references of one part, then those of the next.
abbrev pub then_references :
    Option (List CommitReference) → Option (List CommitReference) → Option (List CommitReference)
then_references none b = none
then_references (some xs) none = none
then_references (some xs) (some ys) = some (xs ++ ys)

-- A loop over `enumerate(…)`.
unfoldable pub enumerate :
    (ℕ → Fields → Option (List CommitReference)) → ℕ → List Fields → Option (List CommitReference)
enumerate f n [] = some []
enumerate f n (x ∷ xs) = then_references (f n x) (enumerate f (n + 1) xs)

abbrev pub only_objects : List Json → List Fields
only_objects [] = []
only_objects (Json.object fs ∷ xs) = fs ∷ only_objects xs
only_objects (_ ∷ xs) = only_objects xs

-- `_objects`.
abbrev pub objects : Option Json → List Fields
objects (some (Json.array xs)) = only_objects (to_list xs)
objects _ = []

-- `x.get(key) if isinstance(x, dict) else None`.
abbrev pub sub : String → Option Json → Option Json
sub k (some (Json.object fs)) = get k fs
sub k _ = none

abbrev pub thread_path : ℕ → ℕ → String → List Segment
thread_path thread comment name =
    key "raw"
    ∷ key "nodes"
    ∷ at thread
    ∷ key "comments"
    ∷ key "nodes"
    ∷ at comment
    ∷ key name
    ∷ key "oid"
    ∷ []

abbrev pub comment_references : ℕ → ℕ → Fields → Option (List CommitReference)
comment_references thread n comment =
    then_references
      (append_reference (sub "oid" (get "commit" comment)) (thread_path thread n "commit")
        "review_thread_comment" (get "id" comment))
      (append_reference (sub "oid" (get "originalCommit" comment))
        (thread_path thread n "originalCommit") "review_thread_comment" (get "id" comment))

-- `review_thread_commit_references`.
unfoldable pub review_thread_commit_references : Fields → Option (List CommitReference)
review_thread_commit_references payload =
    enumerate
      (λ thread fs.
        enumerate (comment_references thread) 0 (objects (sub "nodes" (get "comments" fs))))
      0 (objects (sub "nodes" (get "raw" payload)))

abbrev pub value_path : ℕ → String → List Segment
value_path n name = key "value" ∷ at n ∷ key name ∷ []

abbrev pub or_key : Option Json → Option Json → Option Json
or_key none b = b
or_key (some a) b = some a

abbrev pub is_committed : Option Json → Bool
is_committed (some (Json.text t)) = t == "committed"
is_committed _ = false

-- One event of `_append_event_references`.
abbrev pub event_references : String → ℕ → Fields → Option (List CommitReference)
event_references family n event =
    let source_id = or_key (get "id" event) (get "node_id" event) in
    then_references
      (append_reference (get "commit_id" event) (value_path n "commit_id") family source_id)
      (then_references
        (if is_committed (get "event" event)
          then append_reference (get "sha" event) (value_path n "sha") family source_id
          else some [])
        (then_references
          (append_reference (sub "sha" (get "commit" event))
            (key "value" ∷ at n ∷ key "commit" ∷ key "sha" ∷ []) family source_id)
          (append_reference (sub "oid" (get "commit" event))
            (key "value" ∷ at n ∷ key "commit" ∷ key "oid" ∷ []) family source_id)))

abbrev pub pull_commit_references : ℕ → Fields → Option (List CommitReference)
pull_commit_references n c =
    append_reference (get "sha" c) (value_path n "sha") "pull_commit" (get "sha" c)

abbrev pub review_references : ℕ → Fields → Option (List CommitReference)
review_references n r =
    append_reference (get "commit_id" r) (value_path n "commit_id") "review" (get "id" r)

abbrev pub review_comment_references : ℕ → Fields → Option (List CommitReference)
review_comment_references n c =
    then_references
      (append_reference (get "commit_id" c) (value_path n "commit_id") "review_comment"
        (get "id" c))
      (append_reference (get "original_commit_id" c) (value_path n "original_commit_id")
        "review_comment" (get "id" c))

-- `observation_commit_references`.
unfoldable pub observation_commit_references : String → Fields → Option (List CommitReference)
observation_commit_references family payload =
    let values = objects (get "value" payload) in
    if family == "pull-review-threads"
    then review_thread_commit_references payload
    else if family == "pull-commits"
    then enumerate pull_commit_references 0 values
    else if family == "pull-reviews"
    then enumerate review_references 0 values
    else if family == "pull-review-comments"
    then enumerate review_comment_references 0 values
    else if family == "issue-timeline" || family == "issue-events"
    then enumerate (event_references family) 0 values
    else some []

-- `commit_reference_payload`; `path` writes a JSON path as text.
abbrev pub null_or : Option Json → Json
null_or none = Json.null
null_or (some v) = v

module _ (path : List Segment → String) where
  abbrev pub commit_reference_payload : CommitReference → Fields
  commit_reference_payload r = Fields.field "sha" (Json.text r.sha) (
      Fields.field "field_path" (Json.text (path r.field_path)) (
        Fields.field "source_kind" (Json.text r.source_kind)
          (Fields.field "source_id" (null_or r.source_id) Fields.end)))

  -- The member `references` of a derived fact.
  abbrev pub encoded : List CommitReference → Items
  encoded [] = Items.nil
  encoded (r ∷ rs) = Items.cons (Json.object (commit_reference_payload r)) (encoded rs)
