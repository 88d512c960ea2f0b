-- ===== src/Plan/Requests.antt =====
-- `refresh_request`, `refresh_plan` and `parent_refresh_scope` of gh_puller/github/maintenance.py.
pub mod Planned
pub mod Scopes
use gh_puller.Archive.Action.{Action, Error, each, guard, lift, or_raise, pure, ◌>>=◌, ◌>>◌}
use gh_puller.Archive.Json.{Fields, Items, Json, cons, end, field, get, nil, to_list}
use gh_puller.Base.{
  Bool, List, Option, String, [], all, any, codes, false, if◌then◌else◌, is_hex, leb, length,
  nat_eq, nat_instance, none, not, option_instance, select, some, sorted_set, text_instance, true,
  zero, ℕ, ◌&&◌, ◌++◌, ◌==◌, ◌||◌, ◌∷◌, is_none,
}
use gh_puller.Ordered.Sets.{include, member, set_of, string_sortable, union}
use gh_puller.Plan.Families.{
  FamilyPlan, Kind, applicable, common, is_empty, issue, issue_families, parent_family_plan, pull,
  pull_families, refresh_families,
}

pub record Request : Type 0 where
  pub commits : List String
  pub families : List String
  pub issues : List ℕ
  pub pulls : List ℕ

-- What is planned for each group of targets.
pub record RefreshPlan : Type 0 where
  pub issues : Option FamilyPlan
  pub pulls : Option FamilyPlan
  pub commits : Option FamilyPlan
  pub repository : Option FamilyPlan

abbrev pub no_numbers : List ℕ → Bool
no_numbers [] = true
no_numbers (n ∷ ns) = false

-- Families for a group that is not empty.
abbrev pub families_if : Bool → List String → List String
families_if true fs = fs
families_if false fs = []

-- `s - t`.
abbrev pub minus : List String → List String → List String
minus s t = select (λ f. not (member f t)) s

abbrev pub singular_plan : String → FamilyPlan
singular_plan family = record {
  requested = family ∷ [];
  effective = family ∷ [];
  reference_sources = [];
}

unfoldable pub plan_repository : List String → Option FamilyPlan × List String
plan_repository selected =
    if member "git-refs" selected
    then (some (singular_plan "git-refs"), "git-refs" ∷ [])
    else (none, [])

module _ {S : Type 0} where
  -- `validate_commit_sha`.
  unfoldable pub validate_commit_sha : String → Action S String
  validate_commit_sha value = do
    let size = length (codes value)
    guard (nat_eq size 40 || nat_eq size 64) Error.value_error
    guard (all is_hex (codes value)) Error.value_error
    pure value

  -- `_numbers`.
  unfoldable pub numbers : List ℕ → Action S (List ℕ)
  numbers values = do
    let selected = sorted_set values
    guard (all (λ n. leb 1 n) selected) Error.value_error
    pure selected

  -- The families of a request for these groups.
  unfoldable pub select_families :
      List ℕ → List ℕ → List String → Option (List String) → Action S (List String)
  select_families pulls issues shas none = pure (
      union (families_if (not (is_empty shas)) ("commit-object" ∷ [])) (
        union (families_if (not (no_numbers issues)) issue_families)
          (families_if (not (no_numbers pulls)) pull_families)))
  select_families pulls issues shas (some families) = do
    let selected = set_of families
    guard (is_empty (minus selected refresh_families)) Error.value_error
    pure selected

  -- `refresh_request`.
  unfoldable pub refresh_request :
      List ℕ → List ℕ → List String → Option (List String) → Action S Request
  refresh_request pulls issues commits families = do
    pull_numbers ← numbers pulls
    issue_numbers ← numbers issues
    checked ← each validate_commit_sha commits
    let shas = set_of checked
    guard (not (any (λ n. any (λ k. nat_eq n k) issue_numbers) pull_numbers)) Error.value_error
    selected ← select_families pull_numbers issue_numbers shas families
    guard
        (not (
          no_numbers pull_numbers
          && no_numbers issue_numbers
          && is_empty shas
          && not (member "git-refs" selected)))
        Error.value_error
    pure (record {
      commits = shas;
      families = selected;
      issues = issue_numbers;
      pulls = pull_numbers;
    })

  -- The plan of a group of parents, and the families that it matches.
  unfoldable pub plan_group :
      Kind → List ℕ → List String → Action S (Option FamilyPlan × List String)
  plan_group kind [] selected = pure (none, [])
  plan_group kind (n ∷ ns) selected = do
    let requested = common selected (applicable kind)
    guard (not (is_empty requested)) Error.value_error
    pure (some (parent_family_plan kind requested), requested)

  unfoldable pub plan_commits :
      List String → List String → Action S (Option FamilyPlan × List String)
  plan_commits [] selected = pure (none, [])
  plan_commits (sha ∷ shas) selected = do
    guard (member "commit-object" selected) Error.value_error
    pure (some (singular_plan "commit-object"), "commit-object" ∷ [])

  -- `refresh_plan`.
  unfoldable pub refresh_plan : Request → Action S RefreshPlan
  refresh_plan request = do
    let selected = set_of request.families
    issue_part ← plan_group issue request.issues selected
    pull_part ← plan_group pull request.pulls selected
    commit_part ← plan_commits request.commits selected
    let repository = plan_repository selected
    let matched = union repository.1 (union commit_part.1 (union pull_part.1 issue_part.1))
    guard (is_empty (minus selected matched)) Error.value_error
    guard
        (not (
          is_none issue_part.0
          && is_none pull_part.0
          && is_none commit_part.0
          && is_none repository.0))
        Error.value_error
    pure (record {
      issues = issue_part.0;
      pulls = pull_part.0;
      commits = commit_part.0;
      repository = repository.0;
    })

-- A list of texts in a payload.
abbrev pub text_items : List String → Items
text_items [] = nil
text_items (s ∷ ss) = cons (Json.text s) (text_items ss)

abbrev pub kind_text : Kind → String
kind_text issue = "issue"
kind_text pull = "pull"

-- `{"kind": …, "number": …} | plan.payload()`.
unfoldable pub parent_payload : Kind → ℕ → FamilyPlan → Fields
parent_payload kind number plan = field "kind" (Json.text (kind_text kind)) (
    field "number" (Json.number number) (
      field "requested_families" (Json.array (text_items plan.requested)) (
        field "effective_families" (Json.array (text_items plan.effective)) (
          field "reference_source_families" (Json.array (text_items plan.reference_sources)) end))))

abbrev pub cons_text : Json → Option (List String) → Option (List String)
cons_text (Json.text s) (some ss) = some (s ∷ ss)
cons_text _ _ = none

abbrev pub all_texts : Items → Option (List String)
all_texts nil = some []
all_texts (cons v vs) = cons_text v (all_texts vs)

-- The texts of a member that is a list of texts.
abbrev pub texts_at : String → Fields → Option (List String)
texts_at key payload = elim (get key payload) [ some (Json.array vs) ↦ all_texts vs | _ ↦ none ]

abbrev pub kind_at : Fields → Option Kind
kind_at payload = elim (get "kind" payload) [
  | some (Json.text s) ↦
      if s == "issue" then some issue else if s == "pull" then some pull else none
  | _ ↦ none
]

abbrev pub number_at : Fields → Option ℕ
number_at payload = elim (get "number" payload) [ some (Json.number n) ↦ some n | _ ↦ none ]

abbrev pub texts_eq : List String → List String → Bool
texts_eq [] [] = true
texts_eq [] (t ∷ ts) = false
texts_eq (s ∷ ss) [] = false
texts_eq (s ∷ ss) (t ∷ ts) = let rest = texts_eq ss ts in if s == t then rest else false

abbrev pub holds_texts : String → Fields → List String → Bool
holds_texts key payload ss = elim (texts_at key payload) [ none ↦ false | some ts ↦ texts_eq ts ss ]

module _ {S : Type 0} where
  -- `parent_refresh_scope` of a task with this number and payload.
  unfoldable pub parent_refresh_scope :
      Option ℕ → Fields → Action S (Kind × List String × List String)
  parent_refresh_scope resource_number payload = do
    kind ← or_raise (kind_at payload) Error.runtime_error
    number ← or_raise (number_at payload) Error.runtime_error
    guard (leb 1 number) Error.runtime_error
    guard (resource_number == some number) Error.runtime_error
    requested ← or_raise (texts_at "requested_families" payload) Error.runtime_error
    guard (not (is_empty requested)) Error.runtime_error
    let expected = parent_family_plan kind (set_of requested)
    guard (holds_texts "requested_families" payload expected.requested) Error.runtime_error
    guard (holds_texts "effective_families" payload expected.effective) Error.runtime_error
    guard (holds_texts "reference_source_families" payload expected.reference_sources)
        Error.runtime_error
    pure (kind, expected.effective, expected.reference_sources)
