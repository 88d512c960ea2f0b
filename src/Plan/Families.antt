-- ===== src/Plan/Families.antt =====
-- `parent_family_plan` of gh_puller/github/maintenance.py.
use gh_puller.Base.{
  Bool, List, String, [], if◌then◌else◌, select, suc, text_instance, true, false, zero, ℕ, ◌==◌,
  ◌∷◌,
}
use gh_puller.Ordered.Sets.{include, member, set_eq, string_sortable, union}

pub data Kind : Type 0 where
  issue pull : Kind

-- `COMMIT_REFERENCE_SOURCE_FAMILIES`.
abbrev pub reference_source_families : List String
reference_source_families =
    "issue-events" ∷ "issue-timeline" ∷ "pull-commits" ∷ "pull-review-comments"
    ∷ "pull-review-threads" ∷ "pull-reviews" ∷ []

-- `_COMMON_PARENT_FAMILIES`.
abbrev pub common_parent_families : List String
common_parent_families =
    "commit-object" ∷ "commit-references" ∷ "issue" ∷ "issue-comment-reactions" ∷ "issue-comments"
    ∷ "issue-events" ∷ "issue-reactions" ∷ "issue-timeline" ∷ []

unfoldable pub issue_families : List String
issue_families = include "issue-relations" common_parent_families

abbrev pub own_pull_families : List String
own_pull_families =
    "pull" ∷ "pull-closing-issues" ∷ "pull-commits" ∷ "pull-git" ∷ "pull-requested-reviewers"
    ∷ "pull-review-comment-reactions" ∷ "pull-review-comments" ∷ "pull-review-threads"
    ∷ "pull-reviews" ∷ []

unfoldable pub pull_families : List String
pull_families = union common_parent_families own_pull_families

unfoldable pub refresh_families : List String
refresh_families = include "git-refs" (union issue_families pull_families)

unfoldable pub applicable : Kind → List String
applicable issue = issue_families
applicable pull = pull_families

-- `s & t`.
abbrev pub common : List String → List String → List String
common s t = select (λ f. member f t) s

-- `source_families`.
unfoldable pub source_families : Kind → List String
source_families kind = common reference_source_families (applicable kind)

-- `_FAMILY_DEPENDENCIES.get(family, ())`.
unfoldable pub family_dependencies : String → List String
family_dependencies family =
    if family == "commit-object"
    then "commit-references" ∷ []
    else if family == "issue-comment-reactions"
    then "issue-comments" ∷ []
    else if family == "pull-commits"
    then "pull" ∷ []
    else if family == "pull-git"
    then "pull" ∷ []
    else if family == "pull-requested-reviewers"
    then "pull" ∷ []
    else if family == "pull-review-comment-reactions"
    then "pull-review-comments" ∷ []
    else if family == "pull-review-comments"
    then "pull" ∷ "pull-review-threads" ∷ []
    else []

unfoldable pub depends : Kind → String → List String
depends kind family =
    if family == "commit-references" then source_families kind else family_dependencies family

-- `dependencies`, a set comprehension over a set.
unfoldable pub dependencies : Kind → List String → List String
dependencies kind [] = []
dependencies kind (f ∷ fs) = union (depends kind f) (dependencies kind fs)

-- `expanded`.
unfoldable pub expand : Kind → List String → List String
expand kind effective = union (dependencies kind effective) effective

-- The `while True`, for as many rounds as there is fuel.
unfoldable pub close : Kind → ℕ → List String → List String
close kind zero effective = effective
close kind (suc fuel) effective =
    let expanded = expand kind effective in
    let rest = close kind fuel expanded in if set_eq expanded effective then effective else rest

-- No chain of dependencies is longer.
abbrev pub rounds : ℕ
rounds = 5

pub record FamilyPlan : Type 0 where
  pub requested : List String
  pub effective : List String
  pub reference_sources : List String

abbrev pub is_empty : List String → Bool
is_empty [] = true
is_empty (f ∷ fs) = false

unfoldable pub closed_families : Kind → List String → List String
closed_families kind requested = close kind rounds (include "issue" requested)

abbrev pub with_consequences : List String → List String → List String
with_consequences effective reference_sources =
    if is_empty reference_sources
    then effective
    else include "commit-object" (include "commit-references" effective)

-- `parent_family_plan`.
unfoldable pub parent_family_plan : Kind → List String → FamilyPlan
parent_family_plan kind requested =
    let effective = closed_families kind requested in
    let reference_sources = common effective (source_families kind) in
    record {
      requested = requested;
      effective = with_consequences effective reference_sources;
      reference_sources = reference_sources;
    }
