-- ===== src/Plan/Examples.antt =====
-- Runs of the planning of gh_puller/github/maintenance.py.
use gh_puller.Archive.Action.{ok, steps}
use gh_puller.Base.{[], arith, none, refl, some, true, ◌∷◌, ◌≡◌, ◌↔◌}
use gh_puller.Ordered.Sets.{include, member, set_of, string_sortable, union}
use gh_puller.Ordered.Texts.{before}
use gh_puller.Plan.Families.{
  applicable, close, closed_families, dependencies, depends, expand, family_dependencies, issue,
  issue_families, parent_family_plan, pull, pull_families, refresh_families, source_families,
}
use gh_puller.Plan.Needed.{Observed, parent_family_plan-Observed}
use gh_puller.Plan.Requests.{
  RefreshPlan, Request, numbers, parent_payload, parent_refresh_scope, plan_commits, plan_group,
  plan_repository, refresh_plan, refresh_request, select_families, validate_commit_sha,
}
use gh_puller.Plan.Requests.Planned.{refresh_plan-refresh_request}
use gh_puller.Plan.Requests.Scopes.{parent_refresh_scope-parent_payload}

-- To compute with the plans, a test unfolds this name.
runs : Unit {0}
unfolding steps include union set_of before applicable close closed_families dependencies depends
    expand family_dependencies issue_families parent_family_plan pull_families refresh_families
    source_families numbers parent_payload parent_refresh_scope plan_commits plan_group
    plan_repository refresh_plan refresh_request select_families validate_commit_sha
runs = tt

-- Reviews bring the issue and the commits that they name.
reviews :
    (parent_family_plan pull ("pull-reviews" ∷ [])).effective
    ≡ "commit-object" ∷ "commit-references" ∷ "issue" ∷ "pull-reviews" ∷ []
unfolding runs
reviews = refl

reactions :
    (parent_family_plan pull ("pull-review-comment-reactions" ∷ [])).effective
    ≡ "commit-object" ∷ "commit-references" ∷ "issue" ∷ "pull" ∷ "pull-review-comment-reactions"
      ∷ "pull-review-comments" ∷ "pull-review-threads" ∷ []
unfolding runs
reactions = refl

parent_family_plan-Observed_example :
    (member "pull" (parent_family_plan pull ("pull-git" ∷ [])).effective ≡ true)
    ↔ Observed pull ("pull-git" ∷ []) "pull"
parent_family_plan-Observed_example = parent_family_plan-Observed pull ("pull-git" ∷ []) "pull"

abbrev accepted : Request
accepted = record { commits = []; families = issue_families; issues = 4 ∷ 7 ∷ []; pulls = [] }

asked : refresh_request [] (7 ∷ 4 ∷ 7 ∷ []) [] none (tt {0}) ≡ (ok accepted, tt)
unfolding runs
asked = refl

refresh_plan-refresh_request_example :
    (p : RefreshPlan) × (refresh_plan accepted (tt {0}) ≡ (ok p, tt))
refresh_plan-refresh_request_example =
    refresh_plan-refresh_request [] (7 ∷ 4 ∷ 7 ∷ []) [] tt accepted asked

parent_refresh_scope-parent_payload_example :
    parent_refresh_scope
      (some 5)
      (parent_payload issue 5 (parent_family_plan issue ("commit-references" ∷ "issue" ∷ [])))
      (tt {0})
    ≡ (
      ok (
        issue,
        (parent_family_plan issue ("commit-references" ∷ "issue" ∷ [])).effective,
        (parent_family_plan issue ("commit-references" ∷ "issue" ∷ [])).reference_sources,
      ),
      tt,
    )
unfolding before
parent_refresh_scope-parent_payload_example =
    parent_refresh_scope-parent_payload issue 5 ("commit-references" ∷ "issue" ∷ []) tt
      (omega arith) ((refl, tt), (tt, tt)) refl
