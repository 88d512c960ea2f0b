-- ===== src/Plan/Requests/Planned.antt =====
-- A request without families is planned: `refresh_request` and `refresh_plan` of
-- gh_puller/github/maintenance.py.
use gh_puller.Archive.Action.{Action, Error, each, ok, raise, steps}
use gh_puller.Base.{
  Bool, Bool-cases, List, String, [], false, inl, inr, none, refl, ℕ, ◌∷◌, ◌≡◌, arith, not, ◌&&◌,
  ◌||◌, ◌⊎◌, all, any, subst, leb, sorted_set, nat_eq, codes, length, is_hex,
}
use gh_puller.Ordered.Sets.{include, member, set_of, string_sortable, union}
use gh_puller.Ordered.Texts.{before}
use gh_puller.Plan.Families.{applicable, is_empty, issue_families, pull_families}
use gh_puller.Plan.Requests.{
  RefreshPlan, Request, families_if, no_numbers, numbers, plan_commits, plan_group, plan_repository,
  refresh_plan, refresh_request, select_families, validate_commit_sha,
}

-- The request that selects every applicable family of these targets.
abbrev whole : List ℕ → List ℕ → List String → Request
whole pulls issues shas = record {
  commits = shas;
  families = union (families_if (not (is_empty shas)) ("commit-object" ∷ [])) (
      union (families_if (not (no_numbers issues)) issue_families)
        (families_if (not (no_numbers pulls)) pull_families));
  issues = issues;
  pulls = pulls;
}

abbrev overlap : List ℕ → List ℕ → Bool
overlap ps is = any (λ n. any (λ k. nat_eq n k) is) ps

abbrev targetless : List ℕ → List ℕ → List String → Bool
targetless ps is shas =
    no_numbers ps
    && no_numbers is
    && is_empty shas
    && not (member "git-refs" (whole ps is shas).families)

module _ {S : Type 0} where
  plan_whole :
      (pulls issues : List ℕ) (shas : List String) (s : S)
      → targetless pulls issues shas ≡ false
      → (p : RefreshPlan) × (refresh_plan (whole pulls issues shas) s ≡ (ok p, s))
  unfolding refresh_plan plan_group plan_commits plan_repository applicable issue_families
      pull_families include union set_of before steps
  plan_whole [] [] [] s h = absurd (ground arith)
  plan_whole [] [] (c ∷ cs) s h = (_, refl)
  plan_whole [] (i ∷ is) [] s h = (_, refl)
  plan_whole [] (i ∷ is) (c ∷ cs) s h = (_, refl)
  plan_whole (p ∷ ps) [] [] s h = (_, refl)
  plan_whole (p ∷ ps) [] (c ∷ cs) s h = (_, refl)
  plan_whole (p ∷ ps) (i ∷ is) [] s h = (_, refl)
  plan_whole (p ∷ ps) (i ∷ is) (c ∷ cs) s h = (_, refl)

  -- A check returns and leaves the state, or raises.
  abbrev Checks : {A : Type 0} → Action S A → S → Type 0
  Checks {A} m s = ((a : A) × (m s ≡ (ok a, s))) ⊎ ((e : Error) × (m s ≡ (raise e, s)))

  numbers-Checks : (ns : List ℕ) (s : S) → Checks (numbers ns) s
  unfolding numbers steps
  numbers-Checks ns s = elim (Bool-cases (all (λ n. leb 1 n) (sorted_set ns))) [
    | inl e ↦ inl (sorted_set ns, rw e refl)
    | inr e ↦ inr (Error.value_error, rw e refl)
  ]

  validate-Checks : (sha : String) (s : S) → Checks (validate_commit_sha sha) s
  unfolding validate_commit_sha steps
  validate-Checks sha s =
      let size = length (codes sha) in
      elim (Bool-cases (nat_eq size 40 || nat_eq size 64)) [
        | inl e ↦ elim (Bool-cases (all is_hex (codes sha))) [
          | inl i ↦ inl (sha, rw (e, i) refl)
          | inr i ↦ inr (Error.value_error, rw (e, i) refl)
        ]
        | inr e ↦ inr (Error.value_error, rw e refl)
      ]

  each-Checks : (shas : List String) (s : S) → Checks (each validate_commit_sha shas) s
  unfolding steps
  each-Checks [] s = inl ([], refl)
  each-Checks (sha ∷ shas) s = elim (validate-Checks sha s) [
    | inl (a, e) ↦ elim (each-Checks shas s) [
      | inl (as', i) ↦ inl (a ∷ as', rw (e, i) refl)
      | inr (x, i) ↦ inr (x, rw (e, i) refl)
    ]
    | inr (x, e) ↦ inr (x, rw e refl)
  ]

  -- What an accepted request without families is.
  request_whole :
      (pulls issues : List ℕ) (commits : List String) (s : S) (r : Request)
      → refresh_request pulls issues commits none s ≡ (ok r, s)
      → (ps : List ℕ) × (is : List ℕ) × (shas : List String) × (whole ps is shas ≡ r)
        × (targetless ps is shas ≡ false)
  unfolding refresh_request select_families steps
  request_whole pulls issues commits s r h = elim (numbers-Checks pulls s) [
    | inr (x, e) ↦ absurd (cc (rw e at h))
    | inl (ps, e) ↦ elim (numbers-Checks issues s) [
      | inr (x, i) ↦ absurd (cc (rw (e, i) at h))
      | inl (is, i) ↦ elim (each-Checks commits s) [
        | inr (x, j) ↦ absurd (cc (rw (e, i, j) at h))
        | inl (cs, j) ↦ elim (Bool-cases (overlap ps is)) [
          | inl k ↦ absurd (cc (rw (e, i, j, k) at h))
          | inr k ↦ elim (Bool-cases (targetless ps is (set_of cs))) [
            | inl l ↦ absurd (cc (rw (e, i, j, k, l) at h))
            | inr l ↦ (ps, is, set_of cs, cc (rw (e, i, j, k, l) at h), l)
          ]
        ]
      ]
    ]
  ]

  -- Without families, every request that `refresh_request` accepts is planned.
  pub refresh_plan-refresh_request :
      (pulls issues : List ℕ) (commits : List String) (s : S) (r : Request)
      → refresh_request pulls issues commits none s ≡ (ok r, s)
      → (p : RefreshPlan) × (refresh_plan r s ≡ (ok p, s))
  refresh_plan-refresh_request pulls issues commits s r h =
      let (ps, is, shas, e, l) = request_whole pulls issues commits s r h in
      subst (λ x. (p : RefreshPlan) × (refresh_plan x s ≡ (ok p, s))) e (plan_whole ps is shas s l)
