-- ===== src/Plan/Requests/Scopes.antt =====
-- The scope of a task of gh_puller/github/maintenance.py reads back as its plan.
use gh_puller.Archive.Action.{ok, steps}
use gh_puller.Base.{
  List, String, [], false, refl, some, true, ℕ, ◌∷◌, ◌≡◌, arith, ◌∙◌, ap, beq_refl, text_instance,
  nat_instance, leb, ◌≤◌,
}
use gh_puller.Ordered.Sets.{IsAscending, set_of, set_of_self, string_sortable}
use gh_puller.Plan.Families.{FamilyPlan, Kind, is_empty, issue, parent_family_plan, pull}
use gh_puller.Plan.Requests.{
  all_texts, holds_texts, parent_payload, parent_refresh_scope, text_items, texts_eq,
}

all_texts-text_items : (ss : List String) → all_texts (text_items ss) ≡ some ss
all_texts-text_items [] = refl
all_texts-text_items (s ∷ ss) = rw (all_texts-text_items ss) refl

texts_eq_refl : (ss : List String) → texts_eq ss ss ≡ true
texts_eq_refl [] = refl
texts_eq_refl (s ∷ ss) = rw (beq_refl s) (texts_eq_refl ss)

requested_of : (kind : Kind) (fs : List String) → (parent_family_plan kind fs).requested ≡ fs
unfolding parent_family_plan
requested_of kind fs = refl

holds_requested :
    (kind : Kind) (number : ℕ) (plan : FamilyPlan)
    → holds_texts "requested_families" (parent_payload kind number plan) plan.requested ≡ true
unfolding parent_payload
holds_requested kind number plan =
    rw (all_texts-text_items plan.requested, holds_texts) (texts_eq_refl plan.requested)

holds_effective :
    (kind : Kind) (number : ℕ) (plan : FamilyPlan)
    → holds_texts "effective_families" (parent_payload kind number plan) plan.effective ≡ true
unfolding parent_payload
holds_effective kind number plan =
    rw (all_texts-text_items plan.effective, holds_texts) (texts_eq_refl plan.effective)

holds_reference :
    (kind : Kind) (number : ℕ) (plan : FamilyPlan)
    → holds_texts "reference_source_families"
        (parent_payload kind number plan)
        plan.reference_sources
      ≡ true
unfolding parent_payload
holds_reference kind number plan =
    rw (all_texts-text_items plan.reference_sources, holds_texts)
      (texts_eq_refl plan.reference_sources)

-- A stored plan that is the plan of its request is accepted.
scope_lem :
    {S : Type 0} (kind : Kind) (number : ℕ) (plan : FamilyPlan) (s : S)
    → 1 ≤ number
    → is_empty plan.requested ≡ false
    → parent_family_plan kind (set_of plan.requested) ≡ plan
    → parent_refresh_scope (some number) (parent_payload kind number plan) s
      ≡ (ok (kind, plan.effective, plan.reference_sources), s)
unfolding parent_refresh_scope parent_payload steps
scope_lem issue number plan s h n e =
    let positive : leb 1 number ≡ true = ground arith in
    rw (positive, beq_refl number, all_texts-text_items plan.requested, n, e)
      (rw (holds_requested issue number plan, holds_effective issue number plan)
        (rw (holds_reference issue number plan) refl))
scope_lem pull number plan s h n e =
    let positive : leb 1 number ≡ true = ground arith in
    rw (positive, beq_refl number, all_texts-text_items plan.requested, n, e)
      (rw (holds_requested pull number plan, holds_effective pull number plan)
        (rw (holds_reference pull number plan) refl))

-- The scope that a refresh stores for a parent is accepted, and reads as the kind, the families and
-- the reference sources of the plan.
pub parent_refresh_scope-parent_payload :
    {S : Type 0} (kind : Kind) (number : ℕ) (requested : List String) (s : S)
    → 1 ≤ number
    → IsAscending requested
    → is_empty requested ≡ false
    → parent_refresh_scope
        (some number)
        (parent_payload kind number (parent_family_plan kind requested))
        s
      ≡ (
        ok (
          kind,
          (parent_family_plan kind requested).effective,
          (parent_family_plan kind requested).reference_sources,
        ),
        s,
      )
parent_refresh_scope-parent_payload kind number requested s h i n =
    let same_request = requested_of kind requested in
    scope_lem kind number (parent_family_plan kind requested) s h (rw same_request n) (
      ap (λ fs. parent_family_plan kind (set_of fs)) same_request
      ∙ ap (parent_family_plan kind) (set_of_self requested i))
