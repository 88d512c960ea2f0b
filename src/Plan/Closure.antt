-- ===== src/Plan/Closure.antt =====
-- The closure of families over their dependencies in gh_puller/github/maintenance.py.
use gh_puller.Base.{
  All, Bool-cases, List, String, [], any, arith, eq_iff, false, if◌then◌else◌, inl, inr, refl,
  subst, suc, sym, text_instance, true, zero, ℕ, ◌<◌, ◌==◌, ◌∷◌, ◌≡◌, ◌≤◌, ◌⊎◌, ◌∙◌,
}
use gh_puller.Ordered.Dict.{same_refl}
use gh_puller.Ordered.Sets.{
  include, member, member-union, set_eq, string_sortable, subset_sound, union,
}
use gh_puller.Ordered.Texts.{before}
use gh_puller.Plan.Families.{
  Kind, applicable, close, dependencies, depends, expand, family_dependencies, issue, pull,
  source_families, issue_families, pull_families,
}

-- How far the dependencies of a family go.
pub rank : String → ℕ
rank family =
    if family == "commit-object"
    then 3
    else if family == "commit-references"
    then 2
    else if family == "pull-review-comment-reactions"
    then 2
    else if family == "issue-comment-reactions"
    then 1
    else if family == "pull-commits"
    then 1
    else if family == "pull-git"
    then 1
    else if family == "pull-requested-reviewers"
    then 1
    else if family == "pull-review-comments"
    then 1
    else 0

pub rank-le : (f : String) → rank f ≤ 3
unfolding rank
rank-le f = ground arith

abbrev Falls : Kind → String → Type 0
Falls kind f = All (λ d. rank d < rank f) (depends kind f)

sources-Falls : (kind : Kind) → Falls kind "commit-references"
unfolding rank depends source_families applicable issue_families pull_families include union before
sources-Falls issue = omega arith
sources-Falls pull = omega arith

-- The families that depend on others.
abbrev dependent_families : List String
dependent_families =
    "commit-object" ∷ "issue-comment-reactions" ∷ "pull-commits" ∷ "pull-git"
    ∷ "pull-requested-reviewers" ∷ "pull-review-comment-reactions" ∷ "pull-review-comments" ∷ []

dependent-Falls : (kind : Kind) → All (Falls kind) dependent_families
unfolding rank depends family_dependencies
dependent-Falls kind = omega arith

at_name :
    (P : String → Type 0) (f : String) (names : List String)
    → any (λ name. f == name) names ≡ true
    → All P names
    → P f
at_name P f [] e h = absurd (cc)
at_name P f (name ∷ names) e h = elim (Bool-cases (f == name)) [
  | inl i ↦ subst P (sym ((eq_iff f name).0 i)) h.0
  | inr i ↦ at_name P f names (rw i at e) h.1
]

depends_none :
    (kind : Kind) (f : String)
    → (f == "commit-references") ≡ false
    → any (λ name. f == name) dependent_families ≡ false
    → depends kind f ≡ []
unfolding depends family_dependencies
depends_none kind f n h = ground arith

-- Dependencies have a smaller rank.
depends-Falls : (kind : Kind) (f : String) → Falls kind f
depends-Falls kind f = elim (Bool-cases (f == "commit-references")) [
  | inl e ↦ subst (Falls kind) (sym ((eq_iff f "commit-references").0 e)) (sources-Falls kind)
  | inr n ↦ elim (Bool-cases (any (λ name. f == name) dependent_families)) [
    | inl e ↦ at_name (Falls kind) f dependent_families e (dependent-Falls kind)
    | inr e ↦ subst (λ ds. All (λ d. rank d < rank f) ds) (sym (depends_none kind f n e)) tt
  ]
]

All-member :
    (P : String → Type 0) (d : String) (ds : List String) → All P ds → member d ds ≡ true → P d
All-member P d [] h m = absurd (cc)
All-member P d (e ∷ ds) h m = elim (Bool-cases (e == d)) [
  | inl i ↦ subst P ((eq_iff e d).0 i) h.0
  | inr i ↦ All-member P d ds h.1 (rw i at m)
]

-- A dependency of a member comes from one of the members.
member-dependencies :
    (kind : Kind) (d : String) (fs : List String)
    → member d (dependencies kind fs) ≡ true
    → (f : String) × (member f fs ≡ true) × (member d (depends kind f) ≡ true)
unfolding dependencies
member-dependencies kind d [] h = absurd (cc)
member-dependencies kind d (f ∷ fs) h = elim (Bool-cases (member d (depends kind f))) [
  | inl e ↦ (f, rw (same_refl f) refl, e)
  | inr e ↦
      let m = member-union d (depends kind f) (dependencies kind fs) in
      let (g, i, j) = member-dependencies kind d fs (sym (rw e at m) ∙ h) in
      (g, rw i (ground arith), j)
]

dependencies-member :
    (kind : Kind) (f d : String) (fs : List String)
    → member f fs ≡ true
    → member d (depends kind f) ≡ true
    → member d (dependencies kind fs) ≡ true
unfolding dependencies
dependencies-member kind f d [] h i = absurd (cc)
dependencies-member kind f d (g ∷ fs) h i =
    let m = member-union d (depends kind g) (dependencies kind fs) in
    elim (Bool-cases (g == f)) [
      | inl e ↦
          let here = subst (λ x. member d (depends kind x) ≡ true) (sym ((eq_iff g f).0 e)) i in
          m ∙ rw here refl
      | inr e ↦ m ∙ rw (dependencies-member kind f d fs (rw e at h) i) (ground arith)
    ]

-- The dependencies of the members of some rank are members.
abbrev pub ClosedFrom : Kind → ℕ → List String → Type 0
ClosedFrom kind n s =
    (f d : String)
    → n ≤ rank f
    → member f s ≡ true
    → member d (depends kind f) ≡ true
    → member d s ≡ true

abbrev pub IsClosed : Kind → List String → Type 0
IsClosed kind s =
    (f d : String) → member f s ≡ true → member d (depends kind f) ≡ true → member d s ≡ true

expand_cases :
    (kind : Kind) (f : String) (s : List String)
    → member f (expand kind s) ≡ true
    → (member f s ≡ true)
      ⊎ ((g : String) × (member g s ≡ true) × (member f (depends kind g) ≡ true))
unfolding expand
expand_cases kind f s h = elim (Bool-cases (member f (dependencies kind s))) [
  | inl e ↦ inr (member-dependencies kind f s e)
  | inr e ↦ inl (let m = member-union f (dependencies kind s) s in sym (rw e at m) ∙ h)
]

pub expand_grows :
    (kind : Kind) (f : String) (s : List String)
    → member f s ≡ true
    → member f (expand kind s) ≡ true
unfolding expand
expand_grows kind f s h = member-union f (dependencies kind s) s ∙ rw h (ground arith)

expand-dependency :
    (kind : Kind) (f d : String) (s : List String)
    → member f s ≡ true
    → member d (depends kind f) ≡ true
    → member d (expand kind s) ≡ true
unfolding expand
expand-dependency kind f d s h i =
    member-union d (dependencies kind s) s ∙ rw (dependencies-member kind f d s h i) refl

-- A round closes the members of one rank more.
expand-ClosedFrom :
    (kind : Kind) (n : ℕ) (s : List String)
    → ClosedFrom kind (suc n) s
    → ClosedFrom kind n (expand kind s)
expand-ClosedFrom kind n s c f d le m i = elim (expand_cases kind f s m) [
  | inl old ↦ expand-dependency kind f d s old i
  | inr (g, from, j) ↦
      let falls = All-member (λ x. rank x < rank g) f (depends kind g) (depends-Falls kind g) j in
      expand-dependency kind f d s (c g f (omega arith) from j) i
]

fixed-IsClosed : (kind : Kind) (s : List String) → set_eq (expand kind s) s ≡ true → IsClosed kind s
fixed-IsClosed kind s e f d m i =
    subset_sound d (expand kind s) s (ground arith) (expand-dependency kind f d s m i)

pub close-IsClosed :
    (kind : Kind) (n : ℕ) (s : List String)
    → ClosedFrom kind n s
    → IsClosed kind (close kind (suc n) s)
unfolding close
close-IsClosed kind zero s c = elim (Bool-cases (set_eq (expand kind s) s)) [
  | inl e ↦ rw e (fixed-IsClosed kind s e)
  | inr e ↦ rw e λ f d. expand-ClosedFrom kind 0 s (λ g h le. c g h (omega arith)) f d (omega arith)
]
close-IsClosed kind (suc n) s c = elim (Bool-cases (set_eq (expand kind s) s)) [
  | inl e ↦ rw e (fixed-IsClosed kind s e)
  | inr e ↦ rw e (close-IsClosed kind n (expand kind s) (expand-ClosedFrom kind n s c))
]

pub close_grows :
    (kind : Kind) (n : ℕ) (f : String) (s : List String)
    → member f s ≡ true
    → member f (close kind n s) ≡ true
unfolding close
close_grows kind zero f s m = m
close_grows kind (suc n) f s m = elim (Bool-cases (set_eq (expand kind s) s)) [
  | inl e ↦ rw e m
  | inr e ↦ rw e (close_grows kind n f (expand kind s) (expand_grows kind f s m))
]

-- The closure holds nothing that a closed predicate lacks.
pub close_least :
    (P : String → Type 0) (kind : Kind) (n : ℕ) (s : List String)
    → ((f d : String) → P f → member d (depends kind f) ≡ true → P d)
    → ((f : String) → member f s ≡ true → P f)
    → (f : String) → member f (close kind n s) ≡ true
    → P f
unfolding close
close_least P kind zero s closed all_s f m = all_s f m
close_least P kind (suc n) s closed all_s f m = elim (Bool-cases (set_eq (expand kind s) s)) [
  | inl e ↦ all_s f (rw e at m)
  | inr e ↦
      close_least P kind n (expand kind s) closed
        (λ g i. elim (expand_cases kind g s i) [
          | inl old ↦ all_s g old
          | inr (h, from, j) ↦ closed h g (all_s h from) j
        ])
        f (rw e at m)
]

-- Every set is closed from the rank that no family has.
pub ClosedFrom-start : (kind : Kind) (s : List String) → ClosedFrom kind 4 s
ClosedFrom-start kind s f d le m i = absurd (let bound = rank-le f in omega arith)
