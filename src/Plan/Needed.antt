-- ===== src/Plan/Needed.antt =====
-- The families of a plan of gh_puller/github/maintenance.py are those that its request needs.
use gh_puller.Base.{
  Bool-cases, List, String, [], arith, eq_iff, false, inl, inr, refl, sym, text_instance, true,
  ◌&&◌, ◌==◌, ◌∷◌, ◌≡◌, ◌↔◌, ◌⊎◌, ◌∙◌, ap,
}
use gh_puller.Ordered.Dict.{same_refl}
use gh_puller.Ordered.Sets.{include, member, member-include, string_sortable}
use gh_puller.Plan.Families.{
  Kind, closed_families, common, depends, is_empty, parent_family_plan, rounds, source_families,
  with_consequences,
}
use gh_puller.Plan.Closure.{ClosedFrom-start, IsClosed, close-IsClosed, close_grows, close_least}

-- What a request for a parent needs: the issue itself, what is asked for, and their dependencies.
pub data Needed (kind : Kind) (requested : List String) : String → Type 0 where
  root : {f : String} → f ≡ "issue" → Needed kind requested f
  asked : {f : String} → member f requested ≡ true → Needed kind requested f
  dependency :
      {f g : String}
      → Needed kind requested g
      → member f (depends kind g) ≡ true
      → Needed kind requested f

-- What is observed: the families that are needed and, where one of them names commits, the commits
-- and the references to them.
pub data Observed (kind : Kind) (requested : List String) : String → Type 0 where
  needed : {f : String} → Needed kind requested f → Observed kind requested f
  consequence :
      {f g : String}
      → (f ≡ "commit-object") ⊎ (f ≡ "commit-references")
      → Needed kind requested g
      → member g (source_families kind) ≡ true
      → Observed kind requested f

closed_families-IsClosed :
    (kind : Kind) (requested : List String) → IsClosed kind (closed_families kind requested)
unfolding closed_families
closed_families-IsClosed kind requested =
    close-IsClosed kind 4 (include "issue" requested)
      (ClosedFrom-start kind (include "issue" requested))

include-Needed :
    (kind : Kind) (requested : List String) (f : String)
    → member f (include "issue" requested) ≡ true
    → Needed kind requested f
include-Needed kind requested f m = elim (Bool-cases ("issue" == f)) [
  | inl e ↦ root (sym ((eq_iff "issue" f).0 e))
  | inr e ↦ asked (let i = member-include f "issue" requested in sym (rw e at i) ∙ m)
]

Needed-member :
    (kind : Kind) (requested : List String) {f : String}
    → Needed kind requested f
    → member f (closed_families kind requested) ≡ true
Needed-member kind requested {f} (root e) =
    let start : member f (include "issue" requested) ≡ true =
      member-include f "issue" requested ∙ rw ((eq_iff "issue" f).1 (sym e)) refl in
    unfold closed_families in close_grows kind rounds f (include "issue" requested) start
Needed-member kind requested {f} (asked m) =
    let start : member f (include "issue" requested) ≡ true =
      member-include f "issue" requested ∙ ground arith in
    unfold closed_families in close_grows kind rounds f (include "issue" requested) start
Needed-member kind requested {f} (dependency {g = g} n i) =
    closed_families-IsClosed kind requested g f (Needed-member kind requested n) i

pub closed_families-Needed :
    (kind : Kind) (requested : List String) (f : String)
    → (member f (closed_families kind requested) ≡ true) ↔ Needed kind requested f
closed_families-Needed kind requested f = (
  (unfold closed_families in
      close_least (Needed kind requested) kind rounds (include "issue" requested)
        (λ g d n i. dependency n i) (include-Needed kind requested) f),
  Needed-member kind requested,
)

member-common :
    (f : String) (s t : List String) → member f (common s t) ≡ (member f s && member f t)
member-common f [] t = refl
member-common f (g ∷ s) t = elim (Bool-cases (g == f)) [
  | inl e ↦
      let same_member : member g t ≡ member f t = ap (λ x. member x t) ((eq_iff g f).0 e) in
      elim (Bool-cases (member f t)) [
        | inl i ↦ rw (same_member, i, e) refl
        | inr i ↦ rw (same_member, i, e) (member-common f s t ∙ rw i (ground arith))
      ]
  | inr e ↦ elim (Bool-cases (member g t)) [
    | inl i ↦ rw (i, e) (member-common f s t)
    | inr i ↦ rw (i, e) (member-common f s t)
  ]
]

-- A list with a member, and the member of a list that is not empty.
nonempty_of_member : (f : String) (s : List String) → member f s ≡ true → is_empty s ≡ false
nonempty_of_member f [] m = absurd (cc)
nonempty_of_member f (g ∷ s) m = refl

some_member : (s : List String) → is_empty s ≡ false → (f : String) × (member f s ≡ true)
some_member [] h = absurd (cc)
some_member (f ∷ s) h = (f, rw (same_refl f) refl)

consequence_cases :
    (f : String) (s : List String)
    → member f (include "commit-object" (include "commit-references" s)) ≡ true
    → ((f ≡ "commit-object") ⊎ (f ≡ "commit-references")) ⊎ (member f s ≡ true)
consequence_cases f s m = elim (Bool-cases ("commit-object" == f)) [
  | inl e ↦ inl (inl (sym ((eq_iff "commit-object" f).0 e)))
  | inr e ↦ elim (Bool-cases ("commit-references" == f)) [
    | inl i ↦ inl (inr (sym ((eq_iff "commit-references" f).0 i)))
    | inr i ↦
        let j = member-include f "commit-object" (include "commit-references" s) in
        let k = member-include f "commit-references" s in
        inr (sym (rw i at k) ∙ sym (rw e at j) ∙ m)
  ]
]

with_consequences-Observed :
    (kind : Kind) (requested : List String) (f : String)
    → member f (
        with_consequences
          (closed_families kind requested)
          (common (closed_families kind requested) (source_families kind)))
      ≡ true
    → Observed kind requested f
with_consequences-Observed kind requested f m =
    let closed = closed_families kind requested in
    let sources = common closed (source_families kind) in
    elim (Bool-cases (is_empty sources)) [
      | inl e ↦ needed ((closed_families-Needed kind requested f).0 (rw e at m))
      | inr e ↦ elim (consequence_cases f closed (rw e at m)) [
        | inl named ↦
            let (g, i) = some_member sources e in
            let both = member-common g closed (source_families kind) in
            consequence named ((closed_families-Needed kind requested g).0 (ground arith))
              (ground arith)
        | inr i ↦ needed ((closed_families-Needed kind requested f).0 i)
      ]
    ]

Observed-with_consequences :
    (kind : Kind) (requested : List String) {f : String}
    → Observed kind requested f
    → member f (
        with_consequences
          (closed_families kind requested)
          (common (closed_families kind requested) (source_families kind)))
      ≡ true
Observed-with_consequences kind requested {f} (needed n) =
    let closed = closed_families kind requested in
    let m = Needed-member kind requested n in
    let j = member-include f "commit-object" (include "commit-references" closed) in
    let k = member-include f "commit-references" closed in ground arith
Observed-with_consequences kind requested {f} (consequence {g = g} named n i) =
    let closed = closed_families kind requested in
    let both = member-common g closed (source_families kind) in
    let inside : member g (common closed (source_families kind)) ≡ true =
      both ∙ rw (Needed-member kind requested n, i) refl in
    let full = nonempty_of_member g (common closed (source_families kind)) inside in
    rw full (
      member-include f "commit-object" (include "commit-references" closed) ∙ elim named [
        | inl e ↦ rw ((eq_iff "commit-object" f).1 (sym e)) refl
        | inr e ↦
            let k = member-include f "commit-references" closed in
            let t = (eq_iff "commit-references" f).1 (sym e) in ground arith
      ])

-- A plan observes exactly the families that its request needs, by any chain of dependencies, and
-- the commits and references where one of these names commits.
pub parent_family_plan-Observed :
    (kind : Kind) (requested : List String) (f : String)
    → (member f (parent_family_plan kind requested).effective ≡ true) ↔ Observed kind requested f
unfolding parent_family_plan
parent_family_plan-Observed kind requested f =
    (with_consequences-Observed kind requested f, Observed-with_consequences kind requested)
