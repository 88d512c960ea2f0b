-- ===== src/Archive/Lookups.antt =====
-- `latest_complete_fact` of gh_puller/github/observations.py.
use gh_puller.Archive.Action.{Action, ok, query}
use gh_puller.Archive.Facts.{fact_is, is_complete, not_before}
use gh_puller.Archive.Facts.Order.{not_before_refl, not_before_total, not_before_trans}
use gh_puller.Archive.Model.{Coverage, Archive, FactObservation}
use gh_puller.Base.{
  arith, ap, eq_iff, some-injective, text_instance, ◌++◌, ◌<◌, ◌≤◌, ◌==◌, ◌⊎◌, ◌∙◌, All, All-mono,
  Bool, Bool-cases, List, Option, String, [], false, if◌then◌else◌, inl, inr, none, refl, some,
  subst, sym, true, ◌&&◌, ◌∷◌, ◌≡◌,
}

abbrev pub complete_is : String → String → FactObservation → Bool
complete_is family subject_key o = fact_is family subject_key o && is_complete o.coverage

-- `ORDER BY observed_until DESC, observed_from DESC, id DESC LIMIT 1`, row by row.
abbrev pub later : FactObservation → Option FactObservation → FactObservation
later o none = o
later o (some best) = if not_before best o then best else o

abbrev pub latest : (FactObservation → Bool) → List FactObservation → Option FactObservation
latest p [] = none
latest p (o ∷ os) = let rest = latest p os in if p o then some (later o rest) else rest

-- `latest_complete_fact`.
unfoldable pub latest_complete_fact : String → String → Action Archive (Option FactObservation)
latest_complete_fact family subject_key =
    query (λ t. latest (complete_is family subject_key) t.fact_observations)

-- `c` is the latest of the rows that pass the test, or none passes it.
abbrev pub LatestOf :
    (FactObservation → Bool) → List FactObservation → Option FactObservation → Type 0
LatestOf p os none = All (λ o. p o ≡ false) os
LatestOf p os (some c) = (p c ≡ true) × All (λ o. p o ≡ true → not_before c o ≡ true) os

-- The row `o` before rows whose latest is known.
LatestOf-later :
    (p : FactObservation → Bool) (o : FactObservation) (os : List FactObservation)
    (c : Option FactObservation)
    → p o ≡ true
    → LatestOf p os c
    → LatestOf p (o ∷ os) (some (later o c))
LatestOf-later p o os none e h = (
  e,
  (
    (λ _. not_before_refl o),
    All-mono (λ x. p x ≡ false) (λ x. p x ≡ true → not_before o x ≡ true) os (λ x n k. absurd (cc))
        h,
  ),
)
LatestOf-later p o os (some c) e h = elim (Bool-cases (not_before c o)) [
  | inl i ↦
      let kept : later o (some c) ≡ c = rw i refl in
      subst (λ x. LatestOf p (o ∷ os) (some x)) (sym kept) (h.0, ((λ _. i), h.1))
  | inr i ↦
      let taken : later o (some c) ≡ o = rw i refl in
      subst (λ x. LatestOf p (o ∷ os) (some x)) (sym taken)
        (
          e,
          (
            (λ _. not_before_refl o),
            All-mono (λ x. p x ≡ true → not_before c x ≡ true)
                (λ x. p x ≡ true → not_before o x ≡ true) os
                (λ x k n. not_before_trans o c x (not_before_total c o i) (k n)) h.1,
          ),
        )
]

LatestOf-skip :
    (p : FactObservation → Bool) (o : FactObservation) (os : List FactObservation)
    (c : Option FactObservation)
    → p o ≡ false
    → LatestOf p os c
    → LatestOf p (o ∷ os) c
LatestOf-skip p o os none e h = (e, h)
LatestOf-skip p o os (some c) e h = (h.0, ((λ n. absurd (cc)), h.1))

latest-LatestOf :
    (p : FactObservation → Bool) (os : List FactObservation) → LatestOf p os (latest p os)
latest-LatestOf p [] = tt
latest-LatestOf p (o ∷ os) = elim (Bool-cases (p o)) [
  | inl e ↦ rw e (LatestOf-later p o os (latest p os) e (latest-LatestOf p os))
  | inr e ↦ rw e (LatestOf-skip p o os (latest p os) e (latest-LatestOf p os))
]

-- A complete observation of the fact.
abbrev pub Complete : String → String → FactObservation → Type 0
Complete family subject_key o =
    (o.family ≡ family) × (o.subject_key ≡ subject_key) × (o.coverage ≡ Coverage.complete)

-- `o` is observed no later than `c`: by the end of its read window, then by its start, then by its
-- identity.
abbrev pub NoLater : FactObservation → FactObservation → Type 0
NoLater o c =
    (o.observed_until < c.observed_until)
    ⊎ ((o.observed_until ≡ c.observed_until)
        × ((o.observed_from < c.observed_from)
            ⊎ ((o.observed_from ≡ c.observed_from) × (o.id ≤ c.id))))

abbrev pub Held : List FactObservation → FactObservation → Type 0
Held os c =
    (before : List FactObservation) × (behind : List FactObservation) × (os ≡ before ++ c ∷ behind)

-- An answer that is a complete observation of the fact among the rows, and no other such row is later;
-- or none, where no row is one.
abbrev pub Answers : String → String → List FactObservation → Option FactObservation → Type 0
Answers family subject_key os none = All (λ o. ¬ Complete family subject_key o) os
Answers family subject_key os (some c) =
    Complete family subject_key c
    × Held os c
    × All (λ o. Complete family subject_key o → NoLater o c) os

is_complete-eq : (v : Coverage) → is_complete v ≡ true → v ≡ Coverage.complete
is_complete-eq Coverage.complete h = refl
is_complete-eq _ h = absurd (cc)

Complete-is :
    (family subject_key : String) (o : FactObservation)
    → complete_is family subject_key o ≡ true
    → Complete family subject_key o
Complete-is family subject_key o h =
    let (f, k) = ands _ _ h in
    let (a, b) = ands (o.family == family) (o.subject_key == subject_key) f in
    (
      (eq_iff o.family family).0 a,
      (eq_iff o.subject_key subject_key).0 b,
      is_complete-eq o.coverage k,
    )
  where
    ands : (x y : Bool) → (x && y) ≡ true → (x ≡ true) × (y ≡ true)
    ands true true e = (refl, refl)
    ands true false e = absurd (cc)
    ands false y e = absurd (cc)

complete_is-Complete :
    (family subject_key : String) (o : FactObservation)
    → Complete family subject_key o
    → complete_is family subject_key o ≡ true
complete_is-Complete family subject_key o (f, k, c) =
    rw ((eq_iff o.family family).1 f, (eq_iff o.subject_key subject_key).1 k, c) refl

NoLater-not_before : (c o : FactObservation) → not_before c o ≡ true → NoLater o c
NoLater-not_before c o h = ground arith

later-Held :
    (o : FactObservation) (os : List FactObservation) (c : FactObservation)
    → Held os c
    → Held (o ∷ os) c
later-Held o os c (before, behind, e) = (o ∷ before, behind, ap (λ xs. o ∷ xs) e)

latest-Held :
    (p : FactObservation → Bool) (os : List FactObservation) (c : FactObservation)
    → latest p os ≡ some c
    → Held os c
latest-Held p [] c h = absurd (cc)
latest-Held p (o ∷ os) c h = go (latest-Held p os c) (p o) (latest p os) refl h
  where
    go :
        (latest p os ≡ some c → Held os c)
        → (b : Bool) (best : Option FactObservation) → latest p os ≡ best
        → (if b then some (later o best) else best) ≡ some c
        → Held (o ∷ os) c
    go held false best e k = later-Held o os c (held (e ∙ k))
    go held true none e k = ([], os, ap (λ x. x ∷ os) (some-injective _ _ k))
    go held true (some best) e k = elim (Bool-cases (not_before best o)) [
      | inl n ↦
          let kept : later o (some best) ≡ best = rw n refl in
          later-Held o os c (held (e ∙ ap some (sym kept ∙ some-injective _ _ k)))
      | inr n ↦
          let taken : later o (some best) ≡ o = rw n refl in
          ([], os, ap (λ x. x ∷ os) (sym taken ∙ some-injective _ _ k))
    ]

LatestOf-Answers :
    (family subject_key : String) (os : List FactObservation) (c : Option FactObservation)
    → latest (complete_is family subject_key) os ≡ c
    → LatestOf (complete_is family subject_key) os c
    → Answers family subject_key os c
LatestOf-Answers family subject_key os none e h =
    All-mono (λ o. complete_is family subject_key o ≡ false) (λ o. ¬ Complete family subject_key o)
      os (λ o n k. let y = complete_is-Complete family subject_key o k in absurd (cc)) h
LatestOf-Answers family subject_key os (some c) e (h, k) = (
  Complete-is family subject_key c h,
  latest-Held (complete_is family subject_key) os c e,
  All-mono (λ o. complete_is family subject_key o ≡ true → not_before c o ≡ true)
      (λ o. Complete family subject_key o → NoLater o c) os
      (λ o n q. NoLater-not_before c o (n (complete_is-Complete family subject_key o q))) k,
)

-- `latest_complete_fact` changes nothing, and answers a row that is a complete observation of the
-- fact and than which no other such row is later, by the end of the read window, its start and the
-- identity; or nothing, where no row is a complete observation of the fact.
pub latest_complete_fact-Answers :
    (family subject_key : String) (s : Archive)
    → (c : Option FactObservation) × (latest_complete_fact family subject_key s ≡ (ok c, s))
      × Answers family subject_key s.tables.fact_observations c
unfolding latest_complete_fact query
latest_complete_fact-Answers family subject_key s = (
  latest (complete_is family subject_key) s.tables.fact_observations,
  refl,
  LatestOf-Answers family subject_key s.tables.fact_observations _ refl
      (latest-LatestOf (complete_is family subject_key) s.tables.fact_observations),
)
