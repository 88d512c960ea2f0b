-- ===== src/Archive/Facts/Advance.antt =====
-- One appended observation and the `_advance_head` that follows it keep the heads' invariant.
use gh_puller.Archive.Facts.{fact_is, head_is, keeps_head, not_before, observation_is, set_head}
use gh_puller.Archive.Facts.Heads.{
  DistinctHeads, Grounded, HeadsInv, Newest, find-set_head_ne, find-set_head_self, head_observation,
  point, set_head-DistinctHeads,
}
use gh_puller.Archive.Facts.Order.{not_before_refl, not_before_total, not_before_trans}
use gh_puller.Archive.Model.{FactHead, FactObservation, Tables}
use gh_puller.Base.{
  All, All-append, All-find, All-mono, All-update, Bool-cases, List, Option, Option-cases, String,
  [], any, arith, eq_iff, eq_refl, false, find, find-append_none, find-append_some, find-next_id,
  if◌then◌else◌, inl, inr, next_id, none, some, subst, sym, true, ℕ, ◌++◌, ◌∙◌, ◌∷◌, ◌≡◌, ◌≤◌,
}

abbrev pub grown : List FactObservation → FactObservation → List FactObservation
grown os row = os ++ row ∷ []

abbrev pub advanced : List FactObservation → List FactHead → FactObservation → List FactHead
advanced os heads row =
    if keeps_head (head_observation row.family row.subject_key heads os) row
    then heads
    else set_head row.family row.subject_key row.id heads

-- The identity of the appended row is new.
pub find-fresh :
    (os : List FactObservation) (i : ℕ)
    → next_id (λ o. o.id) os ≤ i
    → find (observation_is i) os ≡ none
find-fresh os i h =
    find-next_id (λ o. o.id) (observation_is i) os
      (λ x e. let q : x.id ≡ i = ground arith in omega (arith, q))

pub find-grown_self :
    (os : List FactObservation) (row : FactObservation)
    → next_id (λ o. o.id) os ≤ row.id
    → find (observation_is row.id) (grown os row) ≡ some row
find-grown_self os row h =
    rw (find-append_none (observation_is row.id) os (row ∷ []) (find-fresh os row.id h))
      (ground arith)

Grounded-grown :
    (os : List FactObservation) (row : FactObservation) (h : FactHead)
    → Grounded os h
    → Grounded (grown os row) h
Grounded-grown os row h (o, found, same) =
    (o, find-append_some (observation_is h.observation_id) os (row ∷ []) found, same)

module _ (os : List FactObservation) (heads : List FactHead) (row : FactObservation)
    (inv : HeadsInv os heads) (fresh : next_id (λ o. o.id) os ≤ row.id) where
  identified-grown : All (λ o. find (observation_is o.id) (grown os row) ≡ some o) (grown os row)
  identified-grown =
      All-append (λ o. find (observation_is o.id) (grown os row) ≡ some o) os (row ∷ [])
        (All-mono (λ o. find (observation_is o.id) os ≡ some o)
          (λ o. find (observation_is o.id) (grown os row) ≡ some o) os
          (λ o e. find-append_some (observation_is o.id) os (row ∷ []) e) inv.identified)
        (find-grown_self os row fresh, tt)

  Grounded-set : All (Grounded (grown os row)) (set_head row.family row.subject_key row.id heads)
  Grounded-set = elim (Bool-cases (any (head_is row.family row.subject_key) heads)) [
    | inl e ↦ rw e (
        All-update (Grounded (grown os row)) (head_is row.family row.subject_key) (point row.id)
          heads
          (λ h own _. (
            row,
            find-grown_self os row fresh,
            ground (
              arith,
              eq_iff h.family row.family,
              eq_iff row.family h.family,
              eq_iff h.subject_key row.subject_key,
              eq_iff row.subject_key h.subject_key,
            ),
          ))
          (All-mono (Grounded os) (Grounded (grown os row)) heads (Grounded-grown os row)
            inv.grounded))
    | inr e ↦ rw e (
        All-append (Grounded (grown os row)) heads _
          (All-mono (Grounded os) (Grounded (grown os row)) heads (Grounded-grown os row)
            inv.grounded)
          (
            (
              row,
              find-grown_self os row fresh,
              ground (arith, eq_refl row.family, eq_refl row.subject_key),
            ),
            tt,
          ))
  ]

  -- The observation that a head names is found in the longer table.
  pub head_observation-grown :
      (g u : String) → head_observation g u heads (grown os row) ≡ head_observation g u heads os
  head_observation-grown g u = elim (Option-cases (find (head_is g u) heads)) [
    | inl e ↦ rw e
    | inr (h, e) ↦
        let (o, found, _) = All-find (Grounded os) (head_is g u) heads {r = h} e inv.grounded in
        rw e (find-append_some (observation_is h.observation_id) os (row ∷ []) found ∙ sym found)
  ]

  -- A fact that the row does not belong to keeps its latest observation.
  Newest-grown_ne :
      (g u : String) (c : Option FactObservation)
      → fact_is g u row ≡ false
      → Newest g u os c
      → Newest g u (grown os row) c
  Newest-grown_ne g u none ne n = All-append (λ o. fact_is g u o ≡ false) os (row ∷ []) n (ne, tt)
  Newest-grown_ne g u (some c) ne n = (
    n.0,
    find-append_some (observation_is c.id) os (row ∷ []) n.1,
    All-append (λ o. fact_is g u o ≡ true → not_before c o ≡ true) os (row ∷ []) n.2
        (λ e. absurd (cc), tt),
  )

  own : fact_is row.family row.subject_key row ≡ true
  own = ground (arith, eq_refl row.family, eq_refl row.subject_key)

  Newest-grown_kept :
      (c : FactObservation)
      → not_before c row ≡ true
      → Newest row.family row.subject_key os (some c)
      → Newest row.family row.subject_key (grown os row) (some c)
  Newest-grown_kept c later n = (
    n.0,
    find-append_some (observation_is c.id) os (row ∷ []) n.1,
    All-append (λ o. fact_is row.family row.subject_key o ≡ true → not_before c o ≡ true) os
        (row ∷ []) n.2 (λ e. later, tt),
  )

  Newest-grown_new :
      (c : Option FactObservation)
      → keeps_head c row ≡ false
      → Newest row.family row.subject_key os c
      → Newest row.family row.subject_key (grown os row) (some row)
  Newest-grown_new none later n = (
    own,
    find-grown_self os row fresh,
    All-append (λ o. fact_is row.family row.subject_key o ≡ true → not_before row o ≡ true) os
        (row ∷ [])
        (All-mono (λ o. fact_is row.family row.subject_key o ≡ false)
          (λ o. fact_is row.family row.subject_key o ≡ true → not_before row o ≡ true) os
          (λ o e k. absurd (cc)) n)
        (λ e. not_before_refl row, tt),
  )
  Newest-grown_new (some c) later n = (
    own,
    find-grown_self os row fresh,
    All-append (λ o. fact_is row.family row.subject_key o ≡ true → not_before row o ≡ true) os
        (row ∷ [])
        (All-mono (λ o. fact_is row.family row.subject_key o ≡ true → not_before c o ≡ true)
          (λ o. fact_is row.family row.subject_key o ≡ true → not_before row o ≡ true) os
          (λ o k e. not_before_trans row c o (not_before_total c row later) (k e)) n.2)
        (λ e. not_before_refl row, tt),
  )

  Newest-grown_keep :
      (c : Option FactObservation)
      → keeps_head c row ≡ true
      → Newest row.family row.subject_key os c
      → Newest row.family row.subject_key (grown os row) c
  Newest-grown_keep none later n = absurd (cc)
  Newest-grown_keep (some c) later n = Newest-grown_kept c later n

  Newest-own :
      Newest row.family row.subject_key
        (grown os row)
        (head_observation row.family row.subject_key (advanced os heads row) (grown os row))
  Newest-own =
      elim (Bool-cases (keeps_head (head_observation row.family row.subject_key heads os) row)) [
        | inl e ↦ rw e (
            rw (head_observation-grown row.family row.subject_key)
              (Newest-grown_keep _ e (inv.newest row.family row.subject_key)))
        | inr e ↦
            let (h, found, i) = find-set_head_self row.family row.subject_key row.id heads in
            rw e (
              rw found (
                rw i (
                  rw (find-grown_self os row fresh)
                    (Newest-grown_new _ e (inv.newest row.family row.subject_key)))))
      ]

  Newest-other :
      (g u : String)
      → fact_is g u row ≡ false
      → Newest g u (grown os row) (head_observation g u (advanced os heads row) (grown os row))
  Newest-other g u ne =
      elim (Bool-cases (keeps_head (head_observation row.family row.subject_key heads os) row)) [
        | inl e ↦ rw e (rw (head_observation-grown g u) (Newest-grown_ne g u _ ne (inv.newest g u)))
        | inr e ↦ rw e (
            rw (find-set_head_ne row.family row.subject_key g u row.id heads ne)
              (rw (head_observation-grown g u) (Newest-grown_ne g u _ ne (inv.newest g u))))
      ]

  abbrev NewestAfter : String → String → Type 0
  NewestAfter g u =
      Newest g u (grown os row) (head_observation g u (advanced os heads row) (grown os row))

  newest-grown : (g u : String) → NewestAfter g u
  newest-grown g u = elim (Bool-cases (fact_is g u row)) [
    | inl e ↦
        let p : row.family ≡ g = ground (arith, eq_iff row.family g) in
        let q : row.subject_key ≡ u = ground (arith, eq_iff row.subject_key u) in
        subst (λ x. NewestAfter x u) p (subst (λ y. NewestAfter row.family y) q Newest-own)
    | inr e ↦ Newest-other g u e
  ]

  Grounded-advanced : All (Grounded (grown os row)) (advanced os heads row)
  Grounded-advanced =
      elim (Bool-cases (keeps_head (head_observation row.family row.subject_key heads os) row)) [
        | inl e ↦ rw e (
            All-mono (Grounded os) (Grounded (grown os row)) heads (Grounded-grown os row)
              inv.grounded)
        | inr e ↦ rw e Grounded-set
      ]

  distinct-advanced : DistinctHeads (advanced os heads row)
  distinct-advanced =
      elim (Bool-cases (keeps_head (head_observation row.family row.subject_key heads os) row)) [
        | inl e ↦ rw e inv.distinct
        | inr e ↦ rw e (set_head-DistinctHeads row.family row.subject_key row.id heads inv.distinct)
      ]

  pub HeadsInv-advanced : HeadsInv (grown os row) (advanced os heads row)
  HeadsInv-advanced = record {
    identified = identified-grown;
    grounded = Grounded-advanced;
    distinct = distinct-advanced;
    newest = newest-grown;
  }

abbrev pub HeadsOk : Tables → Type 0
HeadsOk t = HeadsInv t.fact_observations t.fact_heads
