-- ===== src/Archive/Facts/Current.antt =====
-- The query of `current_fact` reads the observation that the head of the fact names.
use gh_puller.Archive.Facts.{fact_is, head_is, is_current, observation_is}
use gh_puller.Archive.Facts.Heads.{DistinctHeads, Grounded, HeadsInv, head_observation}
use gh_puller.Archive.Model.{FactHead, FactObservation}
use gh_puller.Base.{
  All, All-any, All-both, All-find, All-mono, Bool-cases, List, Option-cases, String, [],
  any-false_of_All, any_of_find-none, any_of_found, ap, arith, eq_iff, false, find,
  find-none_of_All, find_congr, find_sound, inl, inr, nat_instance, none, option_instance, some,
  some-injective, subst, sym, text_instance, true, ◌==◌, ◌∙◌, ◌∷◌, ◌≡◌,
}

abbrev HeadsAgree : String → String → FactHead → FactHead → Type 0
HeadsAgree f s h k = head_is f s k ≡ true → k.observation_id ≡ h.observation_id

same_head :
    (f s : String) (h k : FactHead)
    → head_is f s h ≡ true
    → head_is f s k ≡ true
    → head_is h.family h.subject_key k ≡ true
same_head f s h k e i = ground (
  arith,
  eq_iff h.family f,
  eq_iff k.family f,
  eq_iff k.family h.family,
  eq_iff h.subject_key s,
  eq_iff k.subject_key s,
  eq_iff k.subject_key h.subject_key,
)

-- Distinct heads leave no other head of the same fact.
only_head :
    (f s : String) (hs : List FactHead) {h : FactHead}
    → DistinctHeads hs
    → find (head_is f s) hs ≡ some h
    → All (HeadsAgree f s h) hs
only_head f s [] d e = tt
only_head f s (x ∷ hs) {h} d e = elim (Bool-cases (head_is f s x)) [
  | inl i ↦
      let q : x ≡ h = ground arith in
      (
        λ _. ap (λ y. y.observation_id) q,
        All-mono (λ k. head_is x.family x.subject_key k ≡ false) (HeadsAgree f s h) hs
            (λ k no j. let yes = same_head f s x k i j in absurd (cc))
            (any-false_of_All (head_is x.family x.subject_key) hs d.0),
      )
  | inr i ↦ (λ j. absurd (cc), only_head f s hs {h = h} d.1 (ground arith))
]

module _ (os : List FactObservation) (hs : List FactHead) (inv : HeadsInv os hs)
    (f s : String) where
  abbrev Unique : FactObservation → Type 0
  Unique o = find (observation_is o.id) os ≡ some o

  head_of :
      (Q : FactHead → Type 0) (o : FactObservation)
      → All Q hs
      → Unique o
      → is_current f s hs o ≡ true
      → (h : FactHead) × Q h × (head_is f s h ≡ true) × (h.observation_id ≡ o.id)
  head_of Q o all_q u e =
      let (h, ((o', found, own), of_q), i) =
        All-any (λ k. Grounded os k × Q k) (λ k. k.observation_id == o.id) hs
          (All-both (Grounded os) Q hs inv.grounded all_q) (ground arith) in
      let same : h.observation_id ≡ o.id = ground arith in
      let at_o : find (observation_is h.observation_id) os ≡ some o =
        ap (λ n. find (observation_is n) os) same ∙ u in
      let here : o' ≡ o = some-injective _ _ (sym found ∙ at_o) in
      let own_o : fact_is h.family h.subject_key o ≡ true =
        subst (λ x. fact_is h.family h.subject_key x ≡ true) here own in
      (h, of_q, same_fact h own_o (ground arith), same)
    where
      same_fact :
          (h : FactHead)
          → fact_is h.family h.subject_key o ≡ true
          → fact_is f s o ≡ true
          → head_is f s h ≡ true
      same_fact h own_o here = ground (
        arith,
        eq_iff o.family f,
        eq_iff o.family h.family,
        eq_iff h.family f,
        eq_iff o.subject_key s,
        eq_iff o.subject_key h.subject_key,
        eq_iff h.subject_key s,
      )

  -- Without a head there is no current observation.
  query_none : find (head_is f s) hs ≡ none → find (is_current f s hs) os ≡ none
  query_none e = find-none_of_All (is_current f s hs) os (
      All-mono Unique (λ o. is_current f s hs o ≡ false) os
        (λ o u. elim (Bool-cases (is_current f s hs o)) [
          | inl i ↦
              let no = any-false_of_All (head_is f s) hs (any_of_find-none (head_is f s) hs e) in
              let (h, absent, own, _) = head_of (λ k. head_is f s k ≡ false) o no u i in absurd (cc)
          | inr i ↦ i
        ])
        inv.identified)

  query_found :
      (h : FactHead) (o : FactObservation)
      → find (head_is f s) hs ≡ some h
      → Unique o
      → observation_is h.observation_id o ≡ true
      → is_current f s hs o ≡ false
      → ⊥
  query_found h o e u j i =
      let (o', found, own) = All-find (Grounded os) (head_is f s) hs {r = h} e inv.grounded in
      let same : h.observation_id ≡ o.id = ground arith in
      let here : o' ≡ o =
        some-injective _ _ (sym found ∙ ap (λ n. find (observation_is n) os) same ∙ u) in
      let own_o : fact_is h.family h.subject_key o ≡ true =
        subst (λ x. fact_is h.family h.subject_key x ≡ true) here own in
      let key = find_sound (head_is f s) hs {r = h} e in
      let listed =
        any_of_found (head_is f s) (λ k. k.observation_id == o.id) hs {r = h} e (ground arith) in
      ground (
        arith,
        eq_iff o.family f,
        eq_iff o.family h.family,
        eq_iff h.family f,
        eq_iff o.subject_key s,
        eq_iff o.subject_key h.subject_key,
        eq_iff h.subject_key s,
      )

  query_here :
      (h : FactHead) (o : FactObservation)
      → find (head_is f s) hs ≡ some h
      → Unique o
      → is_current f s hs o ≡ observation_is h.observation_id o
  query_here h o e u = elim (Bool-cases (is_current f s hs o)) [
    | inl i ↦
        let (k, agrees, own, same) =
          head_of (HeadsAgree f s h) o (only_head f s hs {h = h} inv.distinct e) u i in
        let q = agrees own in ground arith
    | inr i ↦ elim (Bool-cases (observation_is h.observation_id o)) [
      | inl j ↦ absurd (query_found h o e u j i)
      | inr j ↦ i ∙ sym j
    ]
  ]

  query_some :
      (h : FactHead)
      → find (head_is f s) hs ≡ some h
      → find (is_current f s hs) os ≡ find (observation_is h.observation_id) os
  query_some h e = find_congr (is_current f s hs) (observation_is h.observation_id) os (
      All-mono Unique (λ o. is_current f s hs o ≡ observation_is h.observation_id o) os
        (λ o u. query_here h o e u) inv.identified)

  pub find-is_current : find (is_current f s hs) os ≡ head_observation f s hs os
  find-is_current = elim (Option-cases (find (head_is f s) hs)) [
    | inl e ↦ rw e (query_none e)
    | inr (h, e) ↦ rw e (query_some h e)
  ]
