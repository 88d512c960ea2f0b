-- ===== src/Ordered/Sets.antt =====
-- Python sets as the ascending lists of their members, so that `sorted(s)` is the list.
use gh_puller.Base.{
  All, All-mono, Bool, Bool-cases, List, String, [], all, any, arith, codes, false, if◌then◌else◌,
  inl, inr, refl, subst, text_instance, true, ◌&&◌, ◌||◌, ◌∷◌, ◌≡◌, ap₂,
}
use gh_puller.Ordered.Dict.{Sortable, eq_of_same, precedes, precedes_other, same, same_refl}
use text.Mathlib.TextEquality.{Char-path}
use gh_puller.Ordered.Texts.{before_irrefl, before_trans}

module _ {K : Type 0} ⦃o : Sortable K⦄ where
  -- `k in s`.
  abbrev pub member : K → List K → Bool
  member k s = any (λ j. same j k) s

  -- `s | {k}`.
  unfoldable pub include : K → List K → List K
  include k [] = k ∷ []
  include k (j ∷ s) =
      let rest = include k s in
      if same j k then j ∷ s else if precedes k j then k ∷ j ∷ s else j ∷ rest

  -- `set(ks)`.
  unfoldable pub set_of : List K → List K
  set_of [] = []
  set_of (k ∷ ks) = include k (set_of ks)

  -- `s | t`.
  unfoldable pub union : List K → List K → List K
  union [] t = t
  union (k ∷ s) t = include k (union s t)

  -- `s <= t`.
  abbrev pub subset : List K → List K → Bool
  subset s t = all (λ k. member k t) s

  -- `s == t`.
  abbrev pub set_eq : List K → List K → Bool
  set_eq s t = subset s t && subset t s

  pub member-include :
      (j k : K) (s : List K) → member j (include k s) ≡ (if same k j then true else member j s)
  unfolding include
  member-include j k [] = ground arith
  member-include j k (i ∷ s) =
      ground
        (arith, member-include j k s, eq_of_same i k, eq_of_same i j, eq_of_same k j, same_refl i)

  pub member-union : (k : K) (s t : List K) → member k (union s t) ≡ (member k s || member k t)
  unfolding union
  member-union k [] t = refl
  member-union k (j ∷ s) t = ground (arith, member-include k j (union s t), member-union k s t)

  pub member-set_of : (k : K) (ks : List K) → member k (set_of ks) ≡ member k ks
  unfolding set_of
  member-set_of k [] = refl
  member-set_of k (j ∷ ks) = ground (arith, member-include k j (set_of ks), member-set_of k ks)

  -- The members ascend.
  abbrev pub IsAscending : List K → Type 0
  IsAscending [] = Unit
  IsAscending (k ∷ s) = All (λ j. precedes k j ≡ true) s × IsAscending s

  All-include : (P : K → Type 0) (k : K) (s : List K) → P k → All P s → All P (include k s)
  unfolding include
  All-include P k [] p h = (p, tt)
  All-include P k (j ∷ s) p h = elim (Bool-cases (same j k)) [
    | inl e ↦ rw e h
    | inr e ↦ elim (Bool-cases (precedes k j)) [
      | inl q ↦ rw (e, q) (p, h)
      | inr q ↦ rw (e, q) (h.0, All-include P k s p h.1)
    ]
  ]

  pub include-IsAscending : (k : K) (s : List K) → IsAscending s → IsAscending (include k s)
  unfolding include
  include-IsAscending k [] h = (tt, tt)
  include-IsAscending k (j ∷ s) h = elim (Bool-cases (same j k)) [
    | inl e ↦ rw e h
    | inr e ↦ elim (Bool-cases (precedes k j)) [
      | inl q ↦
          rw (e, q)
            (
              (
                q,
                All-mono (λ x. precedes j x ≡ true) (λ x. precedes k x ≡ true) s
                    (λ x. before_trans (o.sort_key k) (o.sort_key j) (o.sort_key x) q) h.0,
              ),
              h,
            )
      | inr q ↦
          let apart : same k j ≡ false = ground (arith, eq_of_same k j, same_refl j) in
          rw (e, q)
            (
              All-include (λ x. precedes j x ≡ true) k s (precedes_other k j apart q) h.0,
              include-IsAscending k s h.1,
            )
    ]
  ]

  pub set_of-IsAscending : (ks : List K) → IsAscending (set_of ks)
  unfolding set_of
  set_of-IsAscending [] = tt
  set_of-IsAscending (k ∷ ks) = include-IsAscending k (set_of ks) (set_of-IsAscending ks)

  pub union-IsAscending : (s t : List K) → IsAscending t → IsAscending (union s t)
  unfolding union
  union-IsAscending [] t h = h
  union-IsAscending (k ∷ s) t h = include-IsAscending k (union s t) (union-IsAscending s t h)

  -- Including a member of a set at its head, or before it.
  include_head : (k : K) (s : List K) → IsAscending (k ∷ s) → include k s ≡ k ∷ s
  unfolding include
  include_head k [] h = refl
  include_head k (j ∷ s) h =
      let apart : same j k ≡ false = elim (Bool-cases (same j k)) [
        | inl e ↦
            let q = subst (λ x. precedes k x ≡ true) (eq_of_same j k e) h.0.0 in
            let i = before_irrefl (o.sort_key k) in absurd (cc)
        | inr e ↦ e
      ] in
      rw (apart, h.0.0) refl

  -- A set is the set of its members.
  pub set_of_self : (s : List K) → IsAscending s → set_of s ≡ s
  unfolding set_of
  set_of_self [] h = refl
  set_of_self (k ∷ s) h = rw (set_of_self s h.1) (include_head k s h)

  pub subset_sound :
      (k : K) (s t : List K) → subset s t ≡ true → member k s ≡ true → member k t ≡ true
  subset_sound k [] t h m = absurd (cc)
  subset_sound k (j ∷ s) t h m = elim (Bool-cases (same j k)) [
    | inl e ↦ let p : j ≡ k = eq_of_same j k e in subst (λ x. member x t ≡ true) p (ground arith)
    | inr e ↦ subset_sound k s t (ground arith) (rw e at m)
  ]

  pub subset_complete :
      (s t : List K) → ((k : K) → member k s ≡ true → member k t ≡ true) → subset s t ≡ true
  subset_complete [] t h = refl
  subset_complete (j ∷ s) t h =
      let here : member j t ≡ true = h j (rw (same_refl j) refl) in
      rw here (subset_complete s t (λ k m. h k (ground arith)))

pub codes_inj : (s t : String) → codes s ≡ codes t → s ≡ t
codes_inj String.[] String.[] h = refl
codes_inj String.[] (String.◌∷◌ c t) h = absurd (ground arith)
codes_inj (String.◌∷◌ c s) String.[] h = absurd (ground arith)
codes_inj (String.◌∷◌ c s) (String.◌∷◌ d t) h =
    let e : c ≡ d = Char-path c d (cc) in ap₂ String.◌∷◌ e (codes_inj s t (cc))

-- `sorted(names)`.
instance abbrev pub string_sortable : Sortable String
string_sortable = record { comparable = text_instance; sort_key = codes; sort_key_inj = codes_inj }
