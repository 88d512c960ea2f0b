-- ===== src/Ordered/Dict.antt =====
-- Python dictionaries as the lists of their items, and `sorted(…, key=…)` of their keys.
use gh_puller.Base.{
  All, Bool, Bool-cases, Comparable, List, Option, [], arith, false, if◌then◌else◌, inl, inr, none,
  refl, some, true, ◌∷◌, ◌≡◌, ap, sym, ◌∙◌, subst, All-mono,
}
use gh_puller.Ordered.Texts.{Text, before, before_irrefl, before_total, before_trans}

-- Keys that are sorted by a text, which tells them apart.
pub record Sortable {ℓ} (K : Type ℓ) : Type ℓ where
  pub comparable : Comparable K
  pub sort_key : K → Text
  pub sort_key_inj : (j k : K) → sort_key j ≡ sort_key k → j ≡ k

module _ {K : Type 0} ⦃o : Sortable K⦄ where
  abbrev pub same : K → K → Bool
  same j k = o.comparable.agrees j k

  pub same_refl : (k : K) → same k k ≡ true
  same_refl k = (o.comparable.agrees_iff k k).1 refl

  pub eq_of_same : (j k : K) → same j k ≡ true → j ≡ k
  eq_of_same j k = (o.comparable.agrees_iff j k).0

  abbrev pub precedes : K → K → Bool
  precedes j k = before (o.sort_key j) (o.sort_key k)

  pub precedes_self : (j k : K) → precedes j k ≡ true → same j k ≡ false
  precedes_self j k h = elim (Bool-cases (same j k)) [
    | inl e ↦
        let i : o.sort_key j ≡ o.sort_key k = ap o.sort_key (eq_of_same j k e) in
        cc (before_irrefl (o.sort_key k))
    | inr e ↦ e
  ]

  pub precedes_other : (j k : K) → same j k ≡ false → precedes j k ≡ false → precedes k j ≡ true
  precedes_other j k h n = elim (Bool-cases (precedes k j)) [
    | inl e ↦ e
    | inr e ↦
        let i : j ≡ k = o.sort_key_inj j k (before_total (o.sort_key j) (o.sort_key k) n e) in
        let t = (o.comparable.agrees_iff j k).1 i in absurd (cc)
  ]

module _ {K : Type 0} {V : Type 0} ⦃o : Sortable K⦄ where
  -- `d.get(k)`.
  unfoldable pub get : K → List (K × V) → Option V
  get k [] = none
  get k ((j, v) ∷ d) = if same j k then some v else get k d

  -- `d[k] = v`.
  unfoldable pub put : K → V → List (K × V) → List (K × V)
  put k v [] = (k, v) ∷ []
  put k v ((j, w) ∷ d) = if same j k then (j, v) ∷ d else (j, w) ∷ put k v d

  -- `del d[k]`, `d.pop(k, None)`.
  unfoldable pub remove : K → List (K × V) → List (K × V)
  remove k [] = []
  remove k ((j, w) ∷ d) = if same j k then remove k d else (j, w) ∷ remove k d

  unfoldable pub place : K × V → List (K × V) → List (K × V)
  place (k, v) [] = (k, v) ∷ []
  place (k, v) ((j, w) ∷ d) = if precedes j k then (j, w) ∷ place (k, v) d else (k, v) ∷ (j, w) ∷ d

  -- The items in the order of their keys.
  unfoldable pub sort : List (K × V) → List (K × V)
  sort [] = []
  sort (e ∷ d) = place e (sort d)

  pub get-put :
      (j k : K) (v : V) (d : List (K × V))
      → get j (put k v d) ≡ (if same k j then some v else get j d)
  unfolding get put
  get-put j k v [] = refl
  get-put j k v ((i, w) ∷ d) =
      ground (arith, get-put j k v d, eq_of_same i k, eq_of_same i j, eq_of_same k j, same_refl i)

  pub get-remove :
      (j k : K) (d : List (K × V)) → get j (remove k d) ≡ (if same k j then none else get j d)
  unfolding get remove
  get-remove j k [] = ground arith
  get-remove j k ((i, w) ∷ d) =
      ground (arith, get-remove j k d, eq_of_same i k, eq_of_same i j, eq_of_same k j, same_refl i)

  get-place :
      (j k : K) (v : V) (d : List (K × V))
      → get j (place (k, v) d) ≡ (if same k j then some v else get j d)
  unfolding get place
  get-place j k v [] = refl
  get-place j k v ((i, w) ∷ d) =
      ground (arith, get-place j k v d, precedes_self i k, eq_of_same i j, eq_of_same k j)

  pub get-sort : (j : K) (d : List (K × V)) → get j (sort d) ≡ get j d
  unfolding sort get
  get-sort j [] = refl
  get-sort j ((k, v) ∷ d) = rw (get-place j k v (sort d), get-sort j d)

  -- Keys occur once.
  abbrev pub Unique : List (K × V) → Type 0
  Unique [] = Unit
  Unique ((k, v) ∷ d) = (get k d ≡ none) × Unique d

  pub put-Unique : (k : K) (v : V) (d : List (K × V)) → Unique d → Unique (put k v d)
  unfolding put get
  put-Unique k v [] h = (refl, tt)
  put-Unique k v ((j, w) ∷ d) h = elim (Bool-cases (same j k)) [
    | inl e ↦ rw e h
    | inr e ↦
        rw e (ground (arith, get-put j k v d, eq_of_same k j, same_refl j), put-Unique k v d h.1)
  ]

  pub remove-Unique : (k : K) (d : List (K × V)) → Unique d → Unique (remove k d)
  unfolding remove
  remove-Unique k [] h = tt
  remove-Unique k ((j, w) ∷ d) h = elim (Bool-cases (same j k)) [
    | inl e ↦ rw e (remove-Unique k d h.1)
    | inr e ↦ rw e (ground (arith, get-remove j k d), remove-Unique k d h.1)
  ]

  -- The keys ascend.
  abbrev pub Ascends : List (K × V) → Type 0
  Ascends [] = Unit
  Ascends ((k, v) ∷ d) = All (λ e. precedes k e.0 ≡ true) d × Ascends d

  All-place :
      (P : K × V → Type 0) (e : K × V) (d : List (K × V)) → P e → All P d → All P (place e d)
  unfolding place
  All-place P (k, v) [] p h = (p, tt)
  All-place P (k, v) ((j, w) ∷ d) p h = elim (Bool-cases (precedes j k)) [
    | inl e ↦ rw e (h.0, All-place P (k, v) d p h.1)
    | inr e ↦ rw e (p, h)
  ]

  place-Ascends :
      (k : K) (v : V) (d : List (K × V)) → get k d ≡ none → Ascends d → Ascends (place (k, v) d)
  unfolding place get
  place-Ascends k v [] n h = (tt, tt)
  place-Ascends k v ((j, w) ∷ d) n h = elim (Bool-cases (precedes j k)) [
    | inl e ↦ rw e (
      All-place (λ x. precedes j x.0 ≡ true) (k, v) d e h.0,
      place-Ascends k v d (ground (arith, precedes_self j k)) h.1,
    )
    | inr e ↦
        let apart : same j k ≡ false = ground arith in
        let less : precedes k j ≡ true = precedes_other j k apart e in
        rw e (
          (
            less,
            All-mono (λ x. precedes j x.0 ≡ true) (λ x. precedes k x.0 ≡ true) d
                (λ x. before_trans (o.sort_key k) (o.sort_key j) (o.sort_key x.0) less) h.0,
          ),
          h,
        )
  ]

  pub sort-Ascends : (d : List (K × V)) → Unique d → Ascends (sort d)
  unfolding sort
  sort-Ascends [] h = tt
  sort-Ascends ((k, v) ∷ d) h = place-Ascends k v (sort d) (get-sort k d ∙ h.0) (sort-Ascends d h.1)

  get_above : (k : K) (d : List (K × V)) → All (λ x. precedes k x.0 ≡ true) d → get k d ≡ none
  unfolding get
  get_above k [] h = refl
  get_above k ((j, w) ∷ d) h =
      ground (arith, get_above k d h.1, precedes_self k j, eq_of_same j k, same_refl k)

  pub Ascends-Unique : (d : List (K × V)) → Ascends d → Unique d
  Ascends-Unique [] h = tt
  Ascends-Unique ((k, v) ∷ d) h = (get_above k d h.0, Ascends-Unique d h.1)

  get_head : (k : K) (v : V) (d : List (K × V)) → get k ((k, v) ∷ d) ≡ some v
  unfolding get
  get_head k v d = rw (same_refl k) refl

  -- A key before the head of an ascending list is not in it.
  get_before :
      (k j : K) (w : V) (d : List (K × V))
      → precedes k j ≡ true
      → Ascends ((j, w) ∷ d)
      → get k ((j, w) ∷ d) ≡ none
  get_before k j w d e h = get_above k ((j, w) ∷ d) (
    e,
    All-mono (λ x. precedes j x.0 ≡ true) (λ x. precedes k x.0 ≡ true) d
        (λ x. before_trans (o.sort_key k) (o.sort_key j) (o.sort_key x.0) e) h.0,
  )

  get_tail :
      (k : K) (v w : V) (d e : List (K × V))
      → All (λ x. precedes k x.0 ≡ true) d
      → All (λ x. precedes k x.0 ≡ true) e
      → ((j : K) → get j ((k, v) ∷ d) ≡ get j ((k, w) ∷ e))
      → (j : K) → get j d ≡ get j e
  unfolding get
  get_tail k v w d e h i agree j = elim (Bool-cases (same k j)) [
    | inl p ↦
        let q : k ≡ j = eq_of_same k j p in
        subst (λ x. get x d ≡ get x e) q (get_above k d h ∙ sym (get_above k e i))
    | inr p ↦ rw p at (agree j)
  ]

  -- An ascending list is determined by what its keys are bound to.
  pub Ascends-ext :
      (d e : List (K × V)) → Ascends d → Ascends e → ((k : K) → get k d ≡ get k e) → d ≡ e
  Ascends-ext [] [] h i agree = refl
  Ascends-ext [] ((k, w) ∷ e) h i agree =
      absurd (let x = agree k ∙ get_head k w e in unfold get in cc x)
  Ascends-ext ((k, v) ∷ d) [] h i agree =
      absurd (let x = sym (agree k) ∙ get_head k v d in unfold get in cc x)
  Ascends-ext ((k, v) ∷ d) ((j, w) ∷ e) h i agree = elim (Bool-cases (precedes k j)) [
    | inl p ↦ absurd (let x = sym (get_head k v d) ∙ agree k ∙ get_before k j w e p i in cc x)
    | inr p ↦ elim (Bool-cases (precedes j k)) [
      | inl q ↦
          absurd (let x = sym (get_head j w e) ∙ sym (agree j) ∙ get_before j k v d q h in cc x)
      | inr q ↦
          let same_key : k ≡ j = o.sort_key_inj k j (before_total _ _ p q) in
          let back = λ (x : K). ap (λ (y : K). get x ((y, w) ∷ e)) (sym same_key) in
          let v_is_w : some v ≡ some w = sym (get_head k v d) ∙ agree k ∙ back k ∙ get_head k w e in
          let above = subst (λ x. All (λ y. precedes x y.0 ≡ true) e) (sym same_key) i.0 in
          let tails : d ≡ e =
            Ascends-ext d e h.1 i.1 (get_tail k v w d e h.0 above (λ x. agree x ∙ back x)) in
          cc
    ]
  ]

  pub All-put :
      (P : K × V → Type 0) (k : K) (v : V) (d : List (K × V))
      → ((j : K) → same j k ≡ true → P (j, v))
      → All P d
      → All P (put k v d)
  unfolding put
  All-put P k v [] p h = (p k (same_refl k), tt)
  All-put P k v ((j, w) ∷ d) p h = elim (Bool-cases (same j k)) [
    | inl e ↦ rw e (p j e, h.1)
    | inr e ↦ rw e (h.0, All-put P k v d p h.1)
  ]

  pub All-remove : (P : K × V → Type 0) (k : K) (d : List (K × V)) → All P d → All P (remove k d)
  unfolding remove
  All-remove P k [] h = tt
  All-remove P k ((j, w) ∷ d) h = elim (Bool-cases (same j k)) [
    | inl e ↦ rw e (All-remove P k d h.1)
    | inr e ↦ rw e (h.0, All-remove P k d h.1)
  ]

  pub All-sort : (P : K × V → Type 0) (d : List (K × V)) → All P d → All P (sort d)
  unfolding sort
  All-sort P [] h = tt
  All-sort P (e ∷ d) h = All-place P e (sort d) h.0 (All-sort P d h.1)
