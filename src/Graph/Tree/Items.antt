-- ===== src/Graph/Tree/Items.antt =====
-- `_record_map`, and how changes of a leaf and their grouping read by key.
use gh_puller.Archive.Action.{ok}
use gh_puller.Base.{
  All, All-mono, Bool-cases, List, Option, Option-cases, [], append-nil, append_assoc, arith, false,
  inl, inr, none, refl, some, sym, ◌++◌, ◌∷◌, ◌≡◌, ◌≢◌, ◌∙◌, ap,
}
use gh_puller.Ordered.Dict
use gh_puller.Ordered.Dict.{Sortable, Unique, eq_of_same, same, same_refl}
use gh_puller.Graph.Keys.{Key}
use gh_puller.Graph.Pages.{key_sortable, text_sortable}
use gh_puller.Ordered.Texts.{points_instance}
use gh_puller.Graph.Tree.{Changes, apply_changes, record_map}

module _ {K : Type 0} {A : Type 0} ⦃o : Sortable K⦄ where
  pub put_new :
      (k : K) (v : A) (d : List (K × A)) → Dict.get k d ≡ none → Dict.put k v d ≡ d ++ (k, v) ∷ []
  unfolding Dict.get Dict.put
  put_new k v [] h = refl
  put_new k v ((j, w) ∷ d) h = elim (Bool-cases (same j k)) [
    | inl e ↦ absurd (cc (rw e at h))
    | inr e ↦ rw e (ap (λ x. (j, w) ∷ x) (put_new k v d (rw e at h)))
  ]

  -- No item of `d` is bound in `seen`.
  abbrev Fresh : List (K × A) → List (K × A) → Type 0
  Fresh seen d = All (λ e. Dict.get e.0 seen ≡ none) d

  Fresh-put :
      (k : K) (v : A) (seen d : List (K × A))
      → Dict.get k d ≡ none
      → Fresh seen d
      → Fresh (Dict.put k v seen) d
  unfolding Dict.get
  Fresh-put k v seen [] n h = tt
  Fresh-put k v seen ((j, w) ∷ d) n h = (
    ground (arith, Dict.get-put j k v seen, eq_of_same k j, same_refl j),
    Fresh-put k v seen d (ground arith) h.1,
  )

  record_map-Fresh :
      (seen d : List (K × A)) → Unique d → Fresh seen d → record_map seen d ≡ ok (seen ++ d)
  unfolding record_map
  record_map-Fresh seen [] u h = ap ok (sym (append-nil seen))
  record_map-Fresh seen ((k, v) ∷ d) u h = rw h.0 (
      record_map-Fresh (Dict.put k v seen) d u.1 (Fresh-put k v seen d u.0 h.1)
      ∙ ap (λ x. ok (x ++ d)) (put_new k v seen h.0)
      ∙ ap ok (append_assoc seen ((k, v) ∷ []) d))

  Fresh-nil : (d : List (K × A)) → Fresh [] d
  unfolding Dict.get
  Fresh-nil [] = tt
  Fresh-nil (e ∷ d) = (refl, Fresh-nil d)

  pub record_map-Unique : (d : List (K × A)) → Unique d → record_map [] d ≡ ok d
  record_map-Unique d u = record_map-Fresh [] d u (Fresh-nil d)

  -- Every item is what its key is bound to.
  pub All-get : (d : List (K × A)) → Unique d → All (λ e. Dict.get e.0 d ≡ some e.1) d
  unfolding Dict.get
  All-get [] u = tt
  All-get ((k, v) ∷ d) u = (
    rw (same_refl k) refl,
    All-mono (λ e. Dict.get e.0 d ≡ some e.1) (λ e. Dict.get e.0 ((k, v) ∷ d) ≡ some e.1) d
        (λ e h. ground (arith, eq_of_same k e.0)) (All-get d u.1),
  )

  pub get-nil : (k : K) → Dict.get {V = A} k [] ≡ none
  unfolding Dict.get
  get-nil k = refl

-- What a change of its key leaves of a binding.
abbrev pub amended : {V : Type 0} → Option (Option V) → Option V → Option V
amended none old = old
amended (some new) old = new

module _ {V : Type 0} where
  -- Every deletion finds its key.
  abbrev pub Deletes : (Key → Option V) → Changes V → Type 0
  Deletes bound changes = All (λ c. c.1 ≡ none → bound c.0 ≢ none) changes

  Deletes-step :
      (k : Key) (f g : Key → Option V) (changes : Changes V)
      → Dict.get k changes ≡ none
      → ((j : Key) → same k j ≡ false → g j ≡ f j)
      → Deletes f changes
      → Deletes g changes
  unfolding Dict.get
  Deletes-step k f g [] n e h = tt
  Deletes-step k f g ((j, w) ∷ changes) n e h = (
    let apart : same k j ≡ false = ground (arith, eq_of_same k j, same_refl j) in
        λ gone found. h.0 gone (sym (e j apart) ∙ found),
    Deletes-step k f g changes (ground arith) e h.1,
  )

  -- Changes that delete what is there succeed, and each key reads as they leave it.
  pub apply_changes_lem :
      (changes : Changes V) (d : List (Key × V))
      → Unique changes
      → Unique d
      → Deletes (λ k. Dict.get k d) changes
      → (d' : List (Key × V)) × (apply_changes changes d ≡ ok d')
        × Unique d'
        × ((k : Key) → Dict.get k d' ≡ amended (Dict.get k changes) (Dict.get k d))
  unfolding apply_changes Dict.get
  apply_changes_lem [] d u v h = (d, refl, v, λ k. refl)
  apply_changes_lem ((j, some w) ∷ changes) d u v h =
      let e = λ (k : Key). Dict.get-put k j w d in
      let (d', run, unique, read) =
        apply_changes_lem changes (Dict.put j w d) u.1 (Dict.put-Unique j w d v) (
          Deletes-step j (λ k. Dict.get k d) (λ k. Dict.get k (Dict.put j w d)) changes u.0
            (λ k n. e k ∙ rw n refl) h.1) in
      (d', run, unique, λ k. ground (arith, read k, e k, eq_of_same j k))
  apply_changes_lem ((j, none) ∷ changes) d u v h =
      let e = λ (k : Key). Dict.get-remove k j d in
      let (d', run, unique, read) =
        apply_changes_lem changes (Dict.remove j d) u.1 (Dict.remove-Unique j d v) (
          Deletes-step j (λ k. Dict.get k d) (λ k. Dict.get k (Dict.remove j d)) changes u.0
            (λ k n. e k ∙ rw n refl) h.1) in
      elim (Option-cases (Dict.get j d)) [
        | inl n ↦ absurd (h.0 refl n)
        | inr (x, s) ↦ (d', rw s run, unique, λ k. ground (arith, read k, e k, eq_of_same j k))
      ]
