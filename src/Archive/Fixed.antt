-- ===== src/Archive/Fixed.antt =====
-- Checks that read no state: they return one result in every archive, and change none.
use gh_puller.Archive.Action.{Action, Error, each, guard, iso, ok, pure, raise, steps, ◌>>=◌, ◌>>◌}
use gh_puller.Archive.Facts.{Publication}
use gh_puller.Archive.Json.{Fields}
use gh_puller.Archive.Model.{DiscoveryItemDraft, FactDraft, TaskDraft, Timestamp, aware, naive}
use gh_puller.Archive.Prepare.{PreparedFact, prepare_discovery_item, prepare_fact, prepare_task}
use gh_puller.Archive.Publish.{check_facts, check_publication}
use gh_puller.Base.{Bool, List, String, [], false, inl, inr, refl, true, ℕ, ◌∷◌, ◌≡◌, ◌⊎◌}

-- The action raises one exception in every state, or returns one value in every state.
abbrev pub Fixed : {S A : Type 0} → Action S A → Type 0
Fixed {S} {A} m =
    ((e : Error) × ((s : S) → m s ≡ (raise e, s))) ⊎ ((a : A) × ((s : S) → m s ≡ (ok a, s)))

-- The action raises one exception in every state, or goes on as `tail x` in every state.
abbrev pub GoesOn : {S A X : Type 0} → (X → Action S A) → Action S A → Type 0
GoesOn {S} {A} {X} tail m =
    ((e : Error) × ((s : S) → m s ≡ (raise e, s))) ⊎ ((x : X) × ((s : S) → m s ≡ tail x s))

module _ {S : Type 0} where
  pub GoesOn-bind :
      {A B X : Type 0} (tail : X → Action S B) (m : Action S A) (f : A → Action S B)
      → Fixed m
      → ((a : A) → GoesOn tail (f a))
      → GoesOn tail (m >>= f)
  unfolding steps
  GoesOn-bind tail m f (inl (e, h)) k = inl (e, λ s. rw (h s) refl)
  GoesOn-bind tail m f (inr (a, h)) k = elim (k a) [
    | inl (e, g) ↦ inl (e, λ s. rw (h s) (g s))
    | inr (x, g) ↦ inr (x, λ s. rw (h s) (g s))
  ]

  pub Fixed-bind :
      {A B : Type 0} {m : Action S A} {f : A → Action S B}
      → Fixed m
      → ((a : A) → Fixed (f a))
      → Fixed (m >>= f)
  unfolding steps
  Fixed-bind (inl (e, h)) k = inl (e, λ s. rw (h s) refl)
  Fixed-bind (inr (a, h)) k = elim (k a) [
    | inl (e, g) ↦ inl (e, λ s. rw (h s) (g s))
    | inr (b, g) ↦ inr (b, λ s. rw (h s) (g s))
  ]

  pub Fixed-then :
      {A B : Type 0} {m : Action S A} {k : Action S B} → Fixed m → Fixed k → Fixed (m >> k)
  unfolding ◌>>◌
  Fixed-then {m = m} {k = k} h g = Fixed-bind {m = m} {f = λ _. k} h (λ _. g)

  pub Fixed-guard : (b : Bool) (e : Error) → Fixed (guard {S = S} b e)
  unfolding steps
  Fixed-guard true e = inr (tt, λ s. refl)
  Fixed-guard false e = inl (e, λ s. refl)

  pub Fixed-pure : {A : Type 0} (a : A) → Fixed (pure {S = S} a)
  unfolding steps
  Fixed-pure a = inr (a, λ s. refl)

  pub Fixed-iso : (at : Timestamp) → Fixed (iso {S = S} at)
  unfolding steps
  Fixed-iso (aware n) = inr (n, λ s. refl)
  Fixed-iso naive = inl (Error.value_error, λ s. refl)

  pub Fixed-each :
      {A B : Type 0} (f : A → Action S B) (xs : List A)
      → ((a : A) → Fixed (f a))
      → Fixed (each f xs)
  unfolding steps
  Fixed-each f [] k = inr ([], λ s. refl)
  Fixed-each f (x ∷ xs) k = elim (k x) [
    | inl (e, g) ↦ inl (e, λ s. rw (g s) refl)
    | inr (b, g) ↦ elim (Fixed-each f xs k) [
      | inl (e, h) ↦ inl (e, λ s. rw (g s, h s) refl)
      | inr (bs, h) ↦ inr (b ∷ bs, λ s. rw (g s, h s) refl)
    ]
  ]

  pub Fixed-check_publication : (p : Publication) → Fixed (check_publication {S = S} p)
  unfolding check_publication
  Fixed-check_publication p = Fixed-then (Fixed-guard _ _) (
      Fixed-then (Fixed-guard _ _) (
        Fixed-then (Fixed-guard _ _)
          (Fixed-then (Fixed-guard _ _) (Fixed-then (Fixed-guard _ _) (Fixed-guard _ _)))))

  pub Fixed-check_facts : (n : ℕ) (ps : List PreparedFact) → Fixed (check_facts {S = S} n ps)
  unfolding check_facts
  Fixed-check_facts n ps =
      Fixed-then (Fixed-guard _ _) (Fixed-then (Fixed-guard _ _) (Fixed-guard _ _))

  pub Fixed-prepare_fact :
      (digest : Fields → String) (draft : FactDraft) → Fixed (prepare_fact digest {S = S} draft)
  unfolding prepare_fact
  Fixed-prepare_fact digest draft = Fixed-then (Fixed-guard _ _) (
      Fixed-then (Fixed-guard _ _) (
        Fixed-then (Fixed-guard _ _) (
          Fixed-bind (Fixed-iso draft.observed_from) (λ from.
            Fixed-bind (Fixed-iso draft.observed_until) (λ until.
              Fixed-then (Fixed-guard _ _) (Fixed-then (Fixed-guard _ _) (Fixed-pure _)))))))

  pub Fixed-prepare_task :
      (digest : Fields → String) (draft : TaskDraft) → Fixed (prepare_task digest {S = S} draft)
  unfolding prepare_task
  Fixed-prepare_task digest draft =
      Fixed-then (Fixed-guard _ _) (Fixed-then (Fixed-guard _ _) (Fixed-pure _))

  pub Fixed-prepare_discovery_item :
      (digest : Fields → String) (draft : DiscoveryItemDraft)
      → Fixed (prepare_discovery_item digest {S = S} draft)
  unfolding prepare_discovery_item
  Fixed-prepare_discovery_item digest draft = Fixed-then (Fixed-guard _ _) (
      Fixed-bind (Fixed-iso draft.observed_from) (λ from.
        Fixed-bind (Fixed-iso draft.observed_until)
          (λ until. Fixed-then (Fixed-guard _ _) (Fixed-then (Fixed-guard _ _) (Fixed-pure _)))))
