-- ===== src/Archive/Facts/Heads.antt =====
-- `fact_heads` names the latest observation of every fact, and `current_fact` reads it.
use gh_puller.Archive.Facts.{fact_is, head_is, not_before, observation_is, observation_of, set_head}
use gh_puller.Archive.Model.{FactHead, FactObservation}
use gh_puller.Base.{
  All, Bool, Bool-cases, List, Option, Option-cases, String, [], any, any-append, any-update_same,
  any_of_find, any_of_find-none, arith, eq_iff, eq_refl, false, find, find-append_ne,
  find-append_none, find-update_ne, find-update_self, inl, inr, nat_instance, none, option_instance,
  refl, some, text_instance, true, update, ℕ, ◌&&◌, ◌++◌, ◌==◌, ◌∙◌, ◌∷◌, ◌≡◌,
}

-- `c` is the latest of the observations `os` of one fact, or there is none of them.
abbrev pub Newest : String → String → List FactObservation → Option FactObservation → Type 0
Newest family subject_key os none = All (λ o. fact_is family subject_key o ≡ false) os
Newest family subject_key os (some c) =
    (fact_is family subject_key c ≡ true)
    × (find (observation_is c.id) os ≡ some c)
    × All (λ o. fact_is family subject_key o ≡ true → not_before c o ≡ true) os

-- No two heads are of one fact.
abbrev pub DistinctHeads : List FactHead → Type 0
DistinctHeads [] = Unit
DistinctHeads (h ∷ hs) = (any (head_is h.family h.subject_key) hs ≡ false) × DistinctHeads hs

-- A head names an observation of its own fact.
abbrev pub Grounded : List FactObservation → FactHead → Type 0
Grounded os h =
    (o : FactObservation) × (find (observation_is h.observation_id) os ≡ some o)
    × (fact_is h.family h.subject_key o ≡ true)

abbrev pub head_observation :
    String → String → List FactHead → List FactObservation → Option FactObservation
head_observation family subject_key heads os =
    observation_of (find (head_is family subject_key) heads) os

pub record HeadsInv (os : List FactObservation) (heads : List FactHead) : Type 0 where
  pub identified : All (λ o. find (observation_is o.id) os ≡ some o) os
  pub grounded : All (Grounded os) heads
  pub distinct : DistinctHeads heads
  pub newest : (f s : String) → Newest f s os (head_observation f s heads os)

distinct-append :
    (f s : String) (i : ℕ) (hs : List FactHead)
    → any (head_is f s) hs ≡ false
    → DistinctHeads hs
    → DistinctHeads (hs ++ (record { family = f; subject_key = s; observation_id = i }) ∷ [])
distinct-append f s i [] h d = (refl, tt)
distinct-append f s i (x ∷ hs) h d = (
  rw any-append (
      ground (
        arith,
        eq_iff x.family f,
        eq_iff f x.family,
        eq_iff x.subject_key s,
        eq_iff s x.subject_key,
      )),
  distinct-append f s i hs (ground arith) d.1,
)

-- `UPDATE fact_heads` touches no key.
abbrev pub point : ℕ → FactHead → FactHead
point i h = record h { observation_id = i }

distinct-update :
    (p : FactHead → Bool) (i : ℕ) (hs : List FactHead)
    → DistinctHeads hs
    → DistinctHeads (update p (point i) hs)
distinct-update p i [] d = tt
distinct-update p i (x ∷ hs) d = elim (Bool-cases (p x)) [
  | inl e ↦ rw e (
    any-update_same (head_is x.family x.subject_key) p (point i) hs (λ y. refl) ∙ d.0,
    distinct-update p i hs d.1,
  )
  | inr e ↦ rw e (
    any-update_same (head_is x.family x.subject_key) p (point i) hs (λ y. refl) ∙ d.0,
    distinct-update p i hs d.1,
  )
]

pub set_head-DistinctHeads :
    (f s : String) (i : ℕ) (hs : List FactHead)
    → DistinctHeads hs
    → DistinctHeads (set_head f s i hs)
set_head-DistinctHeads f s i hs d = elim (Bool-cases (any (head_is f s) hs)) [
  | inl e ↦ rw e (distinct-update (head_is f s) i hs d)
  | inr e ↦ rw e (distinct-append f s i hs e d)
]

-- A head that was set is read back.
pub find-set_head_self :
    (f s : String) (i : ℕ) (hs : List FactHead)
    → (h : FactHead) × (find (head_is f s) (set_head f s i hs) ≡ some h) × (h.observation_id ≡ i)
find-set_head_self f s i hs = elim (Option-cases (find (head_is f s) hs)) [
  | inl e ↦ (
    record { family = f; subject_key = s; observation_id = i },
    rw (any_of_find-none (head_is f s) hs e)
        (rw (find-append_none (head_is f s) hs _ e) (ground (arith, eq_refl f, eq_refl s))),
    refl,
  )
  | inr (h, e) ↦ (
    point i h,
    rw (any_of_find (head_is f s) hs {r = h} e)
        (find-update_self (head_is f s) (point i) hs {r = h} (λ x. refl) e),
    refl,
  )
]

-- Another fact's head is untouched.
pub find-set_head_ne :
    (f s g u : String) (i : ℕ) (hs : List FactHead)
    → (f == g && s == u) ≡ false
    → find (head_is g u) (set_head f s i hs) ≡ find (head_is g u) hs
find-set_head_ne f s g u i hs ne = elim (Bool-cases (any (head_is f s) hs)) [
  | inl e ↦ rw e (find-update_ne (head_is g u) (head_is f s) (point i) hs (λ x. refl) apart)
  | inr e ↦ rw e (find-append_ne (head_is g u) hs _ ne)
]
  where
    apart : (x : FactHead) → head_is f s x ≡ true → head_is g u x ≡ false
    apart x h = ground (
      arith,
      eq_iff x.family f,
      eq_iff x.family g,
      eq_iff f g,
      eq_iff x.subject_key s,
      eq_iff x.subject_key u,
      eq_iff s u,
    )
