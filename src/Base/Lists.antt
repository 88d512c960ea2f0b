-- ===== src/Base/Lists.antt =====
-- Lists as the rows of a table: selection, update in place, counting, and identities.
use Prim.Native.Nat.{max, suc, zero, ℕ, ◌+◌, ◌≤◌, ◌<◌}
use gh_puller.Base.Tests.{Bool-cases, if◌then◌else◌}
use mathlib.Core.Bool.{Bool, true, false, ◌&&◌, ◌||◌}
use mathlib.Core.List.{List, [], ◌++◌, ◌∷◌}
use mathlib.Core.Logic.{inl, inr}
use mathlib.Core.Option.{Option, none, some}
use mathlib.Core.Path.{◌≡◌, refl, ap, subst, ◌∙◌}
use native.Mathlib.Omega.{arith}

module _ {ℓ} {A : Type ℓ} where
  abbrev pub length : List A → ℕ
  length [] = 0
  length (x ∷ xs) = suc (length xs)

  abbrev pub take : ℕ → List A → List A
  take zero xs = []
  take (suc n) [] = []
  take (suc n) (x ∷ xs) = x ∷ take n xs

  abbrev pub drop : ℕ → List A → List A
  drop zero xs = xs
  drop (suc n) [] = []
  drop (suc n) (x ∷ xs) = drop n xs

  -- Every member satisfies `P`.
  abbrev pub All {κ} : (A → Type κ) → List A → Type κ
  All P [] = Unit
  All P (x ∷ xs) = P x × All P xs

  abbrev pub any : (A → Bool) → List A → Bool
  any p [] = false
  any p (x ∷ xs) = p x || any p xs

  abbrev pub all : (A → Bool) → List A → Bool
  all p [] = true
  all p (x ∷ xs) = p x && all p xs

  -- The first row that passes the test: `fetchone` of a `SELECT`.
  abbrev pub find : (A → Bool) → List A → Option A
  find p [] = none
  find p (x ∷ xs) = let rest = find p xs in if p x then some x else rest

  -- The rows that pass the test, in order: `fetchall` of a `SELECT`.
  abbrev pub select : (A → Bool) → List A → List A
  select p [] = []
  select p (x ∷ xs) = let rest = select p xs in if p x then x ∷ rest else rest

  -- `UPDATE … SET … WHERE …`.
  abbrev pub update : (A → Bool) → (A → A) → List A → List A
  update p f [] = []
  update p f (x ∷ xs) = (if p x then f x else x) ∷ update p f xs

  -- `SELECT COUNT(*) … WHERE …`.
  abbrev pub count : (A → Bool) → List A → ℕ
  count p [] = 0
  count p (x ∷ xs) = (if p x then 1 else 0) + count p xs

  -- The identity that `INTEGER PRIMARY KEY` gives the next row: one past the greatest.
  abbrev pub next_id : (A → ℕ) → List A → ℕ
  next_id id [] = 1
  next_id id (x ∷ xs) = max (suc (id x)) (next_id id xs)

  pub length-append : (xs ys : List A) → length (xs ++ ys) ≡ length xs + length ys
  length-append [] ys = omega arith
  length-append (x ∷ xs) ys = omega (arith, length-append xs ys)

  pub length-take-le : (n : ℕ) (xs : List A) → length (take n xs) ≤ n
  length-take-le zero xs = omega arith
  length-take-le (suc n) [] = omega arith
  length-take-le (suc n) (x ∷ xs) = omega (arith, length-take-le n xs)

  pub count-append : (p : A → Bool) (xs ys : List A) → count p (xs ++ ys) ≡ count p xs + count p ys
  count-append p [] ys = omega arith
  count-append p (x ∷ xs) ys = omega (arith, count-append p xs ys)

  pub find-append_some :
      (p : A → Bool) (xs ys : List A) {r : A} → find p xs ≡ some r → find p (xs ++ ys) ≡ some r
  find-append_some p [] ys h = ground arith
  find-append_some p (x ∷ xs) ys {r} h = ground (arith, find-append_some p xs ys {r = r})

  pub find-append_none :
      (p : A → Bool) (xs ys : List A) → find p xs ≡ none → find p (xs ++ ys) ≡ find p ys
  find-append_none p [] ys h = refl
  find-append_none p (x ∷ xs) ys h = ground (arith, find-append_none p xs ys)

  pub find_sound : (p : A → Bool) (xs : List A) {r : A} → find p xs ≡ some r → p r ≡ true
  find_sound p [] h = ground arith
  find_sound p (x ∷ xs) {r} h = ground (arith, find_sound p xs {r = r})

  pub length-update : (p : A → Bool) (f : A → A) (xs : List A) → length (update p f xs) ≡ length xs
  length-update p f [] = refl
  length-update p f (x ∷ xs) = ap suc (length-update p f xs)

  -- An update that keeps its own condition is read back.
  pub find-update_self :
      (p : A → Bool) (f : A → A) (xs : List A) {r : A}
      → ((x : A) → p (f x) ≡ p x)
      → find p xs ≡ some r
      → find p (update p f xs) ≡ some (f r)
  find-update_self p f [] keep h = ground arith
  find-update_self p f (x ∷ xs) {r} keep h =
      ground (arith, keep x, find-update_self p f xs {r = r} keep)

  -- An update elsewhere changes nothing for another reader.
  pub find-update_ne :
      (q p : A → Bool) (f : A → A) (xs : List A)
      → ((x : A) → q (f x) ≡ q x)
      → ((x : A) → p x ≡ true → q x ≡ false)
      → find q (update p f xs) ≡ find q xs
  find-update_ne q p f [] keep apart = refl
  find-update_ne q p f (x ∷ xs) keep apart =
      ground (arith, keep x, apart x, find-update_ne q p f xs keep apart)

  pub count-update_same :
      (q p : A → Bool) (f : A → A) (xs : List A)
      → ((x : A) → q (f x) ≡ q x)
      → count q (update p f xs) ≡ count q xs
  count-update_same q p f [] keep = refl
  count-update_same q p f (x ∷ xs) keep = ground (arith, keep x, count-update_same q p f xs keep)

  -- An update that can only clear the test never raises the count.
  pub count-update-le :
      (q p : A → Bool) (f : A → A) (xs : List A)
      → ((x : A) → q x ≡ false → q (f x) ≡ false)
      → count q (update p f xs) ≤ count q xs
  count-update-le q p f [] keep = omega arith
  count-update-le q p f (x ∷ xs) keep = ground (arith, keep x, count-update-le q p f xs keep)

  pub count_of_find-none : (p : A → Bool) (xs : List A) → find p xs ≡ none → count p xs ≡ 0
  count_of_find-none p [] h = refl
  count_of_find-none p (x ∷ xs) h = ground (arith, count_of_find-none p xs)

  pub find-next_id :
      (id : A → ℕ) (p : A → Bool) (xs : List A)
      → ((x : A) → p x ≡ true → next_id id xs ≤ id x)
      → find p xs ≡ none
  find-next_id id p [] h = refl
  find-next_id id p (x ∷ xs) h = elim (Bool-cases (p x)) [
    | inl e ↦ absurd (omega (arith, h x e))
    | inr e ↦ ground (arith, find-next_id id p xs (λ y q. omega (arith, h y q)))
  ]

  pub All-append {κ} : (P : A → Type κ) (xs ys : List A) → All P xs → All P ys → All P (xs ++ ys)
  All-append P [] ys h k = k
  All-append P (x ∷ xs) ys h k = (h.0, All-append P xs ys h.1 k)

  pub All-mono {κ ι} :
      (P : A → Type κ) (Q : A → Type ι) (xs : List A) → ((x : A) → P x → Q x) → All P xs → All Q xs
  All-mono P Q [] f h = tt
  All-mono P Q (x ∷ xs) f h = (f x h.0, All-mono P Q xs f h.1)

  pub All-find {κ} :
      (P : A → Type κ) (p : A → Bool) (xs : List A) {r : A} → find p xs ≡ some r → All P xs → P r
  All-find P p [] h k = absurd (ground arith)
  All-find P p (x ∷ xs) {r} h k = elim (Bool-cases (p x)) [
    | inl e ↦ let q : x ≡ r = ground arith in subst P q k.0
    | inr e ↦ All-find P p xs {r = r} (ground arith) k.1
  ]

  -- An update of the rows that pass the test, where every row satisfies `P`.
  pub All-update {κ} :
      (P : A → Type κ) (p : A → Bool) (f : A → A) (xs : List A)
      → ((x : A) → p x ≡ true → P x → P (f x))
      → All P xs
      → All P (update p f xs)
  All-update P p f [] step h = tt
  All-update P p f (x ∷ xs) step h = elim (Bool-cases (p x)) [
    | inl e ↦ rw e (step x e h.0, All-update P p f xs step h.1)
    | inr e ↦ rw e (h.0, All-update P p f xs step h.1)
  ]

  -- Tests that agree on the rows select the same row.
  pub find_congr : (p q : A → Bool) (xs : List A) → All (λ x. p x ≡ q x) xs → find p xs ≡ find q xs
  find_congr p q [] h = refl
  find_congr p q (x ∷ xs) h = ground (arith, find_congr p q xs)

  pub any_of_find : (p : A → Bool) (xs : List A) {r : A} → find p xs ≡ some r → any p xs ≡ true
  any_of_find p [] h = ground arith
  any_of_find p (x ∷ xs) {r} h = ground (arith, any_of_find p xs {r = r})

  pub find-none_of_any : (p : A → Bool) (xs : List A) → any p xs ≡ false → find p xs ≡ none
  find-none_of_any p [] h = refl
  find-none_of_any p (x ∷ xs) h = ground (arith, find-none_of_any p xs)

  pub any_of_find-none : (p : A → Bool) (xs : List A) → find p xs ≡ none → any p xs ≡ false
  any_of_find-none p [] h = refl
  any_of_find-none p (x ∷ xs) h = ground (arith, any_of_find-none p xs)

  pub any-update_same :
      (q p : A → Bool) (f : A → A) (xs : List A)
      → ((x : A) → q (f x) ≡ q x)
      → any q (update p f xs) ≡ any q xs
  any-update_same q p f [] keep = refl
  any-update_same q p f (x ∷ xs) keep = ground (arith, keep x, any-update_same q p f xs keep)

  pub any-append : (p : A → Bool) (xs ys : List A) → any p (xs ++ ys) ≡ (any p xs || any p ys)
  any-append p [] ys = refl
  any-append p (x ∷ xs) ys = ground (arith, any-append p xs ys)

  pub find-append_ne :
      (p : A → Bool) (xs : List A) (y : A) → p y ≡ false → find p (xs ++ y ∷ []) ≡ find p xs
  find-append_ne p [] y h = ground arith
  find-append_ne p (x ∷ xs) y h = ground (arith, find-append_ne p xs y h)

  pub any-holds :
      (q : A → Bool) (xs : List A) {x : A} → find q xs ≡ some x → (q x ≡ true) × (any q xs ≡ true)
  any-holds q xs {x} h = (find_sound q xs {r = x} h, any_of_find q xs {r = x} h)

  -- A member that passes the test, with what every member satisfies.
  pub All-any {κ} :
      (P : A → Type κ) (q : A → Bool) (xs : List A)
      → All P xs
      → any q xs ≡ true
      → (x : A) × P x × (q x ≡ true)
  All-any P q [] h e = absurd (ground arith)
  All-any P q (x ∷ xs) h e = elim (Bool-cases (q x)) [
    | inl i ↦ (x, h.0, i)
    | inr i ↦ All-any P q xs h.1 (ground arith)
  ]

  pub find-none_of_All : (p : A → Bool) (xs : List A) → All (λ x. p x ≡ false) xs → find p xs ≡ none
  find-none_of_All p [] h = refl
  find-none_of_All p (x ∷ xs) h = ground (arith, find-none_of_All p xs h.1, h.0)

  pub any-false_of_All : (p : A → Bool) (xs : List A) → any p xs ≡ false → All (λ x. p x ≡ false) xs
  any-false_of_All p [] h = tt
  any-false_of_All p (x ∷ xs) h = (ground arith, any-false_of_All p xs (ground arith))

  pub All-both {κ ι} :
      (P : A → Type κ) (Q : A → Type ι) (xs : List A)
      → All P xs
      → All Q xs
      → All (λ x. P x × Q x) xs
  All-both P Q [] h k = tt
  All-both P Q (x ∷ xs) h k = ((h.0, k.0), All-both P Q xs h.1 k.1)

  pub any_of_found :
      (p q : A → Bool) (xs : List A) {r : A} → find p xs ≡ some r → q r ≡ true → any q xs ≡ true
  any_of_found p q [] e h = absurd (ground arith)
  any_of_found p q (x ∷ xs) {r} e h = elim (Bool-cases (p x)) [
    | inl i ↦
        let same : x ≡ r = ground arith in let here : q x ≡ true = ap q same ∙ h in ground arith
    | inr i ↦ let rest = any_of_found p q xs {r = r} (ground arith) h in ground arith
  ]

  pub All-of_count_zero : (p : A → Bool) (xs : List A) → count p xs ≡ 0 → All (λ x. p x ≡ false) xs
  All-of_count_zero p [] h = tt
  All-of_count_zero p (x ∷ xs) h = elim (Bool-cases (p x)) [
    | inl e ↦ absurd (ground arith)
    | inr e ↦ (e, All-of_count_zero p xs (ground arith))
  ]

  pub count_zero_of_All : (p : A → Bool) (xs : List A) → All (λ x. p x ≡ false) xs → count p xs ≡ 0
  count_zero_of_All p [] h = refl
  count_zero_of_All p (x ∷ xs) h = ground (arith, h.0, count_zero_of_All p xs h.1)

  pub next_id-append_le : (id : A → ℕ) (xs ys : List A) → next_id id xs ≤ next_id id (xs ++ ys)
  next_id-append_le id [] [] = omega arith
  next_id-append_le id [] (y ∷ ys) = let rest = next_id-append_le id [] ys in ground arith
  next_id-append_le id (x ∷ xs) ys = ground (arith, next_id-append_le id xs ys)

  pub lt-next_id-append : (id : A → ℕ) (xs : List A) (y : A) → id y < next_id id (xs ++ y ∷ [])
  lt-next_id-append id [] y = ground arith
  lt-next_id-append id (x ∷ xs) y = ground (arith, lt-next_id-append id xs y)
