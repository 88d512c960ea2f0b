-- ===== src/Base/Rows.antt =====
-- What is known of the row that a key finds, and lists that only grow.
use gh_puller.Base.Lists.{find, find-append_some, update}
use gh_puller.Base.Tests.{Bool-cases}
use mathlib.Core.Bool.{Bool}
use mathlib.Core.List.{List, [], ◌++◌, ◌∷◌, append_assoc, append-nil}
use mathlib.Core.Logic.{inl, inr}
use mathlib.Core.Option.{some}
use mathlib.Core.Path.{◌≡◌, ap, refl, subst, sym, ◌∙◌}
use native.Mathlib.Omega.{arith}

module _ {ℓ} {A : Type ℓ} where
  -- The key finds a row, and the row satisfies `P`.
  abbrev pub Found {κ} : (A → Type κ) → (A → Bool) → List A → Type (ℓ ⊔ κ)
  Found P key xs = (r : A) × (find key xs ≡ some r) × P r

  pub Found-append {κ} :
      (P : A → Type κ) (key : A → Bool) (xs ys : List A) → Found P key xs → Found P key (xs ++ ys)
  Found-append P key xs ys (r, e, h) = (r, find-append_some key xs ys {r = r} e, h)

  pub Found-update {κ} :
      (P : A → Type κ) (key p : A → Bool) (f : A → A) (xs : List A)
      → ((x : A) → key (f x) ≡ key x)
      → ((x : A) → P x → P (f x))
      → Found P key xs
      → Found P key (update p f xs)
  Found-update P key p f [] same keep (r, e, h) = absurd (ground arith)
  Found-update P key p f (x ∷ xs) same keep (r, e, h) = elim (Bool-cases (key x)) [
    | inl i ↦
        let q : x ≡ r = ground arith in
        let here : P x = subst P (sym q) h in
        elim (Bool-cases (p x)) [
          | inl j ↦ rw j (f x, rw (same x ∙ i) refl, keep x here)
          | inr j ↦ rw j (x, rw i refl, here)
        ]
    | inr i ↦
        let (u, found, k) = Found-update P key p f xs same keep (r, ground arith, h) in
        elim (Bool-cases (p x)) [
          | inl j ↦ rw j (u, rw (same x ∙ i) found, k)
          | inr j ↦ rw j (u, rw i found, k)
        ]
  ]

  -- A list with more at its end.
  abbrev pub Extends : List A → List A → Type ℓ
  Extends old new = (more : List A) × (new ≡ old ++ more)

  pub Extends-refl : (xs : List A) → Extends xs xs
  Extends-refl xs = ([], sym (append-nil xs))

  pub Extends-append : (old xs ys : List A) → Extends old xs → Extends old (xs ++ ys)
  Extends-append old xs ys (more, e) =
      (more ++ ys, ap (λ zs. zs ++ ys) e ∙ append_assoc old more ys)
