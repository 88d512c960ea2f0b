-- ===== src/Base/Tests.antt =====
-- Boolean tests on the native numbers and on texts, and the conditional.
use Prim.Native.Nat.{ℕ, compare, Ordering}
use Prim.Native.String.{String}
use mathlib.Core.Path.{refl, subst, ◌≡◌}
use mathlib.Core.Logic.{◌↔◌, ◌⊎◌, inl, inr}
use mathlib.Core.Bool.{Bool, true, false}
use mathlib.Core.Option.{Option, none, some}
use native.Mathlib.Omega.{arith}
use text.Mathlib.Text.{◌==◌ as text_eq}
use text.Mathlib.TextEquality.{eq_iff}

abbrev pub ltb : ℕ → ℕ → Bool
ltb a b = elim (compare a b) [ Ordering.lt ↦ true | _ ↦ false ]

abbrev pub leb : ℕ → ℕ → Bool
leb a b = elim (compare a b) [ Ordering.gt ↦ false | _ ↦ true ]

abbrev pub nat_eq : ℕ → ℕ → Bool
nat_eq a b = elim (compare a b) [ Ordering.eq ↦ true | _ ↦ false ]

pub nat_eq_iff : (a b : ℕ) → (nat_eq a b ≡ true) ↔ (a ≡ b)
nat_eq_iff a b = ground arith

infix 1 if◌then◌else◌
abbrev pub if◌then◌else◌ {ℓ} : {A : Type ℓ} → Bool → A → A → A
if true then x else y = x
if false then x else y = y

pub Bool-cases : (b : Bool) → (b ≡ true) ⊎ (b ≡ false)
Bool-cases true = inl refl
Bool-cases false = inr refl

pub Option-cases {ℓ} : {A : Type ℓ} (o : Option A) → (o ≡ none) ⊎ ((a : A) × (o ≡ some a))
Option-cases none = inl refl
Option-cases (some a) = inr (a, refl)

abbrev pub is_none {ℓ} : {A : Type ℓ} → Option A → Bool
is_none none = true
is_none (some a) = false

-- Values that the program compares with `==`: a test, and that it decides equality.
pub record Comparable {ℓ} (V : Type ℓ) : Type ℓ where
  pub agrees : V → V → Bool
  pub agrees_iff : (v w : V) → (agrees v w ≡ true) ↔ (v ≡ w)

-- Texts compare by their code points.
instance abbrev pub text_instance : Comparable String
text_instance = record { agrees = text_eq; agrees_iff = eq_iff }

instance abbrev pub nat_instance : Comparable ℕ
nat_instance = record { agrees = nat_eq; agrees_iff = nat_eq_iff }

infix 50 ◌==◌
abbrev pub ◌==◌ {κ} : {V : Type κ} ⦃c : Comparable V⦄ → V → V → Bool
◌==◌ ⦃c⦄ v w = c.agrees v w

module _ {ℓ} {A : Type ℓ} ⦃e : Comparable A⦄ where
  abbrev pub option_beq : Option A → Option A → Bool
  option_beq none none = true
  option_beq none (some b) = false
  option_beq (some a) none = false
  option_beq (some a) (some b) = e.agrees a b

  pub option_beq_iff : (a b : Option A) → (option_beq a b ≡ true) ↔ (a ≡ b)
  option_beq_iff none none = ground arith
  option_beq_iff none (some b) = ground arith
  option_beq_iff (some a) none = ground arith
  option_beq_iff (some a) (some b) = ground (arith, e.agrees_iff a b)

instance abbrev pub option_instance {ℓ} : {A : Type ℓ} ⦃e : Comparable A⦄ → Comparable (Option A)
option_instance = record { agrees = option_beq; agrees_iff = option_beq_iff }

-- What a guarded `some` holds.
pub of_if_some {ℓ κ} :
    {A : Type ℓ} (P : A → Type κ) (b : Bool) (x u : A)
    → (if b then some x else none) ≡ some u
    → P x
    → P u
of_if_some P true x u e h = let q : x ≡ u = cc in subst P q h
of_if_some P false x u e h = absurd (cc)

pub beq_refl {ℓ} : {A : Type ℓ} ⦃e : Comparable A⦄ (a : A) → (a == a) ≡ true
beq_refl ⦃e⦄ a = let iff = e.agrees_iff a a in ground (arith, iff)
