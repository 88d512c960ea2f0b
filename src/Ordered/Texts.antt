-- ===== src/Ordered/Texts.antt =====
-- Texts of gh_puller/codebase/archive.py as their code points: their order, and the JSON text of a
-- string as `json.dumps(…, ensure_ascii=False)` writes it.
use gh_puller.Base.{
  Bool, List, Option, [], arith, false, if◌then◌else◌, ltb, nat_eq, none, refl, some, true, ℕ, ◌%◌,
  ◌+◌, ◌/◌, ◌∷◌, ◌≡◌, Comparable, ◌↔◌,
}

abbrev pub Text : Type 0
Text = List ℕ

-- `s < t`.
unfoldable pub before : Text → Text → Bool
before [] [] = false
before [] (b ∷ bs) = true
before (a ∷ as') [] = false
before (a ∷ as') (b ∷ bs) =
    let rest = before as' bs in if ltb a b then true else if nat_eq a b then rest else false

pub before_irrefl : (t : Text) → before t t ≡ false
unfolding before
before_irrefl [] = refl
before_irrefl (a ∷ as') = ground (arith, before_irrefl as')

pub before_trans : (s t u : Text) → before s t ≡ true → before t u ≡ true → before s u ≡ true
unfolding before
before_trans [] [] u h k = absurd (ground arith)
before_trans [] (b ∷ bs) [] h k = absurd (ground arith)
before_trans [] (b ∷ bs) (c ∷ cs) h k = refl
before_trans (a ∷ as') [] u h k = absurd (ground arith)
before_trans (a ∷ as') (b ∷ bs) [] h k = absurd (ground arith)
before_trans (a ∷ as') (b ∷ bs) (c ∷ cs) h k = ground (arith, before_trans as' bs cs)

pub before_total : (s t : Text) → before s t ≡ false → before t s ≡ false → s ≡ t
unfolding before
before_total [] [] h k = refl
before_total [] (b ∷ bs) h k = absurd (ground arith)
before_total (a ∷ as') [] h k = absurd (ground arith)
before_total (a ∷ as') (b ∷ bs) h k = ground (arith, before_total as' bs)

abbrev pub text_eq : Text → Text → Bool
text_eq [] [] = true
text_eq [] (b ∷ bs) = false
text_eq (a ∷ as') [] = false
text_eq (a ∷ as') (b ∷ bs) = let rest = text_eq as' bs in if nat_eq a b then rest else false

pub text_eq_iff : (s t : Text) → (text_eq s t ≡ true) ↔ (s ≡ t)
text_eq_iff [] [] = ground arith
text_eq_iff [] (b ∷ bs) = ground arith
text_eq_iff (a ∷ as') [] = ground arith
text_eq_iff (a ∷ as') (b ∷ bs) = ground (arith, text_eq_iff as' bs)

instance abbrev pub points_instance : Comparable Text
points_instance = record { agrees = text_eq; agrees_iff = text_eq_iff }

-- The letter of a two-character escape.
abbrev pub short : ℕ → Option ℕ
short c =
    if nat_eq c b'"'
    then some b'"'
    else if nat_eq c b'\\'
    then some b'\\'
    else if nat_eq c 8
    then some b'b'
    else if nat_eq c 9
    then some b't'
    else if nat_eq c 10
    then some b'n'
    else if nat_eq c 12
    then some b'f'
    else if nat_eq c 13
    then some b'r'
    else none

abbrev pub hex : ℕ → ℕ
hex n = if ltb n 10 then b'0' + n else 87 + n

-- One character between the quotes.
abbrev pub plain : ℕ → Text
plain c = if ltb c 32 then b'\\' ∷ b'u' ∷ b'0' ∷ b'0' ∷ hex (c / 16) ∷ hex (c % 16) ∷ [] else c ∷ []

unfoldable pub escape : ℕ → Text
escape c = elim (short c) [ some e ↦ b'\\' ∷ e ∷ [] | none ↦ plain c ]
