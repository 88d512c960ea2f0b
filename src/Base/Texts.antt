-- ===== src/Base/Texts.antt =====
-- Texts by their code points, and sorted sets of numbers.
use Prim.Native.Char.{code}
use Prim.Native.Nat.{Ordering, ℕ}
use Prim.Native.String.{String, compare as text_compare}
use gh_puller.Base.Tests.{if◌then◌else◌, leb, ltb, nat_eq}
use mathlib.Core.Bool.{Bool, false, true, ◌&&◌, ◌||◌}
use mathlib.Core.List.{List, [], ◌∷◌}

-- The code points of a text.
abbrev pub codes : String → List ℕ
codes String.[] = []
codes (String.◌∷◌ c s) = code c ∷ codes s

-- A character of `0123456789abcdef`.
abbrev pub is_hex : ℕ → Bool
is_hex c = (leb b'0' c && leb c b'9') || (leb b'a' c && leb c b'f')

-- `sorted(set(values))`, one value at a time.
abbrev pub insert_sorted : ℕ → List ℕ → List ℕ
insert_sorted n [] = n ∷ []
insert_sorted n (m ∷ ms) =
    let rest = insert_sorted n ms in
    if ltb n m then n ∷ m ∷ ms else if nat_eq n m then m ∷ ms else m ∷ rest

abbrev pub sorted_set : List ℕ → List ℕ
sorted_set [] = []
sorted_set (n ∷ ns) = insert_sorted n (sorted_set ns)

-- `s < t` on texts, by code points.
abbrev pub precedes_text : String → String → Bool
precedes_text s t = elim (text_compare s t) [ Ordering.lt ↦ true | _ ↦ false ]
