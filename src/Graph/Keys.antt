-- ===== src/Graph/Keys.antt =====
-- The identities of gh_puller/codebase/archive.py: `_key_bytes`, by which pages are sorted, and
-- `_key_path`, by which they are sharded.
use gh_puller.Base.{
  Bool, Comparable, List, Option-cases, [], arith, false, if◌then◌else◌, inl, inr, sym, ◌∙◌, nat_eq,
  none, refl, some, true, ℕ, ◌%◌, ◌++◌, ◌/◌, ◌∷◌, ◌≡◌, ◌≢◌, ap, ap₂, ◌↔◌, append_assoc,
}
use gh_puller.Ordered.Texts.{Text, escape, hex, plain, short, text_eq, text_eq_iff}

-- A qualified name, or a tuple of texts with its first member.
pub data Key : Type 0 where
  name : Text → Key
  parts : Text → List Text → Key

abbrev pub escape_all : Text → Text
escape_all [] = []
escape_all (c ∷ cs) = escape c ++ escape_all cs

-- A string after its opening quote, and what follows it.
abbrev pub closed : Text → Text → Text
closed t rest = escape_all t ++ (b'"' ∷ rest)

abbrev pub members : List Text → Text
members [] = b']' ∷ []
members (t ∷ ts) = b',' ∷ b'"' ∷ closed t (members ts)

-- `_key_bytes`, as code points, whose order is the order of their UTF-8 bytes.
unfoldable pub key_bytes : Key → Text
key_bytes (name t) = b'"' ∷ closed t []
key_bytes (parts t ts) = b'[' ∷ b'"' ∷ closed t (members ts)

-- `s.split(separator)`.
abbrev pub split_into : ℕ → Text → Text → List Text
split_into separator word [] = word ∷ []
split_into separator word (c ∷ cs) =
    let parted = word ∷ split_into separator [] cs in
    let longer = split_into separator (word ++ c ∷ []) cs in
    if nat_eq c separator then parted else longer

abbrev pub split : ℕ → Text → List Text
split separator t = split_into separator [] t

abbrev pub join : ℕ → List Text → Text
join separator [] = []
join separator (t ∷ []) = t
join separator (t ∷ u ∷ ts) = t ++ (separator ∷ join separator (u ∷ ts))

abbrev pub first_or_dot : List Text → Text
first_or_dot [] = b'.' ∷ []
first_or_dot ([] ∷ ts) = b'.' ∷ []
first_or_dot ((c ∷ cs) ∷ ts) = c ∷ cs

abbrev pub first_three : List Text → List Text
first_three (s ∷ t ∷ u ∷ ts) = s ∷ t ∷ u ∷ []
first_three ts = ts

-- The three trees of an archive.
pub data TreeName : Type 0 where
  nodes edges coverage : TreeName

abbrev pub identity : Key → Text
identity (name t) = t
identity (parts t ts) = t

-- `_key_path`.
unfoldable pub key_path : TreeName → Key → Text
key_path coverage k = first_or_dot (split b'/' (identity k))
key_path _ k = join b'.' (first_three (split b'.' (identity k)))

-- What `escape c ++ r` begins with tells `c`.
short_inj : (c d e : ℕ) → short c ≡ some e → short d ≡ some e → c ≡ d
short_inj c d e h k = ground arith

short-ne : (c e : ℕ) → short c ≡ some e → e ≢ b'u'
short-ne c e h k = ground arith

hex_inj : (a b : ℕ) → hex a ≡ hex b → a ≡ b
hex_inj a b h = ground arith

plain_inj :
    (c d : ℕ) (r s : Text)
    → plain c ++ r ≡ plain d ++ s
    → short c ≡ none
    → short d ≡ none
    → (c ≡ d) × (r ≡ s)
plain_inj c d r s h k l = ground (arith, hex_inj (c / 16) (d / 16), hex_inj (c % 16) (d % 16))

plain-ne-short :
    (c d e : ℕ) (r s : Text) → plain c ++ r ≡ b'\\' ∷ e ∷ s → short c ≡ none → short d ≡ some e → ⊥
plain-ne-short c d e r s h k l = let apart = short-ne d e l in ground arith

escape-plain : (c : ℕ) → short c ≡ none → escape c ≡ plain c
unfolding escape
escape-plain c h = ground arith

escape-short : (c e : ℕ) → short c ≡ some e → escape c ≡ b'\\' ∷ e ∷ []
unfolding escape
escape-short c e h = ground arith

escape_inj : (c d : ℕ) (r s : Text) → escape c ++ r ≡ escape d ++ s → (c ≡ d) × (r ≡ s)
escape_inj c d r s h = elim (Option-cases (short c)) [
  | inl p ↦ elim (Option-cases (short d)) [
    | inl q ↦ plain_inj c d r s (rw (escape-plain c p, escape-plain d q) at h) p q
    | inr (f, q) ↦
        absurd (plain-ne-short c d f r s (rw (escape-plain c p, escape-short d f q) at h) p q)
  ]
  | inr (e, p) ↦ elim (Option-cases (short d)) [
    | inl q ↦
        let g : plain d ++ s ≡ b'\\' ∷ e ∷ r =
          sym (rw (escape-short c e p, escape-plain d q) at h) in
        absurd (plain-ne-short d c e s r g q p)
    | inr (f, q) ↦
        let g : b'\\' ∷ e ∷ r ≡ b'\\' ∷ f ∷ s = rw (escape-short c e p, escape-short d f q) at h in
        let i : e ≡ f = cc in (short_inj c d e p (q ∙ ap some (sym i)), cc)
  ]
]

-- No escape begins with a quote.
escape-ne-quote : (c : ℕ) (r s : Text) → escape c ++ r ≢ b'"' ∷ s
unfolding escape
escape-ne-quote c r s = ground arith

closed-cons : (c : ℕ) (cs rest : Text) → closed (c ∷ cs) rest ≡ escape c ++ closed cs rest
closed-cons c cs rest = append_assoc (escape c) (escape_all cs) (b'"' ∷ rest)

closed_inj : (t u r s : Text) → closed t r ≡ closed u s → (t ≡ u) × (r ≡ s)
closed_inj [] [] r s h = (refl, cc)
closed_inj [] (d ∷ ds) r s h =
    absurd (escape-ne-quote d (closed ds s) r (sym (closed-cons d ds s) ∙ sym h))
closed_inj (c ∷ cs) [] r s h =
    absurd (escape-ne-quote c (closed cs r) s (sym (closed-cons c cs r) ∙ h))
closed_inj (c ∷ cs) (d ∷ ds) r s h =
    let (e, k) =
      escape_inj c d (closed cs r) (closed ds s)
        (sym (closed-cons c cs r) ∙ h ∙ closed-cons d ds s) in
    let (f, l) = closed_inj cs ds r s k in (ap₂ ◌∷◌ e f, l)

members_inj : (ts us : List Text) → members ts ≡ members us → ts ≡ us
members_inj [] [] h = refl
members_inj [] (u ∷ us) h = absurd (ground arith)
members_inj (t ∷ ts) [] h = absurd (ground arith)
members_inj (t ∷ ts) (u ∷ us) h =
    let (e, k) = closed_inj t u (members ts) (members us) (cc) in ap₂ ◌∷◌ e (members_inj ts us k)

-- Two identities with the same bytes are one.
pub key_bytes_inj : (k l : Key) → key_bytes k ≡ key_bytes l → k ≡ l
unfolding key_bytes
key_bytes_inj (name t) (name u) h = ap name (closed_inj t u [] [] (cc)).0
key_bytes_inj (name t) (parts u us) h = absurd (ground arith)
key_bytes_inj (parts t ts) (name u) h = absurd (ground arith)
key_bytes_inj (parts t ts) (parts u us) h =
    let (e, k) = closed_inj t u (members ts) (members us) (cc) in ap₂ parts e (members_inj ts us k)

abbrev pub texts_eq : List Text → List Text → Bool
texts_eq [] [] = true
texts_eq [] (u ∷ us) = false
texts_eq (t ∷ ts) [] = false
texts_eq (t ∷ ts) (u ∷ us) = let rest = texts_eq ts us in if text_eq t u then rest else false

texts_eq_iff : (ts us : List Text) → (texts_eq ts us ≡ true) ↔ (ts ≡ us)
texts_eq_iff [] [] = ground arith
texts_eq_iff [] (u ∷ us) = ground arith
texts_eq_iff (t ∷ ts) [] = ground arith
texts_eq_iff (t ∷ ts) (u ∷ us) = ground (arith, text_eq_iff t u, texts_eq_iff ts us)

abbrev pub key_eq : Key → Key → Bool
key_eq (name t) (name u) = text_eq t u
key_eq (name t) (parts u us) = false
key_eq (parts t ts) (name u) = false
key_eq (parts t ts) (parts u us) = if text_eq t u then texts_eq ts us else false

pub key_eq_iff : (k l : Key) → (key_eq k l ≡ true) ↔ (k ≡ l)
key_eq_iff (name t) (name u) = ground (arith, text_eq_iff t u)
key_eq_iff (name t) (parts u us) = ground arith
key_eq_iff (parts t ts) (name u) = ground arith
key_eq_iff (parts t ts) (parts u us) = ground (arith, text_eq_iff t u, texts_eq_iff ts us)

instance abbrev pub key_instance : Comparable Key
key_instance = record { agrees = key_eq; agrees_iff = key_eq_iff }
