-- ===== src/Agents/Redaction.antt =====
-- `_secret_key` and `_redacted` of gh_puller/agent/events.py, for keys of ASCII characters.
use gh_puller.Archive.Json.{
  Fields, Items, Json, array, boolean, cons, end, field, nil, null, number, object, text,
}
use gh_puller.Base.{
  Bool, Bool-cases, List, Option, String, [], any, ap, ap₂, codes, false, if◌then◌else◌, inl, inr,
  leb, length, none, refl, some, sym, true, ℕ, ◌&&◌, ◌+◌, ◌-◌, ◌||◌, ◌∷◌, ◌≡◌, ◌⊎◌, drop, ◌≢◌,
}
use gh_puller.Ordered.Texts.{Text, text_eq}

-- `char.lower()`.
abbrev pub lower : ℕ → ℕ
lower c = if leb b'A' c && leb c b'Z' then c + 32 else c

-- `char.isalnum()` of a lower-case character.
abbrev pub is_alnum : ℕ → Bool
is_alnum c = (leb b'a' c && leb c b'z') || (leb b'0' c && leb c b'9')

abbrev pub normalized_key : Text → Text
normalized_key [] = []
normalized_key (c ∷ cs) =
    let rest = normalized_key cs in if is_alnum (lower c) then lower c ∷ rest else rest

-- `s.endswith(suffix)`.
unfoldable pub ends_with : Text → Text → Bool
ends_with s suffix =
    leb (length suffix) (length s) && text_eq (drop (length s - length suffix) s) suffix

-- `_SECRET_SUFFIXES`.
abbrev pub secret_suffixes : List String
secret_suffixes =
    "apikey" ∷ "authkey" ∷ "accesstoken" ∷ "refreshtoken" ∷ "idtoken" ∷ "privatekey" ∷ "secretkey"
    ∷ "accesskey" ∷ "clientsecret" ∷ "password" ∷ "passwd" ∷ "authorization" ∷ "credential"
    ∷ "credentials" ∷ "token" ∷ []

-- `_secret_key`.
unfoldable pub secret_key : String → Bool
secret_key key = any (λ s. ends_with (normalized_key (codes key)) (codes s)) secret_suffixes

-- `_REDACTED`.
abbrev pub marker : Json
marker = text "<redacted>"

abbrev pub hidden_by : Option String → Bool
hidden_by none = false
hidden_by (some key) = secret_key key

-- `_redacted`.
unfoldable mutual
  pub redacted : Option String → Json → Json
  redacted key null = null
  redacted key (boolean b) = if hidden_by key then marker else boolean b
  redacted key (number n) = if hidden_by key then marker else number n
  redacted key (text s) = if hidden_by key then marker else text s
  redacted key (array vs) = if hidden_by key then marker else array (redacted_items vs)
  redacted key (object fs) = if hidden_by key then marker else object (redacted_fields fs)

  pub redacted_items : Items → Items
  redacted_items nil = nil
  redacted_items (cons v vs) = cons (redacted none v) (redacted_items vs)

  pub redacted_fields : Fields → Fields
  redacted_fields end = end
  redacted_fields (field k v fs) = field k (redacted (some k) v) (redacted_fields fs)

-- What stands under a key: nothing but `null` or the marker, where the key names a secret.
abbrev pub Covered : Option String → Json → Type 0
Covered key v = hidden_by key ≡ true → (v ≡ null) ⊎ (v ≡ marker)

-- No secret is shown, at any depth.
unfoldable mutual
  pub Hides : Json → Type 0
  Hides null = Unit
  Hides (boolean b) = Unit
  Hides (number n) = Unit
  Hides (text s) = Unit
  Hides (array vs) = HidesItems vs
  Hides (object fs) = HidesFields fs

  pub HidesItems : Items → Type 0
  HidesItems nil = Unit
  HidesItems (cons v vs) = Hides v × HidesItems vs

  pub HidesFields : Fields → Type 0
  HidesFields end = Unit
  HidesFields (field k v fs) = Covered (some k) v × Hides v × HidesFields fs

-- A key with its value hidden, and one without.
covered : (key : Option String) (v : Json) → Covered key (if hidden_by key then marker else v)
covered key v h = rw h (inr refl)

marked : (key : Option String) (v : Json) → Hides v → Hides (if hidden_by key then marker else v)
unfolding Hides
marked key v h = elim (Bool-cases (hidden_by key)) [ inl e ↦ rw e tt | inr e ↦ rw e h ]

redacted-Covered : (key : Option String) (v : Json) → Covered key (redacted key v)
unfolding redacted
redacted-Covered key null h = inl refl
redacted-Covered key (boolean b) h = covered key (boolean b) h
redacted-Covered key (number n) h = covered key (number n) h
redacted-Covered key (text s) h = covered key (text s) h
redacted-Covered key (array vs) h = covered key (array (redacted_items vs)) h
redacted-Covered key (object fs) h = covered key (object (redacted_fields fs)) h

mutual
  unfolding redacted redacted_items redacted_fields Hides HidesItems HidesFields

  hides : (key : Option String) (v : Json) → Hides (redacted key v)
  hides key null = tt
  hides key (boolean b) = marked key (boolean b) tt
  hides key (number n) = marked key (number n) tt
  hides key (text s) = marked key (text s) tt
  hides key (array vs) = marked key (array (redacted_items vs)) (hides_items vs)
  hides key (object fs) = marked key (object (redacted_fields fs)) (hides_fields fs)

  hides_items : (vs : Items) → HidesItems (redacted_items vs)
  hides_items nil = tt
  hides_items (cons v vs) = (hides none v, hides_items vs)

  hides_fields : (fs : Fields) → HidesFields (redacted_fields fs)
  hides_fields end = tt
  hides_fields (field k v fs) = (redacted-Covered (some k) v, hides (some k) v, hides_fields fs)

-- Whatever is redacted shows no secret: under a key that names one, at any depth, stands `null` or
-- the marker.
pub redacted-Hides :
    (key : Option String) (v : Json) → Covered key (redacted key v) × Hides (redacted key v)
redacted-Hides key v = (redacted-Covered key v, hides key v)

-- A value that is covered stays as it is, if it does where no key hides it.
kept :
    (key : Option String) (v w : Json)
    → Covered key v
    → w ≡ v
    → v ≢ null
    → (if hidden_by key then marker else w) ≡ v
kept key v w c e n = elim (Bool-cases (hidden_by key)) [
  | inl i ↦ rw i (elim (c i) [ inl z ↦ absurd (n z) | inr m ↦ sym m ])
  | inr i ↦ rw i e
]

mutual
  unfolding redacted redacted_items redacted_fields Hides HidesItems HidesFields

  keeps : (key : Option String) (v : Json) → Covered key v → Hides v → redacted key v ≡ v
  keeps key null c h = refl
  keeps key (boolean b) c h = kept key (boolean b) (boolean b) c refl (cc)
  keeps key (number n) c h = kept key (number n) (number n) c refl (cc)
  keeps key (text s) c h = kept key (text s) (text s) c refl (cc)
  keeps key (array vs) c h =
      kept key (array vs) (array (redacted_items vs)) c (ap array (keeps_items vs h)) (cc)
  keeps key (object fs) c h =
      kept key (object fs) (object (redacted_fields fs)) c (ap object (keeps_fields fs h)) (cc)

  keeps_items : (vs : Items) → HidesItems vs → redacted_items vs ≡ vs
  keeps_items nil h = refl
  keeps_items (cons v vs) h = ap₂ cons (keeps none v (λ e. absurd (cc)) h.0) (keeps_items vs h.1)

  keeps_fields : (fs : Fields) → HidesFields fs → redacted_fields fs ≡ fs
  keeps_fields end h = refl
  keeps_fields (field k v fs) h = ap₂ (field k) (keeps (some k) v h.0 h.1) (keeps_fields fs h.2)

-- A value that shows no secret is not changed.
pub redacted_self : (key : Option String) (v : Json) → Covered key v → Hides v → redacted key v ≡ v
redacted_self key v c h = keeps key v c h
