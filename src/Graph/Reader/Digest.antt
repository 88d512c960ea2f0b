-- ===== src/Graph/Reader/Digest.antt =====
-- The logical hash of a root of gh_puller/codebase/archive.py, and `graph_digest`.
use gh_puller.Archive.Action.{ok}
use gh_puller.Base.{
  All, Bool-cases, List, Option, Option-cases, [], inl, inr, length, none, refl, some, subst, sym,
  true, ℕ, ◌+◌, ◌∷◌, ◌≡◌, ◌≢◌, ◌∙◌, ap, ap₂, map,
}
use gh_puller.Ordered.Dict
use gh_puller.Ordered.Dict.{Ascends, Unique, eq_of_same, same, same_refl}
use gh_puller.Graph.Keys.{Key, TreeName, key_path}
use gh_puller.Graph.Pages.{Codec, Frame, TreeRef, Writer, key_sortable, text_sortable}
use gh_puller.Graph.Reader.{records}
use gh_puller.Graph.Reader.Records.{IsRoot, gathered, get-inside, records_lem}
use gh_puller.Ordered.Texts.{Text, points_instance}
use gh_puller.Graph.Tree.{branch_logical, leaf_logical, named, total}
use gh_puller.Graph.Tree.Shape.{BranchAt, Held, Shape, TreeAt, look}

module _ {V : Type 0} (tree : TreeName) where
  -- The shards ascend, and each holds some records of its own, in their order.
  abbrev Good : Text × List (Key × V) → Type 0
  Good s = Ascends s.1 × All (λ e. key_path tree e.0 ≡ s.0) s.1 × (s.1 ≢ [])

  -- A shard that is there shows at the key of its first record.
  shown :
      (slot : Text) (es : List (Key × V)) (t : Shape V)
      → Dict.get slot t ≡ some es
      → Good (slot, es)
      → (k : Key) × (key_path tree k ≡ slot) × (v : V) × (look tree t k ≡ some v)
  unfolding Dict.get
  shown slot [] t e g = absurd (g.2 refl)
  shown slot ((k, v) ∷ es) t e g = (
    k,
    g.1.0,
    v,
    let found = subst (λ x. Dict.get x t ≡ some ((k, v) ∷ es)) (sym g.1.0) e in
        rw (found, same_refl k) refl,
  )

  get-Good :
      (slot : Text) (t : Shape V) {es : List (Key × V)}
      → All Good t
      → Dict.get slot t ≡ some es
      → Good (slot, es)
  unfolding Dict.get
  get-Good slot [] g e = absurd (cc)
  get-Good slot ((s, ds) ∷ t) {es} g e = elim (Bool-cases (same s slot)) [
    | inl i ↦
        let p : ds ≡ es = cc (rw i at e) in
        let q : s ≡ slot = eq_of_same s slot i in
        subst (λ x. Good (slot, x)) p (subst (λ x. Good (x, ds)) q g.0)
    | inr i ↦ get-Good slot t g.1 (rw i at e)
  ]

  -- Where two trees read alike, a shard of the one is the shard of the other.
  same_entries :
      (slot : Text) (es ds : List (Key × V)) (t u : Shape V)
      → ((k : Key) → look tree t k ≡ look tree u k)
      → Dict.get slot t ≡ some es
      → Dict.get slot u ≡ some ds
      → Good (slot, es)
      → Good (slot, ds)
      → es ≡ ds
  same_entries slot es ds t u agree e d g h = Dict.Ascends-ext es ds g.0 h.0 λ k.
      elim (Bool-cases (same slot (key_path tree k))) [
        | inl i ↦
            let p : slot ≡ key_path tree k = eq_of_same slot (key_path tree k) i in
            let e' = subst (λ x. Dict.get x t ≡ some es) p e in
            let d' = subst (λ x. Dict.get x u ≡ some ds) p d in
            let left : look tree t k ≡ Dict.get k es = rw e' refl in
            let right : look tree u k ≡ Dict.get k ds = rw d' refl in sym left ∙ agree k ∙ right
        | inr i ↦ get-inside tree slot k es g.1 i ∙ sym (get-inside tree slot k ds h.1 i)
      ]

  absent :
      (slot : Text) (es : List (Key × V)) (t u : Shape V)
      → ((k : Key) → look tree t k ≡ look tree u k)
      → Dict.get slot t ≡ some es
      → Good (slot, es)
      → Dict.get slot u ≡ none
      → ⊥
  unfolding Dict.get
  absent slot es t u agree e g n =
      let (k, p, v, s) = shown slot es t e g in
      let gone = subst (λ x. Dict.get x u ≡ none) (sym p) n in
      let nothing : look tree u k ≡ none = rw gone refl in
      let both : none ≡ some v = sym nothing ∙ sym (agree k) ∙ s in cc

  same_shards :
      (t u : Shape V) (slot : Text)
      → All Good t
      → All Good u
      → ((k : Key) → look tree t k ≡ look tree u k)
      → Dict.get slot t ≡ Dict.get slot u
  same_shards t u slot g h agree = elim (Option-cases (Dict.get slot t)) [
    | inl e ↦ elim (Option-cases (Dict.get slot u)) [
      | inl d ↦ e ∙ sym d
      | inr (ds, d) ↦ absurd (absent slot ds u t (λ k. sym (agree k)) d (get-Good slot u h d) e)
    ]
    | inr (es, e) ↦ elim (Option-cases (Dict.get slot u)) [
      | inl d ↦ absurd (absent slot es t u agree e (get-Good slot t g e) d)
      | inr (ds, d) ↦
          e
          ∙ ap some
              (same_entries slot es ds t u agree e d (get-Good slot t g e) (get-Good slot u h d))
          ∙ sym d
    ]
  ]

-- `root.logical_hash if root else None`, and the count of the records.
abbrev pub hash_of : Option TreeRef → Option Text
hash_of none = none
hash_of (some r) = some r.logical_hash

abbrev pub count_of : Option TreeRef → ℕ
count_of none = 0
count_of (some r) = r.count

module _ {V : Type 0} (codec : Codec V) (tree : TreeName) where
  Held-Good :
      (frames : List (Frame V)) (cs : List (Text × TreeRef)) (t : Shape V)
      → Held codec tree frames cs t
      → All (Good tree) t
  Held-Good frames [] [] h = tt
  Held-Good frames [] (s ∷ t) h = absurd h
  Held-Good frames (c ∷ cs) [] h = absurd h
  Held-Good frames (c ∷ cs) (s ∷ t) h =
      let l = h.1 in ((l.ascends, l.inside, l.nonempty), Held-Good frames cs t h.2)

  above-Held :
      (frames : List (Frame V)) (slot : Text) (cs : List (Text × TreeRef)) (t : Shape V)
      → Held codec tree frames cs t
      → All (λ c. Dict.precedes slot c.0 ≡ true) cs
      → All (λ s. Dict.precedes slot s.0 ≡ true) t
  above-Held frames slot [] [] h a = tt
  above-Held frames slot [] (s ∷ t) h a = absurd h
  above-Held frames slot (c ∷ cs) [] h a = absurd h
  above-Held frames slot (c ∷ cs) (s ∷ t) h a =
      (subst (λ x. Dict.precedes slot x ≡ true) h.0 a.0, above-Held frames slot cs t h.2 a.1)

  Held-Ascends :
      (frames : List (Frame V)) (cs : List (Text × TreeRef)) (t : Shape V)
      → Held codec tree frames cs t
      → Ascends cs
      → Ascends t
  Held-Ascends frames [] [] h a = tt
  Held-Ascends frames [] (s ∷ t) h a = absurd h
  Held-Ascends frames (c ∷ cs) [] h a = absurd h
  Held-Ascends frames (c ∷ cs) (s ∷ t) h a = (
    above-Held frames s.0 cs t h.2 (subst (λ x. All (λ c. Dict.precedes x c.0 ≡ true) cs) h.0 a.0),
    Held-Ascends frames cs t h.2 a.1,
  )

  -- The children of a branch, and their total, are named by its records.
  abbrev named_shard : Text × List (Key × V) → Text × Text × ℕ
  named_shard s = (s.0, codec.digest (leaf_logical tree s.1), length s.1)

  abbrev size_of : Shape V → ℕ
  size_of [] = 0
  size_of (s ∷ t) = length s.1 + size_of t

  named-Held :
      (frames : List (Frame V)) (cs : List (Text × TreeRef)) (t : Shape V)
      → Held codec tree frames cs t
      → (map named cs ≡ map named_shard t) × (total cs ≡ size_of t)
  named-Held frames [] [] h = (refl, refl)
  named-Held frames [] (s ∷ t) h = absurd h
  named-Held frames (c ∷ cs) [] h = absurd h
  named-Held frames (c ∷ cs) (s ∷ t) h =
      let l = h.1 in
      let (n, m) = named-Held frames cs t h.2 in
      let e = h.0 in let hashed = l.hashed in let counted = l.counted in (cc, ap₂ ◌+◌ l.counted m)

  root_hash :
      (frames frames' : List (Frame V)) (r r' : TreeRef) (t : Shape V)
      → BranchAt codec tree frames r t
      → BranchAt codec tree frames' r' t
      → (r.logical_hash ≡ r'.logical_hash) × (r.count ≡ r'.count)
  root_hash frames frames' r r' t b b' =
      let (n, m) = named-Held frames b.children t b.held in
      let (n', m') = named-Held frames' b'.children t b'.held in
      let names : map named b.children ≡ map named b'.children = n ∙ sym n' in
      let counts : total b.children ≡ total b'.children = m ∙ sym m' in
      let same_logical : branch_logical {V = V} tree b.children ≡ branch_logical tree b'.children =
        cc in
      (b.hashed ∙ ap codec.digest same_logical ∙ sym b'.hashed, b.counted ∙ counts ∙ sym b'.counted)

  TreeAt-Good :
      (frames : List (Frame V)) (root : Option TreeRef) (t : Shape V)
      → TreeAt codec tree frames root t
      → Ascends t × All (Good tree) t
  TreeAt-Good frames none t h = subst (λ x. Ascends x × All (Good tree) x) (sym h) (tt, tt)
  TreeAt-Good frames (some r) t h =
      let at = h.0 in
      (Held-Ascends frames at.children t at.held at.ascends, Held-Good frames at.children t at.held)

  same_root :
      (frames frames' : List (Frame V)) (root root' : Option TreeRef) (t : Shape V)
      → TreeAt codec tree frames root t
      → TreeAt codec tree frames' root' t
      → (hash_of root ≡ hash_of root') × (count_of root ≡ count_of root')
  same_root frames frames' none none t h h' = (refl, refl)
  same_root frames frames' none (some r) t h h' = absurd (h'.1 h)
  same_root frames frames' (some r) none t h h' = absurd (h.1 h')
  same_root frames frames' (some r) (some r') t h h' =
      let (e, f) = root_hash frames frames' r r' t h.0 h'.0 in (ap some e, f)

  -- Two roots, of one archive or of two, that read as the same records have the same hash and the
  -- same count, whatever changes led to them.
  pub hash_of-records :
      (w w' : Writer V) (root root' : Option TreeRef) (d d' : List (Key × V))
      → IsRoot codec tree w root
      → IsRoot codec tree w' root'
      → records tree root w.frames ≡ (ok d, w.frames)
      → records tree root' w'.frames ≡ (ok d', w'.frames)
      → ((k : Key) → Dict.get k d ≡ Dict.get k d')
      → (hash_of root ≡ hash_of root') × (count_of root ≡ count_of root')
  hash_of-records w w' root root' d d' r r' reads reads' agree =
      let (run, read) = records_lem codec tree w.frames root r.shape r.at in
      let (run', read') = records_lem codec tree w'.frames root' r'.shape r'.at in
      let p : gathered codec tree r.shape [] ≡ d = cc in
      let p' : gathered codec tree r'.shape [] ≡ d' = cc in
      let alike : (k : Key) → look tree r.shape k ≡ look tree r'.shape k =
        λ k. sym (read k) ∙ ap (Dict.get k) p ∙ agree k ∙ ap (Dict.get k) (sym p') ∙ read' k in
      let good = TreeAt-Good w.frames root r.shape r.at in
      let good' = TreeAt-Good w'.frames root' r'.shape r'.at in
      let shapes : r.shape ≡ r'.shape =
        Dict.Ascends-ext r.shape r'.shape good.0 good'.0
          (λ slot. same_shards tree r.shape r'.shape slot good.1 good'.1 alike) in
      same_root w.frames w'.frames root root' r'.shape
        (subst (λ x. TreeAt codec tree w.frames root x) shapes r.at) r'.at
