-- ===== src/Graph/Tree/Shape.antt =====
-- What the pages of a tree hold: `RadixTree` of gh_puller/codebase/archive.py.
use gh_puller.Base.{
  All, Bool-cases, Extends, List, Option, Option-cases, [], arith, find, find-append_some,
  if◌then◌else◌, inl, inr, length, none, refl, some, subst, sym, ◌<◌, ◌∷◌, ◌≡◌, ◌≢◌, ◌∙◌, ap,
  nat_instance,
}
use gh_puller.Ordered.Dict
use gh_puller.Ordered.Dict.{Ascends, Sortable, Unique, eq_of_same, precedes, same, same_refl}
use gh_puller.Graph.Keys.{Key, TreeName, key_path}
use gh_puller.Graph.Pages.{
  Codec, Frame, Page, TreeRef, Writer, branch, find_page, frame_at, key_sortable, leaf,
  text_sortable,
}
use gh_puller.Ordered.Texts.{Text, before, points_instance, text_eq, text_eq_iff}
use gh_puller.Graph.Tree.{branch_logical, group_of, leaf_logical, set_child, total}

-- Shards with their records.
abbrev pub Shape : Type 0 → Type 0
Shape V = List (Text × List (Key × V))

module _ {V : Type 0} where
  -- Every frame lies before the end of the file.
  abbrev pub Bounded : Writer V → Type 0
  Bounded w = All (λ f. f.offset < w.position) w.frames

  pub find_page-Extends :
      (old new : List (Frame V)) (ref : TreeRef) {p : Page V}
      → Extends old new
      → find_page old ref ≡ some p
      → find_page new ref ≡ some p
  unfolding find_page
  find_page-Extends old new ref (more, e) h = elim (Option-cases (find (frame_at ref.offset) old)) [
    | inl n ↦ absurd (cc (rw (n, find_page) at h))
    | inr (f, s) ↦
        let s' : find (frame_at ref.offset) new ≡ some f =
          ap (find (frame_at ref.offset)) e ∙ find-append_some (frame_at ref.offset) old more s in
        rw (s', find_page) (rw (s, find_page) at h)
  ]

  -- The records of a tree at a key.
  abbrev pub look : TreeName → Shape V → Key → Option V
  look tree t k = Dict.get k (group_of (Dict.get (key_path tree k) t))

  abbrev pub set_entries : Text → List (Key × V) → Shape V → Shape V
  set_entries slot [] t = Dict.remove slot t
  set_entries slot (e ∷ es) t = Dict.put slot (e ∷ es) t

  pub look-set :
      (tree : TreeName) (slot : Text) (es : List (Key × V)) (t : Shape V) (k : Key)
      → look tree (set_entries slot es t) k
        ≡ (if same slot (key_path tree k) then Dict.get k es else look tree t k)
  look-set tree slot [] t k =
      rw (Dict.get-remove (key_path tree k) slot t)
        (elim (Bool-cases (same slot (key_path tree k))) [ inl e ↦ rw e refl | inr e ↦ rw e refl ])
  look-set tree slot (e ∷ es) t k =
      rw (Dict.get-put (key_path tree k) slot (e ∷ es) t)
        (elim (Bool-cases (same slot (key_path tree k))) [ inl e ↦ rw e refl | inr e ↦ rw e refl ])

module _ {V : Type 0} (codec : Codec V) (tree : TreeName) where
  abbrev pub leaf_page : List (Key × V) → Page V
  leaf_page es = record {
    tree = tree;
    depth = 1;
    body = leaf es;
    logical_hash = codec.digest (leaf_logical tree es);
    count = length es;
  }

  abbrev pub branch_page : List (Text × TreeRef) → Page V
  branch_page cs = record {
    tree = tree;
    depth = 0;
    body = branch cs;
    logical_hash = codec.digest (branch_logical tree cs);
    count = total cs;
  }

  -- A reference to a leaf page of a shard that holds these records.
  pub record LeafAt (frames : List (Frame V)) (slot : Text) (ref : TreeRef) (es : List (Key × V))
      : Type 0 where
    pub found : find_page frames ref ≡ some (leaf_page es)
    pub hashed : ref.logical_hash ≡ codec.digest (leaf_logical tree es)
    pub counted : ref.count ≡ length es
    pub ascends : Ascends es
    pub inside : All (λ e. key_path tree e.0 ≡ slot) es
    pub nonempty : es ≢ []

  pub LeafAt-Extends :
      (old new : List (Frame V)) (slot : Text) (ref : TreeRef) (es : List (Key × V))
      → Extends old new
      → LeafAt old slot ref es
      → LeafAt new slot ref es
  LeafAt-Extends old new slot ref es x l = record {
    found = find_page-Extends old new ref x l.found;
    hashed = l.hashed;
    counted = l.counted;
    ascends = l.ascends;
    inside = l.inside;
    nonempty = l.nonempty;
  }

  -- The leaf of a shard, or none where it has no record.
  abbrev pub Shard : List (Frame V) → Text → Option TreeRef → List (Key × V) → Type 0
  Shard frames slot none es = es ≡ []
  Shard frames slot (some ref) es = LeafAt frames slot ref es

  -- The children of a branch, shard by shard.
  abbrev pub Held : List (Frame V) → List (Text × TreeRef) → Shape V → Type 0
  Held frames [] [] = Unit
  Held frames [] (s ∷ t) = ⊥
  Held frames (c ∷ cs) [] = ⊥
  Held frames (c ∷ cs) (s ∷ t) = (c.0 ≡ s.0) × LeafAt frames s.0 c.1 s.1 × Held frames cs t

  pub Held-Extends :
      (old new : List (Frame V)) (cs : List (Text × TreeRef)) (t : Shape V)
      → Extends old new
      → Held old cs t
      → Held new cs t
  Held-Extends old new [] [] x h = tt
  Held-Extends old new [] (s ∷ t) x h = h
  Held-Extends old new (c ∷ cs) [] x h = h
  Held-Extends old new (c ∷ cs) (s ∷ t) x h =
      (h.0, LeafAt-Extends old new s.0 c.1 s.1 x h.1, Held-Extends old new cs t x h.2)

  pub Held-get :
      (frames : List (Frame V)) (slot : Text) (cs : List (Text × TreeRef)) (t : Shape V)
      → Held frames cs t
      → Shard frames slot (Dict.get slot cs) (group_of (Dict.get slot t))
  unfolding Dict.get
  Held-get frames slot [] [] h = refl
  Held-get frames slot [] (s ∷ t) h = absurd h
  Held-get frames slot (c ∷ cs) [] h = absurd h
  Held-get frames slot ((i, c) ∷ cs) ((j, es) ∷ t) h = elim (Bool-cases (text_eq j slot)) [
    | inl e ↦
        let there = (text_eq_iff j slot).0 e in
        rw (ap (λ x. text_eq x slot) h.0 ∙ e, e) (subst (λ x. LeafAt frames x c es) there h.1)
    | inr e ↦ rw (ap (λ x. text_eq x slot) h.0 ∙ e, e) (Held-get frames slot cs t h.2)
  ]

  pub Held-put :
      (frames : List (Frame V)) (slot : Text) (ref : TreeRef) (es : List (Key × V))
      (cs : List (Text × TreeRef)) (t : Shape V)
      → LeafAt frames slot ref es
      → Held frames cs t
      → Held frames (Dict.put slot ref cs) (Dict.put slot es t)
  unfolding Dict.put
  Held-put frames slot ref es [] [] l h = (refl, l, tt)
  Held-put frames slot ref es [] (s ∷ t) l h = absurd h
  Held-put frames slot ref es (c ∷ cs) [] l h = absurd h
  Held-put frames slot ref es ((i, c) ∷ cs) ((j, ds) ∷ t) l h = elim (Bool-cases (text_eq j slot)) [
    | inl e ↦
        let there = (text_eq_iff j slot).0 e in
        rw (ap (λ x. text_eq x slot) h.0 ∙ e, e)
          (h.0, subst (λ x. LeafAt frames x ref es) (sym there) l, h.2)
    | inr e ↦
        rw (ap (λ x. text_eq x slot) h.0 ∙ e, e) (h.0, h.1, Held-put frames slot ref es cs t l h.2)
  ]

  Held-remove :
      (frames : List (Frame V)) (slot : Text) (cs : List (Text × TreeRef)) (t : Shape V)
      → Held frames cs t
      → Held frames (Dict.remove slot cs) (Dict.remove slot t)
  unfolding Dict.remove
  Held-remove frames slot [] [] h = tt
  Held-remove frames slot [] (s ∷ t) h = absurd h
  Held-remove frames slot (c ∷ cs) [] h = absurd h
  Held-remove frames slot ((i, c) ∷ cs) ((j, ds) ∷ t) h = elim (Bool-cases (text_eq j slot)) [
    | inl e ↦ rw (ap (λ x. text_eq x slot) h.0 ∙ e, e) (Held-remove frames slot cs t h.2)
    | inr e ↦ rw (ap (λ x. text_eq x slot) h.0 ∙ e, e) (h.0, h.1, Held-remove frames slot cs t h.2)
  ]

  -- A new leaf of a shard, or its end.
  pub Held-set :
      (frames : List (Frame V)) (slot : Text) (ref : Option TreeRef) (es : List (Key × V))
      (cs : List (Text × TreeRef)) (t : Shape V)
      → Shard frames slot ref es
      → Held frames cs t
      → Held frames (set_child slot ref cs) (set_entries slot es t)
  Held-set frames slot none es cs t l h =
      subst (λ x. Held frames (Dict.remove slot cs) (set_entries slot x t)) (sym l)
        (Held-remove frames slot cs t h)
  Held-set frames slot (some ref) [] cs t l h = absurd (l.nonempty refl)
  Held-set frames slot (some ref) (e ∷ es) cs t l h = Held-put frames slot ref (e ∷ es) cs t l h

  Held-place :
      (frames : List (Frame V)) (slot : Text) (ref : TreeRef) (es : List (Key × V))
      (cs : List (Text × TreeRef)) (t : Shape V)
      → LeafAt frames slot ref es
      → Held frames cs t
      → Held frames (Dict.place (slot, ref) cs) (Dict.place (slot, es) t)
  unfolding Dict.place
  Held-place frames slot ref es [] [] l h = (refl, l, tt)
  Held-place frames slot ref es [] (s ∷ t) l h = absurd h
  Held-place frames slot ref es (c ∷ cs) [] l h = absurd h
  Held-place frames slot ref es ((i, c) ∷ cs) ((j, ds) ∷ t) l h =
      elim (Bool-cases (before j slot)) [
        | inl e ↦
            rw (ap (λ x. before x slot) h.0 ∙ e, e)
              (h.0, h.1, Held-place frames slot ref es cs t l h.2)
        | inr e ↦ rw (ap (λ x. before x slot) h.0 ∙ e, e) (refl, l, h)
      ]

  pub Held-sort :
      (frames : List (Frame V)) (cs : List (Text × TreeRef)) (t : Shape V)
      → Held frames cs t
      → Held frames (Dict.sort cs) (Dict.sort t)
  unfolding Dict.sort
  Held-sort frames [] [] h = tt
  Held-sort frames [] (s ∷ t) h = absurd h
  Held-sort frames (c ∷ cs) [] h = absurd h
  Held-sort frames ((i, c) ∷ cs) ((j, ds) ∷ t) h =
      subst (λ x. Held frames (Dict.place (x, c) (Dict.sort cs)) (Dict.place (j, ds) (Dict.sort t)))
        (sym h.0)
        (Held-place frames j c ds (Dict.sort cs) (Dict.sort t) h.1 (Held-sort frames cs t h.2))

  get-Held-none :
      (frames : List (Frame V)) (slot : Text) (cs : List (Text × TreeRef)) (t : Shape V)
      → Held frames cs t
      → Dict.get slot cs ≡ none
      → Dict.get slot t ≡ none
  unfolding Dict.get
  get-Held-none frames slot [] [] h n = refl
  get-Held-none frames slot [] (s ∷ t) h n = absurd h
  get-Held-none frames slot (c ∷ cs) [] h n = absurd h
  get-Held-none frames slot ((i, c) ∷ cs) ((j, es) ∷ t) h n =
      let e : text_eq i slot ≡ text_eq j slot = ap (λ x. text_eq x slot) h.0 in
      ground (arith, get-Held-none frames slot cs t h.2)

  pub Held-Unique :
      (frames : List (Frame V)) (cs : List (Text × TreeRef)) (t : Shape V)
      → Held frames cs t
      → Unique cs
      → Unique t
  Held-Unique frames [] [] h u = tt
  Held-Unique frames [] (s ∷ t) h u = absurd h
  Held-Unique frames (c ∷ cs) [] h u = absurd h
  Held-Unique frames (c ∷ cs) (s ∷ t) h u = (
    get-Held-none frames s.0 cs t h.2 (subst (λ x. Dict.get x cs ≡ none) h.0 u.0),
    Held-Unique frames cs t h.2 u.1,
  )

  -- The root of a tree that holds these shards.
  pub record BranchAt (frames : List (Frame V)) (ref : TreeRef) (t : Shape V) : Type 0 where
    pub children : List (Text × TreeRef)
    pub found : find_page frames ref ≡ some (branch_page children)
    pub hashed : ref.logical_hash ≡ codec.digest (branch_logical tree children)
    pub counted : ref.count ≡ total children
    pub held : Held frames children t
    pub ascends : Ascends children

  -- The tree under a root, which is absent where there is no record.
  abbrev pub TreeAt : List (Frame V) → Option TreeRef → Shape V → Type 0
  TreeAt frames none t = t ≡ []
  TreeAt frames (some ref) t = BranchAt frames ref t × (t ≢ [])
