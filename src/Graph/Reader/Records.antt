-- ===== src/Graph/Reader/Records.antt =====
-- What `_records` of gh_puller/codebase/archive.py reads, and what `apply` changes of it.
use gh_puller.Archive.Action.{ok, steps}
use gh_puller.Base.{
  All, Bool-cases, Extends, List, Option, Option-cases, [], arith, false, inl, inr, none, refl,
  some, subst, sym, true, ◌∷◌, ◌≡◌, ◌≢◌, ◌∙◌, ap, map,
}
use gh_puller.Ordered.Dict
use mathlib.Core.Path.{fun_ext}
use mathlib.Core.Option
use gh_puller.Ordered.Dict.{Unique, eq_of_same, same, same_refl}
use gh_puller.Graph.Keys.{Key, TreeName, coverage, edges, key_path, nodes}
use gh_puller.Graph.Pages.{
  Codec, Frame, Page, TreeRef, Writer, find_page, key_sortable, text_sortable,
}
use gh_puller.Graph.Reader.{read_children, records, same_tree, shared, typed_page, update_all}
use gh_puller.Ordered.Texts.{Text, points_instance}
use gh_puller.Graph.Tree.{Changes, apply, build, group_of}
use gh_puller.Graph.Tree.Items.{Deletes, amended, get-nil, record_map-Unique}
use gh_puller.Graph.Tree.Leaves.{all-in_shard}
use gh_puller.Graph.Tree.Shape.{
  Bounded, Held, Held-Unique, Held-Extends, Shape, TreeAt, find_page-Extends, look,
}
use gh_puller.Graph.Tree.Update.{apply_lem}

same_tree_refl : (tree : TreeName) → same_tree tree tree ≡ true
same_tree_refl nodes = refl
same_tree_refl edges = refl
same_tree_refl coverage = refl

-- One binding over another.
abbrev over : {V : Type 0} → Option V → Option V → Option V
over none old = old
over (some new) old = some new

over_none : {V : Type 0} (o : Option V) → over o none ≡ o
over_none none = refl
over_none (some v) = refl

module _ {V : Type 0} where
  typed_page_found :
      (tree : TreeName) (ref : TreeRef) (frames : List (Frame V)) {page : Page V}
      → find_page frames ref ≡ some page
      → page.tree ≡ tree
      → typed_page tree ref frames ≡ (ok page, frames)
  unfolding typed_page steps
  typed_page_found tree ref frames h e = rw (h, e, same_tree_refl tree) refl

  get-update_all :
      (k : Key) (es d : List (Key × V))
      → Unique es
      → Dict.get k (update_all es d) ≡ over (Dict.get k es) (Dict.get k d)
  unfolding Dict.get update_all
  get-update_all k [] d u = refl
  get-update_all k ((j, v) ∷ es) d u =
      ground (arith, get-update_all k es (Dict.put j v d), Dict.get-put k j v d, eq_of_same j k)

  -- A record of another shard is not in a leaf.
  pub get-inside :
      (tree : TreeName) (slot : Text) (k : Key) (es : List (Key × V))
      → All (λ e. key_path tree e.0 ≡ slot) es
      → same slot (key_path tree k) ≡ false
      → Dict.get k es ≡ none
  unfolding Dict.get
  get-inside tree slot k [] h n = refl
  get-inside tree slot k ((j, v) ∷ es) h n = elim (Bool-cases (same j k)) [
    | inl e ↦
        let p : slot ≡ key_path tree k = sym h.0 ∙ ap (key_path tree) (eq_of_same j k e) in
        let t = subst (λ x. same slot x ≡ true) p (same_refl slot) in absurd (cc)
    | inr e ↦ rw e (get-inside tree slot k es h.1 n)
  ]

  shared-none : (d es : List (Key × V)) → All (λ e. Dict.get e.0 d ≡ none) es → shared d es ≡ false
  shared-none d [] h = refl
  shared-none d (e ∷ es) h = rw h.0 (shared-none d es h.1)

  -- The changes of a build.
  abbrev as_changes : List (Key × V) → Changes V
  as_changes rs = map (λ e. (e.0, some e.1)) rs

  get-as_changes :
      (k : Key) (rs : List (Key × V)) → Dict.get k (as_changes rs) ≡ Option.map some (Dict.get k rs)
  unfolding Dict.get
  get-as_changes k [] = refl
  get-as_changes k ((j, v) ∷ rs) = elim (Bool-cases (same j k)) [
    | inl e ↦ rw e refl
    | inr e ↦ rw e (get-as_changes k rs)
  ]

  as_changes-Unique : (rs : List (Key × V)) → Unique rs → Unique (as_changes rs)
  as_changes-Unique [] u = tt
  as_changes-Unique ((k, v) ∷ rs) u =
      (get-as_changes k rs ∙ ap (Option.map some) u.0, as_changes-Unique rs u.1)

  as_changes-Deletes : (f : Key → Option V) (rs : List (Key × V)) → Deletes f (as_changes rs)
  as_changes-Deletes f [] = tt
  as_changes-Deletes f (e ∷ rs) = ((λ gone. absurd (cc)), as_changes-Deletes f rs)

  amended_new : (o : Option V) (k : Key) → amended (Option.map some o) (Dict.get k []) ≡ o
  amended_new none k = get-nil k
  amended_new (some v) k = refl

module _ {V : Type 0} (codec : Codec V) (tree : TreeName) where
  -- What the records read so far and the shards that are left bind a key to.
  abbrev joined : List (Key × V) → Option (List (Key × V)) → Key → Option V
  joined d none k = Dict.get k d
  joined d (some es) k = Dict.get k es

  -- The shards that are left bind no key of the records read so far.
  abbrev Apart : List (Key × V) → Shape V → Type 0
  Apart d t = (k : Key) → Dict.get (key_path tree k) t ≢ none → Dict.get k d ≡ none

  Apart-here :
      (d es : List (Key × V)) (slot : Text) (rest : List (Key × V)) (t : Shape V)
      → Apart d ((slot, es) ∷ t)
      → All (λ e. key_path tree e.0 ≡ slot) rest
      → All (λ e. Dict.get e.0 d ≡ none) rest
  unfolding Dict.get
  Apart-here d es slot [] t a h = tt
  Apart-here d es slot (e ∷ rest) t a h = (
    a e.0 (let i = subst (λ x. same slot x ≡ true) (sym h.0) (same_refl slot) in rw i (cc)),
    Apart-here d es slot rest t a h.1,
  )

  Apart-next :
      (d es : List (Key × V)) (slot : Text) (t : Shape V)
      → Unique es
      → All (λ e. key_path tree e.0 ≡ slot) es
      → Dict.get slot t ≡ none
      → Apart d ((slot, es) ∷ t)
      → Apart (update_all es d) t
  unfolding Dict.get
  Apart-next d es slot t u h n a k bound = elim (Bool-cases (same slot (key_path tree k))) [
    | inl e ↦
        absurd (bound (subst (λ x. Dict.get x t ≡ none) (eq_of_same slot (key_path tree k) e) n))
    | inr e ↦ get-update_all k es d u ∙ rw (get-inside tree slot k es h e) (a k (rw e bound))
  ]

  joined-cons :
      (d es : List (Key × V)) (slot : Text) (t : Shape V) (f : Option V) (k : Key)
      → Unique es
      → All (λ e. key_path tree e.0 ≡ slot) es
      → Dict.get slot t ≡ none
      → Apart d ((slot, es) ∷ t)
      → f ≡ joined (update_all es d) (Dict.get (key_path tree k) t) k
      → f ≡ joined d (Dict.get (key_path tree k) ((slot, es) ∷ t)) k
  unfolding Dict.get
  joined-cons d es slot t f k u h n a e = elim (Bool-cases (same slot (key_path tree k))) [
    | inl i ↦
        let gone = subst (λ x. Dict.get x t ≡ none) (eq_of_same slot (key_path tree k) i) n in
        let fresh : Dict.get k d ≡ none = a k (rw i (cc)) in
        rw i (e ∙ rw gone (get-update_all k es d u ∙ rw fresh (over_none (Dict.get k es))))
    | inr i ↦
        let absent = get-inside tree slot k es h i in
        rw i (
          e ∙ elim (Option-cases (Dict.get (key_path tree k) t)) [
            | inl p ↦ rw p (get-update_all k es d u ∙ rw absent refl)
            | inr (x, p) ↦ rw p refl
          ])
  ]

  joined_nil : (o : Option (List (Key × V))) (k : Key) → joined [] o k ≡ Dict.get k (group_of o)
  joined_nil none k = refl
  joined_nil (some es) k = refl

  -- The records of the shards over the records read so far.
  abbrev pub gathered : Shape V → List (Key × V) → List (Key × V)
  gathered [] d = d
  gathered (s ∷ t) d = gathered t (update_all s.1 d)

  read_children_lem :
      (frames : List (Frame V)) (cs : List (Text × TreeRef)) (t : Shape V) (d : List (Key × V))
      → Held codec tree frames cs t
      → Unique t
      → Apart d t
      → (read_children tree cs d frames ≡ (ok (gathered t d), frames))
        × ((k : Key) → Dict.get k (gathered t d) ≡ joined d (Dict.get (key_path tree k) t) k)
  unfolding read_children steps
  read_children_lem frames [] [] d h u a =
      (refl, λ k. let gone = get-nil {A = List (Key × V)} (key_path tree k) in rw gone refl)
  read_children_lem frames [] (s ∷ t) d h u a = absurd h
  read_children_lem frames (c ∷ cs) [] d h u a = absurd h
  read_children_lem frames ((i, c) ∷ cs) ((slot, es) ∷ t) d h u a =
      let l = h.1 in
      let unique = Dict.Ascends-Unique es l.ascends in
      let fresh = Apart-here d es slot es t a l.inside in
      let (run, read) =
        read_children_lem frames cs t (update_all es d) h.2 u.1
          (Apart-next d es slot t unique l.inside u.0 a) in
      (
        rw (typed_page_found tree c frames l.found refl, h.0, record_map-Unique es unique)
            (rw (all-in_shard codec tree slot es l.inside, shared-none d es fresh) run),
        λ k.
            joined-cons d es slot t (Dict.get k (gathered t (update_all es d))) k unique l.inside
              u.0 a (read k),
      )

  -- A root reads as the records of its shards.
  pub records_lem :
      (frames : List (Frame V)) (root : Option TreeRef) (t : Shape V)
      → TreeAt codec tree frames root t
      → (records tree root frames ≡ (ok (gathered t []), frames))
        × ((k : Key) → Dict.get k (gathered t []) ≡ look tree t k)
  unfolding records steps
  records_lem frames none t h =
      (rw h refl, λ k. rw h (ap (λ x. Dict.get k (group_of x)) (sym (get-nil (key_path tree k)))))
  records_lem frames (some root) t h =
      let at = h.0 in
      let unique = Dict.Ascends-Unique at.children at.ascends in
      let (run, read) =
        read_children_lem frames at.children t [] at.held
          (Held-Unique codec tree frames at.children t at.held unique) (λ k bound. get-nil k) in
      (
        rw (typed_page_found tree root frames at.found refl, record_map-Unique at.children unique)
            run,
        λ k. read k ∙ joined_nil (Dict.get (key_path tree k) t) k,
      )

  pub TreeAt-Extends :
      (old new : List (Frame V)) (root : Option TreeRef) (t : Shape V)
      → Extends old new
      → TreeAt codec tree old root t
      → TreeAt codec tree new root t
  TreeAt-Extends old new none t x h = h
  TreeAt-Extends old new (some root) t x h =
      let at = h.0 in
      (
        record {
          children = at.children;
          found = find_page-Extends old new root x at.found;
          hashed = at.hashed;
          counted = at.counted;
          held = Held-Extends codec tree old new at.children t x at.held;
          ascends = at.ascends;
        },
        h.1,
      )

  -- A root whose pages the file holds.
  pub record IsRoot (w : Writer V) (root : Option TreeRef) : Type 0 where
    pub bounded : Bounded w
    pub shape : Shape V
    pub at : TreeAt codec tree w.frames root shape

  -- `apply` returns a root that reads as the changes leave the records `d` of the old one, which
  -- still reads as before.
  abbrev pub Applied : Option TreeRef → Changes V → Writer V → List (Key × V) → Type 0
  Applied root changes w d =
      (root' : Option TreeRef) × (d' : List (Key × V)) × (w' : Writer V) × (apply codec tree root
          changes w
        ≡ (ok root', w'))
      × IsRoot w' root'
      × (records tree root' w'.frames ≡ (ok d', w'.frames))
      × (records tree root w'.frames ≡ (ok d, w'.frames))
      × ((k : Key) → Dict.get k d' ≡ amended (Dict.get k changes) (Dict.get k d))

  -- Changes of distinct keys that delete only what is there succeed. The new root reads as the
  -- changes leave the records of the old one, and the old root still reads as before.
  pub apply-records :
      (root : Option TreeRef) (changes : Changes V) (w : Writer V) (d : List (Key × V))
      → IsRoot w root
      → records tree root w.frames ≡ (ok d, w.frames)
      → Unique changes
      → Deletes (λ k. Dict.get k d) changes
      → Applied root changes w d
  apply-records root changes w d r reads u deletes =
      let (run0, same0) = records_lem w.frames root r.shape r.at in
      let p : gathered r.shape [] ≡ d = cc in
      let as_shape : (k : Key) → Dict.get k d ≡ look tree r.shape k =
        subst (λ x. (k : Key) → Dict.get k x ≡ look tree r.shape k) p same0 in
      let (root', t', w', run, grown, at', read) =
        apply_lem codec tree root r.shape changes w r.bounded r.at u
          (subst (λ f. Deletes f changes) (fun_ext as_shape) deletes) in
      let (run', same') = records_lem w'.frames root' t' at' in
      let (run2, same2) =
        records_lem w'.frames root r.shape
          (TreeAt-Extends w.frames w'.frames root r.shape grown.extends r.at) in
      (
        root',
        gathered t' [],
        w',
        run,
        record { bounded = grown.bounded; shape = t'; at = at' },
        run',
        run2 ∙ ap (λ x. (ok x, w'.frames)) p,
        λ k. same' k ∙ read k ∙ ap (amended (Dict.get k changes)) (sym (as_shape k)),
      )

  -- `build` returns a root that reads as these records.
  abbrev pub Built : List (Key × V) → Writer V → Type 0
  Built rs w =
      (root : Option TreeRef) × (d : List (Key × V)) × (w' : Writer V) × (build codec tree rs w
        ≡ (ok root, w'))
      × IsRoot w' root
      × (records tree root w'.frames ≡ (ok d, w'.frames))
      × ((k : Key) → Dict.get k d ≡ Dict.get k rs)

  -- A build of records with distinct keys succeeds, and its root reads as those records.
  pub build-records : (rs : List (Key × V)) (w : Writer V) → Bounded w → Unique rs → Built rs w
  unfolding build steps
  build-records rs w b u =
      let start : IsRoot w none = record { bounded = b; shape = []; at = refl } in
      let (root, d, w', run, r, reads, old, read) =
        apply-records none (as_changes rs) w [] start (records_lem w.frames none [] refl).0
          (as_changes-Unique rs u) (as_changes-Deletes (λ k. Dict.get k []) rs) in
      (
        root,
        d,
        w',
        rw (record_map-Unique rs u) run,
        r,
        reads,
        λ k. read k ∙ rw (get-as_changes k rs) (amended_new (Dict.get k rs) k),
      )
