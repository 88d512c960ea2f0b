-- ===== src/Graph/Tree/Update.antt =====
-- `apply` of gh_puller/codebase/archive.py: the records of a tree before and after it.
use gh_puller.Archive.Action.{ok, steps}
use gh_puller.Base.{
  All, All-mono, Bool-cases, Extends, Extends-refl, List, Option, [], arith, false, inl, inr, none,
  refl, some, subst, sym, ◌∷◌, ◌≡◌, ◌≢◌, ◌∙◌, ap, select,
}
use gh_puller.Ordered.Dict
use gh_puller.Ordered.Dict.{Ascends, Unique, eq_of_same, same, same_refl}
use gh_puller.Graph.Keys.{Key, TreeName, key_path}
use gh_puller.Graph.Pages.{Codec, TreeRef, Writer, branch, key_sortable, text_sortable}
use gh_puller.Ordered.Texts.{Text, points_instance}
use gh_puller.Graph.Tree.{
  Changes, apply, branch_logical, group_into, group_of, load_branch, set_child, update_branch,
  update_children, write_branch,
}
use gh_puller.Graph.Tree.Groups.{
  get-select, groups-Unique, groups-members, groups-select, path_is, select-Deletes, select-Unique,
  select-path,
}
use gh_puller.Graph.Tree.Items.{Deletes, amended, get-nil, record_map-Unique}
use gh_puller.Graph.Tree.Leaves.{
  Grown, Grown-trans, after, after-Grown, find_page-after, read_once, read_page_found, ref_for,
  place-ne-nil, update_leaf_lem, write_page_lem,
}
use gh_puller.Graph.Tree.Shape.{
  Bounded, Held, Held-Extends, Held-get, Held-set, Held-sort, Shape, TreeAt, look, look-set,
  set_entries,
}

set_child-Unique :
    (slot : Text) (ref : Option TreeRef) (cs : List (Text × TreeRef))
    → Unique cs
    → Unique (set_child slot ref cs)
set_child-Unique slot none cs u = Dict.remove-Unique slot cs u
set_child-Unique slot (some r) cs u = Dict.put-Unique slot r cs u

module _ {V : Type 0} (tree : TreeName) where
  -- The changes of one shard, which delete only what is bound.
  abbrev GroupOk : (Key → Option V) → Text × Changes V → Type 0
  GroupOk bound g = All (λ c. key_path tree c.0 ≡ g.0) g.1 × Unique g.1 × Deletes bound g.1

  Deletes-where :
      (slot : Text) (f g : Key → Option V) (changes : Changes V)
      → ((k : Key) → key_path tree k ≡ slot → g k ≡ f k)
      → All (λ c. key_path tree c.0 ≡ slot) changes
      → Deletes f changes
      → Deletes g changes
  Deletes-where slot f g [] e p h = tt
  Deletes-where slot f g (c ∷ changes) e p h =
      ((λ gone found. h.0 gone (sym (e c.0 p.0) ∙ found)), Deletes-where slot f g changes e p.1 h.1)

  -- Where the bindings of one shard change, the groups of the others are as good as before.
  GroupOk-others :
      (slot : Text) (f g : Key → Option V) (groups : List (Text × Changes V))
      → Dict.get slot groups ≡ none
      → ((k : Key) → same slot (key_path tree k) ≡ false → g k ≡ f k)
      → All (GroupOk f) groups
      → All (GroupOk g) groups
  unfolding Dict.get
  GroupOk-others slot f g [] n e h = tt
  GroupOk-others slot f g ((s, c) ∷ groups) n e h =
      let apart : same slot s ≡ false = ground (arith, eq_of_same slot s, same_refl s) in
      (
        (h.0.0, h.0.1, Deletes-where s f g c (λ k p. e k (ap (same slot) p ∙ apart)) h.0.0 h.0.2),
        GroupOk-others slot f g groups (ground arith) e h.1,
      )

  -- What the groups make of the records.
  abbrev regrouped : List (Text × Changes V) → (Key → Option V) → Key → Option V
  regrouped groups f k = amended (Dict.get k (group_of (Dict.get (key_path tree k) groups))) (f k)

  regrouped-cons :
      (slot : Text) (g : Changes V) (groups : List (Text × Changes V)) (es : List (Key × V))
      (t : Shape V) (f : Key → Option V) (k : Key)
      → Dict.get slot groups ≡ none
      → (Dict.get k es ≡ amended (Dict.get k g) (Dict.get k (group_of (Dict.get slot t))))
      → f k ≡ regrouped groups (look tree (set_entries slot es t)) k
      → f k ≡ regrouped ((slot, g) ∷ groups) (look tree t) k
  unfolding Dict.get
  regrouped-cons slot g groups es t f k n e h = elim (Bool-cases (same slot (key_path tree k))) [
    | inl i ↦
        let p : slot ≡ key_path tree k = eq_of_same slot (key_path tree k) i in
        let gone : Dict.get (key_path tree k) groups ≡ none =
          subst (λ x. Dict.get x groups ≡ none) p n in
        let here =
          subst (λ x. Dict.get k es ≡ amended (Dict.get k g) (Dict.get k (group_of (Dict.get x t))))
            p e in
        rw i (h ∙ rw (gone, look-set tree slot es t k, i) here)
    | inr i ↦ rw i (h ∙ rw (look-set tree slot es t k, i) refl)
  ]

  groups_ok :
      (f : Key → Option V) (changes : Changes V)
      → Unique changes
      → Deletes f changes
      → All (GroupOk f) (group_into tree [] changes)
  groups_ok f changes u d =
      All-mono (λ g. g.1 ≡ select (path_is tree g.0) changes) (GroupOk f)
        (group_into tree [] changes)
        (λ g e.
          subst (λ x. GroupOk f (g.0, x)) (sym e)
            (
              select-path tree g.0 changes,
              select-Unique tree g.0 changes u,
              select-Deletes tree g.0 f changes d,
            ))
        (groups-members tree changes)

module _ {V : Type 0} (codec : Codec V) (tree : TreeName) where
  update_children_lem :
      (groups : List (Text × Changes V)) (cs : List (Text × TreeRef)) (t : Shape V) (w : Writer V)
      → Bounded w
      → Held codec tree w.frames cs t
      → Unique cs
      → Unique groups
      → All (GroupOk tree (look tree t)) groups
      → (cs' : List (Text × TreeRef)) × (t' : Shape V) × (w' : Writer V) × (update_children codec
            tree groups cs w
          ≡ (ok cs', w'))
        × Grown w w'
        × Held codec tree w'.frames cs' t'
        × Unique cs'
        × ((k : Key) → look tree t' k ≡ regrouped tree groups (look tree t) k)
  unfolding update_children steps
  update_children_lem [] cs t w b h u n ok_groups = (
    cs,
    t,
    w,
    refl,
    record { bounded = b; extends = Extends-refl w.frames },
    h,
    u,
    λ k.
        let gone = get-nil {A = Changes V} (key_path tree k) in
        let absent = get-nil {A = Option V} k in rw (gone, absent) refl,
  )
  update_children_lem ((slot, g) ∷ groups) cs t w b h u n ok_groups =
      let old = group_of (Dict.get slot t) in
      let here : Deletes (λ k. Dict.get k old) g =
        Deletes-where tree slot (look tree t) (λ k. Dict.get k old) g
          (λ k p. ap (λ x. Dict.get k (group_of (Dict.get x t))) (sym p)) ok_groups.0.0
          ok_groups.0.2 in
      let (ref, es, w1, run, grown, shard, read) =
        update_leaf_lem codec tree slot (Dict.get slot cs) old g w b
          (Held-get codec tree w.frames slot cs t h) ok_groups.0.1 ok_groups.0.0 here in
      let t1 = set_entries slot es t in
      let cs1 = set_child slot ref cs in
      let held1 =
        Held-set codec tree w1.frames slot ref es cs t shard
          (Held-Extends codec tree w.frames w1.frames cs t grown.extends h) in
      let others =
        GroupOk-others tree slot (look tree t) (look tree t1) groups n.0
          (λ k e. look-set tree slot es t k ∙ rw e refl) ok_groups.1 in
      let (cs', t', w', run', grown', held', unique', read') =
        update_children_lem groups cs1 t1 w1 grown.bounded held1 (set_child-Unique slot ref cs u)
          n.1 others in
      (
        cs',
        t',
        w',
        rw run run',
        Grown-trans w w1 w' grown grown',
        held',
        unique',
        λ k. regrouped-cons tree slot g groups es t (look tree t') k n.0 (read k) (read' k),
      )

  load_branch_lem :
      (root : Option TreeRef) (t : Shape V) (w : Writer V)
      → TreeAt codec tree w.frames root t
      → (cs : List (Text × TreeRef)) × (w' : Writer V) × (load_branch root w ≡ (ok cs, w'))
        × (w'.frames ≡ w.frames)
        × (w'.position ≡ w.position)
        × Held codec tree w.frames cs t
        × Unique cs
  unfolding load_branch steps
  load_branch_lem none t w h =
      ([], w, refl, refl, refl, subst (λ x. Held codec tree w.frames [] x) (sym h) tt, tt)
  load_branch_lem (some ref) t w h =
      let at = h.0 in
      let unique = Dict.Ascends-Unique at.children at.ascends in
      (
        at.children,
        read_once w,
        rw (read_page_found ref w at.found, record_map-Unique at.children unique) refl,
        refl,
        refl,
        at.held,
        unique,
      )

  nonempty_of_Held :
      (w : Writer V) (c : Text × TreeRef) (cs : List (Text × TreeRef)) (t : Shape V)
      → Held codec tree w.frames (c ∷ cs) t
      → t ≢ []
  nonempty_of_Held w c cs [] h = absurd h
  nonempty_of_Held w c cs (s ∷ t) h = cc

  empty_of_Held : (w : Writer V) (t : Shape V) → Held codec tree w.frames [] t → t ≡ []
  empty_of_Held w [] h = refl
  empty_of_Held w (s ∷ t) h = absurd h

  sort-ne-nil : (t : Shape V) → t ≢ [] → Dict.sort t ≢ []
  unfolding Dict.sort
  sort-ne-nil [] h = absurd (h refl)
  sort-ne-nil (s ∷ t) h = place-ne-nil s (Dict.sort t)

  write_branch_lem :
      (cs : List (Text × TreeRef)) (t : Shape V) (w : Writer V)
      → Bounded w
      → Held codec tree w.frames cs t
      → Unique cs
      → (root : Option TreeRef) × (w' : Writer V) × (write_branch codec tree cs w ≡ (ok root, w'))
        × Grown w w'
        × TreeAt codec tree w'.frames root (Dict.sort t)
  unfolding write_branch steps
  write_branch_lem [] t w b h u = (
    none,
    w,
    refl,
    record { bounded = b; extends = Extends-refl w.frames },
    subst (λ x. Dict.sort x ≡ []) (sym (empty_of_Held w t h)) (unfold Dict.sort in refl),
  )
  write_branch_lem (c ∷ cs) t w b h u =
      let ordered = Dict.sort (c ∷ cs) in
      let l = branch_logical tree ordered in
      let grown = after-Grown codec tree l (branch ordered) w b in
      (
        some (ref_for codec tree l w),
        after codec tree l (branch ordered) w,
        write_page_lem codec tree l (branch ordered) w,
        grown,
        (
          record {
            children = ordered;
            found = find_page-after codec tree l (branch ordered) w b;
            hashed = refl;
            counted = refl;
            held =
                Held-Extends codec tree w.frames _ ordered (Dict.sort t) grown.extends
                  (Held-sort codec tree w.frames (c ∷ cs) t h);
            ascends = Dict.sort-Ascends (c ∷ cs) u;
          },
          sort-ne-nil t (nonempty_of_Held w c cs t h),
        ),
      )

  -- A change of records that deletes only what is there succeeds: the new root holds each key as
  -- the changes leave it, and every earlier page stays.
  pub apply_lem :
      (root : Option TreeRef) (t : Shape V) (changes : Changes V) (w : Writer V)
      → Bounded w
      → TreeAt codec tree w.frames root t
      → Unique changes
      → Deletes (look tree t) changes
      → (root' : Option TreeRef) × (t' : Shape V) × (w' : Writer V) × (apply codec tree root changes
            w
          ≡ (ok root', w'))
        × Grown w w'
        × TreeAt codec tree w'.frames root' t'
        × ((k : Key) → look tree t' k ≡ amended (Dict.get k changes) (look tree t k))
  unfolding apply update_branch steps
  apply_lem root t [] w b h u d = (
    root,
    t,
    w,
    refl,
    record { bounded = b; extends = Extends-refl w.frames },
    h,
    λ k. let absent = get-nil {A = Option V} k in rw absent refl,
  )
  apply_lem root t (c ∷ changes) w b h u d =
      let groups = group_into tree [] (c ∷ changes) in
      let (cs, w1, loaded, same_frames, same_position, held, unique) = load_branch_lem root t w h in
      let b1 : Bounded w1 = rw (same_frames, same_position) b in
      let held1 = subst (λ x. Held codec tree x cs t) (sym same_frames) held in
      let (cs', t', w2, run, grown, held', unique', read) =
        update_children_lem groups cs t w1 b1 held1 unique (groups-Unique tree (c ∷ changes))
          (groups_ok tree (look tree t) (c ∷ changes) u d) in
      let (root', w', wrote, grown', at) = write_branch_lem cs' t' w2 grown.bounded held' unique' in
      let all_grown = Grown-trans w1 w2 w' grown grown' in
      (
        root',
        Dict.sort t',
        w',
        rw (loaded, run, wrote) refl,
        record {
          bounded = all_grown.bounded;
          extends = subst (λ x. Extends x w'.frames) same_frames all_grown.extends;
        },
        at,
        λ k.
            ap (λ x. Dict.get k (group_of x)) (Dict.get-sort (key_path tree k) t')
            ∙ read k
            ∙ ap (λ x. amended x (look tree t k))
                (ap (Dict.get k) (groups-select tree (c ∷ changes) (key_path tree k))
                  ∙ get-select tree k (key_path tree k) (c ∷ changes) refl),
      )
