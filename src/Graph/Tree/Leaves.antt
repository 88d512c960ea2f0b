-- ===== src/Graph/Tree/Leaves.antt =====
-- A leaf of a tree before and after `_update` of gh_puller/codebase/archive.py.
use gh_puller.Archive.Action.{ok, steps}
use gh_puller.Base.{
  All, All-append, All-mono, Extends, Extends-append, Extends-refl, List, Option, [], all, arith,
  false, find, find-append_none, none, refl, some, subst, sym, true, ◌+◌, ◌++◌, ◌<◌, ◌∷◌, ◌≡◌, ◌≢◌,
  ◌∙◌, ap, nat_instance, find-none_of_All, append_assoc, beq_refl, text_instance,
}
use gh_puller.Ordered.Dict
use gh_puller.Ordered.Dict.{Ascends, Sortable, Unique}
use gh_puller.Graph.Keys.{Key, TreeName, key_path}
use gh_puller.Graph.Pages.{
  Body, Codec, Frame, Logical, Page, TreeRef, Writer, append, find_page, frame_at, header_size,
  key_sortable, leaf, read_page, store_page, text_sortable,
}
use gh_puller.Ordered.Texts.{Text, points_instance, text_eq_iff}
use gh_puller.Graph.Tree.{
  Changes, apply_changes, in_shard, load_leaf, update_leaf, write_leaf, write_page, leaf_logical,
}
use gh_puller.Graph.Tree.Items.{Deletes, amended, apply_changes_lem, record_map-Unique}
use gh_puller.Graph.Tree.Shape.{Bounded, Shard}

module _ {K : Type 0} {A : Type 0} ⦃o : Sortable K⦄ where
  pub place-ne-nil : (e : K × A) (d : List (K × A)) → Dict.place e d ≢ []
  unfolding Dict.place
  place-ne-nil (k, v) [] = cc
  place-ne-nil (k, v) ((j, w) ∷ d) = ground arith

module _ {V : Type 0} where
  -- The file only grows, and its frames stay before its end.
  pub record Grown (old new : Writer V) : Type 0 where
    pub bounded : Bounded new
    pub extends : Extends old.frames new.frames

  pub Grown-trans : (a b c : Writer V) → Grown a b → Grown b c → Grown a c
  Grown-trans a b c g h = record {
    bounded = h.bounded;
    extends =
        let (m, e) = g.extends in
        let (n, f) = h.extends in (m ++ n, f ∙ ap (λ x. x ++ n) e ∙ append_assoc a.frames m n);
  }

  -- A page has been read.
  abbrev pub read_once : Writer V → Writer V
  read_once w = record w { pages_read = w.pages_read + 1 }

  pub read_page_found :
      (ref : TreeRef) (w : Writer V) {p : Page V}
      → find_page w.frames ref ≡ some p
      → read_page ref w ≡ (ok p, read_once w)
  unfolding read_page steps
  read_page_found ref w h = rw h refl

module _ {V : Type 0} (codec : Codec V) (tree : TreeName) where
  abbrev pub ref_for : Logical V → Writer V → TreeRef
  ref_for l w = record { offset = w.position; logical_hash = codec.digest l; count = l.count }

  abbrev pub page_for : Logical V → Body V → Page V
  page_for l body = record {
    tree = l.tree;
    depth = l.depth;
    body = body;
    logical_hash = codec.digest l;
    count = l.count;
  }

  abbrev pub after : Logical V → Body V → Writer V → Writer V
  after l body w = record w {
    frames = w.frames ++ (record { offset = w.position; page = some (page_for l body) }) ∷ [];
    position = w.position + header_size + codec.compressed_len (page_for l body);
    pages_written = w.pages_written + 1;
  }

  pub write_page_lem :
      (l : Logical V) (body : Body V) (w : Writer V)
      → write_page codec tree l body w ≡ (ok (some (ref_for l w)), after l body w)
  unfolding store_page append steps
  write_page_lem l body w = refl

  pub find_page-after :
      (l : Logical V) (body : Body V) (w : Writer V)
      → Bounded w
      → find_page (after l body w).frames (ref_for l w) ≡ some (page_for l body)
  unfolding find_page
  find_page-after l body w b =
      let fresh = find-none_of_All (frame_at w.position) w.frames (
        All-mono (λ f. f.offset < w.position) (λ f. frame_at w.position f ≡ false) w.frames
          (λ f h. ground arith) b) in
      let new : Frame V = record { offset = w.position; page = some (page_for l body) } in
      let found : find (frame_at w.position) (w.frames ++ new ∷ []) ≡ some new =
        find-append_none (frame_at w.position) w.frames (new ∷ []) fresh
        ∙ rw (beq_refl w.position) refl in
      rw (found, find_page)
        (rw ((text_eq_iff (codec.digest l) (codec.digest l)).1 refl, beq_refl l.count) refl)

  pub after-Grown :
      (l : Logical V) (body : Body V) (w : Writer V) → Bounded w → Grown w (after l body w)
  after-Grown l body w b = record {
    bounded =
        All-append (λ f. f.offset < (after l body w).position) w.frames _
          (All-mono (λ f. f.offset < w.position) (λ f. f.offset < (after l body w).position)
            w.frames (λ f h. omega arith) b)
          (omega arith, tt);
    extends = Extends-append w.frames w.frames _ (Extends-refl w.frames);
  }

  pub all-in_shard :
      (slot : Text) (es : List (Key × V))
      → All (λ e. key_path tree e.0 ≡ slot) es
      → all (in_shard tree slot) es ≡ true
  all-in_shard slot [] h = refl
  all-in_shard slot (e ∷ es) h =
      rw ((text_eq_iff (key_path tree e.0) slot).1 h.0) (all-in_shard slot es h.1)

  load_leaf_lem :
      (slot : Text) (ref : Option TreeRef) (es : List (Key × V)) (w : Writer V)
      → Shard codec tree w.frames slot ref es
      → (w' : Writer V) × (load_leaf tree slot ref w ≡ (ok es, w'))
        × (w'.frames ≡ w.frames)
        × (w'.position ≡ w.position)
  unfolding load_leaf steps
  load_leaf_lem slot none es w l = (w, ap (λ x. (ok x, w)) (sym l), refl, refl)
  load_leaf_lem slot (some ref) es w l =
      let map_lem = record_map-Unique es (Dict.Ascends-Unique es l.ascends) in
      (
        read_once w,
        rw (read_page_found ref w l.found, map_lem, all-in_shard slot es l.inside) refl,
        refl,
        refl,
      )

  sort-ne-nil : (e : Key × V) (d : List (Key × V)) → Dict.sort (e ∷ d) ≢ []
  unfolding Dict.sort
  sort-ne-nil e d = place-ne-nil e (Dict.sort d)

  write_leaf_lem :
      (slot : Text) (d : List (Key × V)) (w : Writer V)
      → Bounded w
      → Unique d
      → All (λ e. key_path tree e.0 ≡ slot) d
      → (ref : Option TreeRef) × (w' : Writer V) × (write_leaf codec tree d w ≡ (ok ref, w'))
        × Grown w w'
        × Shard codec tree w'.frames slot ref (Dict.sort d)
  unfolding write_leaf Dict.sort steps
  write_leaf_lem slot [] w b u h =
      (none, w, refl, record { bounded = b; extends = Extends-refl w.frames }, refl)
  write_leaf_lem slot (e ∷ d) w b u h =
      let ordered = Dict.sort (e ∷ d) in
      let l = leaf_logical tree ordered in
      (
        some (ref_for l w),
        after l (leaf ordered) w,
        write_page_lem l (leaf ordered) w,
        after-Grown l (leaf ordered) w b,
        record {
          found = find_page-after l (leaf ordered) w b;
          hashed = refl;
          counted = refl;
          ascends = Dict.sort-Ascends (e ∷ d) u;
          inside = Dict.All-sort (λ x. key_path tree x.0 ≡ slot) (e ∷ d) h;
          nonempty = sort-ne-nil e d;
        },
      )

  apply_changes-inside :
      (slot : Text) (changes : Changes V) (d d' : List (Key × V))
      → apply_changes changes d ≡ ok d'
      → All (λ c. key_path tree c.0 ≡ slot) changes
      → All (λ e. key_path tree e.0 ≡ slot) d
      → All (λ e. key_path tree e.0 ≡ slot) d'
  unfolding apply_changes
  apply_changes-inside slot [] d d' run c h =
      let e : d ≡ d' = cc in subst (λ x. All (λ y. key_path tree y.0 ≡ slot) x) e h
  apply_changes-inside slot ((j, some v) ∷ changes) d d' run c h =
      apply_changes-inside slot changes (Dict.put j v d) d' run c.1 (
        Dict.All-put (λ e. key_path tree e.0 ≡ slot) j v d
          (λ i s. ap (key_path tree) (Dict.eq_of_same i j s) ∙ c.0) h)
  apply_changes-inside slot ((j, none) ∷ changes) d d' run c h =
      apply_changes-inside slot changes (Dict.remove j d) d' (ground arith) c.1
        (Dict.All-remove (λ e. key_path tree e.0 ≡ slot) j d h)

  pub Shard-facts :
      (frames : List (Frame V)) (slot : Text) (ref : Option TreeRef) (es : List (Key × V))
      → Shard codec tree frames slot ref es
      → Unique es × All (λ e. key_path tree e.0 ≡ slot) es
  Shard-facts frames slot none es l =
      subst (λ x. Unique x × All (λ e. key_path tree e.0 ≡ slot) x) (sym l) (tt, tt)
  Shard-facts frames slot (some ref) es l = (Dict.Ascends-Unique es l.ascends, l.inside)

  -- `_update` of a leaf whose shard holds `es`.
  pub update_leaf_lem :
      (slot : Text) (ref : Option TreeRef) (es : List (Key × V)) (changes : Changes V)
      (w : Writer V)
      → Bounded w
      → Shard codec tree w.frames slot ref es
      → Unique changes
      → All (λ c. key_path tree c.0 ≡ slot) changes
      → Deletes (λ k. Dict.get k es) changes
      → (ref' : Option TreeRef) × (es' : List (Key × V)) × (w' : Writer V) × (update_leaf codec tree
            ref slot changes w
          ≡ (ok ref', w'))
        × Grown w w'
        × Shard codec tree w'.frames slot ref' es'
        × ((k : Key) → Dict.get k es' ≡ amended (Dict.get k changes) (Dict.get k es))
  unfolding update_leaf steps
  update_leaf_lem slot ref es changes w b l u c d =
      let (unique, inside) = Shard-facts w.frames slot ref es l in
      let (w1, loaded, same_frames, same_position) = load_leaf_lem slot ref es w l in
      let (es1, run, unique1, read) = apply_changes_lem changes es u unique d in
      let inside1 = apply_changes-inside slot changes es es1 run c inside in
      let b1 : Bounded w1 = rw (same_frames, same_position) b in
      let (ref', w', wrote, grown, shard) = write_leaf_lem slot es1 w1 b1 unique1 inside1 in
      (
        ref',
        Dict.sort es1,
        w',
        rw (loaded, run, wrote) refl,
        record {
          bounded = grown.bounded;
          extends = subst (λ x. Extends x w'.frames) same_frames grown.extends;
        },
        shard,
        λ k. Dict.get-sort k es1 ∙ read k,
      )
