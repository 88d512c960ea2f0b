-- ===== src/Graph/Tree.antt =====
-- `RadixTree` of gh_puller/codebase/archive.py, whose `TRIE_DEPTH` is 1: one branch page of leaf
-- pages, one for each shard.
use gh_puller.Archive.Action.{
  Action, Error, Result, guard, lift, modify, ok, or_raise, pure, raise, ◌>>=◌, ◌>>◌,
}
pub mod Items
pub mod Groups
pub mod Shape
pub mod Leaves
pub mod Update
use gh_puller.Base.{
  Bool, Comparable, List, Option, [], all, false, if◌then◌else◌, length, map, none, some, true, ℕ,
  ◌+◌, ◌++◌, ◌==◌, ◌∷◌, is_none, not, nat_instance,
}
use gh_puller.Ordered.Dict
use gh_puller.Ordered.Dict.{Sortable}
use gh_puller.Graph.Keys.{Key, TreeName, key_path}
use gh_puller.Graph.Pages.{
  Body, Codec, Content, Frame, Logical, Page, TreeRef, Writer, branch, children, entries, find_page,
  key_sortable, leaf, read_page, store_page, text_sortable,
}
use gh_puller.Ordered.Texts.{Text, points_instance, text_eq}

-- Changes to records: a new value, or `none` to delete.
abbrev pub Changes : Type 0 → Type 0
Changes V = List (Key × Option V)

-- `_record_map` after the items `result`.
unfoldable pub record_map :
    {K A : Type 0} ⦃o : Sortable K⦄ → List (K × A) → List (K × A) → Result (List (K × A))
record_map result [] = ok result
record_map result ((k, v) ∷ records) =
    let rest = record_map (Dict.put k v result) records in
    if is_none (Dict.get k result) then rest else raise Error.archive_error

abbrev pub total : List (Text × TreeRef) → ℕ
total [] = 0
total ((slot, r) ∷ cs) = r.count + total cs

abbrev pub named : Text × TreeRef → Text × Text × ℕ
named (slot, r) = (slot, r.logical_hash, r.count)

module _ {V : Type 0} where
  -- The loop of `_update` over the changes of a leaf.
  unfoldable pub apply_changes : Changes V → List (Key × V) → Result (List (Key × V))
  apply_changes [] d = ok d
  apply_changes ((k, some v) ∷ changes) d = apply_changes changes (Dict.put k v d)
  apply_changes ((k, none) ∷ changes) d =
      let rest = apply_changes changes (Dict.remove k d) in
      if is_none (Dict.get k d) then raise Error.archive_error else rest

  abbrev pub in_shard : TreeName → Text → Key × V → Bool
  in_shard tree shard e = text_eq (key_path tree e.0) shard

  abbrev pub leaf_entries : TreeName → Text → Body V → Action (Writer V) (List (Key × V))
  leaf_entries tree shard (branch cs) = λ w. (raise Error.archive_error, w)
  leaf_entries tree shard (leaf es) = do
    d ← lift (record_map [] es)
    guard (all (in_shard tree shard) d) Error.archive_error
    pure d

  -- The records of the leaf that is there.
  unfoldable pub load_leaf : TreeName → Text → Option TreeRef → Action (Writer V) (List (Key × V))
  load_leaf tree shard none = pure []
  load_leaf tree shard (some ref) = do page ← read_page ref; leaf_entries tree shard page.body

  abbrev pub branch_children : Body V → Action (Writer V) (List (Text × TreeRef))
  branch_children (leaf es) = λ w. (raise Error.archive_error, w)
  branch_children (branch cs) = lift (record_map [] cs)

  unfoldable pub load_branch : Option TreeRef → Action (Writer V) (List (Text × TreeRef))
  load_branch none = pure []
  load_branch (some ref) = do
    page ← read_page ref
    guard (page.depth == 0) Error.archive_error
    branch_children page.body

  abbrev pub leaf_logical : TreeName → List (Key × V) → Logical V
  leaf_logical tree es = record { tree = tree; depth = 1; count = length es; content = entries es }

  abbrev pub branch_logical : TreeName → List (Text × TreeRef) → Logical V
  branch_logical tree cs = record {
    tree = tree;
    depth = 0;
    count = total cs;
    content = children (map named cs);
  }

abbrev pub group_of : {A : Type 0} → Option (List A) → List A
group_of none = []
group_of (some g) = g

module _ {V : Type 0} where
  -- `grouped.setdefault(path[depth], []).append(change)` for each change.
  unfoldable pub group_into :
      TreeName → List (Text × Changes V) → Changes V → List (Text × Changes V)
  group_into tree grouped [] = grouped
  group_into tree grouped (c ∷ changes) =
      let slot = key_path tree c.0 in
      group_into tree (Dict.put slot (group_of (Dict.get slot grouped) ++ c ∷ []) grouped) changes

abbrev pub set_child : Text → Option TreeRef → List (Text × TreeRef) → List (Text × TreeRef)
set_child slot none cs = Dict.remove slot cs
set_child slot (some r) cs = Dict.put slot r cs

module _ {V : Type 0} (codec : Codec V) (tree : TreeName) where
  abbrev pub write_page : Logical V → Body V → Action (Writer V) (Option TreeRef)
  write_page l body = do
    modify λ w. record w { pages_written = w.pages_written + 1 }
    ref ← store_page codec l body
    pure (some ref)

  unfoldable pub write_leaf : List (Key × V) → Action (Writer V) (Option TreeRef)
  write_leaf [] = pure none
  write_leaf (e ∷ d) =
      let ordered = Dict.sort (e ∷ d) in write_page (leaf_logical tree ordered) (leaf ordered)

  unfoldable pub write_branch : List (Text × TreeRef) → Action (Writer V) (Option TreeRef)
  write_branch [] = pure none
  write_branch (c ∷ cs) =
      let ordered = Dict.sort (c ∷ cs) in write_page (branch_logical tree ordered) (branch ordered)

  -- `_update` of a leaf.
  unfoldable pub update_leaf :
      Option TreeRef → Text → Changes V → Action (Writer V) (Option TreeRef)
  update_leaf ref shard changes = do
    d ← load_leaf tree shard ref
    d' ← lift (apply_changes changes d)
    write_leaf d'

  unfoldable pub update_children :
      List (Text × Changes V) → List (Text × TreeRef) → Action (Writer V) (List (Text × TreeRef))
  update_children [] cs = pure cs
  update_children ((slot, group) ∷ groups) cs = do
    child ← update_leaf (Dict.get slot cs) slot group
    update_children groups (set_child slot child cs)

  -- `_update` of a branch.
  unfoldable pub update_branch : Option TreeRef → Changes V → Action (Writer V) (Option TreeRef)
  update_branch ref changes = do
    cs ← load_branch ref
    cs' ← update_children (group_into tree [] changes) cs
    write_branch cs'

  -- `apply`.
  unfoldable pub apply : Option TreeRef → Changes V → Action (Writer V) (Option TreeRef)
  apply root [] = pure root
  apply root (c ∷ changes) = update_branch root (c ∷ changes)

  -- `build`.
  unfoldable pub build : List (Key × V) → Action (Writer V) (Option TreeRef)
  build records = do d ← lift (record_map [] records); apply none (map (λ e. (e.0, some e.1)) d)
