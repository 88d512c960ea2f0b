-- ===== src/Graph/Reader.antt =====
-- `_typed_page` and `_records` of gh_puller/codebase/archive.py: the records under a root.
pub mod Records
pub mod Digest
use gh_puller.Archive.Action.{Action, Error, gets, guard, lift, or_raise, pure, raise, ◌>>=◌, ◌>>◌}
use gh_puller.Base.{
  Bool, List, Option, [], all, any, false, is_none, nat_instance, none, not, some, true, ◌==◌, ◌∷◌,
}
use gh_puller.Ordered.Dict
use gh_puller.Graph.Keys.{Key, TreeName, coverage, edges, nodes}
use gh_puller.Graph.Pages.{
  Body, Frame, Page, TreeRef, branch, find_page, key_sortable, leaf, text_sortable,
}
use gh_puller.Ordered.Texts.{Text}
use gh_puller.Graph.Tree.{in_shard, record_map}

abbrev pub same_tree : TreeName → TreeName → Bool
same_tree nodes nodes = true
same_tree edges edges = true
same_tree coverage coverage = true
same_tree _ _ = false

module _ {V : Type 0} where
  -- `_typed_page`.
  unfoldable pub typed_page : TreeName → TreeRef → Action (List (Frame V)) (Page V)
  typed_page tree ref = do
    frames ← gets λ fs. fs
    page ← or_raise (find_page frames ref) Error.archive_error
    guard (same_tree page.tree tree) Error.archive_error
    pure page

  abbrev pub shared : List (Key × V) → List (Key × V) → Bool
  shared d es = any (λ e. not (is_none (Dict.get e.0 d))) es

  -- `records.update(entries)`.
  unfoldable pub update_all : List (Key × V) → List (Key × V) → List (Key × V)
  update_all [] d = d
  update_all ((k, v) ∷ es) d = update_all es (Dict.put k v d)

  abbrev pub leaf_records : TreeName → Text → Page V → Action (List (Frame V)) (List (Key × V))
  leaf_records tree slot page = elim page.body [
    | branch cs ↦ lift (raise Error.archive_error)
    | leaf es ↦ do
      guard (page.depth == 1) Error.archive_error
      d ← lift (record_map [] es)
      guard (all (in_shard tree slot) d) Error.archive_error
      pure d
  ]

  abbrev pub root_children : Page V → Action (List (Frame V)) (List (Text × TreeRef))
  root_children page = elim page.body [
    | leaf es ↦ lift (raise Error.archive_error)
    | branch cs ↦ do guard (page.depth == 0) Error.archive_error; lift (record_map [] cs)
  ]

  unfoldable pub read_children :
      TreeName → List (Text × TreeRef) → List (Key × V) → Action (List (Frame V)) (List (Key × V))
  read_children tree [] d = pure d
  read_children tree ((slot, ref) ∷ cs) d = do
    page ← typed_page tree ref
    es ← leaf_records tree slot page
    guard (not (shared d es)) Error.archive_error
    read_children tree cs (update_all es d)

  -- `_records`.
  unfoldable pub records : TreeName → Option TreeRef → Action (List (Frame V)) (List (Key × V))
  records tree none = pure []
  records tree (some root) = do
    page ← typed_page tree root
    cs ← root_children page
    read_children tree cs []
