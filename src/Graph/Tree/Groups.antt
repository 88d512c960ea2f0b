-- ===== src/Graph/Tree/Groups.antt =====
-- The grouping of changes by shard in `_update` of gh_puller/codebase/archive.py.
use gh_puller.Base.{
  All, All-mono, Bool, Bool-cases, List, Option, [], append-nil, append_assoc, arith, false,
  if◌then◌else◌, inl, inr, none, refl, select, some, sym, ◌++◌, ◌∷◌, ◌≡◌, ◌∙◌, ap,
}
use gh_puller.Ordered.Dict
use gh_puller.Ordered.Dict.{Sortable, Unique, eq_of_same, same, same_refl}
use gh_puller.Graph.Keys.{Key, TreeName, key_path}
use gh_puller.Graph.Pages.{key_sortable, text_sortable}
use gh_puller.Ordered.Texts.{Text, points_instance, text_eq, text_eq_iff}
use gh_puller.Graph.Tree.{Changes, group_into, group_of}
use gh_puller.Graph.Tree.Items.{All-get, Deletes, get-nil}

module _ {V : Type 0} (tree : TreeName) where
  abbrev pub path_is : Text → Key × Option V → Bool
  path_is slot c = text_eq (key_path tree c.0) slot

  group_into-select :
      (grouped : List (Text × Changes V)) (changes : Changes V) (slot : Text)
      → group_of (Dict.get slot (group_into tree grouped changes))
        ≡ group_of (Dict.get slot grouped) ++ select (path_is slot) changes
  unfolding group_into
  group_into-select grouped [] slot = sym (append-nil _)
  group_into-select grouped (c ∷ changes) slot =
      let here = key_path tree c.0 in
      let grown = Dict.put here (group_of (Dict.get here grouped) ++ c ∷ []) grouped in
      let e = Dict.get-put slot here (group_of (Dict.get here grouped) ++ c ∷ []) grouped in
      group_into-select grown changes slot ∙ elim (Bool-cases (text_eq here slot)) [
        | inl i ↦
            let p : here ≡ slot = (text_eq_iff here slot).0 i in
            let q = ap (λ x. group_of (Dict.get x grouped)) p in
            rw (e, i, q) (append_assoc _ (c ∷ []) _)
        | inr i ↦ rw (e, i) refl
      ]

  group_into-Unique :
      (grouped : List (Text × Changes V)) (changes : Changes V)
      → Unique grouped
      → Unique (group_into tree grouped changes)
  unfolding group_into
  group_into-Unique grouped [] u = u
  group_into-Unique grouped (c ∷ changes) u =
      let slot = key_path tree c.0 in
      let group = group_of (Dict.get slot grouped) ++ c ∷ [] in
      group_into-Unique (Dict.put slot group grouped) changes (Dict.put-Unique slot group grouped u)

  pub groups-Unique : (changes : Changes V) → Unique (group_into tree [] changes)
  groups-Unique changes = group_into-Unique [] changes tt

  pub groups-select :
      (changes : Changes V) (slot : Text)
      → group_of (Dict.get slot (group_into tree [] changes)) ≡ select (path_is slot) changes
  groups-select changes slot =
      group_into-select [] changes slot
      ∙ ap (λ x. group_of x ++ select (path_is slot) changes) (get-nil slot)

  -- Each group holds the changes of its shard, in their order.
  pub groups-members :
      (changes : Changes V)
      → All (λ g. g.1 ≡ select (path_is g.0) changes) (group_into tree [] changes)
  groups-members changes =
      All-mono (λ g. Dict.get g.0 (group_into tree [] changes) ≡ some g.1)
        (λ g. g.1 ≡ select (path_is g.0) changes) (group_into tree [] changes)
        (λ g e. sym (ap group_of e) ∙ groups-select changes g.0)
        (All-get (group_into tree [] changes) (groups-Unique changes))

  pub get-select :
      (k : Key) (slot : Text) (changes : Changes V)
      → key_path tree k ≡ slot
      → Dict.get k (select (path_is slot) changes) ≡ Dict.get k changes
  unfolding Dict.get
  get-select k slot [] e = refl
  get-select k slot ((j, v) ∷ changes) e = elim (Bool-cases (path_is slot (j, v))) [
    | inl i ↦ rw i (ap (λ x. if same j k then some v else x) (get-select k slot changes e))
    | inr i ↦
        let apart : same j k ≡ false = elim (Bool-cases (same j k)) [
          | inl s ↦
              let p : key_path tree j ≡ slot = ap (key_path tree) (eq_of_same j k s) ∙ e in
              let t = (text_eq_iff (key_path tree j) slot).1 p in absurd (cc)
          | inr s ↦ s
        ] in
        rw (i, apart) (get-select k slot changes e)
  ]

  get-select-none :
      (k : Key) (slot : Text) (changes : Changes V)
      → Dict.get k changes ≡ none
      → Dict.get k (select (path_is slot) changes) ≡ none
  unfolding Dict.get
  get-select-none k slot [] e = refl
  get-select-none k slot ((j, v) ∷ changes) e = ground (arith, get-select-none k slot changes)

  pub select-Unique :
      (slot : Text) (changes : Changes V) → Unique changes → Unique (select (path_is slot) changes)
  select-Unique slot [] u = tt
  select-Unique slot ((j, v) ∷ changes) u = elim (Bool-cases (path_is slot (j, v))) [
    | inl i ↦ rw i (get-select-none j slot changes u.0, select-Unique slot changes u.1)
    | inr i ↦ rw i (select-Unique slot changes u.1)
  ]

  pub select-path :
      (slot : Text) (changes : Changes V)
      → All (λ c. key_path tree c.0 ≡ slot) (select (path_is slot) changes)
  select-path slot [] = tt
  select-path slot (c ∷ changes) = elim (Bool-cases (path_is slot c)) [
    | inl i ↦ rw i ((text_eq_iff (key_path tree c.0) slot).0 i, select-path slot changes)
    | inr i ↦ rw i (select-path slot changes)
  ]

  pub select-Deletes :
      (slot : Text) (bound : Key → Option V) (changes : Changes V)
      → Deletes bound changes
      → Deletes bound (select (path_is slot) changes)
  select-Deletes slot bound [] h = tt
  select-Deletes slot bound (c ∷ changes) h = elim (Bool-cases (path_is slot c)) [
    | inl i ↦ rw i (h.0, select-Deletes slot bound changes h.1)
    | inr i ↦ rw i (select-Deletes slot bound changes h.1)
  ]
