-- ===== src/Graph/Examples.antt =====
-- Runs of the trees of gh_puller/codebase/archive.py.
use gh_puller.Archive.Action.{Result, ok, raise, steps}
use gh_puller.Base.{
  List, Option, String, [], arith, codes, none, refl, some, subst₂, sym, ℕ, ◌∷◌, ◌≡◌, ap,
}
use gh_puller.Ordered.Dict
use gh_puller.Graph.Keys.{Key, key_bytes, key_path, name, nodes}
use gh_puller.Graph.Pages.{Codec, TreeRef, Writer, append, find_page, read_page, store_page}
use gh_puller.Graph.Reader.{read_children, records, typed_page, update_all}
use gh_puller.Graph.Reader.Digest.{count_of, hash_of, hash_of-records}
use gh_puller.Graph.Reader.Records.{Applied, Built, IsRoot, apply-records, build-records}
use gh_puller.Ordered.Texts.{before, escape}
use gh_puller.Graph.Tree.{
  Changes, apply, apply_changes, build, group_into, load_branch, load_leaf, record_map,
  update_branch, update_children, update_leaf, write_branch, write_leaf,
}

abbrev codec : Codec ℕ
codec = record { digest = λ l. l.count ∷ []; compressed_len = λ p. 10 }

-- A file with its magic bytes.
abbrev empty : Writer ℕ
empty = record { frames = []; position = 8; pages_read = 0; pages_written = 0 }

abbrev key : String → Key
key s = name (codes s)

abbrev added : List (Key × ℕ)
added = (key "p.m.c.f", 1) ∷ (key "p.m.c.g", 2) ∷ (key "p.n", 3) ∷ []

abbrev additions : Changes ℕ
additions = (key "p.n", some 3) ∷ (key "p.m.c.g", some 2) ∷ (key "p.m.c.f", some 1) ∷ []

abbrev removals : Changes ℕ
removals = (key "p.n", none) ∷ (key "p.m.c.f", some 7) ∷ []

-- To compute with the trees, a test unfolds this name.
runs : Unit {0}
unfolding steps Dict.get Dict.put Dict.remove Dict.place Dict.sort before escape key_bytes key_path
    find_page read_page append store_page record_map apply_changes load_leaf load_branch group_into
    write_leaf write_branch update_leaf update_children update_branch apply build typed_page
    update_all read_children records
runs = tt

abbrev root_of : Result (Option TreeRef) × Writer ℕ → Option TreeRef
root_of (ok r, w) = r
root_of (raise e, w) = none

abbrev first : Result (Option TreeRef) × Writer ℕ
first = apply codec nodes none additions empty

abbrev second : Result (Option TreeRef) × Writer ℕ
second = apply codec nodes (root_of first) removals first.1

empty-IsRoot : IsRoot codec nodes empty none
empty-IsRoot = record { bounded = tt; shape = []; at = refl }

first_read : records nodes (root_of first) first.1.frames ≡ (ok added, first.1.frames)
unfolding runs
first_read = refl

second_read :
    records nodes (root_of second) second.1.frames
    ≡ (ok ((key "p.m.c.f", 7) ∷ (key "p.m.c.g", 2) ∷ []), second.1.frames)
unfolding runs
second_read = refl

applied : Applied codec nodes none additions empty []
unfolding runs
applied =
    apply-records codec nodes none additions empty [] empty-IsRoot refl (ground arith)
      (ground arith)

first-IsRoot : IsRoot codec nodes first.1 (root_of first)
first-IsRoot =
    subst₂ (λ w r. IsRoot codec nodes w r) (sym (ap (λ x. x.1) applied.3))
      (sym (ap root_of applied.3)) applied.4

apply-records_example : Applied codec nodes (root_of first) removals first.1 added
unfolding runs
apply-records_example =
    apply-records codec nodes (root_of first) removals first.1 added first-IsRoot first_read
      (ground arith) (ground arith)

build-records_example : Built codec nodes added empty
unfolding runs
build-records_example = build-records codec nodes added empty tt (ground arith)

abbrev left : List (Key × ℕ)
left = (key "p.m.c.f", 7) ∷ (key "p.m.c.g", 2) ∷ []

-- The records that are left, built from scratch in another order.
abbrev rebuilt : Result (Option TreeRef) × Writer ℕ
rebuilt = build codec nodes ((key "p.m.c.g", 2) ∷ (key "p.m.c.f", 7) ∷ []) empty

rebuilt_read : records nodes (root_of rebuilt) rebuilt.1.frames ≡ (ok left, rebuilt.1.frames)
unfolding runs
rebuilt_read = refl

second-IsRoot : IsRoot codec nodes second.1 (root_of second)
second-IsRoot =
    subst₂ (λ w r. IsRoot codec nodes w r) (sym (ap (λ x. x.1) apply-records_example.3))
      (sym (ap root_of apply-records_example.3)) apply-records_example.4

rebuilt_lem : Built codec nodes ((key "p.m.c.g", 2) ∷ (key "p.m.c.f", 7) ∷ []) empty
unfolding runs
rebuilt_lem =
    build-records codec nodes ((key "p.m.c.g", 2) ∷ (key "p.m.c.f", 7) ∷ []) empty tt (ground arith)

rebuilt-IsRoot : IsRoot codec nodes rebuilt.1 (root_of rebuilt)
rebuilt-IsRoot =
    subst₂ (λ w r. IsRoot codec nodes w r) (sym (ap (λ x. x.1) rebuilt_lem.3))
      (sym (ap root_of rebuilt_lem.3)) rebuilt_lem.4

hash_of-records_example :
    (hash_of (root_of second) ≡ hash_of (root_of rebuilt))
    × (count_of (root_of second) ≡ count_of (root_of rebuilt))
hash_of-records_example =
    hash_of-records codec nodes second.1 rebuilt.1 (root_of second) (root_of rebuilt) left left
      second-IsRoot rebuilt-IsRoot second_read rebuilt_read (λ k. refl)
