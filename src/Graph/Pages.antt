-- ===== src/Graph/Pages.antt =====
-- The pages of gh_puller/codebase/archive.py and the frames that hold them.
use gh_puller.Archive.Action.{Action, Error, gets, modify, ok, or_raise, pure, ◌>>=◌, ◌>>◌}
use gh_puller.Base.{
  Bool, List, Option, [], false, if◌then◌else◌, none, some, ℕ, ◌+◌, ◌++◌, ◌==◌, ◌∷◌, nat_instance,
  find,
}
use gh_puller.Ordered.Dict.{Sortable}
use gh_puller.Graph.Keys.{Key, TreeName, key_bytes, key_bytes_inj, key_instance}
use gh_puller.Ordered.Texts.{Text, points_instance, text_eq}

-- `sorted(entries, key=_key_bytes)`.
instance abbrev pub key_sortable : Sortable Key
key_sortable = record {
  comparable = key_instance;
  sort_key = key_bytes;
  sort_key_inj = key_bytes_inj;
}

-- `sorted(children)`.
instance abbrev pub text_sortable : Sortable Text
text_sortable = record {
  comparable = points_instance;
  sort_key = λ t. t;
  sort_key_inj = λ s t h. h;
}

-- `TreeRef`.
pub record TreeRef : Type 0 where
  pub offset : ℕ
  pub logical_hash : Text
  pub count : ℕ

-- The members `kind`, and `entries` or `children`, of a page's payload.
pub data Body (V : Type 0) : Type 0 where
  leaf : List (Key × V) → Body V
  branch : List (Text × TreeRef) → Body V

pub record Page (V : Type 0) : Type 0 where
  pub tree : TreeName
  pub depth : ℕ
  pub body : Body V
  pub logical_hash : Text
  pub count : ℕ

-- What is hashed: a branch names its children by their hash and count, not by their place.
pub data Content (V : Type 0) : Type 0 where
  entries : List (Key × V) → Content V
  children : List (Text × Text × ℕ) → Content V

pub record Logical (V : Type 0) : Type 0 where
  pub tree : TreeName
  pub depth : ℕ
  pub count : ℕ
  pub content : Content V

-- `FrameInfo` with what the frame holds; `none` stands for a commit or an index.
pub record Frame (V : Type 0) : Type 0 where
  pub offset : ℕ
  pub page : Option (Page V)

-- `ArchiveWriter`, and the counters of the `RadixTree` at work on it. `position` is where the
-- file ends.
pub record Writer (V : Type 0) : Type 0 where
  pub frames : List (Frame V)
  pub position : ℕ
  pub pages_read : ℕ
  pub pages_written : ℕ

-- SHA-256 of the canonical JSON of a page's logical content, and the bytes of a compressed page.
pub record Codec (V : Type 0) : Type 0 where
  pub digest : Logical V → Text
  pub compressed_len : Page V → ℕ

-- `FRAME.size`.
abbrev pub header_size : ℕ
header_size = 53

module _ {V : Type 0} where
  abbrev pub frame_at : ℕ → Frame V → Bool
  frame_at offset f = f.offset == offset

  abbrev pub page_of : Option (Frame V) → Option (Page V)
  page_of none = none
  page_of (some f) = f.page

  abbrev pub matches : TreeRef → Page V → Bool
  matches ref p = if text_eq p.logical_hash ref.logical_hash then p.count == ref.count else false

  -- `read_page`: the page of the frame at the reference's offset, which must be the one referred to.
  unfoldable pub find_page : List (Frame V) → TreeRef → Option (Page V)
  find_page frames ref = elim (page_of (find (frame_at ref.offset) frames)) [
    | none ↦ none
    | some p ↦ if matches ref p then some p else none
  ]

  unfoldable pub read_page : TreeRef → Action (Writer V) (Page V)
  read_page ref = do
    modify λ w. record w { pages_read = w.pages_read + 1 }
    frames ← gets λ w. w.frames
    or_raise (find_page frames ref) Error.archive_error

module _ {V : Type 0} (codec : Codec V) where
  -- `append`.
  unfoldable pub append : Page V → Action (Writer V) ℕ
  append p w = (
    ok w.position,
    record w {
      frames = w.frames ++ (record { offset = w.position; page = some p }) ∷ [];
      position = w.position + header_size + codec.compressed_len p;
    },
  )

  -- `store_page`.
  unfoldable pub store_page : Logical V → Body V → Action (Writer V) TreeRef
  store_page l body = do
    let page : Page V = record {
      tree = l.tree;
      depth = l.depth;
      body = body;
      logical_hash = codec.digest l;
      count = l.count;
    }
    offset ← append page
    pure (record { offset = offset; logical_hash = codec.digest l; count = l.count })
