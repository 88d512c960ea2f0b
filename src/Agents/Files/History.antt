-- ===== src/Agents/Files/History.antt =====
-- What the files of `FileSink` hold, and what a file folds to.
use gh_puller.Agents.Compact.{fold_state-compact}
use gh_puller.Agents.Events.{Event, fold_state}
use gh_puller.Agents.Files.{
  Alone, Files, Opened, consume, consume-Opened, consume_all, events_at, file_stem, history,
  is_start, new_files, open_file, open_file-Opened, started_by, wanted, write, write-lines,
}
use gh_puller.Base.{
  All, Bool, Bool-cases, List, String, [], ap, append-nil, append_assoc, false, if◌then◌else◌, inl,
  inr, refl, select, sym, true, ◌&&◌, ◌++◌, ◌==◌, ◌∷◌, ◌≡◌, ◌∙◌, text_instance,
}

module _ (raw : Bool) (s : String) where
  abbrev wanted_of : List Event → List Event
  wanted_of es = select (wanted raw) es

  consume-lines :
      (started : Bool) (e : Event) (f : Files)
      → Opened s started f
      → Alone s e
      → events_at (file_stem s) (consume raw e f).lines
        ≡ events_at (file_stem s) f.lines
          ++ wanted_of (if e.session == s && started_by s started e then e ∷ [] else [])
  unfolding consume
  consume-lines started e f h alone = go (wanted raw e) refl
    where
      c : Bool
      c = e.session == s && started_by s started e

      f1 : Files
      f1 = open_file e f

      same :
          (a : Bool)
          → (if a
              then record f { opened = (e.session, file_stem e.session) ∷ f.opened }
              else f).lines
            ≡ f.lines
      same true = refl
      same false = refl

      kept :
          (b : Bool)
          → wanted raw e ≡ true
          → wanted_of (if b then e ∷ [] else []) ≡ (if b then e ∷ [] else [])
      kept true w = rw w refl
      kept false w = refl

      none_kept : (b : Bool) → wanted raw e ≡ false → wanted_of (if b then e ∷ [] else []) ≡ []
      none_kept true w = rw w refl
      none_kept false w = refl

      go :
          (w : Bool)
          → wanted raw e ≡ w
          → events_at (file_stem s) (if w then write e f1 else f).lines
            ≡ events_at (file_stem s) f.lines ++ wanted_of (if c then e ∷ [] else [])
      go true w =
          write-lines s (started_by s started e) e f1 (open_file-Opened s started e f h) alone
          ∙ ap (λ ls. events_at (file_stem s) ls ++ (if c then e ∷ [] else [])) (same (is_start e))
          ∙ ap (λ es. events_at (file_stem s) f.lines ++ es) (sym (kept c w))
      go false w =
          sym (ap (λ es. events_at (file_stem s) f.lines ++ es) (none_kept c w) ∙ append-nil _)

  wanted_of-step :
      (c : Bool) (e : Event) (es : List Event)
      → wanted_of (if c then e ∷ [] else []) ++ wanted_of es ≡ wanted_of (if c then e ∷ es else es)
  wanted_of-step false e es = refl
  wanted_of-step true e es = elim (Bool-cases (wanted raw e)) [
    | inl w ↦ rw w refl
    | inr w ↦ rw w refl
  ]

  consume_all-lines :
      (started : Bool) (es : List Event) (f : Files)
      → Opened s started f
      → All (Alone s) es
      → events_at (file_stem s) (consume_all raw es f).lines
        ≡ events_at (file_stem s) f.lines ++ wanted_of (history s started es)
  unfolding consume_all history
  consume_all-lines started [] f h a = sym (append-nil _)
  consume_all-lines started (e ∷ es) f h a =
      let b = started_by s started e in
      let c = e.session == s && b in
      consume_all-lines b es (consume raw e f) (consume-Opened raw s started e f h) a.1
      ∙ ap (λ ds. ds ++ wanted_of (history s b es)) (consume-lines started e f h a.0)
      ∙ append_assoc (events_at (file_stem s) f.lines) (wanted_of (if c then e ∷ [] else []))
          (wanted_of (history s b es))
      ∙ ap (λ ds. events_at (file_stem s) f.lines ++ ds) (wanted_of-step c e (history s b es))

-- The file of a session, which no other session shares, holds the session's events from its start
-- on, in their order: the compact ones, or all of them where the sink is raw.
pub consume_all-history :
    (raw : Bool) (s : String) (es : List Event)
    → All (Alone s) es
    → events_at (file_stem s) (consume_all raw es new_files).lines
      ≡ select (wanted raw) (history s false es)
consume_all-history raw s es a =
    consume_all-lines raw s false es new_files (refl, λ t p h. absurd (cc)) a

raw_kept : (es : List Event) → select (wanted true) es ≡ es
raw_kept [] = refl
raw_kept (e ∷ es) = ap (λ ds. e ∷ ds) (raw_kept es)

fold_state-wanted :
    (raw : Bool) (es : List Event) → fold_state (select (wanted raw) es) ≡ fold_state es
fold_state-wanted true es = ap fold_state (raw_kept es)
fold_state-wanted false es = fold_state-compact es

-- A file folds to the agent and the context of its session, whether the sink is raw or not.
pub fold_state-consume_all :
    (raw : Bool) (s : String) (es : List Event)
    → All (Alone s) es
    → fold_state (events_at (file_stem s) (consume_all raw es new_files).lines)
      ≡ fold_state (history s false es)
fold_state-consume_all raw s es a =
    ap fold_state (consume_all-history raw s es a) ∙ fold_state-wanted raw (history s false es)
