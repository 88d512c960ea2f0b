-- ===== src/Agents/Files.antt =====
-- `FileSink` of gh_puller/agent/sinks.py: the lines of its files, each with the name of its file.
pub mod History
use gh_puller.Agents.Events.{Event, Route, is_compact_event, session_start}
use gh_puller.Base.{
  All, Bool, Bool-cases, List, Option, String, [], any, append-nil, append_assoc, codes, eq_iff,
  false, if◌then◌else◌, inl, inr, map, nat_eq, none, not, refl, select, some, some-injective, sym,
  text_instance, true, ap, ◌&&◌, ◌||◌, ◌++◌, ◌==◌, ◌∷◌, ◌≡◌, ◌∙◌, ◌≢◌,
}

abbrev pub has_slash : String → Bool
has_slash s = any (λ c. nat_eq c b'/') (codes s)

-- `_file_stem`: what stands after the last slash.
unfoldable pub file_stem : String → String
file_stem String.[] = ""
file_stem (String.◌∷◌ c s) =
    let rest = file_stem s in if has_slash (String.◌∷◌ c s) then rest else String.◌∷◌ c s

pub record Line : Type 0 where
  pub path : String
  pub event : Event

-- The sessions with the files that they have opened, and the lines that were written.
pub record Files : Type 0 where
  pub opened : List (String × String)
  pub lines : List Line

-- `FileSink(…)`.
abbrev pub new_files : Files
new_files = record { opened = []; lines = [] }

abbrev pub path_of : String → List (String × String) → Option String
path_of s [] = none
path_of s ((t, p) ∷ ps) = let rest = path_of s ps in if t == s then some p else rest

abbrev pub is_start_route : Route → Bool
is_start_route session_start = true
is_start_route _ = false

abbrev pub is_start : Event → Bool
is_start e = is_start_route e.route

abbrev pub open_file : Event → Files → Files
open_file e f =
    if is_start e then record f { opened = (e.session, file_stem e.session) ∷ f.opened } else f

abbrev pub write_to : Option String → Event → Files → Files
write_to none e f = f
write_to (some p) e f = record f { lines = f.lines ++ record { path = p; event = e } ∷ [] }

abbrev pub write : Event → Files → Files
write e f = write_to (path_of e.session f.opened) e f

-- `raw or is_compact_event(…)`.
abbrev pub wanted : Bool → Event → Bool
wanted raw e = raw || is_compact_event e.route

-- `consume`.
unfoldable pub consume : Bool → Event → Files → Files
consume raw e f = if wanted raw e then write e (open_file e f) else f

unfoldable pub consume_all : Bool → List Event → Files → Files
consume_all raw [] f = f
consume_all raw (e ∷ es) f = consume_all raw es (consume raw e f)

abbrev pub events_at : String → List Line → List Event
events_at p ls = map (λ l. l.event) (select (λ l. l.path == p) ls)

-- The events of a session from its first start on.
abbrev pub started_by : String → Bool → Event → Bool
started_by s started e = started || (e.session == s && is_start e)

unfoldable pub history : String → Bool → List Event → List Event
history s started [] = []
history s started (e ∷ es) =
    let rest = history s (started_by s started e) es in
    if e.session == s && started_by s started e then e ∷ rest else rest

-- The file of a session is open just if the session has started, and every file has its stem.
abbrev pub Opened : String → Bool → Files → Type 0
Opened s started f =
    (path_of s f.opened ≡ (if started then some (file_stem s) else none))
    × ((t p : String) → path_of t f.opened ≡ some p → p ≡ file_stem t)

-- No other session writes to the file.
abbrev pub Alone : String → Event → Type 0
Alone s e = file_stem e.session ≡ file_stem s → e.session ≡ s

start_compact : (route : Route) → is_start_route route ≡ true → is_compact_event route ≡ true
unfolding is_compact_event
start_compact session_start h = refl
start_compact _ h = absurd (cc)

start_wanted : (raw : Bool) (e : Event) → is_start e ≡ true → wanted raw e ≡ true
start_wanted true e h = refl
start_wanted false e h = start_compact e.route h

events_at-append :
    (p : String) (ls : List Line) (q : String) (e : Event)
    → events_at p (ls ++ record { path = q; event = e } ∷ [])
      ≡ events_at p ls ++ (if q == p then e ∷ [] else [])
events_at-append p [] q e = elim (Bool-cases (q == p)) [ inl h ↦ rw h refl | inr h ↦ rw h refl ]
events_at-append p (l ∷ ls) q e = elim (Bool-cases (l.path == p)) [
  | inl h ↦ rw (h, events_at-append p ls q e) refl
  | inr h ↦ rw (h, events_at-append p ls q e) refl
]

or_true : (b : Bool) → (b || true) ≡ true
or_true true = refl
or_true false = refl

or_and_false : (b q : Bool) → (b || (q && false)) ≡ b
or_and_false true q = refl
or_and_false false true = refl
or_and_false false false = refl

-- What a file that is opened does to the paths.
path_of_new :
    (s t : String) (started : Bool) (ps : List (String × String))
    → path_of s ps ≡ (if started then some (file_stem s) else none)
    → path_of s ((t, file_stem t) ∷ ps)
      ≡ (if started || ((t == s) && true) then some (file_stem s) else none)
path_of_new s t started ps h = elim (Bool-cases (t == s)) [
  | inl q ↦ rw (q, or_true started) (ap (λ u. some (file_stem u)) ((eq_iff t s).0 q))
  | inr q ↦ rw (q, or_and_false started true) h
]

stem_of_new :
    (t : String) (ps : List (String × String))
    → ((u p : String) → path_of u ps ≡ some p → p ≡ file_stem u)
    → (u p : String) → path_of u ((t, file_stem t) ∷ ps) ≡ some p
    → p ≡ file_stem u
stem_of_new t ps k u p h = go (t == u) refl h
  where
    go :
        (b : Bool)
        → (t == u) ≡ b
        → (if b then some (file_stem t) else path_of u ps) ≡ some p
        → p ≡ file_stem u
    go true q e = sym (some-injective _ _ e) ∙ ap file_stem ((eq_iff t u).0 q)
    go false q e = k u p e

pub open_file-Opened :
    (s : String) (started : Bool) (e : Event) (f : Files)
    → Opened s started f
    → Opened s (started_by s started e) (open_file e f)
open_file-Opened s started e f (h, k) = go (is_start e)
  where
    go :
        (a : Bool)
        → Opened s
            (started || ((e.session == s) && a))
            (if a then record f { opened = (e.session, file_stem e.session) ∷ f.opened } else f)
    go true = (path_of_new s e.session started f.opened h, stem_of_new e.session f.opened k)
    go false = (rw (or_and_false started (e.session == s)) h, k)

write_to-Opened :
    (s : String) (started : Bool) (o : Option String) (e : Event) (f : Files)
    → Opened s started f
    → Opened s started (write_to o e f)
write_to-Opened s started none e f h = h
write_to-Opened s started (some p) e f h = h

pub consume-Opened :
    (raw : Bool) (s : String) (started : Bool) (e : Event) (f : Files)
    → Opened s started f
    → Opened s (started_by s started e) (consume raw e f)
unfolding consume
consume-Opened raw s started e f h = go (wanted raw e) refl
  where
    f1 : Files
    f1 = open_file e f

    kept :
        (a : Bool)
        → is_start e ≡ a
        → wanted raw e ≡ false
        → Opened s (started || ((e.session == s) && a)) f
    kept true a n = absurd (let w = start_wanted raw e a in cc)
    kept false a n = (rw (or_and_false started (e.session == s)) h.0, h.1)

    go :
        (w : Bool)
        → wanted raw e ≡ w
        → Opened s (started_by s started e) (if w then write e f1 else f)
    go true n =
        write_to-Opened s (started_by s started e) (path_of e.session f1.opened) e f1
          (open_file-Opened s started e f h)
    go false n = kept (is_start e) refl n

-- What a write adds to the file of a session.
pub write-lines :
    (s : String) (started : Bool) (e : Event) (f : Files)
    → Opened s started f
    → Alone s e
    → events_at (file_stem s) (write e f).lines
      ≡ events_at (file_stem s) f.lines ++ (if e.session == s && started then e ∷ [] else [])
write-lines s started e f (h, k) alone = elim (Bool-cases (e.session == s)) [
  | inl q ↦ rw q (
      own (path_of e.session f.opened) started
        (ap (λ t. path_of t f.opened) ((eq_iff e.session s).0 q) ∙ h))
  | inr q ↦ rw q (other (path_of e.session f.opened) (k e.session) q)
]
  where
    own :
        (o : Option String) (b : Bool)
        → o ≡ (if b then some (file_stem s) else none)
        → events_at (file_stem s) (write_to o e f).lines
          ≡ events_at (file_stem s) f.lines ++ (if b then e ∷ [] else [])
    own none true h' = absurd (cc)
    own none false h' = sym (append-nil _)
    own (some p) false h' = absurd (cc)
    own (some p) true h' =
        events_at-append (file_stem s) f.lines p e
        ∙ rw ((eq_iff p (file_stem s)).1 (some-injective _ _ h')) refl

    other :
        (o : Option String)
        → ((p : String) → o ≡ some p → p ≡ file_stem e.session)
        → (e.session == s) ≡ false
        → events_at (file_stem s) (write_to o e f).lines ≡ events_at (file_stem s) f.lines ++ []
    other none k' q = sym (append-nil _)
    other (some p) k' q = elim (Bool-cases (p == file_stem s)) [
      | inl m ↦ absurd (
          let same =
            (eq_iff e.session s).1 (alone (sym (k' p refl) ∙ (eq_iff p (file_stem s)).0 m)) in
          cc)
      | inr m ↦ events_at-append (file_stem s) f.lines p e ∙ rw m refl
    ]
