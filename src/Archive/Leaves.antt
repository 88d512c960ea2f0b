-- ===== src/Archive/Leaves.antt =====
-- What a call leaves behind, made of transactions and of lone statements.
use gh_puller.Archive.Action.{
  Action, Error, Result, autocommit, each, guard, iso, ok, or_raise, proceed, pure, query, raise,
  settle, transaction, ◌>>=◌, ◌>>◌,
}
use gh_puller.Archive.Attempts.{rolled_back}
use gh_puller.Archive.Facts.{Publication}
use gh_puller.Archive.Json.{Fields}
use gh_puller.Archive.Keeps.{Keeps, OnOk}
use gh_puller.Archive.Model.{
  Archive, DiscoveryItemDraft, FactDraft, Tables, TaskDraft, Timestamp, aware, naive,
}
use gh_puller.Archive.Prepare.{PreparedFact, prepare_discovery_item, prepare_fact, prepare_task}
use gh_puller.Archive.Publish.{check_facts, check_publication}
use gh_puller.Base.{
  Bool, Bool-cases, List, Option, Option-cases, String, [], false, if◌then◌else◌, inl, inr,
  nat_instance, none, option_instance, some, text_instance, true, ℕ, ◌∷◌, ◌≡◌,
}

-- Whatever a call returned or raised, the tables that it left satisfy `P`.
pub record Leaves {A : Type 0} (P : Tables → Type 0) (m : Action Archive A) : Type 0 where
  pub at : (s : Archive) → P s.tables → P (m s).1.tables

leaves_settle :
    {A : Type 0} (P : Tables → Type 0) (s : Archive) (r : Result A × Tables)
    → P s.tables
    → OnOk (λ _. P) r
    → P (settle s r).1.tables
unfolding settle
leaves_settle P s (ok a, t) h k = k
leaves_settle P s (raise e, t) h k = h

leaves_proceed :
    {A B : Type 0} (P : Tables → Type 0) (r : Result A × Archive) (f : A → Action Archive B)
    → P r.1.tables
    → ((a : A) (s : Archive) → P s.tables → P (f a s).1.tables)
    → P (proceed r f).1.tables
unfolding proceed
leaves_proceed P (ok a, t) f h k = k a t h
leaves_proceed P (raise e, t) f h k = h

module _ {P : Tables → Type 0} where
  pub Leaves-bind :
      {A B : Type 0} {m : Action Archive A} {f : A → Action Archive B}
      → Leaves P m
      → ((a : A) → Leaves P (f a))
      → Leaves P (m >>= f)
  unfolding ◌>>=◌
  Leaves-bind {m = m} {f = f} km kf = record {
    at = λ s h. leaves_proceed P (m s) f (km.at s h) (λ a u k. (kf a).at u k);
  }

  pub Leaves-then :
      {A B : Type 0} {m : Action Archive A} {k : Action Archive B}
      → Leaves P m
      → Leaves P k
      → Leaves P (m >> k)
  unfolding ◌>>◌
  Leaves-then km kk = Leaves-bind km (λ _. kk)

  pub Leaves-guard : (b : Bool) (e : Error) → Leaves P (guard b e)
  unfolding guard
  Leaves-guard true e = record { at = λ s h. h }
  Leaves-guard false e = record { at = λ s h. h }

  pub Leaves-pure : {A : Type 0} (a : A) → Leaves P (pure a)
  unfolding pure
  Leaves-pure a = record { at = λ s h. h }

  pub Leaves-query : {A : Type 0} (f : Tables → A) → Leaves P (query f)
  unfolding query
  Leaves-query f = record { at = λ s h. h }

  pub Leaves-or_raise : {A : Type 0} (o : Option A) (e : Error) → Leaves P (or_raise o e)
  unfolding or_raise
  Leaves-or_raise none e = record { at = λ s h. h }
  Leaves-or_raise (some a) e = record { at = λ s h. h }

  pub Leaves-iso : (at : Timestamp) → Leaves P (iso at)
  unfolding iso
  Leaves-iso (aware n) = record { at = λ s h. h }
  Leaves-iso naive = record { at = λ s h. h }

  pub Leaves-each :
      {A B : Type 0} (f : A → Action Archive B) (as' : List A)
      → ((a : A) → Leaves P (f a))
      → Leaves P (each f as')
  unfolding each
  Leaves-each f [] k = record { at = λ s h. h }
  Leaves-each f (a ∷ as') k = record {
    at = λ s h.
        (Leaves-bind (k a) (λ b. Leaves-bind (Leaves-each f as' k) (λ bs. Leaves-pure (b ∷ bs)))).at
          s h;
  }

  pub Leaves-transaction :
      {A : Type 0} {body : Action Tables A} → Keeps P body → Leaves P (transaction body)
  unfolding transaction
  Leaves-transaction {body = body} k = record {
    at = λ s h. elim (Bool-cases s.in_transaction) [
      | inl e ↦ simp e h
      | inr e ↦ simp e (leaves_settle P s (body s.tables) h (k.at s.tables h))
    ];
  }

  -- An `UPDATE` whose row was looked for in the same state.
  pub Leaves-autocommit :
      (f : Tables → Option Tables) (e : Error)
      → ((t u : Tables) → P t → f t ≡ some u → P u)
      → Leaves P (query f >>= λ updated. autocommit updated e)
  unfolding query ◌>>=◌ proceed autocommit
  Leaves-autocommit f e k = record {
    at = λ s h. elim (Option-cases (f s.tables)) [
      | inl none_found ↦ simp none_found h
      | inr (u, found) ↦ simp found (k s.tables u h found)
    ];
  }

  pub Leaves-rolled_back :
      (f : Tables → Option Tables) (e : Error)
      → ((t u : Tables) → P t → f t ≡ some u → P u)
      → Leaves P (query f >>= λ updated. rolled_back updated e)
  unfolding query ◌>>=◌ proceed
  Leaves-rolled_back f e k = record {
    at = λ s h. elim (Option-cases (f s.tables)) [
      | inl none_found ↦ simp none_found h
      | inr (u, found) ↦ simp found (k s.tables u h found)
    ];
  }

  pub Leaves-if :
      {A : Type 0} (b : Bool) {m n : Action Archive A}
      → Leaves P m
      → Leaves P n
      → Leaves P (if b then m else n)
  Leaves-if true km kn = km
  Leaves-if false km kn = kn

  pub Leaves-check_publication : (p : Publication) → Leaves P (check_publication p)
  unfolding check_publication
  Leaves-check_publication p = search (Leaves-then, Leaves-guard) depth 8

  pub Leaves-check_facts : (n : ℕ) (ps : List PreparedFact) → Leaves P (check_facts n ps)
  unfolding check_facts
  Leaves-check_facts n ps = search (Leaves-then, Leaves-guard)

pub ruleset leaving = (
  Leaves-if, Leaves-check_publication, Leaves-check_facts, Leaves-bind, Leaves-then, Leaves-guard,
  Leaves-pure, Leaves-query, Leaves-or_raise, Leaves-iso, Leaves-each, Leaves-transaction,
)

-- The checks of the drafts leave every archive alone.
module _ {P : Tables → Type 0} (digest : Fields → String) where
  pub Leaves-prepare_task : (draft : TaskDraft) → Leaves P (prepare_task digest draft)
  unfolding prepare_task
  Leaves-prepare_task draft = search leaving

  pub Leaves-prepare_fact : (draft : FactDraft) → Leaves P (prepare_fact digest draft)
  unfolding prepare_fact
  Leaves-prepare_fact draft = search leaving depth 15

  pub Leaves-prepare_discovery_item :
      (draft : DiscoveryItemDraft) → Leaves P (prepare_discovery_item digest draft)
  unfolding prepare_discovery_item
  Leaves-prepare_discovery_item draft = search leaving depth 12
