-- ===== src/Archive/Atomic.antt =====
-- Calls that leave the archive as it was where they raise.
pub mod Transactions
use gh_puller.Archive.Action.{
  Action, Error, Result, each, guard, iso, ok, or_raise, proceed, pure, query, raise, settle, steps,
  transaction, ◌>>=◌, ◌>>◌,
}
use gh_puller.Archive.Facts.{Publication}
use gh_puller.Archive.Json.{Fields}
use gh_puller.Archive.Model.{Archive, FactDraft, Tables, TaskDraft, Timestamp, aware, naive}
use gh_puller.Archive.Prepare.{PreparedFact, prepare_fact, prepare_task}
use gh_puller.Archive.Publish.{check_facts, check_publication}
use gh_puller.Base.{
  Bool, Bool-cases, List, Option, String, [], false, inl, inr, none, refl, some, subst, true, ℕ,
  ◌∙◌, ◌∷◌, ◌≡◌,
}

-- What holds of the state that a raise leaves.
abbrev pub OnRaise : {S A : Type 0} → (S → Type 0) → Result A × S → Type 0
OnRaise Q (ok a, t) = Unit
OnRaise Q (raise e, t) = Q t

-- Where the call raises, the archive is as before it.
pub record Atomic {A : Type 0} (m : Action Archive A) : Type 0 where
  pub at : (s : Archive) → OnRaise (λ t. t ≡ s) (m s)

-- The call changes no archive.
pub record Calm {A : Type 0} (m : Action Archive A) : Type 0 where
  pub at : (s : Archive) → (m s).1 ≡ s

Calm-proceed :
    {A B : Type 0} (r : Result A × Archive) (f : A → Action Archive B) (s : Archive)
    → r.1 ≡ s
    → ((a : A) → Calm (f a))
    → (proceed r f).1 ≡ s
unfolding proceed
Calm-proceed (ok a, t) f s e k = (k a).at t ∙ e
Calm-proceed (raise er, t) f s e k = e

Atomic-proceed :
    {A B : Type 0} (r : Result A × Archive) (f : A → Action Archive B) (s : Archive)
    → r.1 ≡ s
    → ((a : A) → Atomic (f a))
    → OnRaise (λ t. t ≡ s) (proceed r f)
unfolding proceed
Atomic-proceed (ok a, t) f s e k = subst (λ u. OnRaise (λ x. x ≡ u) (f a t)) e ((k a).at t)
Atomic-proceed (raise er, t) f s e k = e

module _ {A : Type 0} where
  pub Calm-pure : (a : A) → Calm (pure a)
  unfolding steps
  Calm-pure a = record { at = λ s. refl }

  pub Calm-query : (f : Tables → A) → Calm (query f)
  unfolding steps
  Calm-query f = record { at = λ s. refl }

  pub Calm-or_raise : (o : Option A) (e : Error) → Calm (or_raise o e)
  unfolding steps
  Calm-or_raise none e = record { at = λ s. refl }
  Calm-or_raise (some a) e = record { at = λ s. refl }

  pub Calm-bind :
      {B : Type 0} {m : Action Archive A} {f : A → Action Archive B}
      → Calm m
      → ((a : A) → Calm (f a))
      → Calm (m >>= f)
  unfolding ◌>>=◌
  Calm-bind {m = m} {f = f} k g = record { at = λ s. Calm-proceed (m s) f s (k.at s) g }

  pub Calm-then :
      {B : Type 0} {m : Action Archive A} {n : Action Archive B} → Calm m → Calm n → Calm (m >> n)
  unfolding ◌>>◌
  Calm-then k g = Calm-bind k (λ _. g)

  pub Atomic-after :
      {B : Type 0} {m : Action Archive A} {f : A → Action Archive B}
      → Calm m
      → ((a : A) → Atomic (f a))
      → Atomic (m >>= f)
  unfolding ◌>>=◌
  Atomic-after {m = m} {f = f} k g = record { at = λ s. Atomic-proceed (m s) f s (k.at s) g }

  pub Atomic-then :
      {B : Type 0} {m : Action Archive A} {n : Action Archive B}
      → Calm m
      → Atomic n
      → Atomic (m >> n)
  unfolding ◌>>◌
  Atomic-then k g = Atomic-after k (λ _. g)

  pub Atomic-transaction : (body : Action Tables A) → Atomic (transaction body)
  unfolding transaction settle
  Atomic-transaction body = record {
    at = λ s. elim (Bool-cases s.in_transaction) [
      | inl e ↦ simp e refl
      | inr e ↦ simp e (settled s (body s.tables))
    ];
  }
    where
      settled : (s : Archive) (r : Result A × Tables) → OnRaise (λ t. t ≡ s) (settle s r)
      settled s (ok a, t) = tt
      settled s (raise er, t) = refl

pub Calm-each :
    {A B : Type 0} (f : A → Action Archive B) (xs : List A)
    → ((a : A) → Calm (f a))
    → Calm (each f xs)
unfolding each
Calm-each f [] k = record { at = λ s. refl }
Calm-each f (x ∷ xs) k = record {
  at = λ s. (Calm-bind (k x) (λ b. Calm-bind (Calm-each f xs k) (λ bs. Calm-pure (b ∷ bs)))).at s;
}

pub Calm-guard : (b : Bool) (e : Error) → Calm (guard b e)
unfolding steps
Calm-guard true e = record { at = λ s. refl }
Calm-guard false e = record { at = λ s. refl }

pub Calm-iso : (at : Timestamp) → Calm (iso at)
unfolding steps
Calm-iso (aware n) = record { at = λ s. refl }
Calm-iso naive = record { at = λ s. refl }

pub ruleset calm =
    (Calm-guard, Calm-iso, Calm-pure, Calm-query, Calm-or_raise, Calm-bind, Calm-then, Calm-each)

pub ruleset atomic = (Atomic-transaction, Atomic-after, Atomic-then)

module _ (digest : Fields → String) where
  pub Calm-prepare_task : (draft : TaskDraft) → Calm (prepare_task digest draft)
  unfolding prepare_task
  Calm-prepare_task draft = search calm

  pub Calm-prepare_fact : (draft : FactDraft) → Calm (prepare_fact digest draft)
  unfolding prepare_fact
  Calm-prepare_fact draft = search calm depth 15

pub Calm-check_publication : (p : Publication) → Calm (check_publication p)
unfolding check_publication
Calm-check_publication p = search calm depth 8

pub Calm-check_facts : (n : ℕ) (ps : List PreparedFact) → Calm (check_facts n ps)
unfolding check_facts
Calm-check_facts n ps = search calm

-- A read after the transaction raises nothing.
pub Atomic-read :
    {A B : Type 0} (m : Action Archive A) (f : A → Tables → B)
    → Atomic m
    → Atomic (m >>= λ a. query (f a))
unfolding ◌>>=◌ query proceed
Atomic-read {A = A} m f k = record { at = λ s. read s (m s) (k.at s) }
  where
    read :
        (s : Archive) (r : Result A × Archive)
        → OnRaise (λ t. t ≡ s) r
        → OnRaise (λ t. t ≡ s) (proceed r (λ a t. (ok (f a t.tables), t)))
    read s (ok a, t) h = tt
    read s (raise er, t) h = h
