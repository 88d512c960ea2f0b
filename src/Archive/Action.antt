-- ===== src/Archive/Action.antt =====
-- The calls of gh_puller/github/observations.py on its connection: a read, an explicit
-- `BEGIN IMMEDIATE` transaction, and a lone `UPDATE` that is committed by itself.
use gh_puller.Archive.Model.{Archive, Tables, Timestamp, aware, naive}
use gh_puller.Base.{Bool, List, Option, [], false, if◌then◌else◌, none, some, true, ℕ, ◌∷◌}

-- The class of an exception.
pub data Error : Type 0 where
  value_error runtime_error type_error key_error integrity_error operational_error archive_error :
      Error

pub data Result {ℓ} (A : Type ℓ) : Type ℓ where
  ok : A → Result A
  raise : Error → Result A

-- A computation on a state that may raise; the state comes back after a raise too.
abbrev pub Action : Type 0 → Type 0 → Type 0
Action S A = S → Result A × S

-- What comes after a step: nothing, once it has raised.
unfoldable pub proceed : {S A B : Type 0} → Result A × S → (A → Action S B) → Result B × S
proceed (ok a, t) f = f a t
proceed (raise e, t) f = (raise e, t)

infixl 5 ◌>>=◌ ◌>>◌
unfoldable pub ◌>>=◌ : {S A B : Type 0} → Action S A → (A → Action S B) → Action S B
◌>>=◌ m f s = proceed (m s) f

unfoldable pub ◌>>◌ : {S A B : Type 0} → Action S A → Action S B → Action S B
m >> k = m >>= λ _. k

module _ {S : Type 0} where
  unfoldable pub guard : Bool → Error → Action S (Unit {0})
  guard true e s = (ok tt, s)
  guard false e s = (raise e, s)

  module _ {A : Type 0} where
    unfoldable pub pure : A → Action S A
    pure a s = (ok a, s)

    unfoldable pub lift : Result A → Action S A
    lift r s = (r, s)

    unfoldable pub gets : (S → A) → Action S A
    gets f s = (ok (f s), s)

    unfoldable pub or_raise : Option A → Error → Action S A
    or_raise none e s = (raise e, s)
    or_raise (some a) e s = (ok a, s)

  unfoldable pub modify : (S → S) → Action S (Unit {0})
  modify f s = (ok tt, f s)

-- `try: … await db.commit() except BaseException: await db.rollback(); raise`.
unfoldable pub settle : {A : Type 0} → Archive → Result A × Tables → Result A × Archive
settle s (ok a, t) = (ok a, record s { tables = t })
settle s (raise e, t) = (raise e, s)

-- `BEGIN IMMEDIATE` is refused where a transaction is open; it stands before the `try`.
unfoldable pub transaction : {A : Type 0} → Action Tables A → Action Archive A
transaction body s =
    if s.in_transaction then (raise Error.operational_error, s) else settle s (body s.tables)

-- A `SELECT` outside a transaction.
unfoldable pub query : {A : Type 0} → (Tables → A) → Action Archive A
query f s = (ok (f s.tables), s)

-- An `UPDATE` with its `commit`; `none` says that its `rowcount` is not 1. The transaction that
-- the statement opened stays open then.
unfoldable pub autocommit : Option Tables → Error → Action Archive (Unit {0})
autocommit none e s = (raise e, record s { in_transaction = true })
autocommit (some t) e s = (ok tt, record { tables = t; in_transaction = false })

-- `_iso`: a time without a zone is refused.
unfoldable pub iso : {S : Type 0} → Timestamp → Action S ℕ
iso (aware t) s = (ok t, s)
iso naive s = (raise Error.value_error, s)

-- A comprehension, or a loop with an `await`, in order.
unfoldable pub each : {S A B : Type 0} → (A → Action S B) → List A → Action S (List B)
each f [] s = (ok [], s)
each f (a ∷ as') s = (f a >>= λ b. each f as' >>= λ bs. pure (b ∷ bs)) s

-- To compute with the steps of an action, a proof unfolds this name.
unfoldable pub steps : Unit {0}
unfolding proceed ◌>>=◌ ◌>>◌ guard pure lift gets or_raise modify settle transaction query
    autocommit iso each
steps = tt
