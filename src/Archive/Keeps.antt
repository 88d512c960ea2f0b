-- ===== src/Archive/Keeps.antt =====
-- What a step inside a transaction keeps, which is rolled back where it raises.
use gh_puller.Archive.Action.{
  Action, Error, Result, each, gets, guard, lift, modify, ok, or_raise, proceed, pure, raise, ◌>>=◌,
  ◌>>◌,
}
use gh_puller.Archive.Attempts.{reread_job_task}
use gh_puller.Archive.Cycles.{active_cycle_row}
use gh_puller.Archive.Facts.{Publication, verify_existing_batch}
use gh_puller.Archive.Json.{Fields}
use gh_puller.Archive.Maintenance.{active_maintenance_job_row, verify_maintenance_job}
use gh_puller.Archive.Model.{Blob, FactBatch, MaintenanceJob, MaintenanceTask, SyncTask, Tables}
use gh_puller.Archive.Prepare.{PreparedFact, PreparedTask, has_digest, put_encoded_blob}
use gh_puller.Archive.Publish.{check_cycle, check_maintenance, check_source, check_task}
use gh_puller.Archive.Tasks.{reread}
use gh_puller.Base.{
  Bool, Bool-cases, List, Option, String, [], any, false, if◌then◌else◌, inl, inr, nat_instance,
  none, option_instance, some, text_instance, true, ℕ, ◌++◌, ◌∷◌,
}

-- A step that returns has a result and a state as `Q` says; a raise is rolled back.
abbrev pub OnOk : {S A : Type 0} → (A → S → Type 0) → Result A × S → Type 0
OnOk Q (ok a, t) = Q a t
OnOk Q (raise e, t) = Unit

-- A step of a transaction keeps `P`.
pub record Keeps {S A : Type 0} (P : S → Type 0) (m : Action S A) : Type 0 where
  pub at : (t : S) → P t → OnOk (λ _. P) (m t)

module _ {S : Type 0} where
  pub OnOk-proceed :
      {A B : Type 0} (Q : A → S → Type 0) (R : B → S → Type 0) (r : Result A × S)
      (f : A → Action S B)
      → OnOk Q r
      → ((a : A) (t : S) → Q a t → OnOk R (f a t))
      → OnOk R (proceed r f)
  unfolding proceed
  OnOk-proceed Q R (ok a, t) f h k = k a t h
  OnOk-proceed Q R (raise e, t) f h k = tt

module _ {S : Type 0} {P : S → Type 0} where
  pub Keeps-bind :
      {A B : Type 0} {m : Action S A} {f : A → Action S B}
      → Keeps P m
      → ((a : A) → Keeps P (f a))
      → Keeps P (m >>= f)
  unfolding ◌>>=◌
  Keeps-bind {m = m} {f = f} km kf = record {
    at = λ t h. OnOk-proceed (λ _. P) (λ _. P) (m t) f (km.at t h) (λ a u k. (kf a).at u k);
  }

  pub Keeps-then :
      {A B : Type 0} {m : Action S A} {k : Action S B} → Keeps P m → Keeps P k → Keeps P (m >> k)
  unfolding ◌>>◌
  Keeps-then km kk = Keeps-bind km (λ _. kk)

  pub Keeps-guard : (b : Bool) (e : Error) → Keeps P (guard b e)
  unfolding guard
  Keeps-guard true e = record { at = λ t h. h }
  Keeps-guard false e = record { at = λ t h. tt }

  pub Keeps-pure : {A : Type 0} (a : A) → Keeps P (pure a)
  unfolding pure
  Keeps-pure a = record { at = λ t h. h }

  pub Keeps-gets : {A : Type 0} (f : S → A) → Keeps P (gets f)
  unfolding gets
  Keeps-gets f = record { at = λ t h. h }

  pub Keeps-modify : (f : S → S) → ((t : S) → P t → P (f t)) → Keeps P (modify f)
  unfolding modify
  Keeps-modify f k = record { at = k }

  pub Keeps-or_raise : {A : Type 0} (o : Option A) (e : Error) → Keeps P (or_raise o e)
  unfolding or_raise
  Keeps-or_raise none e = record { at = λ t h. tt }
  Keeps-or_raise (some a) e = record { at = λ t h. h }

  pub Keeps-each :
      {A B : Type 0} (f : A → Action S B) (as' : List A)
      → ((a : A) → Keeps P (f a))
      → Keeps P (each f as')
  unfolding each
  Keeps-each f [] k = record { at = λ t h. h }
  Keeps-each f (a ∷ as') k = record {
    at = λ t h.
        (Keeps-bind (k a) (λ b. Keeps-bind (Keeps-each f as' k) (λ bs. Keeps-pure (b ∷ bs)))).at t
          h;
  }

  pub Keeps-if :
      {A : Type 0} (b : Bool) {m n : Action S A}
      → Keeps P m
      → Keeps P n
      → Keeps P (if b then m else n)
  Keeps-if true km kn = km
  Keeps-if false km kn = kn

  pub Keeps-raise : {A : Type 0} (e : Error) → Keeps P (lift {S = S} {A = A} (raise e))
  unfolding lift
  Keeps-raise e = record { at = λ t h. tt }

-- Reads and checks of the tables keep anything.
module _ {P : Tables → Type 0} where
  pub Keeps-active_cycle_row : (c : ℕ) → Keeps P (active_cycle_row c)
  unfolding active_cycle_row
  Keeps-active_cycle_row c =
      search (Keeps-bind, Keeps-then, Keeps-guard, Keeps-pure, Keeps-gets, Keeps-or_raise)

  pub Keeps-active_maintenance_job_row : (j : ℕ) → Keeps P (active_maintenance_job_row j)
  unfolding active_maintenance_job_row
  Keeps-active_maintenance_job_row j =
      search (Keeps-bind, Keeps-then, Keeps-guard, Keeps-pure, Keeps-gets, Keeps-or_raise)

  pub Keeps-verify_existing_batch :
      (b : FactBatch) (p : Publication) (prepared : List PreparedFact)
      → Keeps P (verify_existing_batch b p prepared)
  unfolding verify_existing_batch
  Keeps-verify_existing_batch b p prepared =
      search (Keeps-bind, Keeps-then, Keeps-guard, Keeps-gets)

  pub Keeps-verify_maintenance_job :
      (j : MaintenanceJob) (kind : String) (requested : ℕ) (d : String) (ps : List PreparedTask)
      → Keeps P (verify_maintenance_job j kind requested d ps)
  unfolding verify_maintenance_job
  Keeps-verify_maintenance_job j kind requested d ps =
      search (Keeps-bind, Keeps-then, Keeps-guard, Keeps-gets)

  pub Keeps-check_cycle : (c : Option ℕ) → Keeps P (check_cycle c)
  Keeps-check_cycle none = Keeps-pure tt
  Keeps-check_cycle (some c) = Keeps-then (Keeps-active_cycle_row c) (Keeps-pure tt)

  pub Keeps-check_task : (c task_id : Option ℕ) → Keeps P (check_task c task_id)
  Keeps-check_task c none = Keeps-pure tt
  Keeps-check_task c (some task_id) = search (Keeps-bind, Keeps-guard, Keeps-gets)

  pub Keeps-check_maintenance : (task_id : Option ℕ) → Keeps P (check_maintenance task_id)
  Keeps-check_maintenance none = Keeps-pure tt
  Keeps-check_maintenance (some task_id) = search (Keeps-bind, Keeps-guard, Keeps-gets)

  pub Keeps-check_source : (p : PreparedFact) → Keeps P (check_source p)
  unfolding check_source
  Keeps-check_source p = search (Keeps-bind, Keeps-guard, Keeps-gets)

  pub Keeps-reread : (row : SyncTask) → Keeps P (reread row)
  unfolding reread
  Keeps-reread row = search (Keeps-bind, Keeps-or_raise, Keeps-gets)

  pub Keeps-reread_job_task : (row : MaintenanceTask) → Keeps P (reread_job_task row)
  unfolding reread_job_task
  Keeps-reread_job_task row = search (Keeps-bind, Keeps-or_raise, Keeps-gets)

pub ruleset keeping = (
  Keeps-active_cycle_row, Keeps-active_maintenance_job_row, Keeps-verify_existing_batch,
  Keeps-verify_maintenance_job, Keeps-check_cycle, Keeps-check_task, Keeps-check_maintenance,
  Keeps-check_source, Keeps-reread, Keeps-reread_job_task, Keeps-if, Keeps-raise, Keeps-bind,
  Keeps-then, Keeps-guard, Keeps-pure, Keeps-gets, Keeps-or_raise, Keeps-each,
)

pub put_encoded_blob_keeps :
    (P : Tables → Type 0)
    → ((t : Tables) (b : Blob) → P t → P (record t { payload_blobs = t.payload_blobs ++ b ∷ [] }))
    → (d : String) (raw : Fields) (t : Tables) → P t
    → P (put_encoded_blob d raw t)
unfolding put_encoded_blob
put_encoded_blob_keeps P k d raw t h = elim (Bool-cases (any (has_digest d) t.payload_blobs)) [
  | inl e ↦ simp e h
  | inr e ↦ simp e (k t _ h)
]
