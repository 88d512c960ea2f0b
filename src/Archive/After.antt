-- ===== src/Archive/After.antt =====
-- What holds after a step that returned.
use gh_puller.Archive.Action.{Action, Result, ok, raise, ◌>>=◌}
use gh_puller.Archive.Keeps.{Keeps, OnOk, OnOk-proceed}
use gh_puller.Archive.Model.{Tables}
use gh_puller.Base.{nat_instance, option_instance, text_instance}

-- An action continues from a state that keeps what held before.
pub OnOk-after :
    {A B : Type 0} {P : Tables → Type 0} (R : B → Tables → Type 0) {m : Action Tables A}
    (f : A → Action Tables B) {t : Tables}
    → Keeps P m
    → P t
    → ((a : A) (u : Tables) → P u → OnOk R (f a u))
    → OnOk R ((m >>= f) t)
unfolding ◌>>=◌
OnOk-after {P = P} R {m = m} f {t = t} k h g = OnOk-proceed (λ _. P) R (m t) f (k.at t h) g

pub OnOk-weaken :
    {S A : Type 0} {Q R : A → S → Type 0} (r : Result A × S)
    → ((a : A) (t : S) → Q a t → R a t)
    → OnOk Q r
    → OnOk R r
OnOk-weaken (ok a, t) f h = f a t h
OnOk-weaken (raise e, t) f h = tt

pub OnOk-mono :
    {S A : Type 0} {P Q : S → Type 0} (r : Result A × S)
    → ((t : S) → P t → Q t)
    → OnOk (λ _. P) r
    → OnOk (λ _. Q) r
OnOk-mono (ok a, t) f h = f t h
OnOk-mono (raise e, t) f h = tt
