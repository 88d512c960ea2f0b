-- ===== src/Client/Quota.antt =====
-- The quota windows that `GitHubClient` remembers of its responses, in
-- gh_puller/github/client.py. Times are microseconds of UTC.
pub mod Samples
use gh_puller.Base.{
  Bool, List, Option, String, [], any, false, find, if◌then◌else◌, leb, ltb, max, min, nat_instance,
  none, option_instance, some, text_instance, true, update, ℕ, ◌&&◌, ◌*◌, ◌++◌, ◌+◌, ◌==◌, ◌∷◌,
}

-- `RateQuota` of gh_puller/github/progress.py.
pub record RateQuota : Type 0 where
  pub resource : String
  pub limit : Option ℕ
  pub remaining : Option ℕ
  pub reset_at : Option ℕ

-- The `retry-after` header, as `float` and `parsedate_to_datetime` read it.
pub data RetryAfter : Type 0 where
  absent unreadable : RetryAfter
  seconds : ℕ → RetryAfter
  date : ℕ → RetryAfter

-- What the rules read of a response: its status and its headers, each as `_integer_header` or
-- `_rate_limit_wait` parses it; the reset is in seconds, and
-- once more in microseconds as `float` reads it.
pub record Response : Type 0 where
  pub status : ℕ
  pub limit : Option ℕ
  pub remaining : Option ℕ
  pub reset : Option ℕ
  pub reset_float : Option ℕ
  pub retry_after : RetryAfter

pub record Block : Type 0 where
  pub resource : String
  pub until : ℕ

-- The client's `_quotas`, `_primary_blocked_until` and `_secondary_blocked_until`.
pub record Limits : Type 0 where
  pub quotas : List RateQuota
  pub primary_blocked_until : List Block
  pub secondary_blocked_until : ℕ

abbrev pub second : ℕ
second = 1000000

-- `_QUOTA_RESET_JITTER_SECONDS`.
abbrev pub jitter : ℕ
jitter = 5 * second

abbrev pub quota_is : String → RateQuota → Bool
quota_is resource q = q.resource == resource

-- `self._quotas.get(resource)`.
abbrev pub quota_of : String → Limits → Option RateQuota
quota_of resource s = find (quota_is resource) s.quotas

-- `self._quotas[q.resource] = q`.
abbrev pub put_quota : RateQuota → List RateQuota → List RateQuota
put_quota q qs =
    if any (quota_is q.resource) qs then update (quota_is q.resource) (λ _. q) qs else qs ++ q ∷ []

abbrev pub or_else : Option ℕ → Option ℕ → Option ℕ
or_else none b = b
or_else (some a) b = some a

abbrev pub to_micros : Option ℕ → Option ℕ
to_micros none = none
to_micros (some n) = some (n * second)

-- The quota that a response's headers state.
abbrev pub sample : String → Response → RateQuota
sample resource r = record {
  resource = resource;
  limit = r.limit;
  remaining = r.remaining;
  reset_at = to_micros r.reset;
}

-- The two resets differ by no more than the jitter.
abbrev pub same_window : ℕ → ℕ → Bool
same_window a b = leb a (b + jitter) && leb b (a + jitter)

abbrev pub denied_reset : Option ℕ → Option ℕ → Option ℕ
denied_reset none previous = previous
denied_reset (some a) none = some a
denied_reset (some a) (some b) = some (if same_window a b then max a b else a)

-- The branch of `_remember_quota` for a response that was denied.
abbrev pub denied : RateQuota → Option RateQuota → RateQuota
denied new none = new
denied new (some old) = record new {
  limit = or_else new.limit old.limit;
  reset_at = denied_reset new.reset_at old.reset_at;
}

abbrev pub fewer : Option ℕ → Option ℕ → Option ℕ
fewer none old = old
fewer (some n) none = some n
fewer (some n) (some m) = some (min m n)

abbrev pub combined : RateQuota → RateQuota → Option ℕ → RateQuota
combined new old reset_at = record {
  resource = new.resource;
  limit = or_else new.limit old.limit;
  remaining = fewer new.remaining old.remaining;
  reset_at = or_else reset_at old.reset_at;
}

-- The branch for other responses, with the resets of the sample and of the quota; `none` leaves
-- the quota as it is.
abbrev pub observed_window : RateQuota → RateQuota → Option ℕ → Option ℕ → Option RateQuota
observed_window new old (some a) (some b) =
    if ltb (a + jitter) b
    then none
    else if ltb (b + jitter) a
    then some new
    else some (combined new old (some (max a b)))
observed_window new old (some a) none = some (combined new old (some a))
observed_window new old none b = some (combined new old none)

abbrev pub observed : RateQuota → Option RateQuota → Option RateQuota
observed new none = some new
observed new (some old) = observed_window new old new.reset_at old.reset_at

abbrev pub store : Option RateQuota → Limits → Limits
store none s = s
store (some q) s = record s { quotas = put_quota q s.quotas }

abbrev pub learned : Bool → RateQuota → Option RateQuota → Option RateQuota
learned true new old = some (denied new old)
learned false new old = observed new old

-- `_remember_quota`.
unfoldable pub remember_quota : Response → String → Bool → Limits → Limits
remember_quota r resource primary_exhausted s =
    if r.status == 304
    then s
    else store (learned primary_exhausted (sample resource r) (quota_of resource s)) s

-- `_primary_reset`.
abbrev pub exhausted_reset : Option RateQuota → Option ℕ
exhausted_reset none = none
exhausted_reset (some q) = if q.remaining == some 0 then q.reset_at else none

unfoldable pub primary_reset : Response → String → Limits → Option ℕ
primary_reset r resource s = or_else (exhausted_reset (quota_of resource s)) r.reset_float
