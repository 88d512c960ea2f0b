-- ===== src/Client/Limits.antt =====
-- The blocks and the waits of `GitHubClient` in gh_puller/github/client.py.
pub mod Waits
pub mod Blocks
use gh_puller.Base.{
  Bool, List, Option, String, [], any, false, find, if◌then◌else◌, leb, max, min, nat_instance,
  none, not, option_instance, select, some, suc, text_instance, true, update, zero, ℕ, ◌&&◌, ◌*◌,
  ◌++◌, ◌+◌, ◌-◌, ◌==◌, ◌^◌, ◌∷◌,
}
use gh_puller.Client.Quota.{
  Block, Limits, RateQuota, Response, RetryAfter, primary_reset, quota_of, second,
}

abbrev pub block_is : String → Block → Bool
block_is resource b = b.resource == resource

abbrev pub until_of : Option Block → ℕ
until_of none = 0
until_of (some b) = b.until

-- `self._primary_blocked_until.get(resource, 0.0)`.
abbrev pub primary_until : String → Limits → ℕ
primary_until resource s = until_of (find (block_is resource) s.primary_blocked_until)

-- `self._primary_blocked_until[resource] = max(…)`.
abbrev pub raise_block : String → ℕ → List Block → List Block
raise_block resource until bs =
    if any (block_is resource) bs
    then update (block_is resource) (λ b. record b { until = max b.until until }) bs
    else bs ++ (record { resource = resource; until = max 0 until }) ∷ []

abbrev pub drop_block : String → List Block → List Block
drop_block resource bs = select (λ b. not (block_is resource b)) bs

abbrev pub latest_remaining : Option RateQuota → ℕ → ℕ
latest_remaining none n = n
latest_remaining (some q) n = elim q.remaining [ none ↦ n | some m ↦ m ]

abbrev pub block_at : String → Option ℕ → Limits → Limits
block_at resource none s = s
block_at resource (some reset) s = record s {
  primary_blocked_until = raise_block resource (reset + second) s.primary_blocked_until;
}

-- The part of `_remember_primary_limit` for a response that states what remains.
abbrev pub limit_known : Response → String → ℕ → Limits → Bool × Limits
limit_known r resource n s =
    if latest_remaining (quota_of resource s) n == 0
    then (true, block_at resource (primary_reset r resource s) s)
    else (false, record s { primary_blocked_until = drop_block resource s.primary_blocked_until })

-- `_remember_primary_limit`; a remaining count is never negative here.
unfoldable pub remember_primary_limit : Response → String → Limits → Bool × Limits
remember_primary_limit r resource s = elim r.remaining [
  | none ↦ (false, s)
  | some n ↦ limit_known r resource n s
]

abbrev pub reset_wait : Bool → Option ℕ → ℕ → ℕ → ℕ
reset_wait true (some reset) attempt now = max (reset + second - now) second
reset_wait true none attempt now = min (60 * 2 ^ attempt) 900 * second
reset_wait false reset attempt now = min (60 * 2 ^ attempt) 900 * second

abbrev pub header_wait : RetryAfter → ℕ → ℕ → ℕ
header_wait (RetryAfter.seconds n) now other = max n second
header_wait (RetryAfter.date at) now other = max (at - now) second
header_wait RetryAfter.absent now other = other
header_wait RetryAfter.unreadable now other = other

-- The wait of `_rate_limit_wait`.
unfoldable pub rate_limit_wait : Response → ℕ → String → Bool → ℕ → Limits → ℕ
rate_limit_wait r attempt resource primary now s =
    header_wait r.retry_after now (reset_wait primary (primary_reset r resource s) attempt now)

-- What `_wait_after_rate_limit` blocks before it waits.
unfoldable pub block_after : Response → ℕ → String → Bool → ℕ → Limits → Limits
block_after r attempt resource primary now s =
    let until = now + rate_limit_wait r attempt resource primary now s in
    if primary
    then record s { primary_blocked_until = raise_block resource until s.primary_blocked_until }
    else record s { secondary_blocked_until = max s.secondary_blocked_until until }

-- The blocks that have passed are dropped.
unfoldable pub clear_passed : String → ℕ → Limits → Limits
clear_passed resource now s = record s {
  primary_blocked_until =
      if leb (primary_until resource s) now
      then drop_block resource s.primary_blocked_until
      else s.primary_blocked_until;
  secondary_blocked_until =
      if leb s.secondary_blocked_until now then 0 else s.secondary_blocked_until;
}

abbrev pub blocked_until : String → Limits → ℕ
blocked_until resource s = max (primary_until resource s) s.secondary_blocked_until

-- `_LIMIT_RECHECK_SECONDS`.
abbrev pub recheck : ℕ
recheck = 30 * second

-- The end of a wait: the request may go out, the caller does not wait for a primary limit, or the
-- fuel is spent.
pub data Wait : Type 0 where
  ready : Limits → ℕ → Wait
  refused : Limits → Wait
  spent : Wait

-- `_wait_for_limit`, whose clock reads `sleep d now` after a sleep of `d` at `now`. The limits are
-- shared: what the other coroutines make of them during a sleep that ends at `now` is `meanwhile now`.
module _ (sleep : ℕ → ℕ → ℕ) (meanwhile : ℕ → Limits → Limits) where
  unfoldable pub wait_for_limit : ℕ → String → Bool → Limits → ℕ → Wait
  wait_for_limit zero resource primary_wait s now = spent
  wait_for_limit (suc fuel) resource primary_wait s now =
      let cleared = clear_passed resource now s in
      let until = blocked_until resource cleared in
      let woken = sleep (min (until - now) recheck) now in
      let again = wait_for_limit fuel resource primary_wait (meanwhile woken cleared) woken in
      if leb until now
      then ready cleared now
      else if leb cleared.secondary_blocked_until (primary_until resource cleared)
          && not primary_wait
      then refused cleared
      else again
