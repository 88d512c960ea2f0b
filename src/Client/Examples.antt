-- ===== src/Client/Examples.antt =====
-- Small quotas on which the theorems of the client's rules are used.
use gh_puller.Base.{ap, Bool, String, [], arith, false, refl, some, true, ℕ, ◌+◌, ◌∷◌, ◌≡◌, ◌≤◌}
use gh_puller.Client.Limits.{drop_block, until_of, Wait, blocked_until, wait_for_limit}
use gh_puller.Client.Limits.Waits.{Blocked, select-not_find, wait_for_limit-ready}
use gh_puller.Client.Quota.{Limits, RateQuota, Response, RetryAfter, quota_of, remember_quota}
use gh_puller.Client.Quota.Samples.{remember_quota-remaining, remember_quota-remember_quota}
use gh_puller.Client.Transport.{
  Attempt, Transport, either, either-is_answered, either-is_limited, in_order, is_answered,
  is_limited,
}

abbrev core : RateQuota
core = record { resource = "core"; limit = some 5000; remaining = some 10; reset_at = some 3000000 }

abbrev limits : Limits
limits = record {
  quotas = core ∷ [];
  primary_blocked_until = (record { resource = "core"; until = 7 }) ∷ [];
  secondary_blocked_until = 4;
}

abbrev answer : ℕ → Response
answer n = record {
  status = 200;
  limit = some 5000;
  remaining = some n;
  reset = some 3;
  reset_float = some 3000000;
  retry_after = RetryAfter.absent;
}

remember_quota-remember_quota_example :
    quota_of "core"
      (remember_quota (answer 8) "core" false (remember_quota (answer 9) "core" false limits))
    ≡ quota_of "core"
        (remember_quota (answer 9) "core" false (remember_quota (answer 8) "core" false limits))
remember_quota-remember_quota_example =
    remember_quota-remember_quota (answer 9) (answer 8) "core" 5000 3 limits refl refl refl refl
      refl refl

remember_quota-remaining_example :
    (q' : RateQuota) × (k : ℕ) × (quota_of "core" (remember_quota (answer 8) "core" false limits)
      ≡ some q')
    × (q'.remaining ≡ some k)
    × (k ≤ 10)
remember_quota-remaining_example =
    remember_quota-remaining (answer 8) "core" limits core 10 3 3000000 refl refl refl refl refl
      refl

abbrev exact_sleep : ℕ → ℕ → ℕ
exact_sleep d now = now + d

-- A new quota window drops the block of the resource that is waited for.
abbrev new_window : ℕ → Limits → Limits
new_window now s = record s { primary_blocked_until = drop_block "core" s.primary_blocked_until }

new_window-Blocked :
    (now : ℕ) (s : Limits) → Blocked "core" 0 7 s → Blocked "core" 0 7 (new_window now s)
new_window-Blocked now s h =
    let gone = ap until_of (select-not_find "core" s.primary_blocked_until) in
    (omega arith, omega (arith, h.1, gone))

wait_for_limit-ready_example :
    (s' : Limits) × (n : ℕ) × (wait_for_limit exact_sleep new_window 9 "core" true limits 5
      ≡ Wait.ready s' n)
    × (0 ≤ n)
    × (blocked_until "core" s' ≤ n)
wait_for_limit-ready_example =
    wait_for_limit-ready exact_sleep new_window "core" 0 7 (λ d now. omega arith) new_window-Blocked
      9 limits 5 (omega arith, omega arith) (omega arith)

-- Without others the caller waits for the block that it has found.
wait_for_limit_alone :
    (s' : Limits) × (n : ℕ) × (wait_for_limit exact_sleep (λ now s. s) 9 "core" true limits 5
      ≡ Wait.ready s' n)
    × (7 ≤ n)
    × (blocked_until "core" s' ≤ n)
wait_for_limit_alone =
    wait_for_limit-ready exact_sleep (λ now s. s) "core" 7 7 (λ d now. omega arith) (λ now s h. h) 9
      limits 5 (omega arith, omega arith) (omega arith)

-- REST is limited and waits; GraphQL fails.
abbrev operation : Transport → Bool → ℕ → Attempt ℕ String × ℕ
operation Transport.rest true s = (Attempt.answered 1, s + 1)
operation Transport.rest false s = (Attempt.limited, s + 1)
operation Transport.graphql wait s = (Attempt.failed "no", s + 1)

abbrev order : ℕ → Transport × Transport
order s = in_order true

either-is_limited_example : is_limited (either operation order 0).0 ≡ false
either-is_limited_example = either-is_limited operation order 0 waits
  where
    waits : (t : Transport) (s : ℕ) → is_limited (operation t true s).0 ≡ false
    waits Transport.rest s = refl
    waits Transport.graphql s = refl

-- GraphQL answers where REST is limited.
abbrev graphql_answers : Transport → Bool → ℕ → Attempt ℕ String × ℕ
graphql_answers Transport.rest wait s = (Attempt.limited, s)
graphql_answers Transport.graphql wait s = (Attempt.answered s, s)

either-is_answered_example : is_answered (either graphql_answers order 0).0 ≡ true
either-is_answered_example = either-is_answered graphql_answers order 0 refl
