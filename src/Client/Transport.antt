-- ===== src/Client/Transport.antt =====
-- The choice between REST and GraphQL of `GitHubClient` in gh_puller/github/client.py.
use gh_puller.Base.{
  Bool, Option, String, false, if◌then◌else◌, leb, ltb, nat_instance, none, not, option_instance,
  refl, some, text_instance, true, ℕ, ◌&&◌, ◌*◌, ◌-◌, ◌==◌, ◌||◌, ◌≡◌,
}
use gh_puller.Client.Quota.{Limits, RateQuota, quota_of}

pub data Transport : Type 0 where
  rest graphql : Transport

-- `remaining / limit` of a quota as a fraction, 1 where it is not known.
pub record Fraction : Type 0 where
  pub over : ℕ
  pub under : ℕ

abbrev pub whole : Fraction
whole = record { over = 1; under = 1 }

abbrev pub passed : Option ℕ → ℕ → Bool
passed none now = false
passed (some reset) now = leb reset now

abbrev pub share : Option ℕ → Option ℕ → Fraction
share (some remaining) (some limit) =
    if limit == 0 then whole else record { over = remaining; under = limit }
share (some remaining) none = whole
share none limit = whole

abbrev pub capacity : Option RateQuota → ℕ → Fraction
capacity none now = whole
capacity (some q) now = if passed q.reset_at now then whole else share q.remaining q.limit

-- `_quota_capacity`.
unfoldable pub quota_capacity : String → ℕ → Limits → Fraction
quota_capacity resource now s = capacity (quota_of resource s) now

abbrev pub until_reset : Option RateQuota → ℕ → ℕ
until_reset none now = 0
until_reset (some q) now = elim q.reset_at [ none ↦ 0 | some reset ↦ reset - now ]

-- `_quota_wait`.
unfoldable pub quota_wait : String → ℕ → Limits → ℕ
quota_wait resource now s = until_reset (quota_of resource s) now

abbrev pub exceeds : Fraction → Fraction → Bool
exceeds a b = ltb (b.over * a.under) (a.over * b.under)

-- `_transport_order`, as whether REST comes first.
unfoldable pub rest_first : Bool → Bool → String → ℕ → Limits → Bool
rest_first authenticated rest_cached rest_resource now s =
    let rest_capacity = quota_capacity rest_resource now s in
    let graphql_capacity = quota_capacity "graphql" now s in
    if not authenticated
    then true
    else if rest_cached && ltb 0 rest_capacity.over
    then true
    else if exceeds rest_capacity graphql_capacity
    then true
    else rest_capacity.over == 0
      && graphql_capacity.over == 0
      && ltb (quota_wait rest_resource now s) (quota_wait "graphql" now s)

abbrev pub in_order : Bool → Transport × Transport
in_order true = (Transport.rest, Transport.graphql)
in_order false = (Transport.graphql, Transport.rest)

-- How one attempt ends: `_PrimaryRateLimitError`, another `GitHubAPIError`, or its resource.
pub data Attempt (A E : Type 0) : Type 0 where
  answered : A → Attempt A E
  limited : Attempt A E
  failed : E → Attempt A E

abbrev pub same_transport : Transport → Transport → Bool
same_transport rest rest = true
same_transport graphql graphql = true
same_transport _ _ = false

module _ {A E : Type 0} where
  abbrev pub is_limited : Attempt A E → Bool
  is_limited limited = true
  is_limited (answered a) = false
  is_limited (failed e) = false

  abbrev pub is_answered : Attempt A E → Bool
  is_answered (answered a) = true
  is_answered limited = false
  is_answered (failed e) = false

-- The first transport of an order that passes the test, where one of the two does.
abbrev pub pick : Transport × Transport → (Transport → Bool) → Transport
pick (first, second) test = if test first then first else second

-- `_either` over the operations of the two transports, which share the client's state; the
-- operations and the order are the client's.
module _ {S A E : Type 0} (operation : Transport → Bool → S → Attempt A E × S)
    (order : S → Transport × Transport) where
  -- After two attempts without an answer: the preferred limited transport waits, or the first
  -- failure is raised.
  abbrev pub settle_attempts :
      Transport × Attempt A E → Transport × Attempt A E → S → Attempt A E × S
  settle_attempts (first, failed e) (second, failed e') s = (failed e, s)
  settle_attempts (first, a) (second, b) s =
      operation
        (pick (order s)
          (λ t. same_transport t first && is_limited a || same_transport t second && is_limited b))
        true s

  abbrev pub second_attempt :
      Transport × Attempt A E → Transport → Attempt A E × S → Attempt A E × S
  second_attempt first second (answered a, s) = (answered a, s)
  second_attempt first second (limited, s) = settle_attempts first (second, limited) s
  second_attempt first second (failed e, s) = settle_attempts first (second, failed e) s

  abbrev pub first_attempt : Transport → Transport → Attempt A E × S → Attempt A E × S
  first_attempt first second (answered a, s) = (answered a, s)
  first_attempt first second (limited, s) =
      second_attempt (first, limited) second (operation second false s)
  first_attempt first second (failed e, s) =
      second_attempt (first, failed e) second (operation second false s)

  unfoldable pub either : S → Attempt A E × S
  either s = first_attempt (order s).0 (order s).1 (operation (order s).0 false s)

  waits_settle :
      ((t : Transport) (s : S) → is_limited (operation t true s).0 ≡ false)
      → (first second : Transport) (a b : Attempt A E) (s : S) → is_answered a ≡ false
      → is_answered b ≡ false
      → is_limited (settle_attempts (first, a) (second, b) s).0 ≡ false
  waits_settle waits first second (answered a) b s na nb = absurd (cc)
  waits_settle waits first second limited b s na nb = waits _ s
  waits_settle waits first second (failed e) limited s na nb = waits _ s
  waits_settle waits first second (failed e) (failed e') s na nb = refl
  waits_settle waits first second (failed e) (answered a) s na nb = absurd (cc)

  waits_second :
      ((t : Transport) (s : S) → is_limited (operation t true s).0 ≡ false)
      → (first second : Transport) (a : Attempt A E) (x : Attempt A E × S) → is_answered a ≡ false
      → is_limited (second_attempt (first, a) second x).0 ≡ false
  waits_second waits first second a (answered b, s) na = refl
  waits_second waits first second a (limited, s) na =
      waits_settle waits first second a limited s na refl
  waits_second waits first second a (failed e, s) na =
      waits_settle waits first second a (failed e) s na refl

  waits_first :
      ((t : Transport) (s : S) → is_limited (operation t true s).0 ≡ false)
      → (first second : Transport) (x : Attempt A E × S)
      → is_limited (first_attempt first second x).0 ≡ false
  waits_first waits first second (answered a, s) = refl
  waits_first waits first second (limited, s) = waits_second waits first second limited _ refl
  waits_first waits first second (failed e, s) = waits_second waits first second (failed e) _ refl

  -- An operation that may wait never reports a primary limit, and so `_either` reports none.
  pub either-is_limited :
      (s : S)
      → ((t : Transport) (s : S) → is_limited (operation t true s).0 ≡ false)
      → is_limited (either s).0 ≡ false
  unfolding either
  either-is_limited s waits = waits_first waits (order s).0 (order s).1 _

  -- Where one of the two attempts without a wait has an answer, `_either` answers.
  pub either-is_answered :
      (s : S)
      → (is_answered (operation (order s).0 false s).0
          || is_answered (operation (order s).1 false (operation (order s).0 false s).1).0)
        ≡ true
      → is_answered (either s).0 ≡ true
  unfolding either
  either-is_answered s h = first (order s).0 (order s).1 (operation (order s).0 false s) h
    where
      second :
          (t u : Transport) (a : Attempt A E) (x : Attempt A E × S)
          → is_answered x.0 ≡ true
          → is_answered (second_attempt (t, a) u x).0 ≡ true
      second t u a (answered b, s) h = refl
      second t u a (limited, s) h = absurd (cc)
      second t u a (failed e, s) h = absurd (cc)

      first :
          (t u : Transport) (x : Attempt A E × S)
          → (is_answered x.0 || is_answered (operation u false x.1).0) ≡ true
          → is_answered (first_attempt t u x).0 ≡ true
      first t u (answered a, s) h = refl
      first t u (limited, s) h = second t u limited _ h
      first t u (failed e, s) h = second t u (failed e) _ h
