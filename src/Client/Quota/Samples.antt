-- ===== src/Client/Quota/Samples.antt =====
-- What concurrent responses of one window do to the remembered quota.
use gh_puller.Base.{
  Bool-cases, List, Option, Option-cases, String, [], any, ap, arith, beq_refl, false, find,
  find-append_none, find-none_of_any, inl, inr, ltb, max, min, nat_instance, none, option_instance,
  refl, some, subst, sym, text_instance, true, update, ℕ, ◌*◌, ◌+◌, ◌==◌, ◌∙◌, ◌∷◌, ◌≡◌, ◌≤◌,
}
use gh_puller.Client.Quota.{
  Limits, RateQuota, Response, combined, fewer, jitter, observed, observed_window, put_quota,
  quota_is, quota_of, remember_quota, sample, second, store,
}

find-put_quota :
    (q : RateQuota) (qs : List RateQuota) → find (quota_is q.resource) (put_quota q qs) ≡ some q
find-put_quota q qs = elim (Bool-cases (any (quota_is q.resource) qs)) [
  | inl e ↦ rw e (replaced qs e)
  | inr e ↦ rw e (
      rw
        (find-append_none (quota_is q.resource) qs (q ∷ [])
          (find-none_of_any (quota_is q.resource) qs e))
        (rw (beq_refl q.resource) refl))
]
  where
    replaced :
        (xs : List RateQuota)
        → any (quota_is q.resource) xs ≡ true
        → find (quota_is q.resource) (update (quota_is q.resource) (λ _. q) xs) ≡ some q
    replaced [] e = absurd (ground arith)
    replaced (x ∷ xs) e = elim (Bool-cases (quota_is q.resource x)) [
      | inl i ↦ rw i (rw (beq_refl q.resource) refl)
      | inr i ↦ rw i (rw i (replaced xs (ground arith)))
    ]

-- What is stored for `resource` is a quota of it.
abbrev Named : String → Option RateQuota → Type 0
Named resource none = Unit
Named resource (some q) = q.resource ≡ resource

observed_window-Named :
    (new old : RateQuota) (a b : Option ℕ) → Named new.resource (observed_window new old a b)
observed_window-Named new old none b = refl
observed_window-Named new old (some a) none = refl
observed_window-Named new old (some a) (some b) = elim (Bool-cases (ltb (a + jitter) b)) [
  | inl e ↦ rw e tt
  | inr e ↦ elim (Bool-cases (ltb (b + jitter) a)) [
    | inl i ↦ rw e (rw i refl)
    | inr i ↦ rw e (rw i refl)
  ]
]

observed-Named : (new : RateQuota) (old : Option RateQuota) → Named new.resource (observed new old)
observed-Named new none = refl
observed-Named new (some old) = observed_window-Named new old new.reset_at old.reset_at

-- The quota after a sample, from the quota before it.
abbrev kept_or : Option RateQuota → Option RateQuota → Option RateQuota
kept_or none old = old
kept_or (some q) old = some q

abbrev after : RateQuota → Option RateQuota → Option RateQuota
after new old = kept_or (observed new old) old

quota_of-store :
    (resource : String) (o : Option RateQuota) (s : Limits)
    → Named resource o
    → quota_of resource (store o s) ≡ kept_or o (quota_of resource s)
quota_of-store resource none s h = refl
quota_of-store resource (some q) s h =
    subst (λ n. find (quota_is n) (put_quota q s.quotas) ≡ some q) h (find-put_quota q s.quotas)

quota_of-remember :
    (r : Response) (resource : String) (s : Limits)
    → (r.status == 304) ≡ false
    → quota_of resource (remember_quota r resource false s)
      ≡ after (sample resource r) (quota_of resource s)
unfolding remember_quota
quota_of-remember r resource s fresh = rw fresh (
    quota_of-store resource (observed (sample resource r) (quota_of resource s)) s
      (observed-Named (sample resource r) (quota_of resource s)))

-- Two samples of one window and one limit.
abbrev stated : String → ℕ → Option ℕ → ℕ → RateQuota
stated resource limit remaining reset = record {
  resource = resource;
  limit = some limit;
  remaining = remaining;
  reset_at = some reset;
}

fewer_comm : (a b c : Option ℕ) → fewer a (fewer b c) ≡ fewer b (fewer a c)
fewer_comm none b c = refl
fewer_comm (some a) none c = refl
fewer_comm (some a) (some b) none = ap some (ground arith)
fewer_comm (some a) (some b) (some c) = ap some (ground arith)

fewer_comm_none : (a b : Option ℕ) → fewer a b ≡ fewer b a
fewer_comm_none none none = refl
fewer_comm_none none (some b) = refl
fewer_comm_none (some a) none = refl
fewer_comm_none (some a) (some b) = ap some (ground arith)

after-stated :
    (resource : String) (limit a : ℕ) (m : Option ℕ) (old : RateQuota) (b : ℕ)
    → old.reset_at ≡ some b
    → ltb (a + jitter) b ≡ false
    → ltb (b + jitter) a ≡ false
    → after (stated resource limit m a) (some old)
      ≡ some (stated resource limit (fewer m old.remaining) (max a b))
after-stated resource limit a m old b e i j = rw e (rw i (rw j refl))

module _ (resource : String) (limit a : ℕ) where
  abbrev seen : Option ℕ → Option RateQuota → Option RateQuota
  seen m old = after (stated resource limit m a) old

  seen-some :
      (m n : Option ℕ)
      → seen m (some (stated resource limit n a))
        ≡ some (stated resource limit (fewer m n) (max a a))
  seen-some m n =
      after-stated resource limit a m (stated resource limit n a) a refl (ground arith)
        (ground arith)

  seen_new : (m n : Option ℕ) → seen m (seen n none) ≡ seen n (seen m none)
  seen_new m n =
      seen-some m n
      ∙ ap (λ k. some (stated resource limit k (max a a))) (fewer_comm_none m n)
      ∙ sym (seen-some n m)

  seen_undated :
      (m n : Option ℕ) (old : RateQuota)
      → old.reset_at ≡ none
      → seen m (seen n (some old)) ≡ seen n (seen m (some old))
  seen_undated m n old e = rw e (
      seen-some m (fewer n old.remaining)
      ∙ ap (λ k. some (stated resource limit k (max a a))) (fewer_comm m n old.remaining)
      ∙ sym (seen-some n (fewer m old.remaining)))

  seen_older :
      (m n : Option ℕ) (old : RateQuota) (b : ℕ)
      → old.reset_at ≡ some b
      → ltb (a + jitter) b ≡ true
      → seen m (some old) ≡ some old
  seen_older m n old b e i = rw e (rw i refl)

  seen_newer :
      (m : Option ℕ) (old : RateQuota) (b : ℕ)
      → old.reset_at ≡ some b
      → ltb (a + jitter) b ≡ false
      → ltb (b + jitter) a ≡ true
      → seen m (some old) ≡ seen m none
  seen_newer m old b e i j = rw e (rw i (rw j refl))

  seen_same :
      (m n : Option ℕ) (old : RateQuota) (b : ℕ)
      → old.reset_at ≡ some b
      → ltb (a + jitter) b ≡ false
      → ltb (b + jitter) a ≡ false
      → seen m (seen n (some old))
        ≡ some (stated resource limit (fewer m (fewer n old.remaining)) (max a (max a b)))
  seen_same m n old b e i j =
      ap (seen m) (after-stated resource limit a n old b e i j)
      ∙ after-stated resource limit a m (stated resource limit (fewer n old.remaining) (max a b))
          (max a b) refl (ground arith) (ground arith)

  seen_dated :
      (m n : Option ℕ) (old : RateQuota) (b : ℕ)
      → old.reset_at ≡ some b
      → seen m (seen n (some old)) ≡ seen n (seen m (some old))
  seen_dated m n old b e = elim (Bool-cases (ltb (a + jitter) b)) [
    | inl i ↦
        ap (seen m) (seen_older n n old b e i)
        ∙ seen_older m m old b e i
        ∙ sym (ap (seen n) (seen_older m m old b e i) ∙ seen_older n n old b e i)
    | inr i ↦ elim (Bool-cases (ltb (b + jitter) a)) [
      | inl j ↦
          ap (seen m) (seen_newer n old b e i j)
          ∙ seen_new m n
          ∙ sym (ap (seen n) (seen_newer m old b e i j))
      | inr j ↦
          seen_same m n old b e i j
          ∙ ap (λ k. some (stated resource limit k (max a (max a b))))
              (fewer_comm m n old.remaining)
          ∙ sym (seen_same n m old b e i j)
    ]
  ]

  seen_comm : (m n : Option ℕ) (old : Option RateQuota) → seen m (seen n old) ≡ seen n (seen m old)
  seen_comm m n none = seen_new m n
  seen_comm m n (some old) = elim (Option-cases old.reset_at) [
    | inl e ↦ seen_undated m n old e
    | inr (b, e) ↦ seen_dated m n old b e
  ]

-- Two responses, neither of them a 304 nor a denial, that state the same limit and the same reset
-- leave the same quota in either order, whatever quota was remembered before them.
pub remember_quota-remember_quota :
    (first last : Response) (resource : String) (limit reset : ℕ) (s : Limits)
    → (first.status == 304) ≡ false
    → (last.status == 304) ≡ false
    → first.limit ≡ some limit
    → last.limit ≡ some limit
    → first.reset ≡ some reset
    → last.reset ≡ some reset
    → quota_of resource (remember_quota last resource false (remember_quota first resource false s))
      ≡ quota_of resource
          (remember_quota first resource false (remember_quota last resource false s))
remember_quota-remember_quota first last resource limit reset s sf sl lf ll rf rl =
    both last first sl sf ∙ swapped ∙ sym (both first last sf sl)
  where
    both :
        (r u : Response)
        → (r.status == 304) ≡ false
        → (u.status == 304) ≡ false
        → quota_of resource (remember_quota r resource false (remember_quota u resource false s))
          ≡ after (sample resource r) (after (sample resource u) (quota_of resource s))
    both r u hr hu =
        quota_of-remember r resource (remember_quota u resource false s) hr
        ∙ ap (after (sample resource r)) (quota_of-remember u resource s hu)

    sampled :
        (r : Response)
        → r.limit ≡ some limit
        → r.reset ≡ some reset
        → sample resource r ≡ stated resource limit r.remaining (reset * second)
    sampled r hl hr = rw (hl, hr) refl

    swapped :
        after (sample resource last) (after (sample resource first) (quota_of resource s))
        ≡ after (sample resource first) (after (sample resource last) (quota_of resource s))
    swapped =
        rw (sampled first lf rf, sampled last ll rl)
          (seen_comm resource limit (reset * second) last.remaining first.remaining
            (quota_of resource s))

-- A response of the remembered window, or of an earlier one, that is neither a 304 nor a denial
-- leaves no more remaining than was remembered.
pub remember_quota-remaining :
    (r : Response) (resource : String) (s : Limits) (q : RateQuota) (n reset b : ℕ)
    → (r.status == 304) ≡ false
    → quota_of resource s ≡ some q
    → q.remaining ≡ some n
    → q.reset_at ≡ some b
    → r.reset ≡ some reset
    → ltb (b + jitter) (reset * second) ≡ false
    → (q' : RateQuota) × (k : ℕ) × (quota_of resource (remember_quota r resource false s) ≡ some q')
      × (q'.remaining ≡ some k)
      × (k ≤ n)
remember_quota-remaining r resource s q n reset b fresh known left dated restates window =
    elim (Bool-cases (ltb (reset * second + jitter) b)) [
      | inl i ↦ (
        q,
        n,
        quota_of-remember r resource s fresh
            ∙ ap (after (sample resource r)) known
            ∙ rw (restates, dated) (rw i refl),
        left,
        omega arith,
      )
      | inr i ↦
          let q' = combined (sample resource r) q (some (max (reset * second) b)) in
          let (k, e, le) = fewer-le r.remaining n in
          (
            q',
            k,
            quota_of-remember r resource s fresh
                ∙ ap (after (sample resource r)) known
                ∙ rw (restates, dated) (rw i (rw window refl)),
            ap (fewer r.remaining) left ∙ e,
            le,
          )
    ]
  where
    fewer-le : (m : Option ℕ) (n : ℕ) → (k : ℕ) × (fewer m (some n) ≡ some k) × (k ≤ n)
    fewer-le none n = (n, refl, omega arith)
    fewer-le (some m) n = (min n m, refl, omega arith)
