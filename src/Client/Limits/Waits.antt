-- ===== src/Client/Limits/Waits.antt =====
-- The wait before a request ends, whatever other requests do to the blocks within bounds.
use gh_puller.Base.{
  Bool, Bool-cases, List, String, [], ap, arith, false, find, if◌then◌else◌, inl, inr, leb, max,
  min, none, not, refl, suc, sym, true, zero, ℕ, ◌&&◌, ◌+◌, ◌-◌, ◌<◌, ◌∙◌, ◌∷◌, ◌≡◌, ◌≤◌,
}
use gh_puller.Client.Limits.{
  Wait, block_is, blocked_until, clear_passed, drop_block, primary_until, recheck, until_of,
  wait_for_limit,
}
use gh_puller.Client.Quota.{Block, Limits}

pub select-not_find :
    (resource : String) (bs : List Block) → find (block_is resource) (drop_block resource bs) ≡ none
select-not_find resource [] = refl
select-not_find resource (b ∷ bs) = elim (Bool-cases (block_is resource b)) [
  | inl e ↦ rw e (select-not_find resource bs)
  | inr e ↦ rw e (rw e (select-not_find resource bs))
]

abbrev kept : ℕ → ℕ → ℕ
kept until now = if leb until now then 0 else until

primary_until-clear :
    (resource : String) (now : ℕ) (s : Limits)
    → primary_until resource (clear_passed resource now s) ≡ kept (primary_until resource s) now
unfolding clear_passed
primary_until-clear resource now s = elim (Bool-cases (leb (primary_until resource s) now)) [
  | inl e ↦ rw e (ap until_of (select-not_find resource s.primary_blocked_until))
  | inr e ↦ rw e refl
]

blocked_until-clear :
    (resource : String) (now : ℕ) (s : Limits)
    → blocked_until resource (clear_passed resource now s)
      ≡ max (kept (primary_until resource s) now) (kept s.secondary_blocked_until now)
unfolding clear_passed
blocked_until-clear resource now s =
    ap (λ n. max n (kept s.secondary_blocked_until now)) (primary_until-clear resource now s)

passed_blocks : (p q now : ℕ) → leb (max (kept p now) (kept q now)) now ≡ true → max p q ≤ now
passed_blocks p q now h = ground arith

open_blocks :
    (p q now : ℕ)
    → leb (max (kept p now) (kept q now)) now ≡ false
    → (max (kept p now) (kept q now) ≡ max p q) × (now < max p q)
open_blocks p q now h = ground arith

and_not-true : (b : Bool) → (b && not true) ≡ false
and_not-true true = refl
and_not-true false = refl

module _ (sleep : ℕ → ℕ → ℕ) (meanwhile : ℕ → Limits → Limits) where
  wait_ends :
      (fuel : ℕ) (resource : String) (s : Limits) (now : ℕ)
      → leb (blocked_until resource (clear_passed resource now s)) now ≡ true
      → wait_for_limit sleep meanwhile (suc fuel) resource true s now
        ≡ Wait.ready (clear_passed resource now s) now
  unfolding wait_for_limit
  wait_ends fuel resource s now e = rw e refl

  -- When a caller that has found its request blocked looks again.
  abbrev woken : String → Limits → ℕ → ℕ
  woken resource s now =
      sleep (min (blocked_until resource (clear_passed resource now s) - now) recheck) now

  wait_goes_on :
      (fuel : ℕ) (resource : String) (s : Limits) (now : ℕ)
      → leb (blocked_until resource (clear_passed resource now s)) now ≡ false
      → wait_for_limit sleep meanwhile (suc fuel) resource true s now
        ≡ wait_for_limit sleep meanwhile fuel resource true
            (meanwhile (woken resource s now) (clear_passed resource now s))
            (woken resource s now)
  unfolding wait_for_limit
  wait_goes_on fuel resource s now e = rw e (
      rw
        (and_not-true (
          leb (clear_passed resource now s).secondary_blocked_until
            (primary_until resource (clear_passed resource now s))))
        refl)

-- The block of a resource lies between two times.
abbrev pub Blocked : String → ℕ → ℕ → Limits → Type 0
Blocked resource earliest latest s =
    (earliest ≤ blocked_until resource s) × (blocked_until resource s ≤ latest)

module _ (sleep : ℕ → ℕ → ℕ) (meanwhile : ℕ → Limits → Limits) (resource : String)
    (earliest latest : ℕ) (lasts : (d now : ℕ) → now + d ≤ sleep d now)
    (keeps : (now : ℕ) (s : Limits)
      → Blocked resource earliest latest s
      → Blocked resource earliest latest (meanwhile now s)) where
  -- Other coroutines raise and drop blocks while a caller waits. Where they keep the block of the
  -- resource between two times, `_wait_for_limit` with fuel for more rounds than the microseconds
  -- to the later one returns, no earlier than the earlier one, and with no block that is still open.
  pub wait_for_limit-ready :
      (fuel : ℕ) (s : Limits) (now : ℕ)
      → Blocked resource earliest latest s
      → latest - now < fuel
      → (s' : Limits) × (n : ℕ) × (wait_for_limit sleep meanwhile fuel resource true s now
          ≡ Wait.ready s' n)
        × (earliest ≤ n)
        × (blocked_until resource s' ≤ n)
  wait_for_limit-ready zero s now b h = absurd (omega (arith, h))
  wait_for_limit-ready (suc fuel) s now b h = elim (Bool-cases (leb until now)) [
    | inl e ↦
        let passed =
          passed_blocks (primary_until resource s) s.secondary_blocked_until now
            (ap (λ n. leb n now) (sym here) ∙ e) in
        (
          clear_passed resource now s,
          now,
          wait_ends sleep meanwhile fuel resource s now e,
          omega (arith, passed, b.0),
          ground arith,
        )
    | inr e ↦
        let (same, later) =
          open_blocks (primary_until resource s) s.secondary_blocked_until now
            (ap (λ n. leb n now) (sym here) ∙ e) in
        let unchanged : until ≡ blocked_until resource s = here ∙ same in
        let long = lasts (min (until - now) recheck) now in
        let awake = woken sleep meanwhile resource s now in
        let (s', n, runs, after, cleared) =
          wait_for_limit-ready fuel (meanwhile awake (clear_passed resource now s)) awake
            (keeps awake (clear_passed resource now s)
              (omega (arith, b.0, unchanged), omega (arith, b.1, unchanged)))
            (omega (arith, h, b.1, later, unchanged, long)) in
        (s', n, wait_goes_on sleep meanwhile fuel resource s now e ∙ runs, after, cleared)
  ]
    where
      until : ℕ
      until = blocked_until resource (clear_passed resource now s)

      here : until ≡ max (kept (primary_until resource s) now) (kept s.secondary_blocked_until now)
      here = blocked_until-clear resource now s
