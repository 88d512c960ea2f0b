-- ===== src/Archive/Facts/Order.antt =====
-- The order of observations by `_observation_order` in gh_puller/github/observations.py.
use gh_puller.Archive.Facts.{not_before}
use gh_puller.Archive.Model.{FactObservation}
use gh_puller.Base.{arith, false, true, ◌≡◌}

pub not_before_refl : (a : FactObservation) → not_before a a ≡ true
not_before_refl a = ground arith

pub not_before_trans :
    (a b c : FactObservation)
    → not_before a b ≡ true
    → not_before b c ≡ true
    → not_before a c ≡ true
not_before_trans a b c h k = ground arith

pub not_before_total : (a b : FactObservation) → not_before a b ≡ false → not_before b a ≡ true
not_before_total a b h = ground arith
