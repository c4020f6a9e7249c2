-- ===== src/Lens/Dist/Read.antt =====
-- What a read of a distribution reports.
use mathlib.Core.List.{Mem, Perm}
use mathlib.Core.Logic.Or
use mathlib.Core.List.Perm
use mathlib.Core.List.{Pairwise}
use optics_light.Qsort.{Qsort, not_after, IsOrderOn, IsQsort}
use optics_light.Floating.{Floating}
use optics_light.Lens.{Lens, Two, at_epoch, DistEpoch, dist_ptr, busy}
use optics_light.Lens.Dist.{
  DistValue, lens_dist_p, lens_dist_reservoir_len, zero_double, lens_dist_value_cmp, lens_dist_read,
  optics_dist_samples,
}
use optics_light.Lens.Dist.Reservoir.{Records}
use optics_light.Prelude.{
  ℕ, ◌*◌, ◌/◌, ◌≤◌, ◌<◌, ◌≡◌, refl, some, List, ◌++◌, true, leb, if◌then◌else◌, length, take, drop,
  get_or, min, arith,
}

-- A percentile below 100 is an index into the values that are kept.
pub lens_dist_p-lt : (percentile n : ℕ) → percentile < 100 → 0 < n → lens_dist_p percentile n < n
unfolding lens_dist_p
lens_dist_p-lt percentile n h pos =
    let bound : n * percentile < n * 100 = grind arith in omega arith

abbrev kept_len : ℕ → ℕ
kept_len n = if leb n optics_dist_samples then n else optics_dist_samples

module _ {D : Type 0} ⦃fp : Floating D⦄ where
  -- The difference of the first and the second, as an `int`, is not positive.
  unfoldable pub InOrder : D → D → Type 0
  InOrder a b = not_after (fp.int_sign (fp.sub a b)) ≡ true

  -- The report on an epoch in which `vs` were recorded. The percentiles are those of the kept values,
  -- all of them where there are at most 200.
  pub record Reports (vs : List D) (value : DistValue D) : Type 0 where
    pub n : value.n ≡ length vs
    pub kept : List D
    pub count : length kept ≡ min 200 (length vs)
    pub recorded : (x : D) → Mem x kept → Mem x vs
    pub all : length vs ≤ 200 → kept ≡ vs
    pub sorted : List D
    pub arranged : Perm sorted kept
    pub in_order : IsOrderOn lens_dist_value_cmp kept → Pairwise InOrder sorted
    pub p50 : value.p50 ≡ get_or sorted (length kept * 50 / 100) zero_double
    pub p90 : value.p90 ≡ get_or sorted (length kept * 90 / 100) zero_double
    pub p99 : value.p99 ≡ get_or sorted (length kept * 99 / 100) zero_double
    pub mem_p50 : Mem value.p50 vs
    pub mem_p90 : Mem value.p90 vs
    pub mem_p99 : Mem value.p99 vs

  -- What a read copies out of an epoch.
  abbrev copied : DistEpoch D → DistValue D → DistValue D
  copied e value = record value {
    n = e.n;
    max = if fp.lt value.max e.max then e.max else value.max;
    samples =
        take (lens_dist_reservoir_len e.n) e.samples
        ++ drop (lens_dist_reservoir_len e.n) value.samples;
  }

module _ {D : Type 0} ⦃fp : Floating D⦄ (qsort : Qsort D) (q : IsQsort qsort) where
  module _ (vs : List D) (e : DistEpoch D) (r : Records vs e) (some_value : 0 < length vs) where
    abbrev kept_values : List D
    kept_values = take (kept_len e.n) e.samples

    abbrev sorted_values : List D
    sorted_values = qsort lens_dist_value_cmp kept_values

  -- While a recorder holds the lock of the epoch a read reports that it is busy and changes nothing.
  pub lens_dist_read-busy :
      (lens : Lens D) (d : Two (DistEpoch D)) (epoch : ℕ) (value : DistValue D)
      → dist_ptr lens.sub ≡ some d
      → (at_epoch d epoch).locked ≡ true
      → lens_dist_read qsort lens epoch value ≡ (busy, value, lens)
  unfolding lens_dist_read
  lens_dist_read-busy lens d epoch value is held = rw (is, lens_dist_read) (rw held refl)
