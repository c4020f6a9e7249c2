-- ===== src/Lens/Dist.antt =====
-- The distribution lens: src/lens_dist.c.
pub mod Reservoir
pub mod Read
use optics_light.Floating.{Floating}
use optics_light.Qsort.{Sign, Qsort}
use optics_light.Rng.{rng_gen_range}
use optics_light.Lens.{
  Lens, at_epoch, set_epoch, both, DistEpoch, dist, dist_ptr, OpticsRet, ok, err, busy, lens_alloc,
  optics_dist_samples,
}
use optics_light.Prelude.{
  ℕ, ◌+◌, ◌*◌, ◌/◌, ◌%◌, ◌^◌, Option, none, some, List, ◌++◌, Bool, true, false, ltb, leb, ◌==◌,
  if◌then◌else◌, take, drop, get_or, set, replicate,
}

-- `struct optics_dist`
pub record DistValue (D : Type 0) : Type 0 where
  pub n : ℕ
  pub p50 : D
  pub p90 : D
  pub p99 : D
  pub max : D
  pub samples : List D

-- `lens_dist_p` and `lens_dist_reservoir_len`
unfoldable pub lens_dist_p : ℕ → ℕ → ℕ
lens_dist_p percentile n = (n * percentile) / 100

unfoldable pub lens_dist_reservoir_len : ℕ → ℕ
lens_dist_reservoir_len len = if ltb optics_dist_samples len then optics_dist_samples else len

-- The cell that the `n`-th value goes to, with the state of the thread's generator: the next one,
-- and a random one once all are taken.
unfoldable pub slot_of : ℕ → ℕ → ℕ × ℕ
slot_of n rng = if leb optics_dist_samples n then rng_gen_range rng 0 n else (n, rng)

module _ {D : Type 0} ⦃fp : Floating D⦄ where
  -- A double of zero bits.
  abbrev pub zero_double : D
  zero_double = fp.of_bits 0

  abbrev pub empty_epoch : DistEpoch D
  empty_epoch = record {
    locked = false;
    n = 0;
    max = zero_double;
    samples = replicate optics_dist_samples zero_double;
  }

  unfoldable pub lens_dist_alloc : Bool → List ℕ → Option (Lens D)
  lens_dist_alloc has_memory name = lens_alloc has_memory (dist (both empty_epoch)) name

  -- What `lens_dist_record` does between taking the lock and giving it back.
  unfoldable pub record_epoch : DistEpoch D → D → ℕ → DistEpoch D × ℕ
  record_epoch e value rng =
      let (i, rng') = slot_of e.n rng in
      (
        record {
          locked = false;
          n = (e.n + 1) % 2 ^ 64;
          max = if fp.lt e.max value then value else e.max;
          samples = if ltb i optics_dist_samples then set e.samples i value else e.samples;
        },
        rng',
      )

  unfoldable pub lens_dist_record : Lens D → ℕ → D → ℕ → Bool × Lens D × ℕ
  lens_dist_record lens epoch value rng = elim (dist_ptr lens.sub) [
    | none ↦ (false, lens, rng)
    | some d ↦
        let (e, rng') = record_epoch (at_epoch d epoch) value rng in
        (true, record lens { sub = dist (set_epoch d epoch e) }, rng')
  ]

  -- The difference of two doubles, as an `int`.
  unfoldable pub lens_dist_value_cmp : D → D → Sign
  lens_dist_value_cmp lhs rhs = fp.int_sign (fp.sub lhs rhs)

  module _ (qsort : Qsort D) where
    -- The percentiles of the kept values, after the lock.
    unfoldable pub percentiles : DistValue D → DistValue D
    percentiles value =
        if value.n == 0
        then value
        else (let len = if leb value.n optics_dist_samples then value.n else optics_dist_samples in
            let sorted =
              qsort lens_dist_value_cmp (take len value.samples) ++ drop len value.samples in
            record value {
              p50 = get_or sorted (lens_dist_p 50 len) zero_double;
              p90 = get_or sorted (lens_dist_p 90 len) zero_double;
              p99 = get_or sorted (lens_dist_p 99 len) zero_double;
              samples = sorted;
            })

    -- `value` is the structure that the caller gives to be filled.
    unfoldable pub lens_dist_read : Lens D → ℕ → DistValue D → OpticsRet × DistValue D × Lens D
    lens_dist_read lens epoch value = elim (dist_ptr lens.sub) [
      | none ↦ (err, value, lens)
      | some d ↦
          let e = at_epoch d epoch in
          if e.locked
          then (busy, value, lens)
          else (let to_copy = lens_dist_reservoir_len e.n in
              let copied = record value {
                n = e.n;
                max = if fp.lt value.max e.max then e.max else value.max;
                samples = take to_copy e.samples ++ drop to_copy value.samples;
              } in
              (
                ok,
                percentiles copied,
                record lens {
                  sub = dist (
                      set_epoch d epoch
                        (record { locked = false; n = 0; max = zero_double; samples = e.samples }));
                },
              ))
    ]
