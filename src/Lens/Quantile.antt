-- ===== src/Lens/Quantile.antt =====
-- The quantile lens: src/lens_quantile.c.
use optics_light.Floating.{Floating}
use optics_light.Rng.{rng_gen_prob}
use optics_light.Lens.{
  Lens, at_epoch, set_epoch, both, LensQuantile, quantile, quantile_ptr, OpticsRet, ok, err,
  lens_alloc,
}
use optics_light.Prelude.{
  ℕ, ◌+◌, ◌-◌, ◌%◌, ◌^◌, Option, none, some, List, Bool, true, false, if◌then◌else◌,
}

-- `struct optics_quantile`
pub record QuantileValue (D : Type 0) : Type 0 where
  pub target : D
  pub sample : D
  pub count : ℕ

-- The multiplier after an update; it is a two's complement pattern.
unfoldable pub adjusted : Bool → Bool → ℕ → ℕ
adjusted value_is_less probability_check multiplier =
    if value_is_less
    then if probability_check then multiplier else (multiplier + 2 ^ 64 - 1) % 2 ^ 64
    else if probability_check
    then (multiplier + 1) % 2 ^ 64
    else multiplier

module _ {D : Type 0} where
  unfoldable pub lens_quantile_alloc : Bool → List ℕ → D → D → D → Option (Lens D)
  lens_quantile_alloc has_memory name target_quantile original_estimate adjustment_value =
      lens_alloc has_memory
        (quantile (record {
          target_quantile = target_quantile;
          original_estimate = original_estimate;
          adjustment_value = adjustment_value;
          multiplier = 0;
          count = both 0;
        }))
        name

  module _ ⦃fp : Floating D⦄ where
    unfoldable pub calculate_quantile : LensQuantile D → D
    calculate_quantile q =
        let adjustment = fp.to_u64 (fp.mul (fp.of_i64 q.multiplier) q.adjustment_value) in
        fp.add q.original_estimate (fp.of_u64 adjustment)

    -- The third component is the state of the thread's generator.
    unfoldable pub lens_quantile_update : Lens D → ℕ → D → ℕ → Bool × Lens D × ℕ
    lens_quantile_update lens epoch value rng = elim (quantile_ptr lens.sub) [
      | none ↦ (false, lens, rng)
      | some q ↦
          let current_estimate = calculate_quantile q in
          let (probability_check, rng') = rng_gen_prob rng q.target_quantile in
          (
            true,
            record lens {
              sub = quantile (record q {
                multiplier = adjusted (fp.lt value current_estimate) probability_check q.multiplier;
                count = set_epoch q.count epoch ((at_epoch q.count epoch + 1) % 2 ^ 64);
              });
            },
            rng',
          )
    ]

    unfoldable pub lens_quantile_read : Lens D → ℕ → OpticsRet × Option (QuantileValue D) × Lens D
    lens_quantile_read lens epoch = elim (quantile_ptr lens.sub) [
      | none ↦ (err, none, lens)
      | some q ↦ (
        ok,
        some (record {
          target = q.target_quantile;
          sample = calculate_quantile q;
          count = at_epoch q.count epoch;
        }),
        record lens { sub = quantile (record q { count = set_epoch q.count epoch 0 }) },
      )
    ]
