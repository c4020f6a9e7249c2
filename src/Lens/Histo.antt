-- ===== src/Lens/Histo.antt =====
-- The histogram lens: src/lens_histo.c.
pub mod Buckets
pub mod Totals
use optics_light.Floating.{Floating}
use optics_light.Memory.{write_at}
use optics_light.Lens.{
  Lens, Sub, Two, at_epoch, set_epoch, both, histo, histo_ptr, LensHisto, HistoEpoch, OpticsRet, ok,
  err, lens_alloc, optics_histo_buckets_max,
}
use optics_light.Prelude.{
  ℕ, zero, suc, ◌+◌, ◌-◌, ◌%◌, ◌^◌, Option, none, some, List, [], ◌∷◌, ◌++◌, Bool, true, false, ltb,
  leb, ◌==◌, if◌then◌else◌, length, take, drop, get_or, set, replicate,
}

-- `struct optics_histo`, what a read fills.
pub record HistoValue : Type 0 where
  pub buckets_len : ℕ
  pub buckets : List ℕ
  pub below : ℕ
  pub above : ℕ
  pub counts : List ℕ

-- The loop over the bounds: no bound is at least the next one.
unfoldable pub increasing : List ℕ → Bool
increasing [] = true
increasing (a ∷ []) = true
increasing (a ∷ b ∷ bs) = if leb b a then false else increasing (b ∷ bs)

abbrev pub empty_epoch : HistoEpoch
empty_epoch = record { below = 0; above = 0; counts = replicate optics_histo_buckets_max 0 }

-- The counter of an epoch that an observation falls into.
pub data Bucket : Type 0 where
  below above : Bucket
  count : ℕ → Bucket

-- The value of counter `i`, and adding one to it; a `size_t` wraps.
abbrev pub add_one : ℕ → ℕ
add_one n = (n + 1) % 2 ^ 64

unfoldable pub bump : HistoEpoch → Bucket → HistoEpoch
bump e below = record e { below = add_one e.below }
bump e above = record e { above = add_one e.above }
bump e (count i) = record e { counts = set e.counts i (add_one (get_or e.counts i 0)) }

module _ {D : Type 0} where
  unfoldable pub lens_histo_alloc : Bool → List ℕ → List ℕ → Option (Lens D)
  lens_histo_alloc has_memory name buckets =
      if ltb (length buckets) 2
      then none
      else if ltb (optics_histo_buckets_max + 1) (length buckets)
      then none
      else if increasing buckets
      then lens_alloc has_memory
          (histo (record {
            epochs = both empty_epoch;
            buckets = write_at (replicate (optics_histo_buckets_max + 1) 0) 0 buckets;
            buckets_len = length buckets;
          }))
          name
      else none

  module _ ⦃fp : Floating D⦄ where
    -- The loop over the inner bounds, `n` of them from index `i`; `none` leaves `bucket` NULL.
    unfoldable pub bucket_loop : List ℕ → D → ℕ → ℕ → Option Bucket
    bucket_loop buckets value zero i = none
    bucket_loop buckets value (suc n) i =
        let rest = bucket_loop buckets value n (i + 1) in
        if fp.lt value (fp.of_u64 (get_or buckets i 0)) then some (count (i - 1)) else rest

    unfoldable pub bucket_of : LensHisto → D → Option Bucket
    bucket_of h value =
        if fp.lt value (fp.of_u64 (get_or h.buckets 0 0))
        then some below
        else if fp.ge value (fp.of_u64 (get_or h.buckets (h.buckets_len - 1) 0))
        then some above
        else bucket_loop h.buckets value (h.buckets_len - 1) 1

    -- `none` is the abort of the failed assertion.
    unfoldable pub lens_histo_inc : Lens D → ℕ → D → Option (Bool × Lens D)
    lens_histo_inc lens epoch value = elim (histo_ptr lens.sub) [
      | none ↦ some (false, lens)
      | some h ↦ elim (bucket_of h value) [
        | none ↦ none
        | some bucket ↦ some (
          true,
          record lens {
            sub = histo (record h {
              epochs = set_epoch h.epochs epoch (bump (at_epoch h.epochs epoch) bucket);
            });
          },
        )
      ]
    ]

  -- `value` is the structure that the caller gives to be filled: `memcpy` and the loop replace its
  -- first cells.
  unfoldable pub lens_histo_read : Lens D → ℕ → HistoValue → OpticsRet × HistoValue × Lens D
  lens_histo_read lens epoch value = elim (histo_ptr lens.sub) [
    | none ↦ (err, value, lens)
    | some h ↦
        let counters = at_epoch h.epochs epoch in
        let n = h.buckets_len - 1 in
        (
          ok,
          record {
            buckets_len = h.buckets_len;
            buckets = write_at value.buckets 0 (take h.buckets_len h.buckets);
            below = counters.below;
            above = counters.above;
            counts = write_at value.counts 0 (take n counters.counts);
          },
          record lens {
            sub = histo (record h {
              epochs = set_epoch h.epochs epoch (record {
                below = 0;
                above = 0;
                counts = replicate n 0 ++ drop n counters.counts;
              });
            });
          },
        )
  ]
