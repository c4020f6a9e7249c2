-- ===== src/Lens/Histo/Buckets.antt =====
-- Where an observation is counted.
use optics_light.Floating.{Floating}
use optics_light.Lens.{Lens, histo_ptr, LensHisto}
use optics_light.Lens.Histo.{Bucket, below, above, count, bucket_loop, bucket_of, lens_histo_inc}
use optics_light.Prelude.{
  ℕ, zero, suc, ◌+◌, ◌-◌, ◌≤◌, ◌<◌, ◌≡◌, refl, ap, none, some, List, true, false, length, get_or,
  arith, Bool-cases, inl, inr,
}

-- The shape that `lens_histo_alloc` gives a histogram.
pub record IsHisto (h : LensHisto) : Type 0 where
  pub at_least : 2 ≤ h.buckets_len
  pub at_most : h.buckets_len ≤ 9
  pub first : length h.epochs.first.counts ≡ 8
  pub second : length h.epochs.second.counts ≡ 8

module _ {D : Type 0} ⦃fp : Floating D⦄ where
  abbrev pub bound : LensHisto → ℕ → D
  bound h i = fp.of_u64 (get_or h.buckets i 0)

  -- The range of a counter.
  abbrev pub Falls : LensHisto → D → Bucket → Type 0
  Falls h value below = fp.lt value (bound h 0) ≡ true
  Falls h value above = fp.ge value (bound h (h.buckets_len - 1)) ≡ true
  Falls h value (count i) =
      (i + 1 < h.buckets_len)
      × (fp.ge value (bound h i) ≡ true)
      × (fp.lt value (bound h (i + 1)) ≡ true)

  module _ (h : LensHisto) (value : D) (number : fp.is_nan value ≡ false) where
    not_less : (i : ℕ) → fp.lt value (bound h i) ≡ false → fp.ge value (bound h i) ≡ true
    not_less i e =
        ground (arith, fp.ge-lt value (bound h i) number (fp.of_u64-number (get_or h.buckets i 0)))

    less : (i : ℕ) → fp.ge value (bound h i) ≡ false → fp.lt value (bound h i) ≡ true
    less i e =
        ground (arith, fp.ge-lt value (bound h i) number (fp.of_u64-number (get_or h.buckets i 0)))

    bucket_loop-Falls :
        (n i : ℕ)
        → suc i + n ≡ h.buckets_len
        → fp.lt value (bound h i) ≡ false
        → fp.lt value (bound h (h.buckets_len - 1)) ≡ true
        → (b : Bucket) × (bucket_loop h.buckets value n (suc i) ≡ some b) × Falls h value b
    unfolding bucket_loop
    bucket_loop-Falls zero i e lo hi =
        let last : h.buckets_len - 1 ≡ i = omega arith in
        absurd (ground (arith, ap (λ (k : ℕ). fp.lt value (bound h k)) last))
    bucket_loop-Falls (suc n) i e lo hi = elim (Bool-cases (fp.lt value (bound h (suc i)))) [
      | inl here ↦
          let one_less : suc i - 1 ≡ i = omega arith in
          let next : i + 1 ≡ suc i = omega arith in
          (count i, rw (here, one_less), rw next (omega arith, not_less i lo, here))
      | inr later ↦
          let next : suc i + 1 ≡ suc (suc i) = omega arith in
          let (b, run, falls) = bucket_loop-Falls n (suc i) (omega arith) later hi in
          (b, rw (later, next) run, falls)
    ]

    -- A number is counted in a counter whose range it lies in.
    pub bucket_of-Falls : IsHisto h → (b : Bucket) × (bucket_of h value ≡ some b) × Falls h value b
    unfolding bucket_of
    bucket_of-Falls v = elim (Bool-cases (fp.lt value (bound h 0))) [
      | inl low ↦ (below, rw low, low)
      | inr not_low ↦ elim (Bool-cases (fp.ge value (bound h (h.buckets_len - 1)))) [
        | inl high ↦ (above, rw (not_low, high), high)
        | inr not_high ↦
            let (b, run, falls) =
              bucket_loop-Falls (h.buckets_len - 1) 0 (omega (arith, v.at_least)) not_low
                (less (h.buckets_len - 1) not_high) in
            (b, rw (not_low, not_high) run, falls)
      ]
    ]

  -- What is not a number falls into no range, and recording it aborts.
  bucket_loop-nan :
      (buckets : List ℕ) (value : D) (n i : ℕ)
      → fp.is_nan value ≡ true
      → bucket_loop buckets value n i ≡ none
  unfolding bucket_loop
  bucket_loop-nan buckets value zero i e = refl
  bucket_loop-nan buckets value (suc n) i e = ground (
    arith,
    fp.lt-nan value (fp.of_u64 (get_or buckets i 0)) e,
    bucket_loop-nan buckets value n (i + 1),
  )

  pub bucket_of-nan :
      (h : LensHisto) (value : D) → fp.is_nan value ≡ true → bucket_of h value ≡ none
  unfolding bucket_of
  bucket_of-nan h value e =
      rw (fp.lt-nan value (bound h 0) e, fp.ge-nan value (bound h (h.buckets_len - 1)) e)
        (bucket_loop-nan h.buckets value (h.buckets_len - 1) 1 e)

  -- Recording what is not a number aborts the process, on every histogram.
  pub lens_histo_inc-nan :
      (lens : Lens D) (h : LensHisto) (epoch : ℕ) (value : D)
      → histo_ptr lens.sub ≡ some h
      → fp.is_nan value ≡ true
      → lens_histo_inc lens epoch value ≡ none
  unfolding lens_histo_inc
  lens_histo_inc-nan lens h epoch value is e = ground (arith, bucket_of-nan h value e)
