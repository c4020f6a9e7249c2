-- ===== src/Optics/Reads.antt =====
-- The reads of lenses, and what a lens tells of itself: the functions `optics_<type>_read`,
-- `optics_lens_type` and `optics_lens_name` of src/optics.c. A read may change the lens.
use optics_light.Floating.{Floating}
use optics_light.Lens.{Lens, LensType, OpticsRet, lens_name, lens_type}
use optics_light.Lens.Counter.{lens_counter_read}
use optics_light.Lens.Dist.{DistValue, lens_dist_read}
use optics_light.Lens.Gauge.{lens_gauge_read}
use optics_light.Lens.Histo.{HistoValue, lens_histo_read}
use optics_light.Lens.Quantile.{QuantileValue, lens_quantile_read}
use optics_light.Optics.Lenses.{Heap, ◌>>=◌, update}
use optics_light.Qsort.{Qsort}
use optics_light.Prelude.{ℕ, Option, some, List}

module _ {D : Type 0} where
  unfoldable pub optics_lens_type : Heap D → ℕ → Option LensType
  optics_lens_type h p = do lens ← h p; some (lens_type lens)

  unfoldable pub optics_lens_name : Heap D → ℕ → Option (List ℕ)
  optics_lens_name h p = do lens ← h p; some (lens_name lens)

  -- The lens at `p` after a read.
  unfoldable pub read_at :
      {V : Type 0}
      → (Lens D → OpticsRet × V × Lens D)
      → Heap D
      → ℕ
      → Option (OpticsRet × V × Heap D)
  read_at read h p = do lens ← h p; r ← some (read lens); some (r.0, r.1, update h p (some r.2))

  unfoldable pub optics_counter_read : Heap D → ℕ → ℕ → Option (OpticsRet × Option ℕ × Heap D)
  optics_counter_read h p epoch = read_at (λ lens. lens_counter_read lens epoch) h p

  unfoldable pub optics_histo_read :
      Heap D → ℕ → ℕ → HistoValue → Option (OpticsRet × HistoValue × Heap D)
  optics_histo_read h p epoch value = read_at (λ lens. lens_histo_read lens epoch value) h p

  module _ ⦃fp : Floating D⦄ where
    unfoldable pub optics_gauge_read : Heap D → ℕ → ℕ → Option (OpticsRet × Option D × Heap D)
    optics_gauge_read h p epoch = read_at (λ lens. lens_gauge_read lens epoch) h p

    unfoldable pub optics_dist_read :
        Qsort D → Heap D → ℕ → ℕ → DistValue D → Option (OpticsRet × DistValue D × Heap D)
    optics_dist_read qsort h p epoch value =
        read_at (λ lens. lens_dist_read qsort lens epoch value) h p

    unfoldable pub optics_quantile_read :
        Heap D → ℕ → ℕ → Option (OpticsRet × Option (QuantileValue D) × Heap D)
    optics_quantile_read h p epoch = read_at (λ lens. lens_quantile_read lens epoch) h p
