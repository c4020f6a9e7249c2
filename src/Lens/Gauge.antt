-- ===== src/Lens/Gauge.antt =====
-- The gauge lens: src/lens_gauge.c. One cell serves both epochs, so a gauge keeps its value over them.
use optics_light.Floating.{Floating}
use optics_light.Lens.{Lens, gauge, gauge_ptr, OpticsRet, ok, err, lens_alloc}
use optics_light.Prelude.{ℕ, ◌≡◌, Option, none, some, List, Bool, true, false, arith}

module _ {D : Type 0} where
  unfoldable pub lens_gauge_alloc : Bool → List ℕ → Option (Lens D)
  lens_gauge_alloc has_memory name = lens_alloc has_memory (gauge 0) name

  module _ ⦃fp : Floating D⦄ where
    unfoldable pub lens_gauge_set : Lens D → ℕ → D → Bool × Lens D
    lens_gauge_set lens epoch value = elim (gauge_ptr lens.sub) [
      | none ↦ (false, lens)
      | some g ↦ (true, record lens { sub = gauge (fp.to_bits value) })
    ]

    unfoldable pub lens_gauge_read : Lens D → ℕ → OpticsRet × Option D × Lens D
    lens_gauge_read lens epoch = elim (gauge_ptr lens.sub) [
      | none ↦ (err, none, lens)
      | some g ↦ (ok, some (fp.of_bits g), lens)
    ]

    -- A value that is set is read under either epoch and as often as it is asked for: a read neither
    -- resets the gauge nor changes it.
    pub gauge_keeps :
        (lens : Lens D) (g : ℕ) (value : D) (epoch epoch' epoch'' : ℕ)
        → gauge_ptr lens.sub ≡ some g
        → let lens' = (lens_gauge_set lens epoch value).1 in
          let again = (lens_gauge_read lens' epoch').2 in
          ((lens_gauge_set lens epoch value).0 ≡ true)
          × (lens_gauge_read lens' epoch' ≡ (ok, some value, lens'))
          × (lens_gauge_read again epoch'' ≡ (ok, some value, lens'))
    unfolding lens_gauge_set lens_gauge_read gauge_ptr
    gauge_keeps lens g value epoch epoch' epoch'' is = ground (arith, fp.of_bits-to_bits value)
