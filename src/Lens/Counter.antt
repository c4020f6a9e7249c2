-- ===== src/Lens/Counter.antt =====
-- The counter lens: src/lens_counter.c. `lens_counter_alloc` is `lens_alloc` with two zero cells.
pub mod Conserve
use optics_light.Lens.{
  Lens, Sub, Two, at_epoch, set_epoch, both, counter, counter_ptr, OpticsRet, ok, err, lens_alloc,
}
use optics_light.Prelude.{
  ℕ, ◌+◌, ◌%◌, ◌^◌, ◌≡◌, refl, Option, none, some, List, [], ◌∷◌, Bool, true, false, ◌==◌,
  if◌then◌else◌, arith, ap, ◌⊎◌, inl, inr, Bool-cases,
}

-- What the threads do to one counter, in the order in which the memory takes it: an increment under
-- the epoch that its thread had loaded, which may have passed, and the reads of the poller.
pub data Event : Type 0 where
  inc : ℕ → ℕ → Event
  read : ℕ → Event

abbrev pub collect : Option ℕ → List ℕ → List ℕ
collect none values = values
collect (some v) values = v ∷ values

module _ {D : Type 0} where
  unfoldable pub lens_counter_alloc : Bool → List ℕ → Option (Lens D)
  unfolding lens_alloc
  lens_counter_alloc has_memory name = lens_alloc has_memory (counter (both 0)) name

  -- `value` is the two's complement pattern of the amount.
  unfoldable pub lens_counter_inc : Lens D → ℕ → ℕ → Bool × Lens D
  unfolding counter_ptr
  lens_counter_inc lens epoch value = elim (counter_ptr lens.sub) [
    | none ↦ (false, lens)
    | some c ↦ (
      true,
      record lens { sub = counter (set_epoch c epoch ((at_epoch c epoch + value) % 2 ^ 64)) },
    )
  ]

  -- The third component is `*value`, `none` where it is not written.
  unfoldable pub lens_counter_read : Lens D → ℕ → OpticsRet × Option ℕ × Lens D
  unfolding counter_ptr
  lens_counter_read lens epoch = elim (counter_ptr lens.sub) [
    | none ↦ (err, none, lens)
    | some c ↦ (ok, some (at_epoch c epoch), record lens { sub = counter (set_epoch c epoch 0) })
  ]

  -- The final lens and the values that the reads returned.
  unfoldable pub run : Lens D → List Event → Lens D × List ℕ
  run lens [] = (lens, [])
  run lens (inc epoch value ∷ es) = run (lens_counter_inc lens epoch value).1 es
  run lens (read epoch ∷ es) =
      let r = lens_counter_read lens epoch in let rest = run r.2 es in (rest.0, collect r.1 rest.1)
