-- ===== src/Lens/Counter/Conserve.antt =====
-- No amount is lost or counted twice between the recorders and the poller.
use optics_light.Lens.{Lens, Two, at_epoch, set_epoch, counter, counter_ptr, ok}
use optics_light.Lens.Counter.{Event, inc, read, run, collect, lens_counter_inc, lens_counter_read}
use optics_light.Prelude.{ℕ, ◌+◌, ◌%◌, ◌^◌, ◌≡◌, refl, none, some, List, [], ◌∷◌, arith, ap}

unfoldable pub sum : List ℕ → ℕ
sum [] = 0
sum (x ∷ xs) = x + sum xs

-- The amounts of the increments.
unfoldable pub recorded : List Event → ℕ
recorded [] = 0
recorded (inc epoch value ∷ es) = value + recorded es
recorded (read epoch ∷ es) = recorded es

-- What a counter still holds.
unfoldable pub held : {D : Type 0} → Lens D → ℕ
held lens = elim (counter_ptr lens.sub) [ none ↦ 0 | some c ↦ c.first + c.second ]

abbrev IsCounter : {D : Type 0} → Lens D → Two ℕ → Type 0
IsCounter {D} lens c = counter_ptr lens.sub ≡ some c

module _ {D : Type 0} where
  inc-held :
      (lens : Lens D) (c : Two ℕ) (epoch value : ℕ)
      → IsCounter lens c
      → (c' : Two ℕ) × (IsCounter (lens_counter_inc lens epoch value).1 c')
        × ((c'.first + c'.second) % 2 ^ 64 ≡ (c.first + c.second + value) % 2 ^ 64)
  unfolding lens_counter_inc
  inc-held lens c epoch value is =
      (set_epoch c epoch ((at_epoch c epoch + value) % 2 ^ 64), ground arith, ground arith)

  read-held :
      (lens : Lens D) (c : Two ℕ) (epoch : ℕ)
      → IsCounter lens c
      → (c' : Two ℕ) × (v : ℕ) × (lens_counter_read lens epoch
          ≡ (ok, some v, record lens { sub = counter c' }))
        × (c'.first + c'.second + v ≡ c.first + c.second)
  unfolding lens_counter_read
  read-held lens c epoch is = (set_epoch c epoch 0, at_epoch c epoch, ground arith, ground arith)

  run-read :
      (lens lens' : Lens D) (epoch v : ℕ) (es : List Event)
      → lens_counter_read lens epoch ≡ (ok, some v, lens')
      → run lens (read epoch ∷ es) ≡ ((run lens' es).0, v ∷ (run lens' es).1)
  unfolding run
  run-read lens lens' epoch v es e = ap (λ r. ((run r.2 es).0, collect r.1 (run r.2 es).1)) e

  run-nil : (lens : Lens D) → run lens [] ≡ (lens, [])
  unfolding run
  run-nil lens = refl

  run-inc :
      (lens : Lens D) (epoch value : ℕ) (es : List Event)
      → run lens (inc epoch value ∷ es) ≡ run (lens_counter_inc lens epoch value).1 es
  unfolding run
  run-inc lens epoch value es = refl

  held-counter : (lens : Lens D) (c : Two ℕ) → IsCounter lens c → held lens ≡ c.first + c.second
  unfolding held
  held-counter lens c is = rw (is, held) refl

  counter-IsCounter : (lens : Lens D) (c : Two ℕ) → IsCounter (record lens { sub = counter c }) c
  unfolding counter_ptr
  counter-IsCounter lens c = refl

  -- Whatever increments and reads a counter sees, in any order and under any epochs, the values read
  -- and what is left in its two cells make up what it held and what was added, modulo 2 ^ 64.
  pub counter_conserves :
      (es : List Event) (lens : Lens D) (c : Two ℕ)
      → IsCounter lens c
      → (sum (run lens es).1 + held (run lens es).0) % 2 ^ 64
        ≡ (c.first + c.second + recorded es) % 2 ^ 64
  unfolding sum recorded
  counter_conserves [] lens c is = rw run-nil (omega (arith, held-counter lens c is))
  counter_conserves (inc epoch value ∷ es) lens c is =
      let (c', is', step) = inc-held lens c epoch value is in
      let ih = counter_conserves es (lens_counter_inc lens epoch value).1 c' is' in
      rw run-inc (omega arith)
  counter_conserves (read epoch ∷ es) lens c is =
      let (c', v, run', step) = read-held lens c epoch is in
      let lens' : Lens D = record lens { sub = counter c' } in
      let ih = counter_conserves es lens' c' (counter-IsCounter lens c') in
      rw (run-read lens lens' epoch v es run') (omega arith)
