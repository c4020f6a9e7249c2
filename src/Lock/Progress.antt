-- ===== src/Lock/Progress.antt =====
-- A thread that waits for the lock can get it.
use optics_light.Lock.{
  slock_is_locked, slock_try_lock, slock_unlock, weak_exchange, Pc, outside, spins, swaps, holds,
  Choice, go, thread_step, System, pick, Steps, start,
}
use optics_light.Lock.Exclusion.{Owned, free, held, IsFree, HeldBy, Steps-Owned, is_holds_sound}
use optics_light.Prelude.{
  ℕ, zero, suc, ◌≤◌, ◌≡◌, refl, ap, ◌∙◌, Bool, true, false, ◌==◌, arith, Bool-cases, inl, inr,
}

-- Inside `slock_lock`.
unfoldable pub waits : Pc → Bool
waits spins = true
waits swaps = true
waits _ = false

module _ (i : ℕ) where
  -- Steps of thread `i` alone, whose exchanges do not fail spuriously.
  unfoldable pub own_steps : ℕ → System → System
  own_steps zero s = s
  own_steps (suc n) s = own_steps n (pick i (go false) s)

  -- Thread `i` holds the lock after at most two steps of its own.
  pub record Soon (s : System) : Type 0 where
    pub own : ℕ
    pub at_most : own ≤ 2
    pub gets : (own_steps own s).pc i ≡ holds

  -- The step of thread `i`, if the word is free.
  swap_step : (s : System) → s.word.value ≡ 0 → s.pc i ≡ swaps → (pick i (go false) s).pc i ≡ holds
  unfolding pick thread_step weak_exchange slock_try_lock
  swap_step s v p = let e : (i == i) ≡ true = ground arith in rw (e, p, v) refl

  spin_step :
      (s : System)
      → s.word.value ≡ 0
      → s.pc i ≡ spins
      → ((pick i (go false) s).pc i ≡ swaps) × ((pick i (go false) s).word.value ≡ 0)
  unfolding pick thread_step slock_is_locked
  spin_step s v p = let e : (i == i) ≡ true = ground arith in rw (e, p, v) (refl, refl)

  free_run : (s : System) → s.word.value ≡ 0 → waits (s.pc i) ≡ true → Soon s
  unfolding waits own_steps
  free_run s v w = by_pc (s.pc i) refl w
    where
      by_pc : (p : Pc) → s.pc i ≡ p → waits p ≡ true → Soon s
      by_pc swaps e h = record { own = 1; at_most = omega arith; gets = swap_step s v e }
      by_pc spins e h =
          let (there, free_yet) = spin_step s v e in
          record {
            own = 2;
            at_most = omega arith;
            gets = swap_step (pick i (go false) s) free_yet there;
          }
      by_pc outside e h = absurd (ground (arith, h))
      by_pc holds e h = absurd (ground (arith, h))

-- The holder gives the lock back.
unlock_step : (k : ℕ) (s : System) → s.pc k ≡ holds → (pick k (go false) s).word.value ≡ 0
unfolding pick thread_step slock_unlock
unlock_step k s p = rw p refl

other_stays : (k i : ℕ) (c : Choice) (s : System) → (k == i) ≡ false → (pick k c s).pc i ≡ s.pc i
unfolding pick
other_stays k i c s e = rw e refl

apart : (s : System) (k i : ℕ) → s.pc k ≡ holds → waits (s.pc i) ≡ true → (k == i) ≡ false
unfolding waits
apart s k i at w = elim (Bool-cases (k == i)) [
  | inl e ↦
      let same : k ≡ i = ground arith in
      absurd (ground (arith, ap (λ j. waits (s.pc j)) same, ap waits at, w))
  | inr e ↦ e
]

-- The lock is free, or one step of its holder gives it back.
pub data FreedIn (s : System) : System → Type 0 where
  is_free : s.word.value ≡ 0 → FreedIn s s
  by_holder : (k : ℕ) → s.pc k ≡ holds → FreedIn s (pick k (go false) s)

-- In every state that threads reach from a free lock, a thread that is inside `slock_lock` comes to hold
-- the lock after one step of the holder, if the lock is taken, and then at most two steps of its own, if
-- its exchange does not fail spuriously.
pub slock_progress :
    (s : System) (i : ℕ)
    → Steps start s
    → waits (s.pc i) ≡ true
    → (t : System) × FreedIn s t × Soon i t
unfolding IsFree HeldBy waits
slock_progress s i reach w = of_owned (Steps-Owned s reach)
  where
    of_owned : Owned s → (t : System) × FreedIn s t × Soon i t
    of_owned (free (v, none)) = (s, is_free v, free_run i s v w)
    of_owned (held k (v, has, only)) =
        let at : s.pc k ≡ holds = is_holds_sound (s.pc k) has in
        let other : (k == i) ≡ false = apart s k i at w in
        let same = other_stays k i (go false) s other in
        (
          pick k (go false) s,
          by_holder k at,
          free_run i (pick k (go false) s) (unlock_step k s at) (ap waits same ∙ w),
        )
