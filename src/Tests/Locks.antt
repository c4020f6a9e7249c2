-- ===== src/Tests/Locks.antt =====
-- The spin lock.
use optics_light.Lock.{
  slock_is_locked, slock_try_lock, weak_exchange, holds, lock, try_lock, thread_step, System, pick,
  Steps, stop, step, start,
}
use optics_light.Lock.Exclusion.{slock_excludes}
use optics_light.Lock.Progress.{waits, FreedIn, Soon, slock_progress}
use optics_light.Prelude.{ℕ, ◌≡◌, refl, true}

program : Unit {0}
unfolding slock_is_locked slock_try_lock weak_exchange thread_step pick waits
program = tt

-- Thread 1 gets the lock by a try, then thread 2 calls `slock_lock`.
abbrev contended : System
contended = pick 2 lock (pick 1 try_lock start)

contended_run : Steps start contended
contended_run = step (step stop 1 try_lock) 2 lock

slock_excludes_example :
    ((i j : ℕ) → contended.pc i ≡ holds → contended.pc j ≡ holds → i ≡ j)
    × (slock_is_locked contended.word ≡ true → (i : ℕ) × (contended.pc i ≡ holds))
    × ((i : ℕ) → contended.pc i ≡ holds → slock_is_locked contended.word ≡ true)
slock_excludes_example = slock_excludes contended contended_run

slock_progress_example : (t : System) × FreedIn contended t × Soon 2 t
unfolding program
slock_progress_example = slock_progress contended 2 contended_run refl
