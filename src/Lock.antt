-- ===== src/Lock.antt =====
-- The spin lock of src/utils/lock.h, on one atomic word: each access of the word is one step, and the
-- steps of the threads come in any order.
pub mod Exclusion
pub mod Progress
use optics_light.Prelude.{ℕ, Bool, true, false, ◌==◌, if◌then◌else◌, not}

pub record Slock : Type 0 where
  pub value : ℕ

unfoldable pub slock_is_locked : Slock → Bool
slock_is_locked l = not (l.value == 0)

-- `atomic_compare_exchange_strong_explicit(&l->value, &old, 1, ..)` with `old` 0
unfoldable pub slock_try_lock : Slock → Bool × Slock
slock_try_lock l = if l.value == 0 then (true, record { value = 1 }) else (false, l)

unfoldable pub slock_unlock : Slock → Slock
slock_unlock l = record { value = 0 }

-- The weak exchange of `slock_lock`, which may fail for no reason.
unfoldable pub weak_exchange : Bool → Slock → Bool × Slock
weak_exchange fails l = if fails then (false, l) else slock_try_lock l

-- Where a thread is: outside, before the load of `slock_lock`, before its exchange, or holding the lock.
pub data Pc : Type 0 where
  outside spins swaps holds : Pc

-- What a thread outside calls, and how an exchange turns out.
pub data Choice : Type 0 where
  lock try_lock : Choice
  go : Bool → Choice

-- One step of a thread; a thread that holds the lock gives it back when it goes on.
unfoldable pub thread_step : Choice → Pc → Slock → Pc × Slock
thread_step lock outside l = (spins, l)
thread_step try_lock outside l = let r = slock_try_lock l in (if r.0 then holds else outside, r.1)
thread_step (go fails) outside l = (outside, l)
thread_step c spins l = (if slock_is_locked l then spins else swaps, l)
thread_step (go fails) swaps l =
    let r = weak_exchange fails l in (if r.0 then holds else spins, r.1)
thread_step (go fails) holds l = (outside, slock_unlock l)
thread_step lock p l = (p, l)
thread_step try_lock p l = (p, l)

pub record System : Type 0 where
  pub word : Slock
  pub pc : ℕ → Pc

abbrev pub update : (ℕ → Pc) → ℕ → Pc → ℕ → Pc
update pc i p j = if i == j then p else pc j

unfoldable pub pick : ℕ → Choice → System → System
pick i c s = let r = thread_step c (s.pc i) s.word in record { word = r.1; pc = update s.pc i r.0 }

pub data Steps (s : System) : System → Type 0 where
  stop : Steps s s
  step : {t : System} → Steps s t → (i : ℕ) (c : Choice) → Steps s (pick i c t)

-- All threads outside of a lock that is free.
abbrev pub start : System
start = record { word = record { value = 0 }; pc = λ _. outside }
