-- ===== src/Lock/Exclusion.antt =====
-- At most one thread holds the lock.
use mathlib.Core.Path.{subst}
use optics_light.Lock.{
  Slock, slock_is_locked, slock_try_lock, slock_unlock, weak_exchange, Pc, outside, spins, swaps,
  holds, Choice, lock, try_lock, go, thread_step, System, pick, Steps, stop, step, start,
}
use optics_light.Prelude.{
  ℕ, ◌≡◌, refl, sym, ◌∙◌, Bool, true, false, ◌==◌, arith, Bool-cases, inl, inr,
}

unfoldable pub is_holds : Pc → Bool
is_holds holds = true
is_holds _ = false

-- What a step does to the lock and to the thread.
data Kind (p : Pc) (l : Slock) (r : Pc × Slock) : Type 0 where
  stays : is_holds r.0 ≡ is_holds p → r.1.value ≡ l.value → Kind p l r
  takes : is_holds p ≡ false → is_holds r.0 ≡ true → l.value ≡ 0 → r.1.value ≡ 1 → Kind p l r
  frees : is_holds p ≡ true → is_holds r.0 ≡ false → r.1.value ≡ 0 → Kind p l r

thread_step-Kind : (c : Choice) (p : Pc) (l : Slock) → Kind p l (thread_step c p l)
unfolding thread_step is_holds slock_try_lock slock_unlock weak_exchange slock_is_locked
thread_step-Kind lock outside l = stays refl refl
thread_step-Kind try_lock outside l = elim (Bool-cases (l.value == 0)) [
  | inl e ↦ rw e (takes refl refl (ground arith) refl)
  | inr e ↦ rw e (stays refl refl)
]
thread_step-Kind (go fails) outside l = stays refl refl
thread_step-Kind lock spins l = elim (Bool-cases (l.value == 0)) [
  | inl e ↦ rw e (stays refl refl)
  | inr e ↦ rw e (stays refl refl)
]
thread_step-Kind try_lock spins l = elim (Bool-cases (l.value == 0)) [
  | inl e ↦ rw e (stays refl refl)
  | inr e ↦ rw e (stays refl refl)
]
thread_step-Kind (go fails) spins l = elim (Bool-cases (l.value == 0)) [
  | inl e ↦ rw e (stays refl refl)
  | inr e ↦ rw e (stays refl refl)
]
thread_step-Kind lock swaps l = stays refl refl
thread_step-Kind try_lock swaps l = stays refl refl
thread_step-Kind (go true) swaps l = stays refl refl
thread_step-Kind (go false) swaps l = elim (Bool-cases (l.value == 0)) [
  | inl e ↦ rw e (takes refl refl (ground arith) refl)
  | inr e ↦ rw e (stays refl refl)
]
thread_step-Kind lock holds l = stays refl refl
thread_step-Kind try_lock holds l = stays refl refl
thread_step-Kind (go fails) holds l = frees refl refl refl

-- The lock is free and no thread holds it, or one thread does and no other.
unfoldable pub IsFree : System → Type 0
IsFree s = (s.word.value ≡ 0) × ((i : ℕ) → is_holds (s.pc i) ≡ false)

unfoldable pub HeldBy : System → ℕ → Type 0
HeldBy s i =
    (s.word.value ≡ 1) × (is_holds (s.pc i) ≡ true) × ((j : ℕ) → is_holds (s.pc j) ≡ true → j ≡ i)

pub data Owned (s : System) : Type 0 where
  free : IsFree s → Owned s
  held : (i : ℕ) → HeldBy s i → Owned s

module _ (i : ℕ) (c : Choice) (s : System) where
  abbrev after : Pc
  after = (thread_step c (s.pc i) s.word).0

  pick_self : is_holds ((pick i c s).pc i) ≡ is_holds after
  unfolding pick
  pick_self = let e : (i == i) ≡ true = ground arith in rw e refl

  pick_other : (j : ℕ) → (i == j) ≡ false → is_holds ((pick i c s).pc j) ≡ is_holds (s.pc j)
  unfolding pick
  pick_other j e = rw e refl

  -- A step that leaves its thread as it is leaves all.
  pick_same :
      is_holds after ≡ is_holds (s.pc i)
      → (j : ℕ) → is_holds ((pick i c s).pc j) ≡ is_holds (s.pc j)
  pick_same same j = elim (Bool-cases (i == j)) [
    | inl e ↦
        let at : i ≡ j = ground arith in
        subst (λ k. is_holds ((pick i c s).pc k) ≡ is_holds (s.pc k)) at (pick_self ∙ same)
    | inr e ↦ pick_other j e
  ]

pick-Owned : (i : ℕ) (c : Choice) (s : System) → Owned s → Owned (pick i c s)
unfolding pick IsFree HeldBy
pick-Owned i c s (free (v, none)) = elim (thread_step-Kind c (s.pc i) s.word) [
  | stays same word ↦ free (word ∙ v, λ j. pick_same i c s same j ∙ none j)
  | takes _ now _ one ↦ held i (one, pick_self i c s ∙ now, λ j h. mine j h)
  | frees had _ _ ↦ absurd (ground (arith, had, none i))
]
  where
    mine : (j : ℕ) → is_holds ((pick i c s).pc j) ≡ true → j ≡ i
    mine j h = elim (Bool-cases (i == j)) [
      | inl e ↦ ground arith
      | inr e ↦ absurd (ground (arith, pick_other i c s j e, none j, h))
    ]
pick-Owned i c s (held k (v, has, only)) = elim (thread_step-Kind c (s.pc i) s.word) [
  | stays same word ↦
      held k
        (word ∙ v, pick_same i c s same k ∙ has, λ j h. only j (sym (pick_same i c s same j) ∙ h))
  | takes _ _ zero _ ↦ absurd (ground (arith, v, zero))
  | frees had now zero ↦ free (zero, λ j. none_left j now (only i had))
]
  where
    none_left :
        (j : ℕ) → is_holds (after i c s) ≡ false → i ≡ k → is_holds ((pick i c s).pc j) ≡ false
    none_left j now at = elim (Bool-cases (i == j)) [
      | inl e ↦
          let here : i ≡ j = ground arith in
          subst (λ m. is_holds ((pick i c s).pc m) ≡ false) here (pick_self i c s ∙ now)
      | inr e ↦ elim (Bool-cases (is_holds (s.pc j))) [
        | inl h ↦ let there : j ≡ k = only j h in absurd (ground (arith, at, there, e))
        | inr h ↦ pick_other i c s j e ∙ h
      ]
    ]

start-Owned : Owned start
unfolding IsFree is_holds
start-Owned = free (refl, λ _. refl)

pub Steps-Owned : (s : System) → Steps start s → Owned s
Steps-Owned s stop = start-Owned
Steps-Owned _ (step {t} before i c) = pick-Owned i c t (Steps-Owned t before)

pub is_holds_sound : (p : Pc) → is_holds p ≡ true → p ≡ holds
unfolding is_holds
is_holds_sound outside h = cc
is_holds_sound spins h = cc
is_holds_sound swaps h = cc
is_holds_sound holds h = refl

is_holds_at : (p : Pc) → p ≡ holds → is_holds p ≡ true
unfolding is_holds
is_holds_at p h = rw h refl

-- In every state that threads reach from a free lock, in any order of their steps and whichever weak
-- exchanges fail, two threads that hold the lock are the same, and `slock_is_locked` says true exactly
-- if some thread holds it.
pub slock_excludes :
    (s : System)
    → Steps start s
    → ((i j : ℕ) → s.pc i ≡ holds → s.pc j ≡ holds → i ≡ j)
      × (slock_is_locked s.word ≡ true → (i : ℕ) × (s.pc i ≡ holds))
      × ((i : ℕ) → s.pc i ≡ holds → slock_is_locked s.word ≡ true)
unfolding IsFree HeldBy slock_is_locked
slock_excludes s reach = of_owned (Steps-Owned s reach)
  where
    of_owned :
        Owned s
        → ((i j : ℕ) → s.pc i ≡ holds → s.pc j ≡ holds → i ≡ j)
          × (slock_is_locked s.word ≡ true → (i : ℕ) × (s.pc i ≡ holds))
          × ((i : ℕ) → s.pc i ≡ holds → slock_is_locked s.word ≡ true)
    of_owned (free (v, none)) = (
      λ i j hi hj. absurd (ground (arith, none i, is_holds_at (s.pc i) hi)),
      λ l. absurd (ground (arith, v, l)),
      λ i hi. absurd (ground (arith, none i, is_holds_at (s.pc i) hi)),
    )
    of_owned (held k (v, has, only)) = (
      λ i j hi hj. only i (is_holds_at (s.pc i) hi) ∙ sym (only j (is_holds_at (s.pc j) hj)),
      λ l. (k, is_holds_sound (s.pc k) has),
      λ i hi. ground (arith, v),
    )
