-- ===== src/Rng/State.antt =====
-- The state of the generator never becomes 0 and stays a word, and a range is kept.
use Prim.Native.Nat.{bit_xor, bit_xor-bitwise, digits, differ}
use native.Mathlib.Nat.{pow-suc, le_refl}
use optics_light.Rng.{
  word, rng_seed_with, shift_right_12, shift_left_25, shift_right_27, rng_step, rng_gen,
  rng_gen_range,
}
use optics_light.Prelude.{
  ℕ, zero, suc, ◌+◌, ◌-◌, ◌*◌, ◌/◌, ◌%◌, ◌^◌, ◌≤◌, ◌<◌, ◌≡◌, ◌≢◌, some, arith,
}

differ-eq-zero : (x y : ℕ) → differ x y ≡ 0 → x ≡ y
differ-eq-zero zero y h = omega arith
differ-eq-zero (suc x) zero h = absurd (omega arith)
differ-eq-zero (suc x) (suc y) h = omega (arith, differ-eq-zero x y h)

differ-le-one : (x y : ℕ) → x ≤ 1 → y ≤ 1 → differ x y ≤ 1
differ-le-one zero y p q = q
differ-le-one (suc x) zero p q = p
differ-le-one (suc x) (suc y) p q = differ-le-one x y (omega arith) (omega arith)

digits-eq-zero : (n a b : ℕ) → a ≤ n → digits (λ z. z) differ n a b ≡ 0 → a ≡ b
digits-eq-zero zero zero b p h = omega arith
digits-eq-zero zero (suc a) b p h = absurd (omega arith)
digits-eq-zero (suc n) zero b p h = omega arith
digits-eq-zero (suc n) (suc a) b p h =
    let high = digits-eq-zero n (suc a / 2) (b / 2) (omega arith) (omega arith) in
    let low = differ-eq-zero (suc a % 2) (b % 2) (omega arith) in omega arith

digits-lt : (n k a b : ℕ) → a ≤ n → a < 2 ^ k → b < 2 ^ k → digits (λ z. z) differ n a b < 2 ^ k
digits-lt zero k zero b h p q = q
digits-lt zero k (suc a) b h p q = absurd (omega arith)
digits-lt (suc n) k zero b h p q = q
digits-lt (suc n) zero (suc a) b h p q = absurd (omega arith)
digits-lt (suc n) (suc k) (suc a) b h p q =
    let e = pow-suc 2 k in
    let high = digits-lt n k (suc a / 2) (b / 2) (omega arith) (omega arith) (omega arith) in
    let low = differ-le-one (suc a % 2) (b % 2) (omega arith) (omega arith) in omega arith

-- Only equal words cancel.
bit_xor-eq-zero : (a b : ℕ) → bit_xor a b ≡ 0 → a ≡ b
bit_xor-eq-zero a b h = digits-eq-zero a a b (le_refl a) (simp bit_xor-bitwise at h)

bit_xor-lt : (k a b : ℕ) → a < 2 ^ k → b < 2 ^ k → bit_xor a b < 2 ^ k
bit_xor-lt k a b p q = simp bit_xor-bitwise (digits-lt a k a b (le_refl a) p q)

-- A state that a run can be in.
abbrev pub IsState : ℕ → Type 0
IsState x = (0 < x) × (x < word)

shift_right_12-IsState : (x : ℕ) → IsState x → IsState (shift_right_12 x)
unfolding shift_right_12
shift_right_12-IsState x h =
    let ne : bit_xor x (x / 2 ^ 12) ≢ 0 = λ e. omega (arith, bit_xor-eq-zero x (x / 2 ^ 12) e) in
    (omega arith, bit_xor-lt 64 x (x / 2 ^ 12) h.1 (omega arith))

-- The multiplier 2 ^ 25 - 1 is odd, so no word but 0 is its own shift.
shift_left_25-IsState : (x : ℕ) → IsState x → IsState (shift_left_25 x)
unfolding shift_left_25
shift_left_25-IsState x h =
    let ne : bit_xor x ((x * 2 ^ 25) % word) ≢ 0 =
      λ e. omega (arith, bit_xor-eq-zero x ((x * 2 ^ 25) % word) e) in
    (omega arith, bit_xor-lt 64 x ((x * 2 ^ 25) % word) h.1 (omega arith))

shift_right_27-IsState : (x : ℕ) → IsState x → IsState (shift_right_27 x)
unfolding shift_right_27
shift_right_27-IsState x h =
    let ne : bit_xor x (x / 2 ^ 27) ≢ 0 = λ e. omega (arith, bit_xor-eq-zero x (x / 2 ^ 27) e) in
    (omega arith, bit_xor-lt 64 x (x / 2 ^ 27) h.1 (omega arith))

-- From a state that is not 0 the generator never reaches the state 0, in which it would stay.
pub rng_step-IsState : (x : ℕ) → IsState x → IsState (rng_step x)
unfolding rng_step
rng_step-IsState x h =
    shift_right_27-IsState _ (shift_left_25-IsState _ (shift_right_12-IsState x h))

abbrev pub steps : ℕ → ℕ → ℕ
steps zero x = x
steps (suc n) x = steps n (rng_gen x).1

steps-IsState : (n x : ℕ) → IsState x → IsState (steps n x)
unfolding rng_gen
steps-IsState zero x h = h
steps-IsState (suc n) x h = steps-IsState n (rng_step x) (rng_step-IsState x h)

pub rng_gen_range_bounds :
    (x low high : ℕ)
    → low < high
    → high < word
    → (low ≤ (rng_gen_range x low high).0) × ((rng_gen_range x low high).0 < high)
unfolding rng_gen_range
rng_gen_range_bounds x low high lt top =
    let width : (high + word - low) % word ≡ high - low = omega arith in
    rw width (omega arith, omega arith)

-- A seeded generator stays in a state that is not 0 through any number of draws, and each draw from
-- a range lies in it.
pub seeded_run :
    (n seed x low high : ℕ)
    → seed < word
    → rng_seed_with seed ≡ some x
    → low < high
    → high < word
    → IsState (steps n x)
      × (low ≤ (rng_gen_range (steps n x) low high).0)
      × ((rng_gen_range (steps n x) low high).0 < high)
unfolding rng_seed_with
seeded_run n seed x low high fits seeded lt top =
    let (lo, hi) = rng_gen_range_bounds (steps n x) low high lt top in
    let start = bit_xor-lt 64 seed 0xedef335f00e170b3 fits (omega arith) in
    (steps-IsState n x (ground arith), lo, hi)
