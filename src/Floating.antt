-- ===== src/Floating.antt =====
-- What the lenses use of C's `double`: IEEE 754 arithmetic, comparison and conversion belong to the
-- compiler and the processor, so the type and its operations are a parameter. The laws are those of
-- IEEE 754 and of the C conversions.
use optics_light.Qsort.{Sign}
use optics_light.Prelude.{ℕ, ◌≡◌, Bool, true, false, not}

pub record Floating (D : Type 0) : Type 0 where
  -- the bit pattern, and the value of a pattern
  pub to_bits : D → ℕ
  pub of_bits : ℕ → D
  -- `a < b` and `a >= b`; both are false where one is not a number
  pub lt : D → D → Bool
  pub ge : D → D → Bool
  pub is_nan : D → Bool
  -- `uint64_t` and `int64_t` (by its two's complement pattern) to `double`
  pub of_u64 : ℕ → D
  pub of_i64 : ℕ → D
  -- `double` to `size_t`
  pub to_u64 : D → ℕ
  -- the sign of the `int` that a `double` is converted to
  pub int_sign : D → Sign
  pub add : D → D → D
  pub sub : D → D → D
  pub mul : D → D → D
  pub div : D → D → D
  pub of_bits-to_bits : (d : D) → of_bits (to_bits d) ≡ d
  pub ge-lt : (a b : D) → is_nan a ≡ false → is_nan b ≡ false → ge a b ≡ not (lt a b)
  pub lt-nan : (a b : D) → is_nan a ≡ true → lt a b ≡ false
  pub ge-nan : (a b : D) → is_nan a ≡ true → ge a b ≡ false
  pub lt-irrefl : (a : D) → lt a a ≡ false
  pub of_u64-number : (n : ℕ) → is_nan (of_u64 n) ≡ false
