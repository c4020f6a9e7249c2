-- ===== src/Tests/Double.antt =====
-- Numbers that stand for C's `double` in the tests: `none` is not a number, and sums and quotients are
-- those of natural numbers.
use optics_light.Floating.{Floating}
use optics_light.Qsort.{Sign, null, positive}
use optics_light.Prelude.{
  ℕ, zero, suc, ◌+◌, ◌-◌, ◌*◌, ◌/◌, ◌≡◌, refl, Option, none, some, Bool, true, false, ltb, leb, not,
  arith,
}

abbrev pub Double : Type 0
Double = Option ℕ

unfoldable pub to_bits : Double → ℕ
to_bits none = 1
to_bits (some zero) = 0
to_bits (some (suc n)) = suc (suc n)

unfoldable pub of_bits : ℕ → Double
of_bits zero = some zero
of_bits (suc zero) = none
of_bits (suc (suc n)) = some (suc n)

pub of_bits-to_bits_lem : (d : Double) → of_bits (to_bits d) ≡ d
unfolding of_bits to_bits
of_bits-to_bits_lem none = refl
of_bits-to_bits_lem (some zero) = refl
of_bits-to_bits_lem (some (suc n)) = refl

unfoldable pub is_nan : Double → Bool
is_nan none = true
is_nan (some _) = false

unfoldable pub less : Double → Double → Bool
less (some a) (some b) = ltb a b
less _ _ = false

unfoldable pub at_least : Double → Double → Bool
at_least (some a) (some b) = leb b a
at_least _ _ = false

unfoldable pub combine : (ℕ → ℕ → ℕ) → Double → Double → Double
combine f (some a) (some b) = some (f a b)
combine f _ _ = none

unfoldable pub whole : Double → ℕ
whole none = 0
whole (some n) = n

pub at_least-less :
    (a b : Double) → is_nan a ≡ false → is_nan b ≡ false → at_least a b ≡ not (less a b)
unfolding is_nan less at_least
at_least-less none b p q = absurd (ground arith)
at_least-less (some a) none p q = absurd (ground arith)
at_least-less (some a) (some b) p q = ground arith

pub less-nan : (a b : Double) → is_nan a ≡ true → less a b ≡ false
unfolding is_nan less
less-nan none b p = refl
less-nan (some a) b p = absurd (ground arith)

pub at_least-nan : (a b : Double) → is_nan a ≡ true → at_least a b ≡ false
unfolding is_nan at_least
at_least-nan none b p = refl
at_least-nan (some a) b p = absurd (ground arith)

pub less_irrefl : (a : Double) → less a a ≡ false
unfolding less
less_irrefl none = refl
less_irrefl (some a) = ground arith

pub number : (n : ℕ) → is_nan (some n) ≡ false
unfolding is_nan
number n = refl

unfoldable pub sign_of : Double → Sign
sign_of none = null
sign_of (some zero) = null
sign_of (some (suc n)) = positive

instance abbrev pub double_floating : Floating Double
double_floating = record {
  to_bits = to_bits;
  of_bits = of_bits;
  lt = less;
  ge = at_least;
  is_nan = is_nan;
  of_u64 = λ n. some n;
  of_i64 = λ n. some n;
  to_u64 = whole;
  int_sign = sign_of;
  add = combine (λ a b. a + b);
  sub = combine (λ a b. a - b);
  mul = combine (λ a b. a * b);
  div = combine (λ a b. a / b);
  of_bits-to_bits = of_bits-to_bits_lem;
  ge-lt = at_least-less;
  lt-nan = less-nan;
  ge-nan = at_least-nan;
  lt-irrefl = less_irrefl;
  of_u64-number = number;
}
