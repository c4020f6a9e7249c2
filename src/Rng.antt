-- ===== src/Rng.antt =====
-- The xorshift generator: src/utils/rng.h and src/utils/rng.c. The state is the word `rng->x`; the
-- thread's own generator is passed along by its users.
pub mod State
use Prim.Native.Nat.{bit_xor}
use optics_light.Floating.{Floating}
use optics_light.Prelude.{
  ℕ, ◌+◌, ◌-◌, ◌*◌, ◌/◌, ◌%◌, ◌^◌, Bool, leb, Option, none, some, if◌then◌else◌, ◌==◌,
}

abbrev pub word : ℕ
word = 2 ^ 64

-- `rng_seed_with`; `none` is the abort of the failed assertion. `rng_seed` seeds with the processor's
-- time stamp, and `rng_global` seeds a state of 0.
unfoldable pub rng_seed_with : ℕ → Option ℕ
rng_seed_with seed = let x = bit_xor seed 0xedef335f00e170b3 in if x == 0 then none else some x

abbrev pub rng_max : ℕ
rng_max = word - 1

-- `x ^= x >> 12`, `x ^= x << 25` and `x ^= x >> 27`
unfoldable pub shift_right_12 : ℕ → ℕ
shift_right_12 x = bit_xor x (x / 2 ^ 12)

unfoldable pub shift_left_25 : ℕ → ℕ
shift_left_25 x = bit_xor x ((x * 2 ^ 25) % word)

unfoldable pub shift_right_27 : ℕ → ℕ
shift_right_27 x = bit_xor x (x / 2 ^ 27)

-- The next state, and the word that `rng_gen` returns with it.
unfoldable pub rng_step : ℕ → ℕ
rng_step x = shift_right_27 (shift_left_25 (shift_right_12 x))

unfoldable pub rng_gen : ℕ → ℕ × ℕ
rng_gen x = ((rng_step x * 2685821657736338717) % word, rng_step x)

-- `max - min` wraps; callers give `min < max`, since `% 0` is undefined.
unfoldable pub rng_gen_range : ℕ → ℕ → ℕ → ℕ × ℕ
rng_gen_range x low high =
    let (n, x') = rng_gen x in ((n % ((high + word - low) % word) + low) % word, x')

unfoldable pub rng_gen_prob : {D : Type 0} ⦃fp : Floating D⦄ → ℕ → D → Bool × ℕ
rng_gen_prob ⦃fp⦄ x prob =
    let (n, x') = rng_gen x in (leb n (fp.to_u64 (fp.mul prob (fp.of_u64 rng_max))), x')
