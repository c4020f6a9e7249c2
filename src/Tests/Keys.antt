-- ===== src/Tests/Keys.antt =====
-- Keys and buffers.
use optics_light.Key.{Key, optics_key_push, optics_key_pop}
use optics_light.Key.View
use optics_light.Buffer.{Buffer, buffer_put, buffer_write, buffer_printf}
use optics_light.Buffer
use optics_light.Buffer.Content
use optics_light.Prelude.{ℕ, ◌≡◌, refl, some, [], ◌∷◌, ◌++◌, replicate, length-replicate, arith}

abbrev a_key : Key
a_key = record { len = 1; bytes = b'a' ∷ replicate 255 0 }

a_key-Holds : View.Holds (b'a' ∷ []) a_key
a_key-Holds = record {
  rest = replicate 254 0;
  bytes = refl;
  len = refl;
  size = refl;
  no_nil = (omega arith, tt);
}

push-Holds_example :
    (out : Key) × (optics_key_push a_key (b'b' ∷ []) ≡ some (1, out))
    × View.Holds (View.joined (b'a' ∷ []) (b'b' ∷ [])) out
push-Holds_example = View.push-Holds (b'a' ∷ []) (b'b' ∷ []) a_key a_key-Holds (omega arith, tt)

push-pop_example :
    (out back : Key) × (optics_key_push a_key (b'b' ∷ []) ≡ some (1, out))
    × (optics_key_pop out 1 ≡ some back)
    × View.Holds (b'a' ∷ []) back
push-pop_example = View.push-pop (b'a' ∷ []) (b'b' ∷ []) a_key a_key-Holds (omega arith, tt)

abbrev clear_heap : Buffer.Heap
clear_heap = record { stale = λ n. replicate n 0; length-stale = λ n. length-replicate {A = ℕ} n 0 }

abbrev two_bytes : Buffer
two_bytes = record { len = 2; cap = 3; cells = 1 ∷ 2 ∷ 0 ∷ [] }

two_bytes-Holds : Content.Holds (1 ∷ 2 ∷ []) two_bytes
two_bytes-Holds = record { rest = 0 ∷ []; cells = refl; len = refl; cap = refl }

buffer_printf-Holds_example :
    (out : Buffer) × (buffer_printf clear_heap two_bytes (5 ∷ 6 ∷ []) ≡ some out)
    × Content.Holds ((1 ∷ 2 ∷ []) ++ (5 ∷ 6 ∷ [])) out
buffer_printf-Holds_example =
    Content.buffer_printf-Holds clear_heap (1 ∷ 2 ∷ []) (5 ∷ 6 ∷ []) two_bytes two_bytes-Holds
