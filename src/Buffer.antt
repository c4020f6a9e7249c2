-- ===== src/Buffer.antt =====
-- The growing byte buffer, `struct buffer`: src/utils/buffer.c.
pub mod Content
use optics_light.Memory.{write_at}
use optics_light.Prelude.{
  ℕ, ◌%◌, ◌^◌, zero, suc, ◌+◌, ◌-◌, ◌*◌, ◌≡◌, Option, none, some, List, [], ◌∷◌, ◌++◌, ltb, ◌==◌,
  ◌&&◌, take, if◌then◌else◌, length, Bool, true, false,
}

-- `data` holds the `cap` cells of the allocation, and no cell where `data` is NULL.
pub record Buffer : Type 0 where
  pub len : ℕ
  pub cap : ℕ
  pub cells : List ℕ

abbrev pub buffer_min_cap : ℕ
buffer_min_cap = 128

-- `struct buffer buffer = {0}`
abbrev pub empty_buffer : Buffer
empty_buffer = record { len = 0; cap = 0; cells = [] }

unfoldable pub buffer_reset : Buffer → Buffer
buffer_reset buffer = empty_buffer

-- `while (len > buffer->cap) buffer->cap *= 2;` with fuel; `none` means that it ran out.
-- A capacity has no bound here; `double_word` has that of a `size_t`.
unfoldable pub double_cap : ℕ → ℕ → ℕ → Option ℕ
double_cap zero len cap = none
double_cap (suc fuel) len cap =
    let rest = double_cap fuel len (cap * 2) in if ltb cap len then rest else some cap

-- The same loop on a `size_t`: a capacity that doubles to 2^64 becomes 0, and the loop never ends.
unfoldable pub double_word : ℕ → ℕ → ℕ → Option ℕ
double_word zero len cap = none
double_word (suc fuel) len cap =
    let rest = double_word fuel len ((cap * 2) % 2 ^ 64) in if ltb cap len then rest else some cap

-- `vsnprintf` of a text into what is left of the cells: it writes at most `avail - 1` bytes and a
-- nil, nothing where `avail` is 0, and returns the length of the whole text.
unfoldable pub print_into : Buffer → List ℕ → Buffer
print_into b text =
    if b.cap - b.len == 0
    then b
    else record b { cells = write_at b.cells b.len (take (b.cap - b.len - 1) text ++ 0 ∷ []) }

-- What `malloc` and `realloc` leave in `n` cells that nothing has been written to. An allocation
-- that fails aborts, and is not modelled.
pub record Heap : Type 0 where
  pub stale : ℕ → List ℕ
  pub length-stale : (n : ℕ) → length (stale n) ≡ n

module _ (heap : Heap) where
  unfoldable pub buffer_reserve : Buffer → ℕ → Option Buffer
  buffer_reserve buffer len =
      if ltb len buffer.cap
      then some buffer
      else (let start = if buffer.cap == 0 then buffer_min_cap else buffer.cap in
          elim (double_cap (suc len) len start) [
            | none ↦ none
            | some cap ↦ some (record {
              len = buffer.len;
              cap = cap;
              cells = buffer.cells ++ heap.stale (cap - buffer.cap);
            })
          ])

  unfoldable pub buffer_put : Buffer → ℕ → Option Buffer
  buffer_put buffer c = elim (buffer_reserve buffer (buffer.len + 1)) [
    | none ↦ none
    | some b ↦ some (record b { len = b.len + 1; cells = write_at b.cells b.len (c ∷ []) })
  ]

  unfoldable pub buffer_write : Buffer → List ℕ → Option Buffer
  buffer_write buffer bytes = elim (buffer_reserve buffer (buffer.len + length bytes)) [
    | none ↦ none
    | some b ↦ some (record b { len = b.len + length bytes; cells = write_at b.cells b.len bytes })
  ]

  -- `text` is what the format and its arguments print; a format that `vsnprintf` refuses aborts,
  -- and is not modelled.
  unfoldable pub buffer_printf : Buffer → List ℕ → Option Buffer
  buffer_printf buffer text =
      let first = print_into buffer text in
      if ltb 0 (length text) && ltb (buffer.cap - buffer.len) (length text + 1)
      then (elim (buffer_reserve first (buffer.len + length text + 1)) [
        | none ↦ none
        | some grown ↦
            let second = print_into grown text in
            some (record second { len = second.len + length text })
      ])
      else some (record first { len = first.len + length text })
