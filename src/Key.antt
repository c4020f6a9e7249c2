-- ===== src/Key.antt =====
-- Metric keys, `struct optics_key`: src/utils/key.c.
pub mod View
use optics_light.Memory.{write_at, strlcpy}
use optics_light.Prelude.{
  ℕ, ◌+◌, ◌-◌, ◌≡◌, Option, none, some, List, [], ◌∷◌, ltb, leb, ◌==◌, if◌then◌else◌, replicate,
  take, get_elem?, Bool, true, false,
}

-- `sizeof(key->data)`
abbrev pub optics_name_max_len : ℕ
optics_name_max_len = 256

pub record Key : Type 0 where
  pub len : ℕ
  pub bytes : List ℕ

-- `struct optics_key key = {0}`
abbrev pub empty_key : Key
empty_key = record { len = 0; bytes = replicate optics_name_max_len 0 }

-- `if (key->len) { key->data[key->len] = '.'; key->len++; }`
unfoldable pub push_dot : Key → Key
push_dot key =
    if key.len == 0
    then key
    else record { len = key.len + 1; bytes = write_at key.bytes key.len (b'.' ∷ []) }

-- The `strlcpy`, the addition of the length that it wanted to copy, and the cap on it.
unfoldable pub push_suffix : Key → List ℕ → Key
push_suffix key suffix =
    let (bytes, wanted) = strlcpy key.bytes key.len suffix (optics_name_max_len - key.len) in
    let len = key.len + wanted in
    record {
      len = if leb optics_name_max_len len then optics_name_max_len - 1 else len;
      bytes = bytes;
    }

-- `none` is the abort of a failed assertion. The first component is the length to pop to.
unfoldable pub optics_key_push : Key → List ℕ → Option (ℕ × Key)
optics_key_push key suffix =
    if key.len + 1 == optics_name_max_len
    then some (key.len, key)
    else (let pushed = push_suffix (push_dot key) suffix in
        elim (get_elem? pushed.bytes pushed.len) [
          | none ↦ none
          | some c ↦ if c == 0 then some (key.len, pushed) else none
        ])

-- `text` is what the format and its arguments print.
unfoldable pub optics_key_pushf : Key → List ℕ → Option (ℕ × Key)
optics_key_pushf key text = optics_key_push key (take (optics_name_max_len - 1) text)

unfoldable pub optics_key_pop : Key → ℕ → Option Key
optics_key_pop key pos =
    if leb pos key.len
    then some (record { len = pos; bytes = write_at key.bytes pos (0 ∷ []) })
    else none
