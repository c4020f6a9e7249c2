-- ===== src/Crest/Path.antt =====
-- Paths: src/utils/crest/path.c. An item is a pointer into the bytes of the path, that is an offset.
pub mod Segments
pub mod Items
use optics_light.Memory.{c_string}
use optics_light.Prelude.{
  ℕ, zero, suc, ◌+◌, Option, none, some, List, [], ◌∷◌, Bool, true, false, ◌==◌, if◌then◌else◌, ltb,
  take, drop, get_or, get_elem?,
}

abbrev pub max_path_len : ℕ
max_path_len = 1024

pub data TokenType : Type 0 where
  token_star token_wildcard token_const : TokenType

-- `struct path`. A tail shares the bytes, although only the whole path owns them.
pub record CrestPath : Type 0 where
  pub raw : List ℕ
  pub i : ℕ
  pub n : ℕ
  pub items : List ℕ

-- The loop that counts the items; `inside` is `i && raw[i - 1] != '/'`.
unfoldable pub count_from : List ℕ → Bool → ℕ
count_from [] inside = 0
count_from (c ∷ cs) inside = elim (c == b'?') [
  | true ↦ 0
  | false ↦ elim (c == b'/') [
    | true ↦ count_from cs false
    | false ↦ elim inside [ true ↦ count_from cs true | false ↦ suc (count_from cs true) ]
  ]
]

-- The loop that fills the items, from the `i`-th byte on: the bytes that it leaves and the offsets.
unfoldable pub fill_from : List ℕ → ℕ → Bool → List ℕ × List ℕ
fill_from [] i inside = ([], [])
fill_from (c ∷ cs) i inside = elim (c == b'?') [
  | true ↦ (0 ∷ cs, [])
  | false ↦ elim (c == b'/') [
    | true ↦ let rest = fill_from cs (suc i) false in (0 ∷ rest.0, rest.1)
    | false ↦
        let rest = fill_from cs (suc i) true in
        elim inside [ true ↦ (c ∷ rest.0, rest.1) | false ↦ (c ∷ rest.0, i ∷ rest.1) ]
  ]
]

unfoldable pub path_new : List ℕ → CrestPath
path_new raw =
    let cut = take max_path_len raw in
    let filled = fill_from cut 0 false in
    record { raw = filled.0; i = 0; n = count_from cut false; items = filled.1 }

unfoldable pub path_empty : CrestPath → Bool
path_empty path = path.i == path.n

-- The string that an item points to.
unfoldable pub item_string : List ℕ → ℕ → List ℕ
item_string raw offset = c_string (drop offset raw)

unfoldable pub path_head : CrestPath → Option (List ℕ)
path_head path =
    if path.i == path.n then none else some (item_string path.raw (get_or path.items path.i 0))

unfoldable pub path_tail : CrestPath → CrestPath
path_tail path = record path { i = if ltb path.i path.n then path.i + 1 else path.n }

unfoldable pub path_tokens : CrestPath → ℕ
path_tokens path = path.n

unfoldable pub path_token : CrestPath → ℕ → Option (List ℕ)
path_token path i =
    if ltb i path.n then some (item_string path.raw (get_or path.items i 0)) else none

unfoldable pub path_token_type : List ℕ → TokenType
path_token_type [] = token_const
path_token_type (c ∷ cs) =
    if c == b'*' then token_star else if c == b':' then token_wildcard else token_const
