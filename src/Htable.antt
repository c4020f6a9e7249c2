-- ===== src/Htable.antt =====
-- The hash table from strings to words, `struct htable`: src/utils/htable.h and src/utils/htable.c.
-- Buckets are named by their index. A failed allocation aborts, and is not modelled; `cap` and `len`
-- do not wrap, since a table of 2 ^ 60 buckets does not fit in memory.
pub mod Probe
pub mod Placed
pub mod Write
pub mod Resize
pub mod Rehash
pub mod Ops
pub mod Put
pub mod Del
pub mod Total
pub mod Diff
use Prim.Native.Nat.{bit_xor}
use optics_light.Buffer.{double_cap}
use optics_light.Prelude.{
  ℕ, zero, suc, ◌+◌, ◌-◌, ◌*◌, ◌%◌, ◌^◌, Option, none, some, List, [], ◌∷◌, ltb, leb, ◌==◌, ◌&&◌,
  take, drop, if◌then◌else◌, length, Bool, true, false, get_elem?, set, replicate,
}

abbrev pub htable_key_max_len : ℕ
htable_key_max_len = 1024

abbrev pub probe_window : ℕ
probe_window = 8

-- `key` is `none` for NULL.
pub record Bucket : Type 0 where
  pub key : Option (List ℕ)
  pub value : ℕ

abbrev pub Table : Type 0
Table = List Bucket

abbrev pub empty_bucket : Bucket
empty_bucket = record { key = none; value = 0 }

pub record Htable : Type 0 where
  pub len : ℕ
  pub cap : ℕ
  pub table : Table

-- `struct htable_ret`
pub record HtableRet : Type 0 where
  pub ok : Bool
  pub value : ℕ

abbrev pub empty_htable : Htable
empty_htable = record { len = 0; cap = 0; table = [] }

-- A `char` is signed: the byte is extended by its sign to 64 bits.
unfoldable pub sign_extend : ℕ → ℕ
sign_extend c = if ltb c 128 then c else c + (2 ^ 64 - 256)

unfoldable pub fnv_from : ℕ → List ℕ → ℕ
fnv_from hash [] = hash
fnv_from hash (c ∷ cs) = fnv_from ((bit_xor hash (sign_extend c) * 0x100000001b3) % 2 ^ 64) cs

unfoldable pub htable_hash : List ℕ → ℕ
htable_hash key = fnv_from 0xcbf29ce484222325 (take htable_key_max_len key)

unfoldable pub str_eq : List ℕ → List ℕ → Bool
str_eq [] [] = true
str_eq [] (_ ∷ _) = false
str_eq (_ ∷ _) [] = false
str_eq (a ∷ as') (b ∷ bs) = a == b && str_eq as' bs

-- `strncmp(a, b, htable_key_max_len) == 0`
unfoldable pub same_key : List ℕ → List ℕ → Bool
same_key a b = str_eq (take htable_key_max_len a) (take htable_key_max_len b)

unfoldable pub key_at : Table → ℕ → Option (List ℕ)
key_at [] j = none
key_at (b ∷ t) zero = b.key
key_at (b ∷ t) (suc j) = key_at t j

unfoldable pub value_at : Table → ℕ → ℕ
value_at [] j = 0
value_at (b ∷ t) zero = b.value
value_at (b ∷ t) (suc j) = value_at t j

-- The search of `htable_get`, `htable_xchg` and `htable_del`: the bucket with the key, over `n` more
-- places from the `i`-th of the window.
unfoldable pub find_key : Table → ℕ → ℕ → List ℕ → ℕ → ℕ → Option ℕ
find_key t cap hash key zero i = none
find_key t cap hash key (suc n) i =
    let rest = find_key t cap hash key n (i + 1) in
    elim (key_at t ((hash + i) % cap)) [
      | none ↦ rest
      | some k ↦ if same_key k key then some ((hash + i) % cap) else rest
    ]

-- The search of `table_put`: the first bucket with no key.
unfoldable pub find_free : Table → ℕ → ℕ → ℕ → ℕ → Option ℕ
find_free t cap hash zero i = none
find_free t cap hash (suc n) i =
    let rest = find_free t cap hash n (i + 1) in
    elim (key_at t ((hash + i) % cap)) [ none ↦ some ((hash + i) % cap) | some _ ↦ rest ]

-- `none` is `return false`
unfoldable pub table_put : Table → ℕ → List ℕ → ℕ → Option Table
table_put t cap key value = elim (find_free t cap (htable_hash key) probe_window 0) [
  | none ↦ none
  | some j ↦ some (set t j (record { key = some key; value = value }))
]

-- The loop of `htable_resize` over the old buckets.
unfoldable pub rehash : Table → Table → ℕ → Option Table
rehash [] new cap = some new
rehash (b ∷ t) new cap = elim b.key [
  | none ↦ rehash t new cap
  | some k ↦ elim (table_put new cap k b.value) [ none ↦ none | some new' ↦ rehash t new' cap ]
]

-- `fuel` bounds the capacities that are tried; `none` means that it ran out.
unfoldable pub htable_resize : ℕ → Htable → ℕ → Option Htable
htable_resize zero ht cap = none
htable_resize (suc fuel) ht cap =
    if leb cap ht.cap
    then some ht
    else (elim (double_cap (suc cap) cap (if ht.cap == 0 then 1 else ht.cap)) [
      | none ↦ none
      | some new_cap ↦ elim (rehash ht.table (replicate new_cap empty_bucket) new_cap) [
        | none ↦ htable_resize fuel ht (new_cap * 2)
        | some new_table ↦ some (record ht { cap = new_cap; table = new_table })
      ]
    ])

unfoldable pub htable_reset : Htable → Htable
htable_reset ht = empty_htable

unfoldable pub htable_reserve : ℕ → Htable → ℕ → Option Htable
htable_reserve fuel ht items = htable_resize fuel ht (items * 4)

unfoldable pub htable_get : ℕ → Htable → List ℕ → Option (HtableRet × Htable)
htable_get fuel ht key = elim (htable_resize fuel ht probe_window) [
  | none ↦ none
  | some ht' ↦ elim (find_key ht'.table ht'.cap (htable_hash key) key probe_window 0) [
    | none ↦ some (record { ok = false; value = 0 }, ht')
    | some j ↦ some (record { ok = true; value = value_at ht'.table j }, ht')
  ]
]

-- What the loop of `htable_put` finds: the key, else the first bucket with no key, else neither.
pub data PutScan : Type 0 where
  found : ℕ → PutScan
  free : ℕ → PutScan
  full : PutScan

unfoldable pub put_scan : Table → ℕ → ℕ → List ℕ → ℕ → ℕ → Option ℕ → PutScan
put_scan t cap hash key zero i empty = elim empty [ none ↦ full | some j ↦ free j ]
put_scan t cap hash key (suc n) i empty =
    let j = (hash + i) % cap in
    let next = put_scan t cap hash key n (i + 1) empty in
    let fresh = put_scan t cap hash key n (i + 1) (some j) in
    elim (key_at t j) [
      | some k ↦ if same_key k key then found j else next
      | none ↦ elim empty [ none ↦ fresh | some _ ↦ next ]
    ]

unfoldable pub htable_put : ℕ → Htable → List ℕ → ℕ → Option (HtableRet × Htable)
htable_put zero ht key value = none
htable_put (suc fuel) ht key value = elim (htable_resize (suc fuel) ht probe_window) [
  | none ↦ none
  | some ht' ↦ elim (put_scan ht'.table ht'.cap (htable_hash key) key probe_window 0 none) [
    | found j ↦ some (record { ok = false; value = value_at ht'.table j }, ht')
    | free j ↦ some (
      record { ok = true; value = 0 },
      record {
        len = ht'.len + 1;
        cap = ht'.cap;
        table =
            set ht'.table j (record { key = some (take htable_key_max_len key); value = value });
      },
    )
    | full ↦ elim (htable_resize (suc fuel) ht' (ht'.cap * 2)) [
      | none ↦ none
      | some ht'' ↦ htable_put fuel ht'' key value
    ]
  ]
]

unfoldable pub htable_xchg : ℕ → Htable → List ℕ → ℕ → Option (HtableRet × Htable)
htable_xchg fuel ht key value = elim (htable_resize fuel ht probe_window) [
  | none ↦ none
  | some ht' ↦ elim (find_key ht'.table ht'.cap (htable_hash key) key probe_window 0) [
    | none ↦ some (record { ok = false; value = 0 }, ht')
    | some j ↦ some (
      record { ok = true; value = value_at ht'.table j },
      record ht' { table = set ht'.table j (record { key = key_at ht'.table j; value = value }) },
    )
  ]
]

-- The value stays in the bucket when its key goes.
unfoldable pub htable_del : ℕ → Htable → List ℕ → Option (HtableRet × Htable)
htable_del fuel ht key = elim (htable_resize fuel ht probe_window) [
  | none ↦ none
  | some ht' ↦ elim (find_key ht'.table ht'.cap (htable_hash key) key probe_window 0) [
    | none ↦ some (record { ok = false; value = 0 }, ht')
    | some j ↦ some (
      record { ok = true; value = value_at ht'.table j },
      record {
        len = ht'.len - 1;
        cap = ht'.cap;
        table = set ht'.table j (record { key = none; value = value_at ht'.table j });
      },
    )
  ]
]

-- The loop of `htable_next` over the buckets from index `i` on.
unfoldable pub next_from : Table → ℕ → Option ℕ
next_from [] i = none
next_from (b ∷ t) i = elim b.key [ none ↦ next_from t (i + 1) | some _ ↦ some i ]

unfoldable pub htable_next : Htable → Option ℕ → Option ℕ
htable_next ht none = next_from ht.table 0
htable_next ht (some j) = next_from (drop (j + 1) ht.table) (j + 1)
