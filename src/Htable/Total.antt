-- ===== src/Htable/Total.antt =====
-- When the operations return: a table with fewer than eight keys has a free bucket in every window.
use native.Mathlib.Decide.{dec_lt}
use native.Mathlib.Nat.{div-add-mod}
use optics_light.Buffer.Content.{double_cap_total}
use optics_light.Htable.{
  Table, Bucket, Htable, HtableRet, empty_bucket, key_at, value_at, find_free, table_put, rehash,
  htable_hash, probe_window, htable_resize, htable_get, htable_put, htable_xchg, htable_del,
}
use optics_light.Htable.Probe.{key_at-set, find_free_sound}
use optics_light.Htable.Put.{put_scan-found, put_scan-free}
use optics_light.Htable.Placed.{canon, find}
use optics_light.Htable.Resize.{count, count-set}
use optics_light.Htable.Rehash.{IsValid, htable_resize-Resized}
use optics_light.Prelude.{
  ℕ, zero, suc, ◌+◌, ◌-◌, ◌/◌, ◌%◌, ◌≤◌, ◌<◌, ◌≡◌, refl, ◌≢◌, ◌∙◌, none, some, List, [], ◌∷◌, arith,
  ◌==◌, if◌then◌else◌, true, false, Bool-cases, Option-cases, inl, inr, length, set, length-set,
  leb, replicate, length-replicate,
}

-- Numbers less than `c` apart differ modulo `c`.
pub mod_differ : (a b c : ℕ) → a < b → b < a + c → a % c ≢ b % c
mod_differ a b c lt near e = elim (dec_lt (a / c) (b / c)) [
  | yes h ↦ grind (arith, div-add-mod a c, div-add-mod b c)
  | no h ↦ grind (arith, div-add-mod a c, div-add-mod b c)
]

-- A bucket before the rest of the window does not change the search of the rest.
find_free-set :
    (t : Table) (cap hash : ℕ) (b : Bucket) (m n i : ℕ)
    → length t ≡ cap
    → 8 ≤ cap
    → m < i
    → i + n ≤ 8
    → find_free (set t ((hash + m) % cap) b) cap hash n i ≡ find_free t cap hash n i
unfolding find_free
find_free-set t cap hash b m zero i size wide lt le = refl
find_free-set t cap hash b m (suc n) i size wide lt le =
    let apart = mod_differ (hash + m) (hash + i) cap (omega arith) (omega arith) in
    let write = key_at-set t ((hash + m) % cap) ((hash + i) % cap) b (omega arith) in
    let same : key_at (set t ((hash + m) % cap) b) ((hash + i) % cap)
        ≡ key_at t ((hash + i) % cap) =
      ground arith in
    ground (arith, find_free-set t cap hash b m n (i + 1))

next_none_free :
    (t : Table) (cap hash n i : ℕ)
    → key_at t ((hash + i) % cap) ≡ none
    → find_free t cap hash (suc n) i ≡ none
    → ⊥
unfolding find_free
next_none_free t cap hash n i e h = ground arith

next_full :
    (t : Table) (cap hash n i : ℕ) (k : List ℕ)
    → key_at t ((hash + i) % cap) ≡ some k
    → find_free t cap hash (suc n) i ≡ none
    → find_free t cap hash n (i + 1) ≡ none
unfolding find_free
next_full t cap hash n i k e h = ground arith

-- A window with no free place has as many keys as places.
window_full :
    (n : ℕ) (t : Table) (cap hash i : ℕ)
    → length t ≡ cap
    → 8 ≤ cap
    → i + n ≤ 8
    → find_free t cap hash n i ≡ none
    → n ≤ count t
window_full zero t cap hash i size wide le none_free = omega arith
window_full (suc n) t cap hash i size wide le none_free =
    let j = (hash + i) % cap in
    let b : Bucket = empty_bucket in
    elim (Option-cases (key_at t j)) [
      | inl e ↦ absurd (next_none_free t cap hash n i e none_free)
      | inr (k, e) ↦
          let t' = set t j b in
          let rest : n ≤ count t' =
            window_full n t' cap hash (i + 1) (length-set t j b ∙ size) wide (omega arith) (
              find_free-set t cap hash b i n (i + 1) size wide (omega arith) (omega arith)
              ∙ next_full t cap hash n i k e none_free) in
          ground (arith, count-set t j b (omega arith))
    ]

free_found :
    (t : Table) (cap hash : ℕ)
    → length t ≡ cap
    → 8 ≤ cap
    → count t < 8
    → (j : ℕ) × (find_free t cap hash probe_window 0 ≡ some j)
free_found t cap hash size wide few = elim (Option-cases (find_free t cap hash probe_window 0)) [
  | inl e ↦ absurd (omega (arith, window_full 8 t cap hash 0 size wide (omega arith) e))
  | inr r ↦ r
]

table_put_total :
    (t : Table) (cap : ℕ) (k : List ℕ) (v : ℕ)
    → length t ≡ cap
    → 8 ≤ cap
    → count t < 8
    → (out : Table) × (table_put t cap k v ≡ some out)
      × (length out ≡ cap)
      × (count out ≡ count t + 1)
unfolding table_put
table_put_total t cap k v size wide few =
    let (j, e) = free_found t cap (htable_hash k) size wide few in
    let (empty, (m, lt, at)) =
      find_free_sound t cap (htable_hash k) k probe_window 0 j (omega arith) e in
    let b : Bucket = record { key = some k; value = v } in
    (
      set t j b,
      rw (e, table_put) refl,
      length-set t j b ∙ size,
      ground (arith, count-set t j b (omega arith)),
    )

-- Eight keys always find room.
rehash_total :
    (t new : Table) (cap : ℕ)
    → length new ≡ cap
    → 8 ≤ cap
    → count t + count new ≤ 8
    → (out : Table) × (rehash t new cap ≡ some out)
unfolding rehash count
rehash_total [] new cap size wide few = (new, refl)
rehash_total (b ∷ t) new cap size wide few = elim (Option-cases b.key) [
  | inl e ↦ let (out, run) = rehash_total t new cap size wide (ground arith) in (out, ground arith)
  | inr (k, e) ↦
      let room : count new < 8 = ground arith in
      let (new', put, size', counts) = table_put_total new cap k b.value size wide room in
      let (out, run) = rehash_total t new' cap size' wide (ground arith) in (out, ground arith)
]

count-le-length : (t : Table) → count t ≤ length t
unfolding count
count-le-length [] = omega arith
count-le-length (b ∷ t) = ground (arith, count-le-length t)

count-fresh : (n : ℕ) → count (replicate n empty_bucket) ≡ 0
unfolding count
count-fresh zero = refl
count-fresh (suc n) = omega (arith, count-fresh n)

-- The first resize of every operation returns, whatever the table.
window_resize_total :
    (fuel : ℕ) (ht : Htable)
    → IsValid ht
    → (out : Htable) × (htable_resize (suc fuel) ht probe_window ≡ some out)
unfolding htable_resize
window_resize_total fuel ht v = elim (Bool-cases (leb probe_window ht.cap)) [
  | inl enough ↦ (ht, ground arith)
  | inr small ↦
      let (c, run, le, grows) =
        double_cap_total 9 8 (if ht.cap == 0 then 1 else ht.cap) (omega arith) (ground arith)
          (ground arith) in
      let few : count ht.table + count (replicate c empty_bucket) ≤ 8 =
        ground (arith, count-le-length ht.table, v.placed.size, count-fresh c) in
      let (t, moved) =
        rehash_total ht.table (replicate c empty_bucket) c (length-replicate c empty_bucket) le
          few in
      (record ht { cap = c; table = t }, ground arith)
]

-- `htable_get` returns on every valid table.
pub htable_get_total :
    (fuel : ℕ) (ht : Htable) (key : List ℕ)
    → IsValid ht
    → (ret : HtableRet) × (out : Htable) × (htable_get (suc fuel) ht key ≡ some (ret, out))
unfolding htable_get
htable_get_total fuel ht key v =
    let (ht', e) = window_resize_total fuel ht v in
    elim (Option-cases (find ht'.table ht'.cap key)) [
      | inl absent ↦ (record { ok = false; value = 0 }, ht', ground arith)
      | inr (j, there) ↦ (record { ok = true; value = value_at ht'.table j }, ht', ground arith)
    ]

-- So does `htable_del`.
pub htable_del_total :
    (fuel : ℕ) (ht : Htable) (key : List ℕ)
    → IsValid ht
    → (ret : HtableRet) × (out : Htable) × (htable_del (suc fuel) ht key ≡ some (ret, out))
unfolding htable_del
htable_del_total fuel ht key v =
    let (ht', e) = window_resize_total fuel ht v in
    elim (Option-cases (find ht'.table ht'.cap key)) [
      | inl absent ↦ (record { ok = false; value = 0 }, ht', ground arith)
      | inr (j, there) ↦ (
        record { ok = true; value = value_at ht'.table j },
        record {
          len = ht'.len - 1;
          cap = ht'.cap;
          table = set ht'.table j (record { key = none; value = value_at ht'.table j });
        },
        ground arith,
      )
    ]

-- And `htable_xchg`.
pub htable_xchg_total :
    (fuel : ℕ) (ht : Htable) (key : List ℕ) (value : ℕ)
    → IsValid ht
    → (ret : HtableRet) × (out : Htable) × (htable_xchg (suc fuel) ht key value ≡ some (ret, out))
unfolding htable_xchg
htable_xchg_total fuel ht key value v =
    let (ht', e) = window_resize_total fuel ht v in
    elim (Option-cases (find ht'.table ht'.cap key)) [
      | inl absent ↦ (record { ok = false; value = 0 }, ht', ground arith)
      | inr (j, there) ↦ (
        record { ok = true; value = value_at ht'.table j },
        record ht' { table = set ht'.table j (record { key = key_at ht'.table j; value = value }) },
        ground arith,
      )
    ]

-- `htable_put` returns on every valid table where fewer than eight keys are stored.
pub htable_put_total :
    (fuel : ℕ) (ht : Htable) (key : List ℕ) (value : ℕ)
    → IsValid ht
    → ht.len < 8
    → (ret : HtableRet) × (out : Htable) × (htable_put (suc fuel) ht key value ≡ some (ret, out))
unfolding htable_put
htable_put_total fuel ht key value v few =
    let (ht', e) = window_resize_total fuel ht v in
    let r = htable_resize-Resized (suc fuel) ht probe_window ht' v e in
    let t = ht'.table in
    elim (Option-cases (find t ht'.cap key)) [
      | inr (j, there) ↦
          let scan = put_scan-found t ht'.cap key j there in
          (record { ok = false; value = value_at t j }, ht', ground arith)
      | inl absent ↦
          let (j, room) =
            free_found t ht'.cap (htable_hash key) r.valid.placed.size r.room
              (omega (arith, r.len, r.valid.counted)) in
          let scan = put_scan-free t ht'.cap key j absent room in
          (
            record { ok = true; value = 0 },
            record {
              len = ht'.len + 1;
              cap = ht'.cap;
              table = set t j (record { key = some (canon key); value = value });
            },
            ground arith,
          )
    ]
