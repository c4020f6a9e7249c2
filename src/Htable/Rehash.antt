-- ===== src/Htable/Rehash.antt =====
-- The rehash of a whole table, and `htable_resize`.
use optics_light.Buffer.{double_cap}
use optics_light.Buffer.Content.{double_cap_total}
use optics_light.Htable.{
  Table, Bucket, Htable, empty_bucket, empty_htable, key_at, table_put, rehash, same_key,
  htable_resize,
}
use optics_light.Htable.Placed.{canon, same_key_iff_canon, IsPlaced, find, lookup, find_sound}
use mathlib.Core.Path.{subst}
use optics_light.Htable.Write.{lookup-some, lookup-none}
use optics_light.Htable.Resize.{count, or_else, scan, scan-lookup, table_put-IsPlaced}
use optics_light.Prelude.{
  ℕ, zero, suc, ◌+◌, ◌*◌, ◌≤◌, ◌<◌, ◌≡◌, refl, ap, sym, ◌∙◌, Option, none, some, List, [], ◌∷◌,
  arith, ◌==◌, if◌then◌else◌, Bool-cases, Option-cases, inl, inr, replicate, length-replicate, leb,
}

find_of_lookup : (t : Table) (cap : ℕ) (q : List ℕ) → lookup t cap q ≡ none → find t cap q ≡ none
find_of_lookup t cap q e = elim (Option-cases (find t cap q)) [
  | inl e' ↦ e'
  | inr (j, e') ↦ absurd (ground (arith, lookup-some t cap q j e'))
]

-- Buckets that can be moved: their keys are cut and differ.
record Movable (t : Table) : Type 0 where
  cut : (j : ℕ) (k : List ℕ) → key_at t j ≡ some k → canon k ≡ k
  unique : (i j : ℕ) (k : List ℕ) → key_at t i ≡ some k → key_at t j ≡ some k → i ≡ j

IsPlaced-Movable : (t : Table) (cap : ℕ) → IsPlaced t cap → Movable t
IsPlaced-Movable t cap p = record { cut = p.cut; unique = p.unique }

Movable-tail : (b : Bucket) (t : Table) → Movable (b ∷ t) → Movable t
unfolding key_at
Movable-tail b t m = record {
  cut = λ j k e. m.cut (suc j) k e;
  unique = λ i j k e e'. omega (arith, m.unique (suc i) (suc j) k e e');
}

abbrev Merged : Table → Table → Table → ℕ → Type 0
Merged t new out cap =
    IsPlaced out cap
    × ((q : List ℕ) → lookup out cap q ≡ or_else (scan t q) (lookup new cap q))
    × (count out ≡ count t + count new)

-- The loop that moves the buckets, when it finds room for all of them.
rehash-Merged :
    (t new out : Table) (cap : ℕ)
    → IsPlaced new cap
    → 0 < cap
    → Movable t
    → ((j : ℕ) (k : List ℕ) → key_at t j ≡ some k → lookup new cap k ≡ none)
    → rehash t new cap ≡ some out
    → Merged t new out cap
unfolding rehash scan count key_at
rehash-Merged [] new out cap p pos m apart run =
    let same : new ≡ out = ground arith in
    (subst (λ o. IsPlaced o cap) same p, λ q. ap (λ o. lookup o cap q) (sym same), ground arith)
rehash-Merged (b ∷ t) new out cap p pos m apart run = elim (Option-cases b.key) [
  | inl e ↦
      let (placed, reads, counts) =
        rehash-Merged t new out cap p pos (Movable-tail b t m) (λ j k. apart (suc j) k)
          (ground arith) in
      (placed, λ q. ground (arith, reads q), ground arith)
  | inr (k, e) ↦ elim (Option-cases (table_put new cap k b.value)) [
    | inl full ↦ absurd (ground arith)
    | inr (new', put) ↦
        let (p', reads', counts') =
          table_put-IsPlaced new new' cap p k b.value pos (m.cut 0 k e)
            (find_of_lookup new cap k (apart 0 k e)) put in
        let (placed, reads, counts) =
          rehash-Merged t new' out cap p' pos (Movable-tail b t m)
            (λ j k' e'. elim (Bool-cases (same_key k k')) [
              | inl same ↦ absurd (
                  omega (
                    arith,
                    m.unique 0 (suc j) k e (
                        e'
                        ∙ ap some (
                            sym (m.cut (suc j) k' e')
                            ∙ sym (same_key_iff_canon k k' same)
                            ∙ m.cut 0 k e)),
                  ))
              | inr other ↦ ground (arith, reads' k', apart (suc j) k' e')
            ])
            (ground arith) in
        (placed, λ q. ground (arith, reads q, reads' q), ground arith)
  ]
]

key_at-replicate : (n j : ℕ) → key_at (replicate n empty_bucket) j ≡ none
unfolding key_at
key_at-replicate zero j = refl
key_at-replicate (suc n) zero = refl
key_at-replicate (suc n) (suc j) = key_at-replicate n j

count-replicate : (n : ℕ) → count (replicate n empty_bucket) ≡ 0
unfolding count
count-replicate zero = refl
count-replicate (suc n) = omega (arith, count-replicate n)

-- The table that `calloc` gives.
fresh-IsPlaced : (n : ℕ) → IsPlaced (replicate n empty_bucket) n
fresh-IsPlaced n = record {
  size = length-replicate n empty_bucket;
  placed = λ j k e. absurd (ground (arith, key_at-replicate n j));
  cut = λ j k e. absurd (ground (arith, key_at-replicate n j));
  unique = λ i j k e e'. absurd (ground (arith, key_at-replicate n i));
}

lookup-fresh : (n : ℕ) (q : List ℕ) → lookup (replicate n empty_bucket) n q ≡ none
lookup-fresh n q = elim (Option-cases (find (replicate n empty_bucket) n q)) [
  | inl e ↦ lookup-none _ n q e
  | inr (j, e) ↦ absurd (
      ground (
        arith,
        find_sound (replicate n empty_bucket) n (fresh-IsPlaced n) q j e,
        key_at-replicate n j,
      ))
]

pub record IsValid (ht : Htable) : Type 0 where
  pub placed : IsPlaced ht.table ht.cap
  pub counted : ht.len ≡ count ht.table

-- The map that a hash table stands for.
unfoldable pub view : Htable → List ℕ → Option ℕ
view ht q = lookup ht.table ht.cap q

pub empty-IsValid : IsValid empty_htable
unfolding count
empty-IsValid = record { placed = fresh-IsPlaced 0; counted = refl }

pub view-empty : (q : List ℕ) → view empty_htable q ≡ none
unfolding view
view-empty q = lookup-fresh 0 q

-- What growing to `cap` gives: the same map, the same length and room.
pub record Resized (ht : Htable) (cap : ℕ) (out : Htable) : Type 0 where
  pub valid : IsValid out
  pub reads : (q : List ℕ) → view out q ≡ view ht q
  pub len : out.len ≡ ht.len
  pub room : cap ≤ out.cap

new_cap_of :
    (cap start new_cap : ℕ)
    → double_cap (suc cap) cap (if start == 0 then 1 else start) ≡ some new_cap
    → (cap ≤ new_cap) × (0 < new_cap)
new_cap_of cap start new_cap run =
    let (c, run', le, grows) =
      double_cap_total (suc cap) cap (if start == 0 then 1 else start) (omega arith) (ground arith)
        (ground arith) in
    ground arith

moved-Resized :
    (ht : Htable) (cap new_cap : ℕ) (new : Table)
    → IsValid ht
    → cap ≤ new_cap
    → 0 < new_cap
    → rehash ht.table (replicate new_cap empty_bucket) new_cap ≡ some new
    → Resized ht cap (record ht { cap = new_cap; table = new })
unfolding view
moved-Resized ht cap new_cap new v le pos run =
    let (placed, reads, counts) =
      rehash-Merged ht.table (replicate new_cap empty_bucket) new new_cap (fresh-IsPlaced new_cap)
        pos (IsPlaced-Movable ht.table ht.cap v.placed) (λ j k e. lookup-fresh new_cap k) run in
    record {
      valid = record {
        placed = placed;
        counted = omega (arith, v.counted, counts, count-replicate new_cap);
      };
      reads = λ q.
          ground (arith, reads q, lookup-fresh new_cap q, scan-lookup ht.table ht.cap v.placed q);
      len = refl;
      room = le;
    }

-- Whenever a resize of a valid table returns, it has kept the map, however often it had to double
-- again, and the table is valid.
pub htable_resize-Resized :
    (fuel : ℕ) (ht : Htable) (cap : ℕ) (out : Htable)
    → IsValid ht
    → htable_resize fuel ht cap ≡ some out
    → Resized ht cap out
unfolding htable_resize
htable_resize-Resized zero ht cap out v run = cc
htable_resize-Resized (suc fuel) ht cap out v run = elim (Bool-cases (leb cap ht.cap)) [
  | inl enough ↦
      let same : ht ≡ out = ground arith in
      subst (λ o. Resized ht cap o) same
        (record { valid = v; reads = λ q. refl; len = refl; room = ground arith })
  | inr more ↦ elim (Option-cases (double_cap (suc cap) cap (if ht.cap == 0 then 1 else ht.cap))) [
    | inl stuck ↦ absurd (ground arith)
    | inr (new_cap, e) ↦
        let (le, pos) = new_cap_of cap ht.cap new_cap e in
        elim (Option-cases (rehash ht.table (replicate new_cap empty_bucket) new_cap)) [
          | inl clash ↦
              let r = htable_resize-Resized fuel ht (new_cap * 2) out v (ground arith) in
              record { valid = r.valid; reads = r.reads; len = r.len; room = omega (arith, r.room) }
          | inr (new, moved) ↦
              let same : record ht { cap = new_cap; table = new } ≡ out = ground arith in
              subst (λ o. Resized ht cap o) same (moved-Resized ht cap new_cap new v le pos moved)
        ]
  ]
]
