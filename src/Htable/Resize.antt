-- ===== src/Htable/Resize.antt =====
-- Growing the table keeps the map that it stands for.
use optics_light.Htable.{
  Table, Bucket, key_at, value_at, find_free, table_put, same_key, htable_hash, probe_window,
}
use optics_light.Htable.Probe.{find_free_sound}
use optics_light.Htable.Placed.{
  canon, canon-canon, same_key_iff_canon, same_key_of_canon, IsPlaced, find, lookup, find_sound,
  find_complete,
}
use mathlib.Core.Path.{subst}
use optics_light.Htable.Write.{insert-IsPlaced, lookup-filled, lookup-some, lookup-none}
use optics_light.Prelude.{
  ℕ, zero, suc, ◌+◌, ◌<◌, ◌≡◌, ◌≢◌, ap, sym, ◌∙◌, Option, none, some, List, [], ◌∷◌, arith,
  if◌then◌else◌, true, Bool-cases, Option-cases, inl, inr, length, set,
}

abbrev pub occupied : Bucket → ℕ
occupied b = elim b.key [ none ↦ 0 | some _ ↦ 1 ]

-- The buckets with a key.
unfoldable pub count : Table → ℕ
count [] = 0
count (b ∷ t) = occupied b + count t

abbrev pub key_count : Option (List ℕ) → ℕ
key_count none = 0
key_count (some _) = 1

pub count-set :
    (t : Table) (j : ℕ) (b : Bucket)
    → j < length t
    → count (set t j b) + key_count (key_at t j) ≡ count t + occupied b
unfolding count key_at
count-set [] j b h = absurd (omega arith)
count-set (x ∷ t) zero b h = ground arith
count-set (x ∷ t) (suc j) b h = ground (arith, count-set t j b)

abbrev pub or_else : Option ℕ → Option ℕ → Option ℕ
or_else none b = b
or_else (some v) b = some v

-- The value of the last bucket with the key, wherever it stands.
unfoldable pub scan : Table → List ℕ → Option ℕ
scan [] q = none
scan (b ∷ t) q =
    or_else (scan t q)
      (elim b.key [ none ↦ none | some k ↦ if same_key k q then some b.value else none ])

scan_sound :
    (t : Table) (q : List ℕ) (v : ℕ)
    → scan t q ≡ some v
    → (j : ℕ) × (k : List ℕ) × (key_at t j ≡ some k) × (same_key k q ≡ true) × (value_at t j ≡ v)
unfolding scan key_at value_at
scan_sound [] q v h = cc
scan_sound (b ∷ t) q v h = elim (Option-cases (scan t q)) [
  | inr (w, e) ↦
      let (j, k, at, same, val) = scan_sound t q v (ground arith) in (suc j, k, at, same, val)
  | inl later ↦ elim (Option-cases b.key) [
    | inl e ↦ absurd (ground arith)
    | inr (k, e) ↦ elim (Bool-cases (same_key k q)) [
      | inl same ↦ (zero, k, e, same, ground arith)
      | inr other ↦ absurd (ground arith)
    ]
  ]
]

scan_complete :
    (t : Table) (q : List ℕ) (j : ℕ) (k : List ℕ)
    → key_at t j ≡ some k
    → same_key k q ≡ true
    → scan t q ≢ none
unfolding scan key_at
scan_complete [] q j k e same h = cc
scan_complete (b ∷ t) q zero k e same h = ground arith
scan_complete (b ∷ t) q (suc j) k e same h = ground (arith, scan_complete t q j k)

-- In a placed table the scan of all buckets and the search of the window agree.
pub scan-lookup :
    (t : Table) (cap : ℕ) (p : IsPlaced t cap) (q : List ℕ) → scan t q ≡ lookup t cap q
scan-lookup t cap p q = elim (Option-cases (scan t q)) [
  | inl e ↦ elim (Option-cases (find t cap q)) [
    | inl e' ↦ e ∙ sym (lookup-none t cap q e')
    | inr (j, e') ↦ absurd (
        scan_complete t q j (canon q) (find_sound t cap p q j e')
          (same_key_of_canon (canon q) q (canon-canon q)) e)
  ]
  | inr (v, e) ↦
      let (j, k, at, same, val) = scan_sound t q v e in
      let at' : key_at t j ≡ some (canon q) =
        at ∙ ap some (sym (p.cut j k at) ∙ same_key_iff_canon k q same) in
      e ∙ ap some (sym val) ∙ sym (lookup-some t cap q j (find_complete t cap p q j at'))
]

-- One bucket moved.
pub table_put-IsPlaced :
    (new out : Table) (cap : ℕ) (p : IsPlaced new cap) (k : List ℕ) (v : ℕ)
    → 0 < cap
    → canon k ≡ k
    → find new cap k ≡ none
    → table_put new cap k v ≡ some out
    → IsPlaced out cap
      × ((q : List ℕ) → lookup out cap q ≡ (if same_key k q then some v else lookup new cap q))
      × (count out ≡ count new + 1)
unfolding table_put
table_put-IsPlaced new out cap p k v pos cut absent run =
    elim (Option-cases (find_free new cap (htable_hash k) probe_window 0)) [
      | inl e ↦ absurd (ground arith)
      | inr (j, e) ↦
          let (empty, window) =
            find_free_sound new cap (htable_hash k) k probe_window 0 j (omega arith) e in
          let (m, lt, at) = window in
          let fits : j < cap = omega arith in
          let b : Bucket = record { key = some k; value = v } in
          let eq : set new j (record { key = some (canon k); value = v }) ≡ out =
            rw cut (ground arith) in
          let placed = insert-IsPlaced new cap p k v j absent window fits in
          let reads = lookup-filled new cap p k v j placed fits (inl empty) in
          (
            subst (λ o. IsPlaced o cap) eq placed,
            subst
                (λ o.
                  (q : List ℕ)
                  → lookup o cap q ≡ (if same_key k q then some v else lookup new cap q))
                eq reads,
            subst (λ o. count o ≡ count new + 1) eq
                (ground (
                  arith,
                  count-set new j (record { key = some (canon k); value = v })
                      (omega (arith, p.size)),
                )),
          )
    ]
