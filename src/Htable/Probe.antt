-- ===== src/Htable/Probe.antt =====
-- The searches over a window of buckets.
use optics_light.Htable.{
  Table, Bucket, key_at, value_at, find_key, find_free, put_scan, found, free, full, same_key,
  str_eq,
}
use native.Mathlib.Decide.{dec_lt}
use optics_light.Prelude.{
  ℕ, zero, suc, ◌+◌, ◌%◌, ◌≤◌, ◌<◌, ◌≡◌, refl, Option, none, some, List, [], ◌∷◌, arith, ◌==◌,
  if◌then◌else◌, true, false, Bool-cases, Option-cases, inl, inr, length, set,
}

pub str_eq_sound : (a b : List ℕ) → str_eq a b ≡ true → a ≡ b
unfolding str_eq
str_eq_sound [] [] h = refl
str_eq_sound [] (_ ∷ _) h = cc
str_eq_sound (_ ∷ _) [] h = cc
str_eq_sound (a ∷ s) (b ∷ t) h = ground (arith, str_eq_sound s t)

pub str_eq_refl : (a : List ℕ) → str_eq a a ≡ true
unfolding str_eq
str_eq_refl [] = refl
str_eq_refl (a ∷ s) = ground (arith, str_eq_refl s)

-- What a write to one bucket does to the keys and values.
pub key_at-set :
    (t : Table) (i j : ℕ) (b : Bucket)
    → i < length t
    → key_at (set t i b) j ≡ (if i == j then b.key else key_at t j)
unfolding key_at
key_at-set [] i j b h = absurd (omega arith)
key_at-set (x ∷ t) zero zero b h = refl
key_at-set (x ∷ t) zero (suc j) b h = ground arith
key_at-set (x ∷ t) (suc i) zero b h = ground arith
key_at-set (x ∷ t) (suc i) (suc j) b h = ground (arith, key_at-set t i j b)

pub value_at-set :
    (t : Table) (i j : ℕ) (b : Bucket)
    → i < length t
    → value_at (set t i b) j ≡ (if i == j then b.value else value_at t j)
unfolding value_at
value_at-set [] i j b h = absurd (omega arith)
value_at-set (x ∷ t) zero zero b h = refl
value_at-set (x ∷ t) zero (suc j) b h = ground arith
value_at-set (x ∷ t) (suc i) zero b h = ground arith
value_at-set (x ∷ t) (suc i) (suc j) b h = ground (arith, value_at-set t i j b)

pub key_at-lt : (t : Table) (j : ℕ) (k : List ℕ) → key_at t j ≡ some k → j < length t
unfolding key_at
key_at-lt [] j k h = cc
key_at-lt (x ∷ t) zero k h = omega arith
key_at-lt (x ∷ t) (suc j) k h = omega (arith, key_at-lt t j k h)

-- A place of the window that starts at `hash`.
abbrev pub InWindow : ℕ → ℕ → ℕ → Type 0
InWindow cap hash j = (m : ℕ) × (m < 8) × (j ≡ (hash + m) % cap)

module _ (t : Table) (cap hash : ℕ) (key : List ℕ) where
  -- A bucket that the search returns has the key.
  pub find_key_sound :
      (n i j : ℕ)
      → find_key t cap hash key n i ≡ some j
      → (k : List ℕ) × (key_at t j ≡ some k) × (same_key k key ≡ true)
  unfolding find_key
  find_key_sound zero i j h = cc
  find_key_sound (suc n) i j h = elim (Option-cases (key_at t ((hash + i) % cap))) [
    | inl e ↦ find_key_sound n (i + 1) j (ground arith)
    | inr (k, e) ↦ elim (Bool-cases (same_key k key)) [
      | inl same ↦ (k, ground arith, same)
      | inr other ↦ find_key_sound n (i + 1) j (ground arith)
    ]
  ]

  -- The search misses no bucket with the key in the places that it visits.
  pub find_key_complete :
      (n i m : ℕ) (k : List ℕ)
      → i ≤ m
      → m < i + n
      → key_at t ((hash + m) % cap) ≡ some k
      → same_key k key ≡ true
      → (j : ℕ) × (find_key t cap hash key n i ≡ some j)
  unfolding find_key
  find_key_complete zero i m k lo hi e same = absurd (omega arith)
  find_key_complete (suc n) i m k lo hi e same = elim (Option-cases (key_at t ((hash + i) % cap))) [
    | inl no_key ↦
        let (j, run) =
          find_key_complete n (i + 1) m k (past i m lo (λ (h : i ≡ m). clash i m k h no_key e))
            (omega arith) e same in
        (j, ground arith)
    | inr (k', e') ↦ elim (Bool-cases (same_key k' key)) [
      | inl here ↦ ((hash + i) % cap, ground arith)
      | inr other ↦
          let (j, run) =
            find_key_complete n (i + 1) m k
              (past i m lo (λ (h : i ≡ m). differ i m k k' h e e' same other)) (omega arith) e
              same in
          (j, ground arith)
    ]
  ]
    where
      past : (i m : ℕ) → i ≤ m → (i ≡ m → ⊥) → i + 1 ≤ m
      past i m lo ne = elim (dec_lt i m) [ yes h ↦ omega arith | no h ↦ absurd (ne (omega arith)) ]

      clash :
          (i m : ℕ) (k : List ℕ)
          → i ≡ m
          → key_at t ((hash + i) % cap) ≡ none
          → key_at t ((hash + m) % cap) ≡ some k
          → ⊥
      clash i m k h p q = ground arith

      differ :
          (i m : ℕ) (k k' : List ℕ)
          → i ≡ m
          → key_at t ((hash + m) % cap) ≡ some k
          → key_at t ((hash + i) % cap) ≡ some k'
          → same_key k key ≡ true
          → same_key k' key ≡ false
          → ⊥
      differ i m k k' h p q r s = ground arith

  -- A bucket that `table_put` fills was empty, and stands in the window.
  pub find_free_sound :
      (n i j : ℕ)
      → i + n ≤ 8
      → find_free t cap hash n i ≡ some j
      → (key_at t j ≡ none) × InWindow cap hash j
  unfolding find_free
  find_free_sound zero i j le h = cc
  find_free_sound (suc n) i j le h = elim (Option-cases (key_at t ((hash + i) % cap))) [
    | inl e ↦ (ground arith, (i, omega arith, ground arith))
    | inr (k, e) ↦ find_free_sound n (i + 1) j (omega arith) (ground arith)
  ]

  -- The one loop of `htable_put` makes both searches.
  pub put_scan_lem :
      (n i : ℕ) (empty : Option ℕ)
      → put_scan t cap hash key n i empty ≡ elim (find_key t cap hash key n i) [
        | some j ↦ found j
        | none ↦ elim empty [
          | some j ↦ free j
          | none ↦ elim (find_free t cap hash n i) [ some j ↦ free j | none ↦ full ]
        ]
      ]
  unfolding put_scan find_key find_free
  put_scan_lem zero i none = refl
  put_scan_lem zero i (some j) = refl
  put_scan_lem (suc n) i none =
      ground (arith, put_scan_lem n (i + 1) none, put_scan_lem n (i + 1) (some ((hash + i) % cap)))
  put_scan_lem (suc n) i (some j) = ground (arith, put_scan_lem n (i + 1) (some j))
