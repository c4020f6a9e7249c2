-- ===== src/Htable/Placed.antt =====
-- Where the keys of a table stand, and what a lookup in it finds.
use optics_light.Htable.{
  Table, key_at, value_at, find_key, same_key, htable_key_max_len, htable_hash, probe_window,
}
use optics_light.Htable.Probe.{
  str_eq_sound, str_eq_refl, InWindow, find_key_sound, find_key_complete,
}
use optics_light.Prelude.{
  ℕ, zero, suc, ◌+◌, ◌%◌, ◌≡◌, refl, ◌≢◌, ap, sym, ◌∙◌, Option, none, some, List, [], ◌∷◌, arith,
  take, true, length,
}

-- The part of a key that is compared, hashed and stored.
abbrev pub canon : List ℕ → List ℕ
canon key = take htable_key_max_len key

take-take : (n : ℕ) (s : List ℕ) → take n (take n s) ≡ take n s
take-take zero s = refl
take-take (suc n) [] = refl
take-take (suc n) (c ∷ s) = ap (λ r. c ∷ r) (take-take n s)

pub canon-canon : (key : List ℕ) → canon (canon key) ≡ canon key
canon-canon key = take-take htable_key_max_len key

pub htable_hash-canon : (key : List ℕ) → htable_hash (canon key) ≡ htable_hash key
unfolding htable_hash
htable_hash-canon key = rw (canon-canon key)

pub same_key_iff_canon : (a b : List ℕ) → same_key a b ≡ true → canon a ≡ canon b
unfolding same_key
same_key_iff_canon a b h = str_eq_sound _ _ h

pub same_key_of_canon : (a b : List ℕ) → canon a ≡ canon b → same_key a b ≡ true
unfolding same_key
same_key_of_canon a b h = rw h (str_eq_refl (canon b))

-- A table of `cap` buckets in which every key is stored once, cut to 1024 bytes, in the window of
-- its hash.
pub record IsPlaced (t : Table) (cap : ℕ) : Type 0 where
  pub size : length t ≡ cap
  pub placed : (j : ℕ) (k : List ℕ) → key_at t j ≡ some k → InWindow cap (htable_hash k) j
  pub cut : (j : ℕ) (k : List ℕ) → key_at t j ≡ some k → canon k ≡ k
  pub unique : (i j : ℕ) (k : List ℕ) → key_at t i ≡ some k → key_at t j ≡ some k → i ≡ j

abbrev pub find : Table → ℕ → List ℕ → Option ℕ
find t cap key = find_key t cap (htable_hash key) key probe_window 0

-- The map from keys to values that a table stands for.
unfoldable pub lookup : Table → ℕ → List ℕ → Option ℕ
lookup t cap key = elim (find t cap key) [ none ↦ none | some j ↦ some (value_at t j) ]

module _ (t : Table) (cap : ℕ) (p : IsPlaced t cap) where
  pub find_sound : (key : List ℕ) (j : ℕ) → find t cap key ≡ some j → key_at t j ≡ some (canon key)
  find_sound key j h =
      let (k, e, same) = find_key_sound t cap (htable_hash key) key probe_window 0 j h in
      rw e (ap some (sym (p.cut j k e) ∙ same_key_iff_canon k key same))

  pub find_complete :
      (key : List ℕ) (j : ℕ) → key_at t j ≡ some (canon key) → find t cap key ≡ some j
  find_complete key j e =
      let (m, lt, at) = p.placed j (canon key) e in
      let at' : j ≡ (htable_hash key + m) % cap = rw (← htable_hash-canon key) at in
      let (j', run) =
        find_key_complete t cap (htable_hash key) key probe_window 0 m (canon key) (omega arith)
          (omega arith) (rw at' at e) (same_key_of_canon (canon key) key (canon-canon key)) in
      run ∙ ap some (p.unique j' j (canon key) (find_sound key j' run) e)

  pub find-none : (key : List ℕ) (j : ℕ) → find t cap key ≡ none → key_at t j ≢ some (canon key)
  find-none key j h e = ground (arith, find_complete key j e)
