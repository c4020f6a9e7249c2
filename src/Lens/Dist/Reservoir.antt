-- ===== src/Lens/Dist/Reservoir.antt =====
-- What the samples of an epoch are: values that were recorded, and all of them while they fit.
use mathlib.Core.List.{Mem, mem-cons_self, mem-cons_of_mem, mem-append_left, mem-append_right}
use optics_light.Floating.{Floating}
use optics_light.Lens.{DistEpoch}
use optics_light.Lens.Dist.{zero_double, empty_epoch, slot_of, record_epoch}
use optics_light.Prelude.{
  ℕ, zero, suc, ◌+◌, ◌^◌, ◌≤◌, ◌<◌, ◌≡◌, refl, ap, ◌∙◌, List, [], ◌∷◌, ◌++◌, true, ltb, leb, ◌==◌,
  if◌then◌else◌, length, take, get_or, set, arith, Bool-cases, inl, inr, ◌⊎◌, length-set,
  length-append, length-replicate,
}

module _ {A : Type 0} where
  pub get_or-set :
      (xs : List A) (i j : ℕ) (v d : A)
      → i < length xs
      → get_or (set xs i v) j d ≡ (if i == j then v else get_or xs j d)
  get_or-set [] i j v d h = absurd (omega arith)
  get_or-set (x ∷ xs) zero zero v d h = refl
  get_or-set (x ∷ xs) zero (suc j) v d h = ground arith
  get_or-set (x ∷ xs) (suc i) zero v d h = ground arith
  get_or-set (x ∷ xs) (suc i) (suc j) v d h = ground (arith, get_or-set xs i j v d)

  take-set :
      (xs : List A) (n : ℕ) (v : A)
      → n < length xs
      → take (suc n) (set xs n v) ≡ take n xs ++ (v ∷ [])
  take-set [] n v h = absurd (omega arith)
  take-set (x ∷ xs) zero v h = refl
  take-set (x ∷ xs) (suc n) v h = ap (λ r. x ∷ r) (take-set xs n v (omega arith))

  pub get_or-mem : (xs : List A) (i : ℕ) (d : A) → i < length xs → Mem (get_or xs i d) xs
  get_or-mem [] i d h = absurd (omega arith)
  get_or-mem (x ∷ xs) zero d h = mem-cons_self
  get_or-mem (x ∷ xs) (suc i) d h = mem-cons_of_mem x (get_or-mem xs i d (omega arith))

  pub get_or-append :
      (xs ys : List A) (i : ℕ) (d : A) → i < length xs → get_or (xs ++ ys) i d ≡ get_or xs i d
  get_or-append [] ys i d h = absurd (omega arith)
  get_or-append (x ∷ xs) ys zero d h = refl
  get_or-append (x ∷ xs) ys (suc i) d h = get_or-append xs ys i d (omega arith)

  pub get_or-take : (xs : List A) (n i : ℕ) (d : A) → i < n → get_or (take n xs) i d ≡ get_or xs i d
  get_or-take [] zero i d h = absurd (omega arith)
  get_or-take [] (suc n) i d h = refl
  get_or-take (x ∷ xs) zero i d h = absurd (omega arith)
  get_or-take (x ∷ xs) (suc n) zero d h = refl
  get_or-take (x ∷ xs) (suc n) (suc i) d h = get_or-take xs n i d (omega arith)

slot-cases : (n rng : ℕ) → ((n < 200) × ((slot_of n rng).0 ≡ n)) ⊎ (200 ≤ n)
unfolding slot_of
slot-cases n rng = elim (Bool-cases (leb 200 n)) [
  | inl e ↦ inr (ground arith)
  | inr e ↦ inl (ground arith, rw (e, slot_of) refl)
]

module _ {D : Type 0} ⦃fp : Floating D⦄ where
  -- The largest of the values and a start, as the lens compares them.
  abbrev pub max_of : D → List D → D
  max_of m [] = m
  max_of m (v ∷ vs) = max_of (if fp.lt m v then v else m) vs

  max_of-append :
      (m v : D) (vs : List D)
      → max_of m (vs ++ v ∷ []) ≡ (if fp.lt (max_of m vs) v then v else max_of m vs)
  max_of-append m v [] = refl
  max_of-append m v (w ∷ vs) = max_of-append (if fp.lt m w then w else m) v vs

  -- An epoch in which the values `vs` were recorded since it was last read, in this order.
  pub record Records (vs : List D) (e : DistEpoch D) : Type 0 where
    pub counted : e.n ≡ length vs
    pub size : length e.samples ≡ 200
    pub kept : (i : ℕ) → i < length vs → i < 200 → Mem (get_or e.samples i zero_double) vs
    pub all : length vs ≤ 200 → take (length vs) e.samples ≡ vs
    pub top : e.max ≡ max_of zero_double vs

  pub empty-Records : Records [] (empty_epoch {D = D})
  empty-Records = record {
    counted = refl;
    size = length-replicate {A = D} 200 zero_double;
    kept = λ i h h'. absurd (omega arith);
    all = λ h. refl;
    top = refl;
  }

  -- The samples after a record into cell `j`.
  abbrev stored : List D → ℕ → D → List D
  stored xs j value = if ltb j 200 then set xs j value else xs

  length-stored : (xs : List D) (j : ℕ) (value : D) → length (stored xs j value) ≡ length xs
  length-stored xs j value = elim (Bool-cases (ltb j 200)) [
    | inl e ↦ rw e (length-set xs j value)
    | inr e ↦ rw e refl
  ]

  module _ (vs : List D) (e : DistEpoch D) (value : D) (j : ℕ) (r : Records vs e)
      (place : ((length vs < 200) × (j ≡ length vs)) ⊎ (200 ≤ length vs)) where
    stored-mem :
        (i : ℕ)
        → i < length vs + 1
        → i < 200
        → Mem (get_or (stored e.samples j value) i zero_double) (vs ++ value ∷ [])
    stored-mem i h h' = elim (Bool-cases (ltb j 200)) [
      | inl fits ↦
          let write = get_or-set e.samples j i value zero_double (ground (arith, r.size)) in
          elim (Bool-cases (j == i)) [
            | inl here ↦ rw (fits, write, here) (mem-append_right vs mem-cons_self)
            | inr other ↦
                rw (fits, write, other) (mem-append_left (value ∷ []) (r.kept i (ground arith) h'))
          ]
      | inr out ↦ rw out (mem-append_left (value ∷ []) (r.kept i (ground arith) h'))
    ]

    stored-all :
        length vs + 1 ≤ 200 → take (length vs + 1) (stored e.samples j value) ≡ vs ++ value ∷ []
    stored-all h =
        let here : j ≡ length vs = ground arith in
        let fits : ltb (length vs) 200 ≡ true = ground arith in
        let next : length vs + 1 ≡ suc (length vs) = omega arith in
        rw (here, fits, next)
          (take-set e.samples (length vs) value (omega (arith, r.size))
            ∙ ap (λ t. t ++ value ∷ []) (r.all (omega arith)))

  -- A record, whatever the generator draws, keeps the samples among the recorded values.
  pub record_epoch-Records :
      (vs : List D) (e : DistEpoch D) (value : D) (rng : ℕ)
      → Records vs e
      → length vs + 1 < 2 ^ 64
      → Records (vs ++ value ∷ []) (record_epoch e value rng).0
  unfolding record_epoch
  record_epoch-Records vs e value rng r fits =
      let n : length (vs ++ value ∷ []) ≡ length vs + 1 = length-append vs (value ∷ []) in
      let j = (slot_of e.n rng).0 in
      let place : ((length vs < 200) × (j ≡ length vs)) ⊎ (200 ≤ length vs) =
        rw (← r.counted) (slot-cases e.n rng) in
      record {
        counted = omega (arith, r.counted);
        size = length-stored e.samples j value ∙ r.size;
        kept = λ i h h'. stored-mem vs e value j r place i (omega arith) h';
        all = λ h. rw n (stored-all vs e value j r place (omega arith));
        top = rw (max_of-append, r.top) refl;
      }
