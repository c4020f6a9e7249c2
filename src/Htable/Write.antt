-- ===== src/Htable/Write.antt =====
-- What the three writes to a bucket do to the map that a table stands for.
use optics_light.Htable.{Table, key_at, value_at, same_key, htable_hash}
use optics_light.Htable.Probe.{key_at-set, value_at-set, key_at-lt, InWindow}
use optics_light.Htable.Placed.{
  canon, canon-canon, htable_hash-canon, same_key_iff_canon, same_key_of_canon, IsPlaced, find,
  lookup, find_sound, find_complete, find-none,
}
use optics_light.Prelude.{
  ℕ, ◌<◌, ◌≡◌, ◌≢◌, ap, sym, ◌∙◌, none, some, List, arith, ◌==◌, if◌then◌else◌, Bool-cases,
  Option-cases, inl, inr, ◌⊎◌, length, set, length-set,
}

pub lookup-some :
    (t : Table) (cap : ℕ) (key : List ℕ) (j : ℕ)
    → find t cap key ≡ some j
    → lookup t cap key ≡ some (value_at t j)
unfolding lookup
lookup-some t cap key j e = ground arith

pub lookup-none :
    (t : Table) (cap : ℕ) (key : List ℕ) → find t cap key ≡ none → lookup t cap key ≡ none
unfolding lookup
lookup-none t cap key e = ground arith

module _ (t : Table) (cap : ℕ) (p : IsPlaced t cap) where
  -- A table with the same place for a key finds it where the first one does.
  find_same :
      (t' : Table) (p' : IsPlaced t' cap) (key : List ℕ)
      → ((j : ℕ) → key_at t' j ≡ some (canon key) → key_at t j ≡ some (canon key))
      → ((j : ℕ) → key_at t j ≡ some (canon key) → key_at t' j ≡ some (canon key))
      → find t' cap key ≡ find t cap key
  find_same t' p' key back forth = elim (Option-cases (find t cap key)) [
    | inr (j, e) ↦ find_complete t' cap p' key j (forth j (find_sound t cap p key j e)) ∙ sym e
    | inl e ↦ elim (Option-cases (find t' cap key)) [
      | inl e' ↦ e' ∙ sym e
      | inr (j, e') ↦ absurd (find-none t cap p key j e (back j (find_sound t' cap p' key j e')))
    ]
  ]

  module _ (key : List ℕ) (value j : ℕ) where
    abbrev filled : Table
    filled = set t j (record { key = some (canon key); value = value })

    -- A key of the table after the write is the new one or an old one.
    filled_cases :
        (i : ℕ) (k : List ℕ)
        → j < cap
        → key_at filled i ≡ some k
        → ((i ≡ j) × (k ≡ canon key)) ⊎ ((i ≢ j) × (key_at t i ≡ some k))
    filled_cases i k fits e =
        let fits' : j < length t = omega (arith, p.size) in
        let write = key_at-set t j i (record { key = some (canon key); value = value }) fits' in
        elim (Bool-cases (j == i)) [
          | inl here ↦ inl (ground arith, ground arith)
          | inr other ↦ inr (ground arith, ground arith)
        ]

    filled_self : j < cap → key_at filled j ≡ some (canon key)
    filled_self fits =
        let fits' : j < length t = omega (arith, p.size) in
        ground (arith, key_at-set t j j (record { key = some (canon key); value = value }) fits')

    filled_other : (i : ℕ) → j < cap → i ≢ j → key_at filled i ≡ key_at t i
    filled_other i fits ne =
        let fits' : j < length t = omega (arith, p.size) in
        ground (arith, key_at-set t j i (record { key = some (canon key); value = value }) fits')

    value_filled : (i : ℕ) → j < cap → value_at filled i ≡ (if j == i then value else value_at t i)
    value_filled i fits =
        value_at-set t j i (record { key = some (canon key); value = value })
          (omega (arith, p.size))

    -- A new key in an empty bucket of its window.
    pub insert-IsPlaced :
        find t cap key ≡ none → InWindow cap (htable_hash key) j → j < cap → IsPlaced filled cap
    insert-IsPlaced absent (m, lt, at) fits = record {
      size = length-set t j _ ∙ p.size;
      placed = λ i k e. elim (filled_cases i k fits e) [
        | inl (here, new) ↦ (m, lt, rw (here, new, htable_hash-canon key) at)
        | inr (other, old) ↦ p.placed i k old
      ];
      cut = λ i k e. elim (filled_cases i k fits e) [
        | inl (here, new) ↦ rw new (canon-canon key)
        | inr (other, old) ↦ p.cut i k old
      ];
      unique = λ i i' k e e'. elim (filled_cases i k fits e) [
        | inl (here, new) ↦ elim (filled_cases i' k fits e') [
          | inl (here', new') ↦ here ∙ sym here'
          | inr (other', old') ↦ absurd (find-none t cap p key i' absent (rw (← new) old'))
        ]
        | inr (other, old) ↦ elim (filled_cases i' k fits e') [
          | inl (here', new') ↦ absurd (find-none t cap p key i absent (rw (← new') old))
          | inr (other', old') ↦ p.unique i i' k old old'
        ]
      ];
    }

    -- Overwriting the value of a key that is there.
    pub assign-IsPlaced : key_at t j ≡ some (canon key) → IsPlaced filled cap
    assign-IsPlaced there =
        let fits : j < cap = omega (arith, key_at-lt t j (canon key) there, p.size) in
        let back : (i : ℕ) (k : List ℕ) → key_at filled i ≡ some k → key_at t i ≡ some k = λ i k e.
          elim (filled_cases i k fits e) [
            | inl (here, new) ↦ rw (here, new) there
            | inr (other, old) ↦ old
          ] in
        record {
          size = length-set t j _ ∙ p.size;
          placed = λ i k e. p.placed i k (back i k e);
          cut = λ i k e. p.cut i k (back i k e);
          unique = λ i i' k e e'. p.unique i i' k (back i k e) (back i' k e');
        }

    elsewhere :
        (i : ℕ) (other : List ℕ)
        → canon key ≢ canon other
        → (key_at t j ≡ none) ⊎ (key_at t j ≡ some (canon key))
        → key_at t i ≡ some (canon other)
        → i ≢ j
    elsewhere i other apart was e here = elim was [
      | inl empty ↦ ground arith
      | inr old ↦ apart (ground arith)
    ]

    find-filled_other :
        (p' : IsPlaced filled cap)
        → j < cap
        → (key_at t j ≡ none) ⊎ (key_at t j ≡ some (canon key))
        → (other : List ℕ) → canon key ≢ canon other
        → find filled cap other ≡ find t cap other
    find-filled_other p' fits was other apart =
        find_same filled p' other
          (λ i e. elim (filled_cases i (canon other) fits e) [
            | inl (here, new) ↦ absurd (apart (sym new))
            | inr (_, old) ↦ old
          ])
          (λ i e. filled_other i fits (elsewhere i other apart was e) ∙ e)

    -- Either way, the key reads as the value, and every other key as before.
    pub lookup-filled :
        (p' : IsPlaced filled cap)
        → j < cap
        → (key_at t j ≡ none) ⊎ (key_at t j ≡ some (canon key))
        → (other : List ℕ)
        → lookup filled cap other ≡ (if same_key key other then some value else lookup t cap other)
    lookup-filled p' fits was other = elim (Bool-cases (same_key key other)) [
      | inl same ↦
          let at : key_at filled j ≡ some (canon other) =
            rw (← same_key_iff_canon key other same) (filled_self fits) in
          rw same (
            lookup-some filled cap other j (find_complete filled cap p' other j at)
            ∙ ap some (ground (arith, value_filled j fits)))
      | inr differs ↦
          let apart : canon key ≢ canon other =
            λ e. ground (arith, same_key_of_canon key other e) in
          let alike = find-filled_other p' fits was other apart in
          rw differs (elim (Option-cases (find t cap other)) [
            | inl e ↦ lookup-none filled cap other (alike ∙ e) ∙ sym (lookup-none t cap other e)
            | inr (i, e) ↦
                let ne = elsewhere i other apart was (find_sound t cap p other i e) in
                lookup-some filled cap other i (alike ∙ e)
                ∙ ap some (ground (arith, value_filled i fits))
                ∙ sym (lookup-some t cap other i e)
          ])
    ]

  module _ (key : List ℕ) (value j : ℕ) (there : key_at t j ≡ some (canon key)) where
    abbrev emptied : Table
    emptied = set t j (record { key = none; value = value })

    emptied_cases :
        (i : ℕ) (k : List ℕ) → key_at emptied i ≡ some k → (i ≢ j) × (key_at t i ≡ some k)
    emptied_cases i k e =
        let fits = key_at-lt t j (canon key) there in
        let write = key_at-set t j i (record { key = none; value = value }) fits in
        elim (Bool-cases (j == i)) [
          | inl here ↦ absurd (ground arith)
          | inr other ↦ (ground arith, ground arith)
        ]

    -- Removing a key.
    pub erase-IsPlaced : IsPlaced emptied cap
    erase-IsPlaced = record {
      size = length-set t j _ ∙ p.size;
      placed = λ i k e. p.placed i k (emptied_cases i k e).1;
      cut = λ i k e. p.cut i k (emptied_cases i k e).1;
      unique = λ i i' k e e'. p.unique i i' k (emptied_cases i k e).1 (emptied_cases i' k e').1;
    }

    emptied_other :
        (i : ℕ) → i ≢ j → (key_at emptied i ≡ key_at t i) × (value_at emptied i ≡ value_at t i)
    emptied_other i ne =
        let fits = key_at-lt t j (canon key) there in
        (
          ground (arith, key_at-set t j i (record { key = none; value = value }) fits),
          ground (arith, value_at-set t j i (record { key = none; value = value }) fits),
        )

    pub lookup-emptied :
        (other : List ℕ)
        → lookup emptied cap other ≡ (if same_key key other then none else lookup t cap other)
    lookup-emptied other = elim (Bool-cases (same_key key other)) [
      | inl same ↦ rw same (elim (Option-cases (find emptied cap other)) [
        | inl e ↦ lookup-none emptied cap other e
        | inr (i, e) ↦
            let (ne, old) =
              emptied_cases i (canon other) (find_sound emptied cap erase-IsPlaced other i e) in
            absurd
              (ne (p.unique i j (canon key) (rw (same_key_iff_canon key other same) old) there))
      ])
      | inr differs ↦
          let apart : canon key ≢ canon other =
            λ e. ground (arith, same_key_of_canon key other e) in
          let away : (i : ℕ) → key_at t i ≡ some (canon other) → i ≢ j =
            λ i e here. apart (ground arith) in
          let alike =
            find_same emptied erase-IsPlaced other (λ i e. (emptied_cases i (canon other) e).1)
              (λ i e. (emptied_other i (away i e)).0 ∙ e) in
          rw differs (elim (Option-cases (find t cap other)) [
            | inl e ↦ lookup-none emptied cap other (alike ∙ e) ∙ sym (lookup-none t cap other e)
            | inr (i, e) ↦
                let ne = away i (find_sound t cap p other i e) in
                lookup-some emptied cap other i (alike ∙ e)
                ∙ ap some (emptied_other i ne).1
                ∙ sym (lookup-some t cap other i e)
          ])
    ]
