-- ===== src/Qsort.antt =====
-- `qsort` of the C library, which the program only calls: what its comparison functions return and what
-- the C standard says of the array that it leaves.
use mathlib.Core.List.{Mem, Perm, Pairwise}
use optics_light.Prelude.{◌≡◌, List, Bool, true, false, length}

-- The `int` of a comparison function, of which `qsort` reads the sign.
pub data Sign : Type 0 where
  negative : Sign
  null : Sign
  positive : Sign

unfoldable pub opposite : Sign → Sign
opposite negative = positive
opposite null = null
opposite positive = negative

-- At most 0: the first element may stand before the second.
unfoldable pub not_after : Sign → Bool
not_after positive = false
not_after _ = true

abbrev pub Qsort : Type 0 → Type 0
Qsort A = (A → A → Sign) → List A → List A

module _ {A : Type 0} where
  -- What a comparison function owes to `qsort`, on the elements of the array.
  pub record IsOrderOn (cmp : A → A → Sign) (l : List A) : Type 0 where
    pub flip : (a b : A) → Mem a l → Mem b l → cmp b a ≡ opposite (cmp a b)
    pub trans :
        (a b c : A)
        → Mem a l
        → Mem b l
        → Mem c l
        → not_after (cmp a b) ≡ true
        → not_after (cmp b c) ≡ true
        → not_after (cmp a c) ≡ true

  -- No element compares greater than a later one.
  abbrev pub Ascending : (A → A → Sign) → List A → Type 0
  Ascending cmp = Pairwise (λ a b. not_after (cmp a b) ≡ true)

  -- What the C standard says: the array is permuted, and ascending if the comparison is an order on it.
  pub record IsQsort (qsort : Qsort A) : Type 0 where
    pub permutes : (cmp : A → A → Sign) (l : List A) → Perm (qsort cmp l) l
    pub length-qsort : (cmp : A → A → Sign) (l : List A) → length (qsort cmp l) ≡ length l
    pub ascending :
        (cmp : A → A → Sign) (l : List A) → IsOrderOn cmp l → Ascending cmp (qsort cmp l)
