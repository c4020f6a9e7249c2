-- ===== src/Tests/Sorting.antt =====
-- A concrete `qsort` for the tests: an insertion sort.
use mathlib.Core.List.{
  Mem, Perm, Pairwise, Pairwise-singleton, mem-cons, mem-cons_self, mem-cons_of_mem,
}
use mathlib.Core.Logic.Or
use mathlib.Core.List.Perm
use mathlib.Core.Bool.{Bool-set}
use optics_light.Qsort.{
  Sign, negative, null, positive, opposite, not_after, IsOrderOn, Ascending, IsQsort,
}
use optics_light.Prelude.{
  ◌+◌, ◌≡◌, refl, List, [], ◌∷◌, true, false, length, arith, Bool-cases, inl, inr, if◌then◌else◌,
}

module _ {A : Type 0} (cmp : A → A → Sign) where
  unfoldable pub insert : A → List A → List A
  insert x [] = x ∷ []
  insert x (y ∷ ys) = let rest = insert x ys in if not_after (cmp x y) then x ∷ y ∷ ys else y ∷ rest

  unfoldable pub insertion_sort : List A → List A
  insertion_sort [] = []
  insertion_sort (x ∷ xs) = insert x (insertion_sort xs)

  insert-perm : (x : A) (l : List A) → Perm (insert x l) (x ∷ l)
  unfolding insert
  insert-perm x [] = Perm.rfl
  insert-perm x (y ∷ ys) = elim (Bool-cases (not_after (cmp x y))) [
    | inl e ↦ rw e Perm.rfl
    | inr e ↦ rw e (Perm.trans (Perm.cons y (insert-perm x ys)) (Perm.swap x y ys))
  ]

  sort-perm : (l : List A) → Perm (insertion_sort l) l
  unfolding insertion_sort
  sort-perm [] = Perm.rfl
  sort-perm (x ∷ xs) = Perm.trans (insert-perm x (insertion_sort xs)) (Perm.cons x (sort-perm xs))

  length-insert : (x : A) (l : List A) → length (insert x l) ≡ length l + 1
  unfolding insert
  length-insert x [] = refl
  length-insert x (y ∷ ys) = ground (arith, length-insert x ys)

  length-sort : (l : List A) → length (insertion_sort l) ≡ length l
  unfolding insertion_sort
  length-sort [] = refl
  length-sort (x ∷ xs) = omega (arith, length-insert x (insertion_sort xs), length-sort xs)

  IsOrderOn-fewer :
      (l r : List A) → ((x : A) → Mem x r → Mem x l) → IsOrderOn cmp l → IsOrderOn cmp r
  IsOrderOn-fewer l r h o = record {
    flip = λ a b m n. o.flip a b (h a m) (h b n);
    trans = λ a b c m n k. o.trans a b c (h a m) (h b n) (h c k);
  }

  before_head :
      (x y : A)
      → cmp y x ≡ opposite (cmp x y)
      → not_after (cmp x y) ≡ false
      → not_after (cmp y x) ≡ true
  unfolding not_after opposite
  before_head x y flip e = rw flip (of_sign (cmp x y) e)
    where
      of_sign : (s : Sign) → not_after s ≡ false → not_after (opposite s) ≡ true
      of_sign negative h = absurd (ground (arith, h))
      of_sign null h = refl
      of_sign positive h = refl

  Below : A → List A → Type 0
  Below x l = (z : A) → Mem z l → not_after (cmp x z) ≡ true

  Below-cons : (x y : A) (ys : List A) → not_after (cmp x y) ≡ true → Below x ys → Below x (y ∷ ys)
  unfolding Below
  Below-cons x y ys e h z m = Or.elim (Bool-set _ _) (mem-cons.0 m) (λ same. rw same e) (h z)

  insert-Ascending :
      (x : A) (l : List A) → IsOrderOn cmp (x ∷ l) → Ascending cmp l → Ascending cmp (insert x l)
  unfolding insert Below
  insert-Ascending x [] o s = Pairwise-singleton _ x
  insert-Ascending x (y ∷ ys) o (Pairwise.cons below rest) =
      let there : Mem y (x ∷ y ∷ ys) = mem-cons_of_mem x mem-cons_self in
      elim (Bool-cases (not_after (cmp x y))) [
        | inl e ↦ rw e (
            Pairwise.cons
              (Below-cons x y ys e λ z m.
                o.trans x y z mem-cons_self there (mem-cons_of_mem x (mem-cons_of_mem y m)) e
                  (below z m))
              (Pairwise.cons below rest))
        | inr e ↦
            let first = before_head x y (o.flip x y mem-cons_self there) e in
            let fewer =
              IsOrderOn-fewer (x ∷ y ∷ ys) (x ∷ ys)
                (λ z m. (Perm.mem_iff (Perm.swap x y ys)).0 (mem-cons_of_mem y m)) o in
            rw e (
              Pairwise.cons
                (λ z m. Below-cons y x ys first below z ((Perm.mem_iff (insert-perm x ys)).0 m))
                (insert-Ascending x ys fewer rest))
      ]

  sort-Ascending : (l : List A) → IsOrderOn cmp l → Ascending cmp (insertion_sort l)
  unfolding insertion_sort
  sort-Ascending [] o = Pairwise.nil
  sort-Ascending (x ∷ xs) o =
      insert-Ascending x (insertion_sort xs)
        (IsOrderOn-fewer (x ∷ xs) (x ∷ insertion_sort xs)
          (λ z m. (Perm.mem_iff (Perm.cons x (sort-perm xs))).0 m) o)
        (sort-Ascending xs (IsOrderOn-fewer (x ∷ xs) xs (λ z m. mem-cons_of_mem x m) o))

pub insertion_sort-IsQsort : {A : Type 0} → IsQsort {A = A} insertion_sort
insertion_sort-IsQsort = record {
  permutes = sort-perm;
  length-qsort = length-sort;
  ascending = sort-Ascending;
}
