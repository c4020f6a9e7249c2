-- ===== src/KeyMap.antt =====
-- What the registry of lenses asks of the table of its keys, `struct htable keys` of src/optics.c,
-- and how src/utils/htable.c provides it.
use optics_light.Htable.{
  Htable, HtableRet, empty_htable, same_key, htable_get, htable_put, htable_del,
}
use optics_light.Htable.Placed.{same_key_iff_canon, same_key_of_canon}
use optics_light.Htable.Rehash
use optics_light.Htable.Ops.{ret_of, Does, htable_get-Does}
use optics_light.Htable.Put.{put_ret, put_view, htable_put-Does}
use optics_light.Htable.Del.{htable_del-Does}
use optics_light.Prelude.{
  ℕ, suc, ◌≤◌, ◌≡◌, refl, ap, sym, ◌∙◌, Option, none, some, List, true, if◌then◌else◌, length, take,
  arith, zero, [], ◌∷◌,
}

-- What an operation leaves: the answer and the map that the table then stands for.
pub record Acts {T : Type 0} (IsValid : T → Type 0) (view : T → List ℕ → Option ℕ) (ret : HtableRet)
    (out : T) (answer : HtableRet) (m : List ℕ → Option ℕ) : Type 0 where
  pub valid : IsValid out
  pub answers : ret ≡ answer
  pub reads : (q : List ℕ) → view out q ≡ m q

-- The operations return `none` where they do not return.
pub record KeyMap (T : Type 0) : Type 1 where
  pub IsValid : T → Type 0
  pub view : T → List ℕ → Option ℕ
  pub empty : T
  pub get : T → List ℕ → Option (HtableRet × T)
  pub put : T → List ℕ → ℕ → Option (HtableRet × T)
  pub del : T → List ℕ → Option (HtableRet × T)
  pub empty-IsValid : IsValid empty
  pub view-empty : (q : List ℕ) → view empty q ≡ none
  pub get-Acts :
      (t : T) (key : List ℕ) (ret : HtableRet) (out : T)
      → IsValid t
      → get t key ≡ some (ret, out)
      → Acts IsValid view ret out (ret_of (view t key)) (view t)
  pub put-Acts :
      (t : T) (key : List ℕ) (value : ℕ) (ret : HtableRet) (out : T)
      → IsValid t
      → put t key value ≡ some (ret, out)
      → Acts IsValid view ret out (put_ret (view t key)) (put_view (view t) key value)
  pub del-Acts :
      (t : T) (key : List ℕ) (ret : HtableRet) (out : T)
      → IsValid t
      → del t key ≡ some (ret, out)
      → Acts IsValid view ret out
          (ret_of (view t key))
          (λ q. if same_key key q then none else view t q)

take_whole : (n : ℕ) (s : List ℕ) → length s ≤ n → take n s ≡ s
take_whole zero [] h = refl
take_whole (suc n) [] h = refl
take_whole zero (c ∷ s) h = absurd (omega arith)
take_whole (suc n) (c ∷ s) h = ap (λ r. c ∷ r) (take_whole n s (omega arith))

-- Names of at most 1024 bytes are told apart.
pub same_key-eq : (a b : List ℕ) → length a ≤ 1024 → length b ≤ 1024 → same_key a b ≡ true → a ≡ b
same_key-eq a b ha hb e =
    sym (take_whole 1024 a ha) ∙ same_key_iff_canon a b e ∙ take_whole 1024 b hb

pub same_key_refl : (a : List ℕ) → same_key a a ≡ true
same_key_refl a = same_key_of_canon a a refl

pub Does-Acts :
    (ret answer : HtableRet) (out : Htable) (m : List ℕ → Option ℕ)
    → Does ret out answer m
    → Acts Rehash.IsValid Rehash.view ret out answer m
Does-Acts ret answer out m d = record { valid = d.valid; answers = d.answers; reads = d.reads }

-- The hash table, with `fuel` rounds of growth for each operation.
abbrev pub htable_keys : ℕ → KeyMap Htable
htable_keys fuel = record {
  IsValid = Rehash.IsValid;
  view = Rehash.view;
  empty = empty_htable;
  get = htable_get fuel;
  put = htable_put fuel;
  del = htable_del fuel;
  empty-IsValid = Rehash.empty-IsValid;
  view-empty = Rehash.view-empty;
  get-Acts =
      λ t key ret out v run. Does-Acts ret _ out _ (htable_get-Does fuel t key ret out v run);
  put-Acts = λ t key value ret out v run.
      Does-Acts ret _ out _ (htable_put-Does fuel t key value ret out v run);
  del-Acts =
      λ t key ret out v run. Does-Acts ret _ out _ (htable_del-Does fuel t key ret out v run);
}
