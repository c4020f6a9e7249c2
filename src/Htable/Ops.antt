-- ===== src/Htable/Ops.antt =====
-- What an operation of the hash table does, on the map that it stands for, and `htable_get`.
use mathlib.Core.Path.{subst}
use optics_light.Htable.{Htable, HtableRet, value_at, probe_window, htable_resize, htable_get}
use optics_light.Htable.Placed.{find}
use optics_light.Htable.Write.{lookup-some, lookup-none}
use optics_light.Htable.Rehash.{IsValid, view, htable_resize-Resized}
use optics_light.Prelude.{
  ℕ, ◌≡◌, Option, none, some, List, arith, true, false, Option-cases, inl, inr,
}

-- What an operation returns of the value that it finds.
abbrev pub ret_of : Option ℕ → HtableRet
ret_of none = record { ok = false; value = 0 }
ret_of (some v) = record { ok = true; value = v }

-- The result of an operation on a table that stands for the map `m`.
pub record Does (ret : HtableRet) (out : Htable) (answer : HtableRet) (m : List ℕ → Option ℕ)
    : Type 0 where
  pub valid : IsValid out
  pub answers : ret ≡ answer
  pub reads : (q : List ℕ) → view out q ≡ m q

pub found_value :
    (ht : Htable) (key : List ℕ) (j : ℕ)
    → find ht.table ht.cap key ≡ some j
    → view ht key ≡ some (value_at ht.table j)
unfolding view
found_value ht key j e = lookup-some ht.table ht.cap key j e

pub found_nothing :
    (ht : Htable) (key : List ℕ) → find ht.table ht.cap key ≡ none → view ht key ≡ none
unfolding view
found_nothing ht key e = lookup-none ht.table ht.cap key e

-- On a valid table `htable_get`, whenever it returns, gives the value of the key, and changes nothing
-- that a lookup sees; the table stays valid.
pub htable_get-Does :
    (fuel : ℕ) (ht : Htable) (key : List ℕ) (ret : HtableRet) (out : Htable)
    → IsValid ht
    → htable_get fuel ht key ≡ some (ret, out)
    → Does ret out (ret_of (view ht key)) (view ht)
unfolding htable_get
htable_get-Does fuel ht key ret out v run =
    elim (Option-cases (htable_resize fuel ht probe_window)) [
      | inl e ↦ absurd (ground arith)
      | inr (ht', e) ↦
          let r = htable_resize-Resized fuel ht probe_window ht' v e in
          elim (Option-cases (find ht'.table ht'.cap key)) [
            | inl absent ↦
                let same : ht' ≡ out = ground arith in
                record {
                  valid = subst IsValid same r.valid;
                  answers = ground (arith, r.reads key, found_nothing ht' key absent);
                  reads = subst (λ o. (q : List ℕ) → view o q ≡ view ht q) same r.reads;
                }
            | inr (j, there) ↦
                let same : ht' ≡ out = ground arith in
                record {
                  valid = subst IsValid same r.valid;
                  answers = ground (arith, r.reads key, found_value ht' key j there);
                  reads = subst (λ o. (q : List ℕ) → view o q ≡ view ht q) same r.reads;
                }
          ]
    ]
