-- ===== src/Htable/Del.antt =====
-- `htable_del` and `htable_xchg`, on the map that the table stands for.
use mathlib.Core.Path.{subst}
use optics_light.Htable.{
  Htable, HtableRet, key_at, value_at, same_key, probe_window, htable_resize, htable_xchg,
  htable_del,
}
use optics_light.Htable.Probe.{key_at-lt}
use optics_light.Htable.Placed.{
  canon, find, find_sound, find_complete, find-none, same_key_iff_canon,
}
use optics_light.Htable.Write.{
  lookup-some, lookup-none, assign-IsPlaced, lookup-filled, erase-IsPlaced, lookup-emptied,
}
use optics_light.Htable.Resize.{count-set}
use optics_light.Htable.Rehash.{IsValid, view, htable_resize-Resized}
use optics_light.Htable.Ops.{ret_of, Does, found_value, found_nothing}
use optics_light.Prelude.{
  ℕ, ◌-◌, ◌<◌, ◌≡◌, refl, ap, sym, ◌∙◌, Option, none, some, List, arith, if◌then◌else◌, true,
  Bool-cases, Option-cases, inl, inr, length, set,
}

-- Keys that agree in their first 1024 bytes read alike.
view_congr :
    (ht : Htable) (key q : List ℕ) → IsValid ht → same_key key q ≡ true → view ht q ≡ view ht key
unfolding view
view_congr ht key q v same =
    let t = ht.table in
    let p = v.placed in
    let e = same_key_iff_canon key q same in
    elim (Option-cases (find t ht.cap key)) [
      | inr (j, there) ↦
          let there' =
            find_complete t ht.cap p q j (find_sound t ht.cap p key j there ∙ ap some e) in
          lookup-some t ht.cap q j there' ∙ sym (lookup-some t ht.cap key j there)
      | inl absent ↦ elim (Option-cases (find t ht.cap q)) [
        | inl absent' ↦ lookup-none t ht.cap q absent' ∙ sym (lookup-none t ht.cap key absent)
        | inr (j, there) ↦
            absurd (
              find-none t ht.cap p key j absent (find_sound t ht.cap p q j there ∙ ap some (sym e)))
      ]
    ]

-- Removing a key that is not there removes nothing.
view_without :
    (ht : Htable) (key q : List ℕ)
    → IsValid ht
    → view ht key ≡ none
    → view ht q ≡ (if same_key key q then none else view ht q)
view_without ht key q v missing = elim (Bool-cases (same_key key q)) [
  | inl same ↦ rw same (view_congr ht key q v same ∙ missing)
  | inr other ↦ rw other refl
]

-- The key of bucket `j` taken out.
removed :
    (ht : Htable) (key : List ℕ) (j : ℕ)
    → IsValid ht
    → find ht.table ht.cap key ≡ some j
    → let out : Htable = record {
      len = ht.len - 1;
      cap = ht.cap;
      table = set ht.table j (record { key = none; value = value_at ht.table j });
    } in
      IsValid out × ((q : List ℕ) → view out q ≡ (if same_key key q then none else view ht q))
unfolding view
removed ht key j v there =
    let at = find_sound ht.table ht.cap v.placed key j there in
    let value = value_at ht.table j in
    (
      record {
        placed = erase-IsPlaced ht.table ht.cap v.placed key value j at;
        counted = ground (
          arith,
          v.counted,
          at,
          count-set ht.table j (record { key = none; value = value })
              (key_at-lt ht.table j (canon key) at),
        );
      },
      lookup-emptied ht.table ht.cap v.placed key value j at,
    )

-- On a valid table `htable_del`, whenever it returns, gives what `htable_get` would, and the key is
-- gone; the table stays valid.
pub htable_del-Does :
    (fuel : ℕ) (ht : Htable) (key : List ℕ) (ret : HtableRet) (out : Htable)
    → IsValid ht
    → htable_del fuel ht key ≡ some (ret, out)
    → Does ret out (ret_of (view ht key)) (λ q. if same_key key q then none else view ht q)
unfolding htable_del
htable_del-Does fuel ht key ret out v run =
    elim (Option-cases (htable_resize fuel ht probe_window)) [
      | inl e ↦ absurd (ground arith)
      | inr (ht', e) ↦
          let r = htable_resize-Resized fuel ht probe_window ht' v e in
          elim (Option-cases (find ht'.table ht'.cap key)) [
            | inl absent ↦
                let same : ht' ≡ out = ground arith in
                let missing : view ht key ≡ none =
                  sym (r.reads key) ∙ found_nothing ht' key absent in
                record {
                  valid = subst IsValid same r.valid;
                  answers = ground arith;
                  reads = λ q.
                      ap (λ o. view o q) (sym same) ∙ r.reads q ∙ view_without ht key q v missing;
                }
            | inr (j, there) ↦
                let (valid, reads) = removed ht' key j r.valid there in
                let same : record {
                  len = ht'.len - 1;
                  cap = ht'.cap;
                  table = set ht'.table j (record { key = none; value = value_at ht'.table j });
                }
                    ≡ out =
                  ground arith in
                record {
                  valid = subst IsValid same valid;
                  answers = ground (arith, r.reads key, found_value ht' key j there);
                  reads = λ q. ap (λ o. view o q) (sym same) ∙ reads q ∙ ground (arith, r.reads q);
                }
          ]
    ]

-- The map after an exchange: a key that is not there is not stored.
abbrev pub xchg_view : (List ℕ → Option ℕ) → List ℕ → ℕ → List ℕ → Option ℕ
xchg_view m key value q = elim (m key) [
  | none ↦ m q
  | some _ ↦ if same_key key q then some value else m q
]

assigned :
    (ht : Htable) (key : List ℕ) (value j : ℕ)
    → IsValid ht
    → find ht.table ht.cap key ≡ some j
    → let out : Htable = record ht {
      table = set ht.table j (record { key = key_at ht.table j; value = value });
    } in
      IsValid out × ((q : List ℕ) → view out q ≡ (if same_key key q then some value else view ht q))
unfolding view
assigned ht key value j v there =
    let at = find_sound ht.table ht.cap v.placed key j there in
    let fits : j < length ht.table = key_at-lt ht.table j (canon key) at in
    let placed = assign-IsPlaced ht.table ht.cap v.placed key value j at in
    rw at (
      record {
        placed = placed;
        counted = ground (
          arith,
          v.counted,
          at,
          count-set ht.table j (record { key = some (canon key); value = value }) fits,
        );
      },
      lookup-filled ht.table ht.cap v.placed key value j placed (omega (arith, v.placed.size))
          (inr at),
    )

-- On a valid table `htable_xchg`, whenever it returns, gives the old value and stores the new one if
-- the key is there, and changes nothing if it is not; the table stays valid.
pub htable_xchg-Does :
    (fuel : ℕ) (ht : Htable) (key : List ℕ) (value : ℕ) (ret : HtableRet) (out : Htable)
    → IsValid ht
    → htable_xchg fuel ht key value ≡ some (ret, out)
    → Does ret out (ret_of (view ht key)) (xchg_view (view ht) key value)
unfolding htable_xchg
htable_xchg-Does fuel ht key value ret out v run =
    elim (Option-cases (htable_resize fuel ht probe_window)) [
      | inl e ↦ absurd (ground arith)
      | inr (ht', e) ↦
          let r = htable_resize-Resized fuel ht probe_window ht' v e in
          elim (Option-cases (find ht'.table ht'.cap key)) [
            | inl absent ↦
                let same : ht' ≡ out = ground arith in
                let missing : view ht key ≡ none =
                  sym (r.reads key) ∙ found_nothing ht' key absent in
                record {
                  valid = subst IsValid same r.valid;
                  answers = ground arith;
                  reads = λ q. ap (λ o. view o q) (sym same) ∙ r.reads q ∙ ground (arith, missing);
                }
            | inr (j, there) ↦
                let (valid, reads) = assigned ht' key value j r.valid there in
                let present : view ht key ≡ some (value_at ht'.table j) =
                  sym (r.reads key) ∙ found_value ht' key j there in
                let same : record ht' {
                  table = set ht'.table j (record { key = key_at ht'.table j; value = value });
                }
                    ≡ out =
                  ground arith in
                record {
                  valid = subst IsValid same valid;
                  answers = ground arith;
                  reads = λ q. ap (λ o. view o q) (sym same) ∙ reads q ∙ ground (arith, r.reads q);
                }
          ]
    ]
