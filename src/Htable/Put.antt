-- ===== src/Htable/Put.antt =====
-- `htable_put`, on the map that the table stands for.
use mathlib.Core.Path.{subst}
use optics_light.Htable.{
  Table, Htable, HtableRet, value_at, find_free, put_scan, found, free, full, same_key, htable_hash,
  probe_window, htable_resize, htable_put,
}
use optics_light.Htable.Probe.{find_free_sound, put_scan_lem}
use optics_light.Htable.Placed.{canon, find}
use optics_light.Htable.Write.{insert-IsPlaced, lookup-filled}
use optics_light.Htable.Resize.{count-set}
use optics_light.Htable.Rehash.{IsValid, view, htable_resize-Resized}
use optics_light.Htable.Ops.{Does, found_value, found_nothing}
use optics_light.Prelude.{
  ℕ, zero, suc, ◌+◌, ◌*◌, ◌<◌, ◌≡◌, refl, ap, sym, ◌∙◌, Option, none, some, List, arith,
  if◌then◌else◌, true, false, Option-cases, inl, inr, set,
}

-- A new key in bucket `j`.
added :
    (ht : Htable) (key : List ℕ) (value j : ℕ)
    → IsValid ht
    → find ht.table ht.cap key ≡ none
    → find_free ht.table ht.cap (htable_hash key) probe_window 0 ≡ some j
    → 0 < ht.cap
    → Does
        (record { ok = true; value = 0 })
        (record {
          len = ht.len + 1;
          cap = ht.cap;
          table = set ht.table j (record { key = some (canon key); value = value });
        })
        (record { ok = true; value = 0 })
        (λ q. if same_key key q then some value else view ht q)
unfolding view
added ht key value j v absent e pos =
    let (empty, window) =
      find_free_sound ht.table ht.cap (htable_hash key) key probe_window 0 j (omega arith) e in
    let (m, lt, at) = window in
    let fits : j < ht.cap = omega arith in
    let placed = insert-IsPlaced ht.table ht.cap v.placed key value j absent window fits in
    record {
      valid = record {
        placed = placed;
        counted = ground (
          arith,
          count-set ht.table j (record { key = some (canon key); value = value })
              (omega (arith, v.placed.size)),
        );
      };
      answers = refl;
      reads = lookup-filled ht.table ht.cap v.placed key value j placed fits (inl empty);
    }

-- The map after a put: a key that is there keeps its value.
abbrev pub put_view : (List ℕ → Option ℕ) → List ℕ → ℕ → List ℕ → Option ℕ
put_view m key value q = elim (m key) [
  | some _ ↦ m q
  | none ↦ if same_key key q then some value else m q
]

-- What a put returns: a refusal with the value that is there, or success.
abbrev pub put_ret : Option ℕ → HtableRet
put_ret (some v) = record { ok = false; value = v }
put_ret none = record { ok = true; value = 0 }

put_view-some :
    (m : List ℕ → Option ℕ) (key q : List ℕ) (value w : ℕ)
    → m key ≡ some w
    → put_view m key value q ≡ m q
put_view-some m key q value w e = ground arith

put_view-none :
    (m : List ℕ → Option ℕ) (key q : List ℕ) (value : ℕ)
    → m key ≡ none
    → put_view m key value q ≡ (if same_key key q then some value else m q)
put_view-none m key q value e = ground arith

put_view_same :
    (m m' : List ℕ → Option ℕ) (key : List ℕ) (value : ℕ)
    → ((q : List ℕ) → m q ≡ m' q)
    → (q : List ℕ) → put_view m key value q ≡ put_view m' key value q
put_view_same m m' key value same q = ground (arith, same key, same q)

pub put_scan-found :
    (t : Table) (cap : ℕ) (key : List ℕ) (j : ℕ)
    → find t cap key ≡ some j
    → put_scan t cap (htable_hash key) key probe_window 0 none ≡ found j
put_scan-found t cap key j e =
    ground (arith, put_scan_lem t cap (htable_hash key) key probe_window 0 none)

pub put_scan-free :
    (t : Table) (cap : ℕ) (key : List ℕ) (j : ℕ)
    → find t cap key ≡ none
    → find_free t cap (htable_hash key) probe_window 0 ≡ some j
    → put_scan t cap (htable_hash key) key probe_window 0 none ≡ free j
put_scan-free t cap key j e e' =
    ground (arith, put_scan_lem t cap (htable_hash key) key probe_window 0 none)

pub put_scan-full :
    (t : Table) (cap : ℕ) (key : List ℕ)
    → find t cap key ≡ none
    → find_free t cap (htable_hash key) probe_window 0 ≡ none
    → put_scan t cap (htable_hash key) key probe_window 0 none ≡ full
put_scan-full t cap key e e' =
    ground (arith, put_scan_lem t cap (htable_hash key) key probe_window 0 none)

-- On a valid table `htable_put`, whenever it returns, stores a new key, refuses one that is there,
-- and returns which it was; the table stays valid.
pub htable_put-Does :
    (fuel : ℕ) (ht : Htable) (key : List ℕ) (value : ℕ) (ret : HtableRet) (out : Htable)
    → IsValid ht
    → htable_put fuel ht key value ≡ some (ret, out)
    → Does ret out (put_ret (view ht key)) (put_view (view ht) key value)
unfolding htable_put
htable_put-Does zero ht key value ret out v run = cc
htable_put-Does (suc fuel) ht key value ret out v run =
    elim (Option-cases (htable_resize (suc fuel) ht probe_window)) [
      | inl e ↦ absurd (ground arith)
      | inr (ht', e) ↦
          let r = htable_resize-Resized (suc fuel) ht probe_window ht' v e in
          elim (Option-cases (find ht'.table ht'.cap key)) [
            | inr (j, there) ↦
                let scan = put_scan-found ht'.table ht'.cap key j there in
                let same : ht' ≡ out = ground arith in
                let val : view ht key ≡ some (value_at ht'.table j) =
                  sym (r.reads key) ∙ found_value ht' key j there in
                record {
                  valid = subst IsValid same r.valid;
                  answers = ground arith;
                  reads = λ q.
                      ap (λ o. view o q) (sym same)
                      ∙ r.reads q
                      ∙ sym (put_view-some (view ht) key q value _ val);
                }
            | inl absent ↦
                let missing : view ht key ≡ none =
                  sym (r.reads key) ∙ found_nothing ht' key absent in
                elim (Option-cases (find_free ht'.table ht'.cap (htable_hash key) probe_window 0)) [
                  | inr (j, e') ↦
                      let scan = put_scan-free ht'.table ht'.cap key j absent e' in
                      let d = added ht' key value j r.valid absent e' (omega (arith, r.room)) in
                      let answer : ret ≡ record { ok = true; value = 0 } = ground arith in
                      let same : record {
                        len = ht'.len + 1;
                        cap = ht'.cap;
                        table = set ht'.table j (record { key = some (canon key); value = value });
                      }
                          ≡ out =
                        ground arith in
                      record {
                        valid = subst IsValid same d.valid;
                        answers = rw missing answer;
                        reads = λ q.
                            ap (λ o. view o q) (sym same)
                            ∙ d.reads q
                            ∙ ground (arith, r.reads q)
                            ∙ sym (put_view-none (view ht) key q value missing);
                      }
                  | inl e' ↦
                      let scan = put_scan-full ht'.table ht'.cap key absent e' in
                      elim (Option-cases (htable_resize (suc fuel) ht' (ht'.cap * 2))) [
                        | inl stuck ↦ absurd (ground arith)
                        | inr (ht'', again) ↦
                            let r' =
                              htable_resize-Resized (suc fuel) ht' (ht'.cap * 2) ht'' r.valid
                                again in
                            let d =
                              htable_put-Does fuel ht'' key value ret out r'.valid (ground arith) in
                            let same : (q : List ℕ) → view ht'' q ≡ view ht q =
                              λ q. r'.reads q ∙ r.reads q in
                            record {
                              valid = d.valid;
                              answers = d.answers ∙ ap put_ret (same key);
                              reads = λ q.
                                  d.reads q ∙ put_view_same (view ht'') (view ht) key value same q;
                            }
                      ]
                ]
          ]
    ]
