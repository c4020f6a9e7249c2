-- ===== src/Tests/Registry.antt =====
-- The registry.
use optics_light.Buffer.{double_cap}
use optics_light.KeyMap.{htable_keys, Acts, same_key_refl}
use optics_light.Htable.{htable_del}
use optics_light.Htable.Put.{put_ret, put_view}
use optics_light.Optics.Names.{IsRegistry}
use optics_light.Optics.Close.{Closed, optics_lens_close_lem}
use optics_light.Optics.{optics_lens_close}
use optics_light.Prelude.{Option, Bool-cases, inl, inr}
use optics_light.Htable.{
  Htable, HtableRet, empty_htable, sign_extend, fnv_from, htable_hash, str_eq, same_key, key_at,
  value_at, find_key, find_free, table_put, rehash, htable_resize, htable_get, put_scan, htable_put,
}
use optics_light.Optics.Chain.{Chain}
use optics_light.Optics.Names.{Added, Unchanged, create_with-open_with}
use optics_light.Lens.{lens_name}
use optics_light.Optics.{create_with, open_with}
use optics_light.Prelude.{List, arith, false}
use optics_light.Lens.{Lens, Sub, gauge}
use optics_light.Optics.{Optics, optics_epoch, optics_defer_free, optics_epoch_inc}
use optics_light.Optics.Defer.{among, Live, freed_at_second_epoch}
use optics_light.Optics.Lenses.{Heap}
use optics_light.Prelude.{true, ℕ, ◌-◌, ◌≡◌, refl, none, some, [], ◌∷◌, ◌==◌, if◌then◌else◌}
use optics_light.Tests.Double.{Double}

abbrev lens_of : Sub Double → Lens Double
lens_of sub = record { name = b'a' ∷ []; name_len = 2; next = 0; prev = 0; sub = sub }

-- Lenses stand at 10, 11 and 12, and the last two have been deferred.
abbrev memory : Heap Double
memory p =
    if p == 10
    then some (lens_of (gauge 0))
    else if p == 11
    then some (lens_of (gauge 1))
    else if p == 12
    then some (lens_of (gauge 2))
    else none

abbrev registry : Optics Double Htable
registry = record {
  heap = memory;
  keys = empty_htable;
  lens_head = 0;
  epoch = 4;
  epoch_last_inc = 0;
  epoch_defers = record { first = 11 ∷ []; second = 12 ∷ [] };
  prefix = [];
}

freed_at_second_epoch_example :
    (o1 o2 : Optics Double Htable) × (optics_epoch_inc (optics_defer_free true registry 10).1
      ≡ some (optics_epoch registry, o1))
    × (o1.heap 10 ≡ some (lens_of (gauge 0)))
    × ((q : ℕ) → o1.heap q ≡ (if among q (12 ∷ []) then none else memory q))
    × (optics_epoch_inc o1 ≡ some (1 - optics_epoch registry, o2))
    × (o2.heap 10 ≡ none)
unfolding optics_epoch Live among
freed_at_second_epoch_example = freed_at_second_epoch registry 10 (
  (lens_of (gauge 0), refl),
  refl,
  ((lens_of (gauge 1), refl), refl, ((lens_of (gauge 2), refl), refl, tt)),
)

-- A gauge that is put into an empty registry.
abbrev empty_registry : Optics Double Htable
empty_registry = record registry { heap = λ _. none; keys = empty_htable; lens_head = 0 }

abbrev new_gauge : Lens Double
new_gauge = record { name = b'g' ∷ []; name_len = 2; next = 0; prev = 0; sub = gauge 0 }

abbrev put_result : HtableRet × Htable
put_result = elim ((htable_keys 1).put empty_htable (b'g' ∷ []) 12) [
  | none ↦ (record { ok = false; value = 0 }, empty_htable)
  | some r ↦ r
]

table : Unit {0}
unfolding double_cap sign_extend fnv_from htable_hash str_eq same_key key_at value_at find_key
    find_free table_put rehash htable_resize htable_get put_scan htable_put htable_del lens_name
    Chain among
table = tt

create_with-open_with_example :
    ((htable_keys 1).view empty_htable (lens_name new_gauge) ≡ none
      → (out : Optics Double Htable) × (create_with
            (htable_keys 1)
            empty_registry
            (some 12)
            (some new_gauge)
          ≡ some (12, out))
        × (open_with (htable_keys 1) empty_registry (some 12) (some new_gauge) ≡ some (12, out))
        × Added (htable_keys 1) empty_registry [] 12 new_gauge out)
    × ((old : ℕ)
        → (htable_keys 1).view empty_htable (lens_name new_gauge) ≡ some old
        → (out : Optics Double Htable) × (create_with
              (htable_keys 1)
              empty_registry
              (some 12)
              (some new_gauge)
            ≡ some (0, out))
          × (open_with (htable_keys 1) empty_registry (some 12) (some new_gauge) ≡ some (old, out))
          × Unchanged (htable_keys 1) empty_registry [] out)
unfolding table
create_with-open_with_example =
    create_with-open_with (htable_keys 1) empty_registry [] 12 new_gauge put_result.0 put_result.1
      (record {
        valid = (htable_keys 1).empty-IsValid;
        chain = refl;
        listed = λ q p e. absurd (ground (arith, (htable_keys 1).view-empty q, e));
        named = λ q p e. absurd (ground (arith, (htable_keys 1).view-empty q, e));
      })
      refl (omega arith) refl refl

-- The registry with the gauge, which is then closed.
abbrev one_gauge : Optics Double Htable
one_gauge = record registry {
  heap = λ q. if q == 12 then some new_gauge else none;
  keys = put_result.1;
  lens_head = 12;
}

abbrev del_result : HtableRet × Htable
del_result = elim ((htable_keys 1).del put_result.1 (b'g' ∷ [])) [
  | none ↦ (record { ok = false; value = 0 }, empty_htable)
  | some r ↦ r
]

abbrev keys_view : List ℕ → Option ℕ
keys_view = (htable_keys 1).view put_result.1

gauge-Acts :
    Acts
      (htable_keys 1).IsValid
      (htable_keys 1).view
      put_result.0
      put_result.1
      (put_ret ((htable_keys 1).view empty_htable (b'g' ∷ [])))
      (put_view ((htable_keys 1).view empty_htable) (b'g' ∷ []) 12)
unfolding table
gauge-Acts =
    (htable_keys 1).put-Acts empty_htable (b'g' ∷ []) 12 put_result.0 put_result.1
      (htable_keys 1).empty-IsValid refl

gauge_only :
    (q : List ℕ) (r : ℕ) → keys_view q ≡ some r → (r ≡ 12) × (same_key (b'g' ∷ []) q ≡ true)
gauge_only q r e =
    let none_here = (htable_keys 1).view-empty (b'g' ∷ []) in
    let none_there = (htable_keys 1).view-empty q in
    let reads = gauge-Acts.reads q in
    elim (Bool-cases (same_key (b'g' ∷ []) q)) [
      | inl same ↦ (ground (arith, e), same)
      | inr other ↦ absurd (ground (arith, e))
    ]

gauge_listed : keys_view (b'g' ∷ []) ≡ some 12
gauge_listed =
    let none_here = (htable_keys 1).view-empty (b'g' ∷ []) in
    let same : same_key (b'g' ∷ []) (b'g' ∷ []) ≡ true = same_key_refl (b'g' ∷ []) in
    let reads = gauge-Acts.reads (b'g' ∷ []) in ground (arith, reads, same, none_here)

gauge-IsRegistry : IsRegistry (htable_keys 1) one_gauge (12 ∷ [])
unfolding table
gauge-IsRegistry = record {
  valid = gauge-Acts.valid;
  chain = (refl, omega arith, refl, (new_gauge, refl, refl, refl));
  listed = λ q r e. rw (gauge_only q r e).0 refl;
  named = λ q r e. (new_gauge, rw (gauge_only q r e).0 refl, (gauge_only q r e).1);
}

optics_lens_close_lem_example :
    ((htable_keys 1).view put_result.1 (lens_name new_gauge) ≡ some 12
      → (out : Optics Double Htable) × (optics_lens_close (htable_keys 1) true one_gauge 12
          ≡ some (true, out))
        × Closed (htable_keys 1) one_gauge [] 12 new_gauge out)
    × ((htable_keys 1).view put_result.1 (lens_name new_gauge) ≡ none
        → (optics_lens_close (htable_keys 1) true one_gauge 12
            ≡ some (false, record one_gauge { keys = del_result.1 }))
          × IsRegistry (htable_keys 1) (record one_gauge { keys = del_result.1 }) (12 ∷ []))
unfolding table
optics_lens_close_lem_example =
    optics_lens_close_lem (htable_keys 1) one_gauge [] [] 12 new_gauge del_result.0 del_result.1
      gauge-IsRegistry refl refl
