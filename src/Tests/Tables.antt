-- ===== src/Tests/Tables.antt =====
-- The hash table and the generator.
use optics_light.Buffer.{double_cap}
use optics_light.Htable.{
  Htable, HtableRet, empty_htable, sign_extend, fnv_from, htable_hash, str_eq, same_key, key_at,
  value_at, find_key, find_free, table_put, rehash, htable_resize, htable_get, put_scan, htable_put,
  htable_xchg, htable_del,
}
use optics_light.Htable.Rehash
use optics_light.Htable.Rehash.{view, empty-IsValid, Resized, htable_resize-Resized}
use optics_light.Htable.Ops.{Does, ret_of, htable_get-Does}
use optics_light.Htable.Put.{put_ret, put_view, htable_put-Does}
use optics_light.Htable.Del.{xchg_view, htable_del-Does, htable_xchg-Does}
use optics_light.Htable.Total.{htable_get_total, htable_put_total}
use optics_light.Rng.{rng_seed_with, rng_gen_range}
use optics_light.Rng.State.{IsState, steps, seeded_run}
use optics_light.Prelude.{
  ℕ, ◌≤◌, ◌<◌, ◌≡◌, refl, none, some, List, [], ◌∷◌, true, if◌then◌else◌, arith,
}

program : Unit {0}
unfolding double_cap sign_extend fnv_from htable_hash str_eq same_key key_at value_at find_key
    find_free table_put rehash htable_resize htable_get put_scan htable_put htable_xchg htable_del
    rng_seed_with
program = tt

abbrev name : List ℕ
name = b'a' ∷ b'b' ∷ []

abbrev one_table : Htable
one_table = elim (htable_put 1 empty_htable name 7) [ none ↦ empty_htable | some r ↦ r.1 ]

abbrev done : ℕ → HtableRet
done v = record { ok = true; value = v }

htable_put-Does_example :
    Does (done 0) one_table (put_ret (view empty_htable name)) (put_view (view empty_htable) name 7)
unfolding program
htable_put-Does_example =
    htable_put-Does 1 empty_htable name 7 (done 0) one_table empty-IsValid refl

one_table-IsValid : Rehash.IsValid one_table
unfolding program
one_table-IsValid =
    (htable_put-Does 1 empty_htable name 7 (done 0) one_table empty-IsValid refl).valid

abbrev grown : Htable
grown = elim (htable_resize 1 one_table 9) [ none ↦ empty_htable | some t ↦ t ]

htable_resize-Resized_example : Resized one_table 9 grown
unfolding program
htable_resize-Resized_example = htable_resize-Resized 1 one_table 9 grown one_table-IsValid refl

htable_get-Does_example : Does (done 7) one_table (ret_of (view one_table name)) (view one_table)
unfolding program
htable_get-Does_example = htable_get-Does 1 one_table name (done 7) one_table one_table-IsValid refl

abbrev emptied : Htable
emptied = elim (htable_del 1 one_table name) [ none ↦ empty_htable | some r ↦ r.1 ]

htable_del-Does_example :
    Does
      (done 7)
      emptied
      (ret_of (view one_table name))
      (λ q. if same_key name q then none else view one_table q)
unfolding program
htable_del-Does_example = htable_del-Does 1 one_table name (done 7) emptied one_table-IsValid refl

abbrev replaced : Htable
replaced = elim (htable_xchg 1 one_table name 9) [ none ↦ empty_htable | some r ↦ r.1 ]

htable_xchg-Does_example :
    Does (done 7) replaced (ret_of (view one_table name)) (xchg_view (view one_table) name 9)
unfolding program
htable_xchg-Does_example =
    htable_xchg-Does 1 one_table name 9 (done 7) replaced one_table-IsValid refl

htable_get_total_example :
    (ret : HtableRet) × (out : Htable) × (htable_get 1 one_table name ≡ some (ret, out))
htable_get_total_example = htable_get_total 0 one_table name one_table-IsValid

htable_put_total_example :
    (ret : HtableRet) × (out : Htable) × (htable_put 1 one_table (b'c' ∷ []) 3 ≡ some (ret, out))
unfolding program
htable_put_total_example =
    htable_put_total 0 one_table (b'c' ∷ []) 3 one_table-IsValid (omega arith)

abbrev seed_state : ℕ
seed_state = elim (rng_seed_with 5) [ none ↦ 0 | some x ↦ x ]

seeded_run_example :
    IsState (steps 3 seed_state)
    × (10 ≤ (rng_gen_range (steps 3 seed_state) 10 20).0)
    × ((rng_gen_range (steps 3 seed_state) 10 20).0 < 20)
unfolding program
seeded_run_example = seeded_run 3 5 seed_state 10 20 (omega arith) refl (omega arith) (omega arith)
