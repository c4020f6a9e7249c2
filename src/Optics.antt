-- ===== src/Optics.antt =====
-- The registry of lenses: src/optics.c, with the list operations of src/lens.c. What a function does
-- while it holds `optics->lock` is one step here. The table of the keys is a parameter, and so is the
-- address that `calloc` gives a new lens: `none` where there is no memory.
pub mod Lenses
pub mod Links
pub mod Listed
pub mod Chain
pub mod Defer
pub mod Frame
pub mod Names
pub mod Close
pub mod Reads
use optics_light.Floating.{Floating}
use optics_light.Htable.{HtableRet}
use optics_light.KeyMap.{KeyMap}
use optics_light.Lens.{
  Lens, LensType, OpticsRet, ok, err, Two, at_epoch, set_epoch, both, lens_name, lens_type,
  optics_name_max_len,
}
use optics_light.Lens.Counter.{lens_counter_alloc, lens_counter_inc, lens_counter_read}
use optics_light.Lens.Gauge.{lens_gauge_alloc, lens_gauge_set, lens_gauge_read}
use optics_light.Lens.Dist.{lens_dist_alloc, lens_dist_record}
use optics_light.Lens.Histo.{lens_histo_alloc, lens_histo_inc}
use optics_light.Lens.Quantile.{lens_quantile_alloc, lens_quantile_update}
use optics_light.Optics.Lenses.{Heap, ◌>>=◌, update, lens_free, lens_next, lens_set_next, lens_kill}
use optics_light.Prelude.{
  ℕ, zero, suc, ◌+◌, ◌-◌, ◌%◌, ◌^◌, Option, none, some, List, [], ◌∷◌, Bool, true, false, ltb, leb,
  ◌==◌, if◌then◌else◌, length, not,
}

-- `struct optics`. The prefix is the string in its array, and `epoch_defers` the addresses of the
-- lenses in the two lists of nodes, the newest first.
pub record Optics (D T : Type 0) : Type 0 where
  pub heap : Heap D
  pub keys : T
  pub lens_head : ℕ
  pub epoch : ℕ
  pub epoch_last_inc : ℕ
  pub epoch_defers : Two (List ℕ)
  pub prefix : List ℕ

-- Whether `calloc` returned memory.
abbrev pub has : Option ℕ → Bool
has none = false
has (some _) = true

module _ {D : Type 0} where
  -- `free` of the lenses of one list.
  unfoldable pub free_all : Heap D → List ℕ → Option (Heap D)
  free_all h [] = some h
  free_all h (p ∷ ps) = do h' ← lens_free h p; free_all h' ps

  -- The loop of `optics_free_lenses`; `none` is also fuel that ran out.
  unfoldable pub free_lenses : ℕ → Heap D → ℕ → Option (Heap D)
  free_lenses zero h lens = none
  free_lenses (suc fuel) h lens =
      if lens == 0
      then some h
      else (do next ← lens_next h lens; h' ← lens_free h lens; free_lenses fuel h' next)

module _ {D T : Type 0} where
  unfoldable pub optics_get_prefix : Optics D T → List ℕ
  optics_get_prefix o = o.prefix

  unfoldable pub optics_set_prefix : Optics D T → List ℕ → Bool × Optics D T
  optics_set_prefix o prefix =
      if leb optics_name_max_len (length prefix)
      then (false, o)
      else (true, record o { prefix = prefix })

  unfoldable pub optics_epoch : Optics D T → ℕ
  optics_epoch o = o.epoch % 2

  -- `has_memory` is for the node of the list.
  unfoldable pub optics_defer_free : Bool → Optics D T → ℕ → Bool × Optics D T
  optics_defer_free has_memory o p =
      if has_memory
      then (
        true,
        record o {
          epoch_defers =
              set_epoch o.epoch_defers (optics_epoch o)
                (p ∷ at_epoch o.epoch_defers (optics_epoch o));
        },
      )
      else (false, o)

  unfoldable pub optics_free_defered : Optics D T → ℕ → Option (Optics D T)
  optics_free_defered o epoch = do
    h ← free_all o.heap (at_epoch o.epoch_defers epoch)
    some (record o { heap = h; epoch_defers = set_epoch o.epoch_defers epoch [] })

  -- The epoch that ends, for the poller to read.
  unfoldable pub optics_epoch_inc : Optics D T → Option (ℕ × Optics D T)
  optics_epoch_inc o = do
    o' ← optics_free_defered o (1 - optics_epoch o)
    some (optics_epoch o', record o' { epoch = (o'.epoch + 1) % 2 ^ 64 })

  -- The second component is `*last_inc`.
  unfoldable pub optics_epoch_inc_at : Optics D T → ℕ → Option (ℕ × ℕ × Optics D T)
  optics_epoch_inc_at o now = do
    r ← optics_epoch_inc (record o { epoch_last_inc = now })
    some (r.0, o.epoch_last_inc, r.1)

  unfoldable pub optics_push_lens : Optics D T → ℕ → Option (Optics D T)
  optics_push_lens o lens = do
    h ← lens_set_next o.heap lens o.lens_head
    some (record o { heap = h; lens_head = lens })

  unfoldable pub optics_remove_lens : Optics D T → ℕ → Option (Optics D T)
  optics_remove_lens o lens = do
    h ← lens_kill o.heap lens
    next ← lens_next h lens
    some (record o { heap = h; lens_head = if o.lens_head == lens then next else o.lens_head })

  -- The traversal, over a state `C` of the callback; `none` is also fuel that ran out.
  module _ {C : Type 0} (cb : Optics D T → C → ℕ → Option (OpticsRet × Optics D T × C)) where
    unfoldable pub foreach_from : ℕ → Optics D T → C → ℕ → Option (OpticsRet × Optics D T × C)
    foreach_from zero o c lens = none
    foreach_from (suc fuel) o c lens = if lens == 0 then some (ok, o, c) else (do
      r ← cb o c lens
      elim r.0 [
        | ok ↦ (do next ← lens_next r.1.heap lens; foreach_from fuel r.1 r.2 next)
        | _ ↦ some r
      ])

    unfoldable pub optics_foreach_lens : ℕ → Optics D T → C → Option (OpticsRet × Optics D T × C)
    optics_foreach_lens fuel o c = foreach_from fuel o c o.lens_head

  -- What is left in memory. Closing while a thread holds the lock aborts, and is not modelled.
  unfoldable pub optics_close : ℕ → Optics D T → Option (Heap D)
  optics_close fuel o = do
    o' ← optics_free_defered o 0
    o'' ← optics_free_defered o' 1
    free_lenses fuel o''.heap o''.lens_head

  module _ (m : KeyMap T) where
    -- `h` is the memory at the start; `none` is NULL.
    unfoldable pub optics_create_at : Heap D → List ℕ → ℕ → Option (Optics D T)
    optics_create_at h name now =
        let (set, o) =
          optics_set_prefix
            (record {
              heap = h;
              keys = m.empty;
              lens_head = 0;
              epoch = 0;
              epoch_last_inc = 0;
              epoch_defers = both [];
              prefix = [];
            })
            name in
        if set then some (record o { epoch_last_inc = now }) else none

    unfoldable pub optics_lens_get : Optics D T → List ℕ → Option (ℕ × Optics D T)
    optics_lens_get o name = do
      r ← m.get o.keys name
      some (if r.0.ok then r.0.value else 0, record o { keys = r.1 })

    unfoldable pub optics_lens_create : Optics D T → ℕ → Option (Bool × Optics D T)
    optics_lens_create o lens = do
      l ← o.heap lens
      r ← m.put o.keys (lens_name l) lens
      if r.0.ok
          then (do o' ← optics_push_lens (record o { keys = r.1 }) lens; some (true, o'))
          else some (false, record o { keys = r.1 })

    unfoldable pub optics_lens_open : Optics D T → ℕ → Option (ℕ × Optics D T)
    optics_lens_open o lens = do
      l ← o.heap lens
      r ← m.put o.keys (lens_name l) lens
      (if r.0.ok
          then (do o' ← optics_push_lens (record o { keys = r.1 }) lens; some (lens, o'))
          else some (r.0.value, record o { keys = r.1 }))

    unfoldable pub optics_lens_close : Bool → Optics D T → ℕ → Option (Bool × Optics D T)
    optics_lens_close has_memory o lens = do
      l ← o.heap lens
      r ← m.del o.keys (lens_name l)
      (if r.0.ok
          then (do
            o' ← optics_remove_lens (record o { keys = r.1 }) lens
            some (optics_defer_free has_memory o' lens))
          else some (false, record o { keys = r.1 }))

    -- What the five functions `optics_<type>_create` do with the lens that they allocate at `p`.
    unfoldable pub create_with : Optics D T → Option ℕ → Option (Lens D) → Option (ℕ × Optics D T)
    create_with o none lens = some (0, o)
    create_with o (some p) none = some (0, o)
    create_with o (some p) (some lens) = do
      r ← optics_lens_create (record o { heap = update o.heap p (some lens) }) p
      (if r.0
          then some (p, r.1)
          else (do h ← lens_free r.1.heap p; some (0, record r.1 { heap = h })))

    -- What the five functions `optics_<type>_open` do.
    unfoldable pub open_with : Optics D T → Option ℕ → Option (Lens D) → Option (ℕ × Optics D T)
    open_with o none lens = some (0, o)
    open_with o (some p) none = some (0, o)
    open_with o (some p) (some lens) = do
      r ← optics_lens_open (record o { heap = update o.heap p (some lens) }) p
      (if r.0 == p
          then some r
          else (do h ← lens_free r.1.heap p; some (r.0, record r.1 { heap = h })))

    unfoldable pub optics_counter_create : Optics D T → Option ℕ → List ℕ → Option (ℕ × Optics D T)
    optics_counter_create o p name = create_with o p (lens_counter_alloc (has p) name)

    unfoldable pub optics_counter_open : Optics D T → Option ℕ → List ℕ → Option (ℕ × Optics D T)
    optics_counter_open o p name = open_with o p (lens_counter_alloc (has p) name)

    unfoldable pub optics_gauge_create : Optics D T → Option ℕ → List ℕ → Option (ℕ × Optics D T)
    optics_gauge_create o p name = create_with o p (lens_gauge_alloc (has p) name)

    unfoldable pub optics_gauge_open : Optics D T → Option ℕ → List ℕ → Option (ℕ × Optics D T)
    optics_gauge_open o p name = open_with o p (lens_gauge_alloc (has p) name)

    unfoldable pub optics_histo_create :
        Optics D T → Option ℕ → List ℕ → List ℕ → Option (ℕ × Optics D T)
    optics_histo_create o p name buckets = create_with o p (lens_histo_alloc (has p) name buckets)

    unfoldable pub optics_histo_open :
        Optics D T → Option ℕ → List ℕ → List ℕ → Option (ℕ × Optics D T)
    optics_histo_open o p name buckets = open_with o p (lens_histo_alloc (has p) name buckets)

    unfoldable pub optics_quantile_create :
        Optics D T → Option ℕ → List ℕ → D → D → D → Option (ℕ × Optics D T)
    optics_quantile_create o p name target_quantile estimate adjustment =
        create_with o p (lens_quantile_alloc (has p) name target_quantile estimate adjustment)

    unfoldable pub optics_quantile_open :
        Optics D T → Option ℕ → List ℕ → D → D → D → Option (ℕ × Optics D T)
    optics_quantile_open o p name target_quantile estimate adjustment =
        open_with o p (lens_quantile_alloc (has p) name target_quantile estimate adjustment)

    module _ ⦃fp : Floating D⦄ where
      unfoldable pub optics_dist_create : Optics D T → Option ℕ → List ℕ → Option (ℕ × Optics D T)
      optics_dist_create o p name = create_with o p (lens_dist_alloc (has p) name)

      unfoldable pub optics_dist_open : Optics D T → Option ℕ → List ℕ → Option (ℕ × Optics D T)
      optics_dist_open o p name = open_with o p (lens_dist_alloc (has p) name)

  -- What a record of a value does: the lens at `p` is changed under the current epoch.
  unfoldable pub optics_counter_inc : Optics D T → ℕ → ℕ → Option (Bool × Optics D T)
  optics_counter_inc o p value = do
    lens ← o.heap p
    r ← some (lens_counter_inc lens (optics_epoch o) value)
    some (r.0, record o { heap = update o.heap p (some r.1) })

  module _ ⦃fp : Floating D⦄ where
    unfoldable pub optics_gauge_set : Optics D T → ℕ → D → Option (Bool × Optics D T)
    optics_gauge_set o p value = do
      lens ← o.heap p
      r ← some (lens_gauge_set lens (optics_epoch o) value)
      some (r.0, record o { heap = update o.heap p (some r.1) })

    unfoldable pub optics_histo_inc : Optics D T → ℕ → D → Option (Bool × Optics D T)
    optics_histo_inc o p value = do
      lens ← o.heap p
      r ← lens_histo_inc lens (optics_epoch o) value
      some (r.0, record o { heap = update o.heap p (some r.1) })

    -- With the state of the thread's generator.
    unfoldable pub optics_dist_record : Optics D T → ℕ → D → ℕ → Option (Bool × Optics D T × ℕ)
    optics_dist_record o p value rng = do
      lens ← o.heap p
      r ← some (lens_dist_record lens (optics_epoch o) value rng)
      some (r.0, record o { heap = update o.heap p (some r.1) }, r.2)

    unfoldable pub optics_quantile_update : Optics D T → ℕ → D → ℕ → Option (Bool × Optics D T × ℕ)
    optics_quantile_update o p value rng = do
      lens ← o.heap p
      r ← some (lens_quantile_update lens (optics_epoch o) value rng)
      some (r.0, record o { heap = update o.heap p (some r.1) }, r.2)
