-- ===== src/Rest.antt =====
-- The REST backend: src/backend_rest.c, the tables that a poll builds. The lock is held for one step,
-- `qsort` is a parameter, and a failed allocation aborts and is left out.
pub mod Order
pub mod Table
pub mod Get
use optics_light.Key.{Key, empty_key, optics_key_push, optics_name_max_len}
use optics_light.Lens.{LensType}
use optics_light.Memory.{c_string}
use optics_light.Optics.Lenses.{◌>>=◌}
use optics_light.Poller.{Poll, PollEvent, poll_begin, poll_done, poll_metric, PollValue}
use optics_light.Qsort.{Sign, negative, null, positive, Qsort}
use optics_light.Prelude.{
  ℕ, zero, suc, ltb, ◌+◌, ◌*◌, Option, none, some, List, [], ◌∷◌, ◌++◌, ◌==◌, if◌then◌else◌, length,
}

abbrev pub metrics_init_cap : ℕ
metrics_init_cap = 128

-- `strncmp` on the bytes of two C strings before their nils.
unfoldable pub strncmp : List ℕ → List ℕ → ℕ → Sign
strncmp a b zero = null
strncmp [] [] (suc n) = null
strncmp [] (y ∷ ys) (suc n) = negative
strncmp (x ∷ xs) [] (suc n) = positive
strncmp (x ∷ xs) (y ∷ ys) (suc n) =
    let rest = strncmp xs ys n in if ltb x y then negative else if ltb y x then positive else rest

-- `struct metric`
pub record Metric (D : Type 0) : Type 0 where
  pub key : List ℕ
  pub type : LensType
  pub value : PollValue D

-- `struct metrics`; `rows` is `data`, and `len` its length.
pub record Metrics (D : Type 0) : Type 0 where
  pub cap : ℕ
  pub rows : List (Metric D)

-- `struct rest`; `none` is NULL.
pub record Rest (D : Type 0) : Type 0 where
  pub current : Option (Metrics D)
  pub build : Option (Metrics D)

module _ {D : Type 0} where
  -- The metric that is appended; `none` is an abort in `optics_key_push`.
  unfoldable pub metric_of : Poll D → Option (Metric D)
  metric_of poll = do
    k1 ← optics_key_push empty_key poll.prefix
    k2 ← optics_key_push k1.1 poll.host
    k3 ← optics_key_push k2.1 poll.key
    some (record { key = c_string k3.1.bytes; type = poll.type; value = poll.value })

  -- The first allocation and the doubling of a full table.
  unfoldable pub with_room : Option (Metrics D) → Metrics D
  with_room none = record { cap = metrics_init_cap; rows = [] }
  with_room (some m) = if length m.rows == m.cap then record m { cap = m.cap * 2 } else m

  unfoldable pub metrics_append : Option (Metrics D) → Poll D → Option (Metrics D)
  metrics_append metrics poll = do
    m ← metric_of poll
    some (record (with_room metrics) { rows = (with_room metrics).rows ++ m ∷ [] })

  unfoldable pub metrics_cmp : Metric D → Metric D → Sign
  metrics_cmp lhs rhs = strncmp lhs.key rhs.key optics_name_max_len

  module _ (qsort : Qsort (Metric D)) where
    unfoldable pub metrics_sort : Metrics D → Metrics D
    metrics_sort m = record m { rows = qsort metrics_cmp m.rows }

    unfoldable pub swap_tables : Rest D → Rest D
    swap_tables rest = record {
      current = elim rest.build [ none ↦ none | some m ↦ some (metrics_sort m) ];
      build = none;
    }

    unfoldable pub rest_dump : Rest D → PollEvent D → Option (Rest D)
    rest_dump rest poll_begin = some (record rest { build = none })
    rest_dump rest poll_done = some (swap_tables rest)
    rest_dump rest (poll_metric poll) = do
      m ← metrics_append rest.build poll
      some (record rest { build = some m })

    -- The events of a poll, one after the other.
    unfoldable pub rest_run : Rest D → List (PollEvent D) → Option (Rest D)
    rest_run rest [] = some rest
    rest_run rest (e ∷ es) = do next ← rest_dump rest e; rest_run next es
