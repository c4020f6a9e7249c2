-- ===== src/Rest/Table.antt =====
-- What the REST backend serves after a poll.
use mathlib.Core.List.{Perm, Pairwise}
use mathlib.Core.List.Pairwise
use optics_light.Qsort.{Qsort, IsQsort}
use optics_light.Rest.Order.{KeysInOrder, metrics_cmp-KeysInOrder, metrics_cmp-IsOrderOn}
use optics_light.Key.{empty_key}
use optics_light.Key.View.{Holds, Holds-c_string, joined, push-Holds}
use optics_light.Memory.{NoNil}
use optics_light.Poller.{Poll, PollEvent, poll_begin, poll_done, poll_metric}
use optics_light.Rest.{
  Metric, Metrics, Rest, metric_of, with_room, metrics_append, metrics_cmp, metrics_sort,
  swap_tables, rest_dump, rest_run,
}
use optics_light.Prelude.{
  ◌+◌, ◌≤◌, ◌<◌, ◌≡◌, refl, ap, sym, ◌∙◌, Option, none, some, List, [], ◌∷◌, ◌++◌, length,
  replicate, length-append, append_assoc, append-nil, arith,
}

empty_key-Holds : Holds [] empty_key
empty_key-Holds = record {
  rest = replicate 255 0;
  bytes = refl;
  len = refl;
  size = refl;
  no_nil = tt;
}

module _ {D : Type 0} where
  -- The metric of a poll: its key is the prefix, the host and the name of the lens, with dots between
  -- them and cut to 255 bytes.
  unfoldable pub named : Poll D → Metric D
  named poll = record {
    key = joined (joined (joined [] poll.prefix) poll.host) poll.key;
    type = poll.type;
    value = poll.value;
  }

  -- The parts of the keys are C strings.
  unfoldable pub Named : List (Poll D) → Type 0
  Named [] = Unit {0}
  Named (p ∷ ps) = (NoNil p.prefix × NoNil p.host × NoNil p.key) × Named ps

  metric_of_lem :
      (p : Poll D) → NoNil p.prefix → NoNil p.host → NoNil p.key → metric_of p ≡ some (named p)
  unfolding metric_of named
  metric_of_lem p n1 n2 n3 =
      let (k1, push1, h1) = push-Holds [] p.prefix empty_key empty_key-Holds n1 in
      let (k2, push2, h2) = push-Holds _ p.host k1 h1 n2 in
      let (k3, push3, h3) = push-Holds _ p.key k2 h2 n3 in
      rw (push1, push2, push3, Holds-c_string _ k3 h3) refl

  unfoldable pub events : List (Poll D) → List (PollEvent D)
  events [] = []
  events (p ∷ ps) = poll_metric p ∷ events ps

  unfoldable pub all_named : List (Poll D) → List (Metric D)
  all_named [] = []
  all_named (p ∷ ps) = named p ∷ all_named ps

  with_room_lem :
      (m : Metrics D)
      → 0 < m.cap
      → length m.rows ≤ m.cap
      → ((with_room (some m)).rows ≡ m.rows) × (length m.rows + 1 ≤ (with_room (some m)).cap)
  unfolding with_room
  with_room_lem m some_room fits = (ground arith, ground arith)

  -- What is served after a poll of `ps`: nothing if it is empty, else its metrics, each once and with
  -- their keys in the order of a dictionary.
  unfoldable pub Served : List (Poll D) → Option (Metrics D) → Type 0
  Served [] current = current ≡ none
  Served (p ∷ ps) current =
      (m : Metrics D) × (current ≡ some m)
      × Perm m.rows (all_named (p ∷ ps))
      × Pairwise KeysInOrder m.rows

  module _ (qsort : Qsort (Metric D)) where
    sorted :
        (l rows : List (Metric D))
        → IsQsort qsort
        → rows ≡ l
        → Perm (qsort metrics_cmp rows) l × Pairwise KeysInOrder (qsort metrics_cmp rows)
    sorted l rows q same = rw same (
      q.permutes metrics_cmp l,
      Pairwise.imp metrics_cmp-KeysInOrder (q.ascending metrics_cmp l (metrics_cmp-IsOrderOn l)),
    )

    -- The metrics of a poll go to the table that is built, and the one that is served stays.
    building :
        (ps : List (Poll D)) (current : Option (Metrics D)) (m : Metrics D)
        → Named ps
        → 0 < m.cap
        → length m.rows ≤ m.cap
        → (m' : Metrics D) × (rest_run qsort
              (record { current = current; build = some m })
              (events ps)
            ≡ some (record { current = current; build = some m' }))
          × (m'.rows ≡ m.rows ++ all_named ps)
          × (length m'.rows ≤ m'.cap)
    unfolding rest_run rest_dump metrics_append events all_named Named
    building [] current m ok some_room fits = (m, refl, sym (append-nil m.rows), fits)
    building (p ∷ ps) current m ((n1, n2, n3), ok) some_room fits =
        let (same, room) = with_room_lem m some_room fits in
        let m1 : Metrics D = record (with_room (some m)) {
          rows = (with_room (some m)).rows ++ named p ∷ [];
        } in
        let size = length-append (with_room (some m)).rows (named p ∷ []) in
        let (m', run, rows, fits') =
          building ps current m1 ok (omega arith) (omega (arith, ap length same)) in
        (m', rw (metric_of_lem p n1 n2 n3) run, rows ∙ rw (same, append_assoc) refl, fits')

    -- For a `qsort` that keeps to the C standard, a poll never aborts. While its metrics come in, the
    -- table of the poll before is served; when it is done its own metrics are, each once, under the
    -- prefix, the host and its name, with the keys in the order of a dictionary up to their first 256
    -- bytes; what an unfinished poll had built is dropped. A poll without metrics leaves no table. The
    -- parts of the keys are C strings.
    pub poll_serves :
        (ps : List (Poll D)) (rest : Rest D)
        → IsQsort qsort
        → Named ps
        → (mid out : Rest D) × (rest_run qsort rest (poll_begin ∷ events ps) ≡ some mid)
          × (mid.current ≡ rest.current)
          × (rest_run qsort mid (poll_done ∷ []) ≡ some out)
          × (out.build ≡ none)
          × Served ps out.current
    unfolding rest_run rest_dump swap_tables metrics_sort metrics_append with_room events all_named
        Named Served
    poll_serves [] rest q ok = (
      record rest { build = none },
      record { current = none; build = none },
      refl,
      refl,
      refl,
      refl,
      refl,
    )
    poll_serves (p ∷ ps) rest q ((n1, n2, n3), ok) =
        let first : Metrics D = record { cap = 128; rows = named p ∷ [] } in
        let (m, run, rows, fits) = building ps rest.current first ok (omega arith) (omega arith) in
        let (perm, order) = sorted _ m.rows q rows in
        (
          record rest { build = some m },
          record { current = some (record m { rows = qsort metrics_cmp m.rows }); build = none },
          rw (metric_of_lem p n1 n2 n3) run,
          refl,
          refl,
          refl,
          (record m { rows = qsort metrics_cmp m.rows }, refl, perm, order),
        )
