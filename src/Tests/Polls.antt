-- ===== src/Tests/Polls.antt =====
-- The poller and its backends.
use optics_light.Carbon.{Carbon, Answers, Effect, negative, fd, new_carbon, send_all}
use optics_light.Buffer.{Heap as Cells}
use optics_light.Carbon.Dump.{Wire, carbon_dump}
use optics_light.Carbon.Dump.Lines.{Sent, outputs, carbon_dump-Sent}
use optics_light.Rest.Get.{Prints}
use optics_light.Poller.{poll_metric, dist_value}
use optics_light.Prelude.{replicate, length-replicate}
use optics_light.Carbon.Attempts.{attempts, one_attempt}
use optics_light.Htable.{Htable, empty_htable}
use optics_light.Lens.{Lens, Sub, counter, gauge, counter_type}
use optics_light.Optics.{Optics, optics_epoch, optics_push_lens, optics_remove_lens}
use optics_light.Optics.Listed.{push_lens-Chain, remove_lens-Chain}
use optics_light.Optics.Chain.{Chain}
use optics_light.Optics.Defer.{among, Live}
use optics_light.Optics.Lenses.{Heap}
use optics_light.Poller.{
  Poller, Poll, poll_begin, poll_done, counter_value, record_all, poll_elapsed,
  optics_poller_poll_at,
}
use optics_light.Poller.Round.{events_of, poll_elapsed_positive, poll_at_visits}
use optics_light.Poller.Visit.{after}
use optics_light.Key.View.{joined}
use optics_light.Lens.Dist.{DistValue}
use optics_light.Normalize.{lens_dist_normalize}
use optics_light.Normalize.Calls.{call_all, dist_report, dist_normalize_calls}
use optics_light.Qsort.{Qsort}
use optics_light.Tests.Sorting.{insertion_sort, insertion_sort-IsQsort}
use optics_light.Rest.{Metric, Rest, rest_run}
use optics_light.Rest.Table.{events, Named, Served, poll_serves}
use optics_light.Prelude.{
  ℕ, ◌+◌, ◌-◌, ◌≤◌, ◌<◌, ◌≡◌, refl, none, some, List, [], ◌∷◌, ◌++◌, Bool, ltb, true, false, ◌==◌,
  if◌then◌else◌, arith,
}
use optics_light.Tests.Double.{Double, double_floating}

poll_elapsed_positive_example : (0 < poll_elapsed 9 7) × (7 < 9 → 7 + poll_elapsed 9 7 ≡ 9)
poll_elapsed_positive_example = poll_elapsed_positive 9 7

abbrev lens_at : ℕ → ℕ → Sub Double → Lens Double
lens_at next prev sub = record {
  name = b'a' ∷ [];
  name_len = 2;
  next = next;
  prev = prev;
  sub = sub;
}

-- A counter at 10 and a gauge at 11 are in the list, and a gauge at 12 has been closed.
abbrev memory : Heap Double
memory p =
    if p == 10
    then some (lens_at 11 0 (counter (record { first = 5; second = 6 })))
    else if p == 11
    then some (lens_at 0 10 (gauge 3))
    else if p == 12
    then some (lens_at 0 0 (gauge 2))
    else none

abbrev registry : Optics Double Htable
registry = record {
  heap = memory;
  keys = empty_htable;
  lens_head = 10;
  epoch = 4;
  epoch_last_inc = 100;
  epoch_defers = record { first = []; second = 12 ∷ [] };
  prefix = b'p' ∷ [];
}

-- One backend, which counts its calls.
abbrev counting : Poller Double ℕ
counting = record {
  host = b'h' ∷ [];
  backends = record { ctx = 0; cb = λ ctx event calls. calls + 1; free = none } ∷ [];
}

abbrev in_order : Qsort Double
in_order = insertion_sort

apart_lem : (q : ℕ) → among q (10 ∷ 11 ∷ []) ≡ true → among q (12 ∷ []) ≡ false
unfolding among
apart_lem q h = ground arith

registry-Chain : Chain memory 0 (10 ∷ 11 ∷ []) 10
unfolding Chain among
registry-Chain = (
  refl,
  omega arith,
  refl,
  (
    lens_at 11 0 (counter (record { first = 5; second = 6 })),
    refl,
    refl,
    (refl, omega arith, refl, (lens_at 0 10 (gauge 3), refl, refl, refl)),
  ),
)

twelve_apart : among 12 (10 ∷ 11 ∷ []) ≡ false
unfolding among
twelve_apart = refl

push_lens-Chain_example :
    (out : Optics Double Htable) × (optics_push_lens registry 12 ≡ some out)
    × Chain out.heap 0 (12 ∷ 10 ∷ 11 ∷ []) out.lens_head
push_lens-Chain_example =
    push_lens-Chain registry (10 ∷ 11 ∷ []) 12 (lens_at 0 0 (gauge 2)) registry-Chain refl refl
      (omega arith) twelve_apart

remove_lens-Chain_example :
    (out : Optics Double Htable) × (optics_remove_lens registry 11 ≡ some out)
    × Chain out.heap 0 ((10 ∷ []) ++ []) out.lens_head
    × (out.heap 11 ≡ memory 11)
remove_lens-Chain_example = remove_lens-Chain (10 ∷ []) [] registry 11 registry-Chain

poll_at_visits_example :
    (out : Optics Double Htable) × (optics_poller_poll_at in_order counting 3 registry 110 0
      ≡ some (
        out,
        record_all counting.backends (events_of in_order counting registry 110 (10 ∷ 11 ∷ [])) 0,
      ))
    × ((q : ℕ)
        → out.heap q ≡ (
            if among q (10 ∷ 11 ∷ [])
            then after in_order (optics_epoch registry) (memory q)
            else if among q (12 ∷ [])
            then none
            else memory q))
    × (out.epoch_last_inc ≡ 110)
    × (optics_epoch out ≡ 1 - optics_epoch registry)
unfolding optics_epoch Live among
poll_at_visits_example =
    poll_at_visits in_order counting 3 110 registry 0 (10 ∷ 11 ∷ []) registry-Chain
      ((lens_at 0 0 (gauge 2), refl), refl, tt) apart_lem (omega arith)

abbrev poll_of : ℕ → Poll Double
poll_of c = record {
  type = counter_type;
  host = b'h' ∷ [];
  prefix = b'p' ∷ [];
  key = c ∷ [];
  value = counter_value 1;
  ts = 2;
  elapsed = 1;
}

abbrev two_polls : List (Poll Double)
two_polls = poll_of b'y' ∷ poll_of b'x' ∷ []

abbrev by_key : Qsort (Metric Double)
by_key = insertion_sort

abbrev unserved : Rest Double
unserved = record { current = none; build = none }

poll_serves_example :
    (mid out : Rest Double) × (rest_run by_key unserved (poll_begin ∷ events two_polls) ≡ some mid)
    × (mid.current ≡ none)
    × (rest_run by_key mid (poll_done ∷ []) ≡ some out)
    × (out.build ≡ none)
    × Served two_polls out.current
unfolding Named
poll_serves_example = poll_serves by_key two_polls unserved insertion_sort-IsQsort (
  ((omega arith, tt), (omega arith, tt), (omega arith, tt)),
  (((omega arith, tt), (omega arith, tt), (omega arith, tt)), tt),
)

abbrev broken : Answers
broken = record { connection = fd 4; takes = false }

abbrev refused : Answers
refused = record { connection = negative; takes = false }

abbrev sends : List (Answers × List ℕ)
sends = (broken, 1 ∷ []) ∷ (refused, 2 ∷ []) ∷ (broken, 3 ∷ []) ∷ []

one_attempt_example :
    (out : Carbon) × (es : List Effect) × (send_all new_carbon 7 sends ≡ some (out, es))
    × (attempts es ≤ 1)
one_attempt_example = one_attempt sends new_carbon 7

-- A callback that stops after three calls.
abbrev three_calls : ℕ → List ℕ → Double → ℕ → Bool × ℕ
three_calls ts key value calls = (ltb calls 2, calls + 1)

abbrev some_dist : DistValue Double
some_dist = record { n = 4; p50 = some 5; p90 = some 6; p99 = some 7; max = some 8; samples = [] }

dist_normalize_calls_example :
    lens_dist_normalize three_calls (poll_of b'd') some_dist 0
    ≡ some (
        call_all three_calls 2
          (joined [] (b'd' ∷ []))
          (dist_report three_calls (poll_of b'd') some_dist)
          0)
dist_normalize_calls_example =
    dist_normalize_calls three_calls (poll_of b'd') some_dist 0 (omega arith, tt)

-- A distribution goes to a connection that breaks at the third send.
abbrev dist_poll : Poll Double
dist_poll = record (poll_of b'd') { value = dist_value some_dist }

abbrev breaks : ℕ → Answers
breaks n = record { connection = fd 4; takes = ltb n 2 }

abbrev letters : Prints Double
letters = record { u64 = λ _. b'n' ∷ []; g = λ _. b'x' ∷ [] }

abbrev blank_cells : Cells
blank_cells = record { stale = λ n. replicate n 0; length-stale = λ n. length-replicate n 0 }

abbrev idle_wire : Wire
idle_wire = record { carbon = new_carbon; sends = 0; effects = [] }

carbon_dump-Sent_example :
    (out : Wire) × (carbon_dump blank_cells letters breaks
        (λ _ _. [])
        (poll_metric dist_poll)
        idle_wire
      ≡ some out)
    × Sent blank_cells letters breaks dist_poll idle_wire 2
        (outputs blank_cells letters breaks dist_poll (λ _ _. []) (dist_value some_dist))
        out
carbon_dump-Sent_example =
    carbon_dump-Sent blank_cells letters breaks dist_poll (λ _ _. []) idle_wire (omega arith, tt)
      (λ _ _. tt)
