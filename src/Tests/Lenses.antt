-- ===== src/Tests/Lenses.antt =====
-- The five kinds of lenses.
use optics_light.Lens.{
  Lens, Two, both, at_epoch, counter, gauge, histo, Sub, LensHisto, HistoEpoch, DistEpoch, ok,
  counter_ptr, gauge_ptr, histo_ptr, dist_ptr,
}
use optics_light.Lens.Counter.{Event, inc, read, run}
use optics_light.Lens.Counter.Conserve.{held, recorded, counter_conserves}
use optics_light.Lens.Counter.Conserve
use optics_light.Lens.Gauge.{lens_gauge_set, lens_gauge_read, gauge_keeps}
use optics_light.Lens.Histo.{Bucket, bump, HistoValue, lens_histo_inc, lens_histo_read}
use optics_light.Lens.Histo.Buckets.{IsHisto, Falls, lens_histo_inc-nan}
use optics_light.Lens.Histo.Totals.{total, cleared, lens_histo_inc_lem, lens_histo_read_lem}
use optics_light.Lens.Histo.Totals
use optics_light.Lens.Dist.{DistValue, empty_epoch, record_epoch}
use optics_light.Lens.Dist.Reservoir.{Records, empty-Records, record_epoch-Records}
use optics_light.Prelude.{
  ℕ, ◌+◌, ◌-◌, ◌%◌, ◌^◌, ◌≡◌, ◌≢◌, refl, none, some, List, [], ◌∷◌, true, take, replicate, arith,
}
use optics_light.Tests.Double.{Double, double_floating, is_nan}

abbrev lens_of : Sub Double → Lens Double
lens_of sub = record { name = b'a' ∷ []; name_len = 2; next = 0; prev = 0; sub = sub }

abbrev first_epoch : ℕ
first_epoch = 0

abbrev second_epoch : ℕ
second_epoch = 1

program : Unit {0}
unfolding counter_ptr gauge_ptr histo_ptr dist_ptr is_nan
program = tt

abbrev a_counter : Lens Double
a_counter = lens_of (counter (record { first = 3; second = 4 }))

abbrev events : List Event
events = inc 0 5 ∷ read 1 ∷ inc 1 (2 ^ 64 - 1) ∷ read 0 ∷ []

counter_conserves_example :
    (Conserve.sum (run a_counter events).1 + held (run a_counter events).0) % 2 ^ 64
    ≡ (3 + 4 + recorded events) % 2 ^ 64
unfolding program
counter_conserves_example =
    counter_conserves events a_counter (record { first = 3; second = 4 }) refl

abbrev a_gauge : Lens Double
a_gauge = lens_of (gauge 0)

gauge_keeps_example :
    ((lens_gauge_set a_gauge 0 (some 5)).0 ≡ true)
    × (lens_gauge_read (lens_gauge_set a_gauge 0 (some 5)).1 1
        ≡ (ok, some (some 5), (lens_gauge_set a_gauge 0 (some 5)).1))
    × (lens_gauge_read (lens_gauge_read (lens_gauge_set a_gauge 0 (some 5)).1 1).2 0
        ≡ (ok, some (some 5), (lens_gauge_set a_gauge 0 (some 5)).1))
unfolding program
gauge_keeps_example = gauge_keeps a_gauge 0 (some 5) 0 1 0 refl

abbrev some_counts : HistoEpoch
some_counts = record { below = 1; above = 2; counts = 3 ∷ 4 ∷ replicate 6 0 }

abbrev a_histo : LensHisto
a_histo = record {
  epochs = both some_counts;
  buckets = 10 ∷ 20 ∷ 30 ∷ replicate 6 0;
  buckets_len = 3;
}

a_histo-IsHisto : IsHisto a_histo
a_histo-IsHisto = record {
  at_least = omega arith;
  at_most = omega arith;
  first = refl;
  second = refl;
}

lens_histo_inc_lem_example :
    (b : Bucket) × (h' : LensHisto) × (lens_histo_inc (lens_of (histo a_histo)) 0 (some 25)
      ≡ some (true, lens_of (histo h')))
    × Falls {D = Double} a_histo (some 25) b
    × (at_epoch h'.epochs 0 ≡ bump some_counts b)
    × (total (at_epoch h'.epochs 0) % 2 ^ 64 ≡ (total some_counts + 1) % 2 ^ 64)
    × (first_epoch ≡ 0 → h'.epochs.second ≡ some_counts)
    × (first_epoch ≢ 0 → h'.epochs.first ≡ some_counts)
    × (h'.buckets ≡ a_histo.buckets)
    × IsHisto h'
unfolding program
lens_histo_inc_lem_example =
    lens_histo_inc_lem (lens_of (histo a_histo)) a_histo 0 (some 25) refl a_histo-IsHisto refl

lens_histo_inc-nan_example : lens_histo_inc (lens_of (histo a_histo)) 0 none ≡ none
unfolding program
lens_histo_inc-nan_example = lens_histo_inc-nan (lens_of (histo a_histo)) a_histo 0 none refl refl

abbrev no_counts : HistoValue
no_counts = record {
  buckets_len = 0;
  buckets = replicate 9 0;
  below = 0;
  above = 0;
  counts = replicate 8 0;
}

lens_histo_read_lem_example :
    (out : HistoValue) × (h' : LensHisto) × (lens_histo_read (lens_of (histo a_histo)) 1 no_counts
      ≡ (ok, out, lens_of (histo h')))
    × (out.buckets_len ≡ 3)
    × (take 3 out.buckets ≡ 10 ∷ 20 ∷ 30 ∷ [])
    × (out.below ≡ 1)
    × (out.above ≡ 2)
    × (take 2 out.counts ≡ take 2 some_counts.counts)
    × (out.below + out.above + Totals.sum (take 2 out.counts) + total (at_epoch h'.epochs 1)
        ≡ total some_counts)
    × (at_epoch h'.epochs 1 ≡ cleared 2 some_counts)
    × (second_epoch ≡ 0 → h'.epochs.second ≡ some_counts)
    × (second_epoch ≢ 0 → h'.epochs.first ≡ some_counts)
    × IsHisto h'
unfolding program
lens_histo_read_lem_example =
    lens_histo_read_lem (lens_of (histo a_histo)) a_histo 1 no_counts refl a_histo-IsHisto refl refl
      refl

abbrev one_value : DistEpoch Double
one_value = (record_epoch empty_epoch (some 4) 1).0

record_epoch-Records_example : Records (some 4 ∷ []) one_value
record_epoch-Records_example =
    record_epoch-Records [] empty_epoch (some 4) 1 empty-Records (omega arith)

abbrev a_dist : Two (DistEpoch Double)
a_dist = record { first = one_value; second = record empty_epoch { locked = true } }

abbrev no_values : DistValue Double
no_values = record {
  n = 0;
  p50 = some 0;
  p90 = some 0;
  p99 = some 0;
  max = some 0;
  samples = replicate 200 (some 0);
}
