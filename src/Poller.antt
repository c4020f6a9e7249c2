-- ===== src/Poller.antt =====
-- The poller: src/poller.c and src/poller_poll.c. `W` is the world that the callbacks of the backends
-- act on. The name of the host, which the system gives, and `qsort` are parameters; the pause
-- between the epochs and the warnings are left out, and so are the keys that only they print.
pub mod Round
pub mod Visit
use optics_light.Floating.{Floating}
use optics_light.Lens.{
  Lens, Sub, LensType, OpticsRet, ok, err, busy, counter, gauge, dist, histo, quantile, lens_name,
  lens_type, optics_name_max_len, optics_dist_samples, optics_histo_buckets_max,
}
use optics_light.Lens.Counter.{lens_counter_read}
use optics_light.Lens.Gauge.{lens_gauge_read}
use optics_light.Lens.Dist.{DistValue, zero_double, lens_dist_read}
use optics_light.Lens.Histo.{HistoValue, lens_histo_read}
use optics_light.Lens.Quantile.{QuantileValue, lens_quantile_read}
use optics_light.Optics.{Optics, optics_foreach_lens, optics_epoch_inc_at, optics_get_prefix}
use optics_light.Optics.Lenses.{◌>>=◌, update}
use optics_light.Qsort.{Qsort}
use optics_light.Prelude.{
  ℕ, ◌+◌, ◌-◌, Option, none, some, List, [], ◌∷◌, ◌++◌, Bool, true, false, ltb, leb, ◌==◌,
  if◌then◌else◌, length, replicate,
}

abbrev pub poller_max_backends : ℕ
poller_max_backends = 8

-- `union optics_poll_value`, with the member that the type of the lens selects
pub data PollValue (D : Type 0) : Type 0 where
  counter_value : ℕ → PollValue D
  gauge_value : D → PollValue D
  dist_value : DistValue D → PollValue D
  histo_value : HistoValue → PollValue D
  quantile_value : QuantileValue D → PollValue D

-- `struct optics_poll`
pub record Poll (D : Type 0) : Type 0 where
  pub type : LensType
  pub host : List ℕ
  pub prefix : List ℕ
  pub key : List ℕ
  pub value : PollValue D
  pub ts : ℕ
  pub elapsed : ℕ

-- `enum optics_poll_type`, with what is handed over
pub data PollEvent (D : Type 0) : Type 0 where
  poll_begin poll_done : PollEvent D
  poll_metric : Poll D → PollEvent D

-- `struct backend`
pub record Backend (D W : Type 0) : Type 0 where
  pub ctx : ℕ
  pub cb : ℕ → PollEvent D → W → W
  pub free : Option (ℕ → W → W)

-- `struct optics_poller`; `backends_len` is the length of the list.
pub record Poller (D W : Type 0) : Type 0 where
  pub host : List ℕ
  pub backends : List (Backend D W)

-- `struct poller_poll_ctx`, less what it points to
pub record PollCtx : Type 0 where
  pub ts : ℕ
  pub elapsed : ℕ
  pub host : List ℕ
  pub prefix : List ℕ
  pub epoch : ℕ

-- The time since the last poll, and 1 where the clock stands or goes back.
unfoldable pub poll_elapsed : ℕ → ℕ → ℕ
poll_elapsed ts last_poll = if ltb last_poll ts then ts - last_poll else 1

module _ {D W : Type 0} where
  -- `hostname` gives the name of the host, and `none` where it fails.
  unfoldable pub optics_poller_alloc : Option (List ℕ) → Option (Poller D W)
  optics_poller_alloc none = none
  optics_poller_alloc (some host) = some (record { host = host; backends = [] })

  unfoldable pub free_backends : List (Backend D W) → W → W
  free_backends [] w = w
  free_backends (b ∷ bs) w = free_backends bs (elim b.free [ none ↦ w | some f ↦ f b.ctx w ])

  unfoldable pub optics_poller_free : Poller D W → W → W
  optics_poller_free poller w = free_backends poller.backends w

  unfoldable pub optics_poller_get_host : Poller D W → List ℕ
  optics_poller_get_host poller = poller.host

  unfoldable pub optics_poller_set_host : Poller D W → List ℕ → Bool × Poller D W
  optics_poller_set_host poller host =
      if leb optics_name_max_len (length host)
      then (false, poller)
      else (true, record poller { host = host })

  unfoldable pub optics_poller_backend : Poller D W → Backend D W → Bool × Poller D W
  optics_poller_backend poller backend =
      if leb poller_max_backends (length poller.backends)
      then (false, poller)
      else (true, record poller { backends = poller.backends ++ backend ∷ [] })

  -- `poller_backend_record`: every backend in order.
  unfoldable pub poller_backend_record : List (Backend D W) → PollEvent D → W → W
  poller_backend_record [] event w = w
  poller_backend_record (b ∷ bs) event w = poller_backend_record bs event (b.cb b.ctx event w)

  unfoldable pub record_all : List (Backend D W) → List (PollEvent D) → W → W
  record_all bs [] w = w
  record_all bs (e ∷ es) w = record_all bs es (poller_backend_record bs e w)

abbrev pub no_histo : HistoValue
no_histo = record {
  buckets_len = 0;
  buckets = replicate (optics_histo_buckets_max + 1) 0;
  below = 0;
  above = 0;
  counts = replicate optics_histo_buckets_max 0;
}

module _ {D : Type 0} where
  abbrev pub wrap : {A : Type 0} → (A → PollValue D) → Option A → Option (PollValue D)
  wrap f none = none
  wrap f (some a) = some (f a)

  module _ ⦃fp : Floating D⦄ where
    abbrev pub no_dist : DistValue D
    no_dist = record {
      n = 0;
      p50 = zero_double;
      p90 = zero_double;
      p99 = zero_double;
      max = zero_double;
      samples = replicate optics_dist_samples zero_double;
    }

    module _ (qsort : Qsort D) where
      -- The switch over the type of the lens: what a read returns, its value and the lens after it.
      unfoldable pub read_lens : Lens D → ℕ → OpticsRet × Option (PollValue D) × Lens D
      read_lens lens epoch = elim lens.sub [
        | counter _ ↦
            let (ret, value, lens') = lens_counter_read lens epoch in
            (ret, wrap counter_value value, lens')
        | gauge _ ↦
            let (ret, value, lens') = lens_gauge_read lens epoch in
            (ret, wrap gauge_value value, lens')
        | dist _ ↦
            let (ret, value, lens') = lens_dist_read qsort lens epoch no_dist in
            (ret, some (dist_value value), lens')
        | histo _ ↦
            let (ret, value, lens') = lens_histo_read lens epoch no_histo in
            (ret, some (histo_value value), lens')
        | quantile _ ↦
            let (ret, value, lens') = lens_quantile_read lens epoch in
            (ret, wrap quantile_value value, lens')
      ]

      -- The metrics that a read hands to the backends: one where it is ok, none where it is not.
      unfoldable pub metrics_of : PollCtx → Lens D → List (PollEvent D)
      metrics_of ctx lens =
          let r = read_lens lens ctx.epoch in
          elim r.0 [
            | ok ↦ elim r.1 [
              | none ↦ []
              | some value ↦
                  poll_metric (record {
                    type = lens_type lens;
                    host = ctx.host;
                    prefix = ctx.prefix;
                    key = lens_name lens;
                    value = value;
                    ts = ctx.ts;
                    elapsed = ctx.elapsed;
                  })
                  ∷ []
            ]
            | _ ↦ []
          ]

      module _ {T W : Type 0} (poller : Poller D W) where
        unfoldable pub poller_poll_lens :
            PollCtx → Optics D T → W → ℕ → Option (OpticsRet × Optics D T × W)
        poller_poll_lens ctx o w p = do
          lens ← o.heap p
          some (
            ok,
            record o { heap = update o.heap p (some (read_lens lens ctx.epoch).2) },
            record_all poller.backends (metrics_of ctx lens) w,
          )

        -- `fuel` bounds the length of the list of lenses.
        unfoldable pub poller_poll_optics : ℕ → Optics D T → ℕ → ℕ → ℕ → W → Option (Optics D T × W)
        poller_poll_optics fuel o ts last_poll epoch w = do
          r ←
              optics_foreach_lens
                (poller_poll_lens (record {
                  ts = ts;
                  elapsed = poll_elapsed ts last_poll;
                  host = optics_poller_get_host poller;
                  prefix = optics_get_prefix o;
                  epoch = epoch;
                }))
                fuel o w
          some (r.1, r.2)

        unfoldable pub optics_poller_poll_at : ℕ → Optics D T → ℕ → W → Option (Optics D T × W)
        optics_poller_poll_at fuel o ts w = do
          r ← optics_epoch_inc_at o ts
          s ←
              poller_poll_optics fuel r.2 ts r.1 r.0
                (poller_backend_record poller.backends poll_begin w)
          some (s.0, poller_backend_record poller.backends poll_done s.1)
