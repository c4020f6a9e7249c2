-- ===== src/Rest/Get.antt =====
-- The REST backend's answer to a request: `write_counter` and `rest_get` of src/backend_rest.c. What
-- `printf` makes of a number is a parameter, and the lock is held for one step.
pub mod Json
pub mod Answer
use optics_light.Buffer.{Buffer, Heap, empty_buffer, buffer_put, buffer_printf}
use optics_light.Crest.Resp.{CrestResp, crest_resp_add_header, crest_resp_write}
use optics_light.Crest.Service.{crest_ok}
use optics_light.Lens.Dist.{DistValue}
use optics_light.Lens.Histo.{HistoValue}
use optics_light.Lens.Quantile.{QuantileValue}
use optics_light.Optics.Lenses.{◌>>=◌}
use optics_light.Poller.{
  PollValue, counter_value, gauge_value, dist_value, histo_value, quantile_value,
}
use optics_light.Rest.{Metric, Metrics, Rest}
use optics_light.Prelude.{
  ℕ, zero, suc, ◌+◌, ◌-◌, Option, none, some, List, [], ◌∷◌, ◌++◌, get_or, take, ltb, if◌then◌else◌,
}

-- The texts of `%zu`, `%lu` and PRIu64, and that of `%g`.
pub record Prints (D : Type 0) : Type 0 where
  pub u64 : ℕ → List ℕ
  pub g : D → List ℕ

-- `if (rest->current)`, with the metrics of the loop
abbrev pub current_rows : {D : Type 0} → Rest D → List (Metric D)
current_rows rest = elim rest.current [ none ↦ [] | some m ↦ m.rows ]

-- What the formats print.
module _ {D : Type 0} (prints : Prints D) where
  unfoldable pub bucket_text : HistoValue → ℕ → List ℕ
  bucket_text histo i =
      (b','
          ∷ 34
          ∷ b'b'
          ∷ b'u'
          ∷ b'c'
          ∷ b'k'
          ∷ b'e'
          ∷ b't'
          ∷ b'_'
          ∷ prints.u64 (get_or histo.buckets i 0)
        ++ (b'-' ∷ prints.u64 (get_or histo.buckets (i + 1) 0)
            ++ (34 ∷ b':' ∷ prints.u64 (get_or histo.counts i 0))))

  unfoldable pub counter_text : List ℕ → ℕ → List ℕ
  counter_text key v = (34 ∷ key ++ (34 ∷ b':' ∷ prints.u64 v))

  unfoldable pub gauge_text : List ℕ → D → List ℕ
  gauge_text key v = (34 ∷ key ++ (34 ∷ b':' ∷ prints.g v))

  unfoldable pub dist_text : List ℕ → DistValue D → List ℕ
  dist_text key dist =
      (34 ∷ key
        ++ (34 ∷ b':' ∷ b'{' ∷ 34 ∷ b'p' ∷ b'5' ∷ b'0' ∷ 34 ∷ b':' ∷ prints.g dist.p50
            ++ (b',' ∷ 34 ∷ b'p' ∷ b'9' ∷ b'0' ∷ 34 ∷ b':' ∷ prints.g dist.p90
                ++ (b',' ∷ 34 ∷ b'p' ∷ b'9' ∷ b'9' ∷ 34 ∷ b':' ∷ prints.g dist.p99
                    ++ (b',' ∷ 34 ∷ b'm' ∷ b'a' ∷ b'x' ∷ 34 ∷ b':' ∷ prints.g dist.max
                        ++ (b','
                              ∷ 34
                              ∷ b'c'
                              ∷ b'o'
                              ∷ b'u'
                              ∷ b'n'
                              ∷ b't'
                              ∷ 34
                              ∷ b':'
                              ∷ prints.u64 dist.n
                            ++ (b'}' ∷ [])))))))

  unfoldable pub histo_text : List ℕ → HistoValue → List ℕ
  histo_text key histo =
      (34 ∷ key
        ++ (34
              ∷ b':'
              ∷ b'{'
              ∷ 34
              ∷ b'b'
              ∷ b'e'
              ∷ b'l'
              ∷ b'o'
              ∷ b'w'
              ∷ 34
              ∷ b':'
              ∷ prints.u64 histo.above
            ++ (b',' ∷ 34 ∷ b'a' ∷ b'b' ∷ b'o' ∷ b'v' ∷ b'e' ∷ 34 ∷ b':' ∷ prints.u64 histo.below)))

  unfoldable pub quantile_text : List ℕ → QuantileValue D → List ℕ
  quantile_text key quantile =
      (34 ∷ key
        ++ (34
              ∷ b':'
              ∷ b'{'
              ∷ 34
              ∷ b'v'
              ∷ b'a'
              ∷ b'l'
              ∷ b'u'
              ∷ b'e'
              ∷ 34
              ∷ b':'
              ∷ prints.g quantile.sample
            ++ (b',' ∷ 34 ∷ b'c' ∷ b'o' ∷ b'u' ∷ b'n' ∷ b't' ∷ 34 ∷ b':' ∷ prints.u64 quantile.count
                ++ (b'}' ∷ []))))

module _ {D : Type 0} (heap : Heap) (prints : Prints D) where
  -- The loop over the buckets from the `i`-th on, `n` of them.
  unfoldable pub write_buckets : Buffer → HistoValue → ℕ → ℕ → Option Buffer
  write_buckets buffer histo zero i = some buffer
  write_buckets buffer histo (suc n) i = do
    b ← buffer_printf heap buffer (bucket_text prints histo i)
    write_buckets b histo n (i + 1)

  -- A histogram has at least one bound. The value knows its type.
  unfoldable pub write_counter : Buffer → Metric D → Option Buffer
  write_counter buffer metric = elim metric.value [
    | counter_value v ↦ buffer_printf heap buffer (counter_text prints metric.key v)
    | gauge_value v ↦ buffer_printf heap buffer (gauge_text prints metric.key v)
    | dist_value dist ↦ buffer_printf heap buffer (dist_text prints metric.key dist)
    | histo_value histo ↦ do
      b ← buffer_printf heap buffer (histo_text prints metric.key histo)
      c ← write_buckets b histo (histo.buckets_len - 1) 0
      buffer_put heap c b'}'
    | quantile_value quantile ↦ buffer_printf heap buffer (quantile_text prints metric.key quantile)
  ]

  -- The loop over the metrics from the `i`-th on.
  unfoldable pub write_metrics : Buffer → ℕ → List (Metric D) → Option Buffer
  write_metrics buffer i [] = some buffer
  write_metrics buffer i (m ∷ ms) = do
    b ← (if ltb 0 i then buffer_put heap buffer b',' else some buffer)
    c ← write_counter b m
    write_metrics c (i + 1) ms

  -- `fuel` and `address` are for the header.
  unfoldable pub rest_get : ℕ → ℕ → Rest D → CrestResp → Option (ℕ × CrestResp)
  rest_get fuel address rest resp = do
    opened ← buffer_put heap empty_buffer b'{'
    filled ← write_metrics opened 0 (current_rows rest)
    closed ← buffer_put heap filled b'}'
    headed ←
        crest_resp_add_header fuel address resp
          (b'c' ∷ b'o' ∷ b'n' ∷ b't' ∷ b'e' ∷ b'n' ∷ b't' ∷ b'-' ∷ b't' ∷ b'y' ∷ b'p' ∷ b'e' ∷ [])
          (b't' ∷ b'e' ∷ b'x' ∷ b't' ∷ b'/' ∷ b'p' ∷ b'l' ∷ b'a' ∷ b'i' ∷ b'n' ∷ [])
    written ← crest_resp_write heap headed (take closed.len closed.cells)
    some (crest_ok, written)
