-- ===== src/Rest/Get/Json.antt =====
-- The JSON that the REST backend writes.
use mathlib.Core.Path.{subst}
use optics_light.Buffer.{Buffer, Heap, buffer_printf}
use optics_light.Buffer.Content.{Holds, buffer_put-Holds, buffer_printf-Holds}
use optics_light.Lens.Dist.{DistValue}
use optics_light.Lens.Histo.{HistoValue}
use optics_light.Lens.Quantile.{QuantileValue}
use optics_light.Poller.{
  PollValue, counter_value, gauge_value, dist_value, histo_value, quantile_value,
}
use optics_light.Rest.{Metric}
use optics_light.Rest.Get.{
  Prints, bucket_text, counter_text, gauge_text, dist_text, histo_text, quantile_text,
  write_buckets, write_counter,
}
use optics_light.Prelude.{
  ℕ, zero, suc, ◌+◌, ◌-◌, ◌≡◌, refl, ap, ◌∙◌, some, List, [], ◌∷◌, ◌++◌, get_or, append_assoc,
  append-nil,
}

append_three : (a b c d : List ℕ) → ((a ++ b) ++ c) ++ d ≡ a ++ (b ++ (c ++ d))
append_three a b c d = simp append_assoc refl

-- The values of JSON that occur: numbers by their text, and objects.
mutual
  pub data Json : Type 0 where
    number : List ℕ → Json
    object : Members → Json

  pub data Members : Type 0 where
    empty : Members
    member : List ℕ → Json → Members → Members

unfoldable mutual
  pub print : Json → List ℕ
  print (number text) = text
  print (object members) = b'{' ∷ print_members members ++ b'}' ∷ []

  pub print_members : Members → List ℕ
  print_members empty = []
  print_members (member key value more) = 34 ∷ key ++ (34 ∷ b':' ∷ print value ++ print_more more)

  -- The members after the first.
  pub print_more : Members → List ℕ
  print_more empty = []
  print_more (member key value more) =
      b',' ∷ 34 ∷ key ++ (34 ∷ b':' ∷ print value ++ print_more more)

module _ {D : Type 0} (prints : Prints D) where
  unfoldable pub buckets_json : HistoValue → ℕ → ℕ → Members
  buckets_json histo zero i = empty
  buckets_json histo (suc n) i =
      member
        (b'b' ∷ b'u' ∷ b'c' ∷ b'k' ∷ b'e' ∷ b't' ∷ b'_' ∷ prints.u64 (get_or histo.buckets i 0)
          ++ (b'-' ∷ prints.u64 (get_or histo.buckets (i + 1) 0)))
        (number (prints.u64 (get_or histo.counts i 0))) (buckets_json histo n (i + 1))

  -- The two counts outside the buckets of a histogram stand under each other's names.
  unfoldable pub value_json : PollValue D → Json
  value_json (counter_value v) = number (prints.u64 v)
  value_json (gauge_value v) = number (prints.g v)
  value_json (dist_value dist) = object (
      member (b'p' ∷ b'5' ∷ b'0' ∷ []) (number (prints.g dist.p50)) (
        member (b'p' ∷ b'9' ∷ b'0' ∷ []) (number (prints.g dist.p90)) (
          member (b'p' ∷ b'9' ∷ b'9' ∷ []) (number (prints.g dist.p99)) (
            member (b'm' ∷ b'a' ∷ b'x' ∷ []) (number (prints.g dist.max)) (
              member (b'c' ∷ b'o' ∷ b'u' ∷ b'n' ∷ b't' ∷ []) (number (prints.u64 dist.n)) empty)))))
  value_json (histo_value histo) = object (
      member (b'b' ∷ b'e' ∷ b'l' ∷ b'o' ∷ b'w' ∷ []) (number (prints.u64 histo.above)) (
        member (b'a' ∷ b'b' ∷ b'o' ∷ b'v' ∷ b'e' ∷ []) (number (prints.u64 histo.below))
          (buckets_json histo (histo.buckets_len - 1) 0)))
  value_json (quantile_value quantile) = object (
      member (b'v' ∷ b'a' ∷ b'l' ∷ b'u' ∷ b'e' ∷ []) (number (prints.g quantile.sample))
        (member (b'c' ∷ b'o' ∷ b'u' ∷ b'n' ∷ b't' ∷ []) (number (prints.u64 quantile.count)) empty))

  unfoldable pub rows_json : List (Metric D) → Members
  rows_json [] = empty
  rows_json (m ∷ ms) = member m.key (value_json m.value) (rows_json ms)

  more_bucket :
      (histo : HistoValue) (n i : ℕ)
      → bucket_text prints histo i ++ print_more (buckets_json histo n (i + 1))
        ≡ print_more (buckets_json histo (suc n) i)
  unfolding bucket_text buckets_json print_more print
  more_bucket histo n i = simp append_assoc refl

  -- A metric without the separator.
  unfoldable pub row_text : List ℕ → PollValue D → List ℕ
  row_text key value = 34 ∷ key ++ (34 ∷ b':' ∷ print (value_json value))

  counter_row : (key : List ℕ) (v : ℕ) → counter_text prints key v ≡ row_text key (counter_value v)
  unfolding counter_text row_text value_json print print_members print_more
  counter_row key v = refl

  gauge_row : (key : List ℕ) (v : D) → gauge_text prints key v ≡ row_text key (gauge_value v)
  unfolding gauge_text row_text value_json print print_members print_more
  gauge_row key v = refl

  dist_row :
      (key : List ℕ) (dist : DistValue D)
      → dist_text prints key dist ≡ row_text key (dist_value dist)
  unfolding dist_text row_text value_json print print_members print_more
  dist_row key dist = simp append_assoc refl

  quantile_row :
      (key : List ℕ) (quantile : QuantileValue D)
      → quantile_text prints key quantile ≡ row_text key (quantile_value quantile)
  unfolding quantile_text row_text value_json print print_members print_more
  quantile_row key quantile = simp append_assoc refl

  histo_row :
      (key : List ℕ) (histo : HistoValue)
      → histo_text prints key histo
          ++ (print_more (buckets_json histo (histo.buckets_len - 1) 0) ++ (b'}' ∷ []))
        ≡ row_text key (histo_value histo)
  unfolding histo_text row_text value_json print print_members print_more
  histo_row key histo = simp append_assoc refl

  module _ (heap : Heap) where
    write_buckets-Holds :
        (content : List ℕ) (buffer : Buffer) (histo : HistoValue) (n i : ℕ)
        → Holds content buffer
        → (out : Buffer) × (write_buckets heap prints buffer histo n i ≡ some out)
          × Holds (content ++ print_more (buckets_json histo n i)) out
    unfolding write_buckets
    write_buckets-Holds content buffer histo zero i h =
        (buffer, refl, unfold buckets_json print_more in rw append-nil h)
    write_buckets-Holds content buffer histo (suc n) i h =
        let (b, printed, hb) =
          buffer_printf-Holds heap content (bucket_text prints histo i) buffer h in
        let (out, run, ho) =
          write_buckets-Holds (content ++ bucket_text prints histo i) b histo n (i + 1) hb in
        (
          out,
          rw printed run,
          subst (λ c. Holds c out)
              (append_assoc content (bucket_text prints histo i) _
                ∙ ap (λ t. content ++ t) (more_bucket histo n i))
              ho,
        )

    printed :
        (content text row : List ℕ) (buffer : Buffer)
        → Holds content buffer
        → text ≡ row
        → (out : Buffer) × (buffer_printf heap buffer text ≡ some out) × Holds (content ++ row) out
    printed content text row buffer h e =
        let (out, run, ho) = buffer_printf-Holds heap content text buffer h in
        (out, run, subst (λ t. Holds (content ++ t) out) e ho)

    pub write_counter-Holds :
        (content : List ℕ) (buffer : Buffer) (metric : Metric D)
        → Holds content buffer
        → (out : Buffer) × (write_counter heap prints buffer metric ≡ some out)
          × Holds (content ++ row_text metric.key metric.value) out
    unfolding write_counter
    write_counter-Holds content buffer metric h = by_value metric.value
      where
        key : List ℕ
        key = metric.key

        by_value :
            (value : PollValue D)
            → (out : Buffer) × (write_counter heap prints buffer (record metric { value = value })
                ≡ some out)
              × Holds (content ++ row_text key value) out
        by_value (counter_value v) = printed content _ _ buffer h (counter_row key v)
        by_value (gauge_value v) = printed content _ _ buffer h (gauge_row key v)
        by_value (dist_value dist) = printed content _ _ buffer h (dist_row key dist)
        by_value (quantile_value quantile) =
            printed content _ _ buffer h (quantile_row key quantile)
        by_value (histo_value histo) =
            let (b, first, hb) =
              buffer_printf-Holds heap content (histo_text prints key histo) buffer h in
            let (c, loop, hc) =
              write_buckets-Holds (content ++ histo_text prints key histo) b histo
                (histo.buckets_len - 1) 0 hb in
            let (out, last, ho) = buffer_put-Holds heap _ b'}' c hc in
            (
              out,
              rw (first, loop) last,
              subst (λ t. Holds t out)
                  (append_three content _ _ _ ∙ ap (λ t. content ++ t) (histo_row key histo)) ho,
            )
