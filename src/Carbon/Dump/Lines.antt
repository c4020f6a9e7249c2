-- ===== src/Carbon/Dump/Lines.antt =====
-- What the Carbon backend sends for a metric.
use optics_light.Buffer.{Heap, empty_buffer}
use optics_light.Buffer.Content.{Holds-empty, Holds-content, buffer_printf-Holds}
use optics_light.Carbon.{Carbon, Answers, Effect, carbon_send, send_all}
use optics_light.Carbon.Attempts.{send-attempts}
use optics_light.Carbon.Dump.{Wire, send_line, carbon_dump_normalized, carbon_dump}
use optics_light.Floating.{Floating}
use optics_light.Key.View.{joined}
use optics_light.Memory.{NoNil}
use optics_light.Normalize.{
  lens_rescale, optics_poll_normalize, lens_dist_normalize, lens_histo_normalize,
}
use optics_light.Normalize.Calls.{
  call_all, dist_report, histo_report, dist_normalize_calls, histo_normalize_calls,
}
use optics_light.Poller.{
  Poll, poll_metric, PollValue, counter_value, gauge_value, dist_value, histo_value, quantile_value,
}
use optics_light.Rest.Get.{Prints}
use optics_light.Prelude.{
  ℕ, ◌+◌, ◌≡◌, refl, ap, sym, ◌∙◌, Option, some, List, [], ◌∷◌, ◌++◌, Bool, true, take, length,
  arith, append_assoc, append-nil,
}

unfoldable pub numbered : (ℕ → Answers) → ℕ → List (List ℕ) → List (Answers × List ℕ)
numbered answers i [] = []
numbered answers i (line ∷ lines) = (answers i, line) ∷ numbered answers (i + 1) lines

-- The names with each suffix behind `s`.
unfoldable pub under : {D : Type 0} → List ℕ → List (List ℕ × D) → List (List ℕ × D)
under s [] = []
under s ((suffix, value) ∷ es) = (joined s suffix, value) ∷ under s es

module _ {D : Type 0} (heap : Heap) (prints : Prints D) (answers : ℕ → Answers)
    (poll : Poll D) where
  -- `prefix.host.key value time`
  unfoldable pub line_text : ℕ → List ℕ → D → List ℕ
  line_text ts key value =
      poll.prefix
      ++ (b'.' ∷ poll.host
          ++ (b'.' ∷ key ++ (b' ' ∷ prints.g value ++ (b' ' ∷ prints.u64 ts ++ (10 ∷ [])))))

  unfoldable pub lines_of : ℕ → List (List ℕ × D) → List (List ℕ)
  lines_of ts [] = []
  lines_of ts ((key, value) ∷ es) = line_text ts key value ∷ lines_of ts es

  -- The calls of `carbon_send` with the lines, in their order, and what they do.
  pub record Sent (wire : Wire) (ts : ℕ) (es : List (List ℕ × D)) (out : Wire) : Type 0 where
    pub effects : List Effect
    pub sends :
        send_all wire.carbon ts (numbered answers wire.sends (lines_of ts es))
        ≡ some (out.carbon, effects)
    pub count : out.sends ≡ wire.sends + length es
    pub after : out.effects ≡ wire.effects ++ effects

  send_line_lem :
      (ts : ℕ) (key : List ℕ) (value : D) (wire : Wire)
      → (c : Carbon) × (fx : List Effect) × (carbon_send wire.carbon
            (answers wire.sends)
            (line_text ts key value)
            ts
          ≡ some (c, fx))
        × (send_line heap prints answers poll ts key value wire
            ≡ some (record { carbon = c; sends = wire.sends + 1; effects = wire.effects ++ fx }))
  unfolding send_line
  send_line_lem ts key value wire =
      let (c, fx, run, _) =
        send-attempts wire.carbon (answers wire.sends) (line_text ts key value) ts in
      let (a, first, ha) =
        buffer_printf-Holds heap [] (poll.prefix ++ (b'.' ∷ poll.host)) empty_buffer Holds-empty in
      let (b, second, hb) =
        buffer_printf-Holds heap (poll.prefix ++ (b'.' ∷ poll.host))
          (b'.' ∷ key ++ (b' ' ∷ prints.g value ++ (b' ' ∷ prints.u64 ts ++ (10 ∷ [])))) a ha in
      let bytes : take b.len b.cells ≡ line_text ts key value =
        Holds-content _ b hb
        ∙ (unfold line_text in append_assoc poll.prefix (b'.' ∷ poll.host) _) in
      (c, fx, run, rw (first, second, bytes, run) refl)

  -- Nothing sent, and one line before others.
  Sent-nil : (ts : ℕ) (wire : Wire) → Sent wire ts [] wire
  Sent-nil ts wire = record {
    effects = [];
    sends = unfold send_all lines_of numbered in refl;
    count = omega arith;
    after = sym (append-nil wire.effects);
  }

  Sent-cons :
      (ts : ℕ) (key : List ℕ) (value : D) (es : List (List ℕ × D)) (wire out : Wire) (c : Carbon)
      (fx : List Effect)
      → carbon_send wire.carbon (answers wire.sends) (line_text ts key value) ts ≡ some (c, fx)
      → Sent (record { carbon = c; sends = wire.sends + 1; effects = wire.effects ++ fx }) ts es out
      → Sent wire ts ((key, value) ∷ es) out
  Sent-cons ts key value es wire out c fx run rest = record {
    effects = fx ++ rest.effects;
    sends = unfold send_all lines_of numbered in rw (run, rest.sends) refl;
    count = omega (arith, rest.count);
    after = rest.after ∙ append_assoc wire.effects fx rest.effects;
  }

  call_all-Sent :
      (es : List (List ℕ × D)) (ts : ℕ) (s : List ℕ) (wire : Wire)
      → (out : Wire) × (call_all
            (carbon_dump_normalized heap prints answers poll)
            ts
            s
            es
            (some wire)
          ≡ (true, some out))
        × Sent wire ts (under s es) out
  unfolding call_all carbon_dump_normalized under
  call_all-Sent [] ts s wire = (wire, refl, Sent-nil ts wire)
  call_all-Sent ((suffix, value) ∷ es) ts s wire =
      let (c, fx, run, line) = send_line_lem ts (joined s suffix) value wire in
      let next : Wire = record {
        carbon = c;
        sends = wire.sends + 1;
        effects = wire.effects ++ fx;
      } in
      let (out, calls, sent) = call_all-Sent es ts s next in
      (out, rw line calls, Sent-cons ts (joined s suffix) value (under s es) wire out c fx run sent)

  module _ ⦃fp : Floating D⦄ where
    abbrev cb : ℕ → List ℕ → D → Option Wire → Bool × Option Wire
    cb = carbon_dump_normalized heap prints answers poll

    -- The names and values that are reported of a metric.
    unfoldable pub outputs : (ℕ → ℕ → List ℕ) → PollValue D → List (List ℕ × D)
    outputs bucket_text (counter_value v) =
        (poll.key, fp.div (fp.of_i64 v) (fp.of_u64 poll.elapsed)) ∷ []
    outputs bucket_text (gauge_value v) = (poll.key, v) ∷ []
    outputs bucket_text (quantile_value q) = (poll.key, q.sample) ∷ []
    outputs bucket_text (dist_value dist) = under (joined [] poll.key) (dist_report cb poll dist)
    outputs bucket_text (histo_value histo) =
        under (joined [] poll.key) (histo_report cb bucket_text poll histo)

    one_line :
        (key : List ℕ) (value : D) (wire : Wire)
        → (out : Wire) × (cb poll.ts key value (some wire) ≡ (true, some out))
          × Sent wire poll.ts ((key, value) ∷ []) out
    unfolding carbon_dump_normalized
    one_line key value wire =
        let (c, fx, run, line) = send_line_lem poll.ts key value wire in
        let next : Wire = record {
          carbon = c;
          sends = wire.sends + 1;
          effects = wire.effects ++ fx;
        } in
        (
          next,
          rw line refl,
          Sent-cons poll.ts key value [] wire next c fx run (Sent-nil poll.ts next),
        )

    -- `optics_poll_normalize` on a value of the metric.
    of_value : (ℕ → ℕ → List ℕ) → Option Wire → PollValue D → Option (Bool × Option Wire)
    of_value bucket_text w (counter_value v) =
        some (cb poll.ts poll.key (lens_rescale cb poll (fp.of_i64 v)) w)
    of_value bucket_text w (gauge_value v) = some (cb poll.ts poll.key v w)
    of_value bucket_text w (quantile_value q) = some (cb poll.ts poll.key q.sample w)
    of_value bucket_text w (dist_value dist) = lens_dist_normalize cb poll dist w
    of_value bucket_text w (histo_value histo) = lens_histo_normalize cb bucket_text poll histo w

    normalize_of :
        (bucket_text : ℕ → ℕ → List ℕ) (w : Option Wire)
        → optics_poll_normalize cb bucket_text poll w ≡ of_value bucket_text w poll.value
    unfolding optics_poll_normalize of_value
    normalize_of bucket_text w = by_value poll.value
      where
        by_value :
            (value : PollValue D)
            → (elim value [
              | counter_value v ↦ some (cb poll.ts poll.key (lens_rescale cb poll (fp.of_i64 v)) w)
              | gauge_value v ↦ some (cb poll.ts poll.key v w)
              | dist_value dist ↦ lens_dist_normalize cb poll dist w
              | histo_value histo ↦ lens_histo_normalize cb bucket_text poll histo w
              | quantile_value q ↦ some (cb poll.ts poll.key q.sample w)
            ])
              ≡ of_value bucket_text w value
        by_value (counter_value v) = refl
        by_value (gauge_value v) = refl
        by_value (dist_value dist) = refl
        by_value (histo_value histo) = refl
        by_value (quantile_value q) = refl

    normalize-Sent :
        (bucket_text : ℕ → ℕ → List ℕ) (wire : Wire)
        → NoNil poll.key
        → ((a b : ℕ) → NoNil (bucket_text a b))
        → (value : PollValue D)
        → (out : Wire) × (of_value bucket_text (some wire) value ≡ some (true, some out))
          × Sent wire poll.ts (outputs bucket_text value) out
    unfolding of_value outputs lens_rescale
    normalize-Sent bucket_text wire ok texts (counter_value v) =
        let (out, run, sent) = one_line poll.key (lens_rescale cb poll (fp.of_i64 v)) wire in
        (out, ap some run, sent)
    normalize-Sent bucket_text wire ok texts (gauge_value v) =
        let (out, run, sent) = one_line poll.key v wire in (out, ap some run, sent)
    normalize-Sent bucket_text wire ok texts (quantile_value q) =
        let (out, run, sent) = one_line poll.key q.sample wire in (out, ap some run, sent)
    normalize-Sent bucket_text wire ok texts (dist_value dist) =
        let (out, run, sent) =
          call_all-Sent (dist_report cb poll dist) poll.ts (joined [] poll.key) wire in
        (out, dist_normalize_calls cb poll dist (some wire) ok ∙ ap some run, sent)
    normalize-Sent bucket_text wire ok texts (histo_value histo) =
        let (out, run, sent) =
          call_all-Sent (histo_report cb bucket_text poll histo) poll.ts (joined [] poll.key)
            wire in
        (
          out,
          histo_normalize_calls cb bucket_text poll histo (some wire) ok texts ∙ ap some run,
          sent,
        )

    -- For a metric whose name is a C string, `carbon_dump` never aborts, and it calls `carbon_send` with
    -- one line for each value of the metric, in their order: the prefix and the host, the name with the
    -- value's own suffix, the value and the time of the poll. What reaches the network is what
    -- `carbon_send` makes of these calls. A counter gives its value divided by the elapsed time, a gauge
    -- and a quantile their value, a distribution its number divided by the time (`count`), `p50`, `p90`,
    -- `p99` and `max`, a histogram the numbers divided by the time that are `below` and `above` its
    -- range and in each bucket. The texts of the buckets are C strings.
    pub carbon_dump-Sent :
        (bucket_text : ℕ → ℕ → List ℕ) (wire : Wire)
        → NoNil poll.key
        → ((a b : ℕ) → NoNil (bucket_text a b))
        → (out : Wire) × (carbon_dump heap prints answers bucket_text (poll_metric poll) wire
            ≡ some out)
          × Sent wire poll.ts (outputs bucket_text poll.value) out
    unfolding carbon_dump
    carbon_dump-Sent bucket_text wire ok texts =
        let (out, run, sent) = normalize-Sent bucket_text wire ok texts poll.value in
        (out, rw (normalize_of bucket_text (some wire) ∙ run) refl, sent)
