-- ===== src/Normalize/Calls.antt =====
-- What the callback is called with.
use optics_light.Floating.{Floating}
use optics_light.Key.{Key, empty_key, optics_key_push, optics_key_pop}
use optics_light.Key.View.{Holds, Holds-c_string, joined, push-Holds, push-pop}
use optics_light.Lens.Dist.{DistValue}
use optics_light.Lens.Histo.{HistoValue}
use optics_light.Memory.{NoNil, NoNil-take, c_string}
use optics_light.Normalize.{
  emit_all, emit_under, lens_rescale, dist_entries, lens_dist_normalize, bucket_entries,
  histo_entries, lens_histo_normalize,
}
use optics_light.Poller.{Poll}
use optics_light.Prelude.{
  ℕ, zero, suc, ◌+◌, ◌-◌, ◌≡◌, refl, ap, ◌∙◌, Option, some, List, [], ◌∷◌, Bool, true, false,
  length, replicate, take, get_or, arith,
}

empty_key-Holds : Holds [] empty_key
empty_key-Holds = record {
  rest = replicate 255 0;
  bytes = refl;
  len = refl;
  size = refl;
  no_nil = tt;
}

module _ {D W : Type 0} (cb : ℕ → List ℕ → D → W → Bool × W) where
  -- The suffixes are C strings.
  unfoldable pub Suffixes : List (List ℕ × D) → Type 0
  Suffixes [] = Unit {0}
  Suffixes ((suffix, value) ∷ es) = NoNil suffix × Suffixes es

  -- Calls with each suffix behind the name `s`, until one returns false.
  unfoldable pub call_all : ℕ → List ℕ → List (List ℕ × D) → W → Bool × W
  call_all ts s [] w = (true, w)
  call_all ts s ((suffix, value) ∷ es) w =
      let c = cb ts (joined s suffix) value w in
      elim c.0 [ true ↦ call_all ts s es c.1 | false ↦ (false, c.1) ]

  push_then_pop :
      (s suffix : List ℕ) (key : Key)
      → Holds s key
      → NoNil suffix
      → (out back : Key) × (optics_key_push key suffix ≡ some (length s, out))
        × (c_string out.bytes ≡ joined s suffix)
        × (optics_key_pop out (length s) ≡ some back)
        × Holds s back
  push_then_pop s suffix key h ok =
      let (out, push, held) = push-Holds s suffix key h ok in
      let (out', back, push', pop, restored) = push-pop s suffix key h ok in
      let same : out' ≡ out = ground arith in
      (out, back, push, Holds-c_string _ out held, rw (← same) pop, restored)

  -- What follows a call.
  abbrev emit_next : ℕ → Key → List (List ℕ × D) → Bool × W → Option (Bool × W)
  emit_next ts back es c = elim c.0 [
    | true ↦ emit_all cb ts back es c.1
    | false ↦ some (false, c.1)
  ]

  abbrev call_next : ℕ → List ℕ → List (List ℕ × D) → Bool × W → Bool × W
  call_next ts s es c = elim c.0 [ true ↦ call_all ts s es c.1 | false ↦ (false, c.1) ]

  next_lem :
      (ts : ℕ) (s : List ℕ) (back : Key) (es : List (List ℕ × D)) (c : Bool × W)
      → ((w : W) → emit_all cb ts back es w ≡ some (call_all ts s es w))
      → emit_next ts back es c ≡ some (call_next ts s es c)
  next_lem ts s back es (true, w) ih = ih w
  next_lem ts s back es (false, w) ih = refl

  emit_step :
      (ts n : ℕ) (key out back : Key) (suffix : List ℕ) (value : D) (es : List (List ℕ × D)) (w : W)
      → optics_key_push key suffix ≡ some (n, out)
      → optics_key_pop out n ≡ some back
      → emit_all cb ts key ((suffix, value) ∷ es) w
        ≡ emit_next ts back es (cb ts (c_string out.bytes) value w)
  unfolding emit_all
  emit_step ts n key out back suffix value es w push pop = rw (push, pop) refl

  -- The pushes and pops never abort, and the callback gets the name with each suffix in turn until it
  -- returns false.
  emit_all_lem :
      (es : List (List ℕ × D)) (ts : ℕ) (s : List ℕ) (key : Key) (w : W)
      → Holds s key
      → Suffixes es
      → emit_all cb ts key es w ≡ some (call_all ts s es w)
  unfolding emit_all call_all Suffixes
  emit_all_lem [] ts s key w h ok = refl
  emit_all_lem ((suffix, value) ∷ es) ts s key w h (ok, oks) =
      let (out, back, push, text, pop, restored) = push_then_pop s suffix key h ok in
      emit_step ts (length s) key out back suffix value es w push pop
      ∙ ap (λ t. emit_next ts back es (cb ts t value w)) text
      ∙ next_lem ts s back es (cb ts (joined s suffix) value w)
          (λ w'. emit_all_lem es ts s back w' restored oks)

  module _ ⦃fp : Floating D⦄ where
    -- A value per second of the poll.
    abbrev pub rate : Poll D → ℕ → D
    rate poll n = fp.div (fp.of_u64 n) (fp.of_u64 poll.elapsed)

    -- What is reported of a distribution: the suffixes and their values.
    unfoldable pub dist_report : Poll D → DistValue D → List (List ℕ × D)
    dist_report poll dist =
        (b'c' ∷ b'o' ∷ b'u' ∷ b'n' ∷ b't' ∷ [], rate poll dist.n)
        ∷ (b'p' ∷ b'5' ∷ b'0' ∷ [], dist.p50)
        ∷ (b'p' ∷ b'9' ∷ b'0' ∷ [], dist.p90)
        ∷ (b'p' ∷ b'9' ∷ b'9' ∷ [], dist.p99)
        ∷ (b'm' ∷ b'a' ∷ b'x' ∷ [], dist.max)
        ∷ []

    dist_entries_lem :
        (poll : Poll D) (dist : DistValue D) → dist_entries cb poll dist ≡ dist_report poll dist
    unfolding dist_entries dist_report lens_rescale
    dist_entries_lem poll dist = refl

    -- What is reported of a histogram: each bucket goes from one bound to the next.
    unfoldable pub bucket_report :
        (ℕ → ℕ → List ℕ) → Poll D → HistoValue → ℕ → ℕ → List (List ℕ × D)
    bucket_report text poll histo zero i = []
    bucket_report text poll histo (suc n) i =
        let from = get_or histo.buckets i 0 in
        let to = get_or histo.buckets (i + 1) 0 in
        (take 255 (text from to), rate poll (get_or histo.counts i 0))
        ∷ bucket_report text poll histo n (i + 1)

    unfoldable pub histo_report : (ℕ → ℕ → List ℕ) → Poll D → HistoValue → List (List ℕ × D)
    histo_report text poll histo =
        (b'b' ∷ b'e' ∷ b'l' ∷ b'o' ∷ b'w' ∷ [], rate poll histo.below)
        ∷ (b'a' ∷ b'b' ∷ b'o' ∷ b'v' ∷ b'e' ∷ [], rate poll histo.above)
        ∷ bucket_report text poll histo (histo.buckets_len - 1) 0

    bucket_entries_lem :
        (text : ℕ → ℕ → List ℕ) (poll : Poll D) (histo : HistoValue) (n i : ℕ)
        → bucket_entries cb text poll histo n i ≡ bucket_report text poll histo n i
    unfolding bucket_entries bucket_report lens_rescale
    bucket_entries_lem text poll histo zero i = refl
    bucket_entries_lem text poll histo (suc n) i =
        ap
          (λ r.
            (
              take 255 (text (get_or histo.buckets i 0) (get_or histo.buckets (i + 1) 0)),
              rate poll (get_or histo.counts i 0),
            )
            ∷ r)
          (bucket_entries_lem text poll histo n (i + 1))

    histo_entries_lem :
        (text : ℕ → ℕ → List ℕ) (poll : Poll D) (histo : HistoValue)
        → histo_entries cb text poll histo ≡ histo_report text poll histo
    unfolding histo_entries histo_report lens_rescale
    histo_entries_lem text poll histo =
        rw (bucket_entries_lem text poll histo (histo.buckets_len - 1) 0) refl

    -- For a lens whose name is a C string, `lens_dist_normalize` never aborts: the callback gets the
    -- number of values divided by the elapsed time under the name with `count`, p50 under `p50`, p90
    -- under `p90`, p99 under `p99` and the largest value under `max`, in this order and with the time
    -- of the poll, until it returns false.
    pub dist_normalize_calls :
        (poll : Poll D) (dist : DistValue D) (w : W)
        → NoNil poll.key
        → lens_dist_normalize cb poll dist w
          ≡ some (call_all poll.ts (joined [] poll.key) (dist_report poll dist) w)
    unfolding lens_dist_normalize emit_under dist_report Suffixes
    dist_normalize_calls poll dist w ok =
        let (key, push, held) = push-Holds [] poll.key empty_key empty_key-Holds ok in
        rw (push, dist_entries_lem poll dist)
          (emit_all_lem (dist_report poll dist) poll.ts _ key w held (
            (omega arith, (omega arith, (omega arith, (omega arith, (omega arith, tt))))),
            (
              (omega arith, (omega arith, (omega arith, tt))),
              (
                (omega arith, (omega arith, (omega arith, tt))),
                (
                  (omega arith, (omega arith, (omega arith, tt))),
                  ((omega arith, (omega arith, (omega arith, tt))), tt),
                ),
              ),
            ),
          ))

    bucket-Suffixes :
        (bucket_text : ℕ → ℕ → List ℕ) (poll : Poll D) (histo : HistoValue) (n i : ℕ)
        → ((a b : ℕ) → NoNil (bucket_text a b))
        → Suffixes (bucket_report bucket_text poll histo n i)
    unfolding bucket_report Suffixes
    bucket-Suffixes bucket_text poll histo zero i ok = tt
    bucket-Suffixes bucket_text poll histo (suc n) i ok =
        (NoNil-take 255 _ (ok _ _), bucket-Suffixes bucket_text poll histo n (i + 1) ok)

    -- So does a histogram, with the counts below and above its range and that of each bucket.
    pub histo_normalize_calls :
        (bucket_text : ℕ → ℕ → List ℕ) (poll : Poll D) (histo : HistoValue) (w : W)
        → NoNil poll.key
        → ((a b : ℕ) → NoNil (bucket_text a b))
        → lens_histo_normalize cb bucket_text poll histo w
          ≡ some (call_all poll.ts (joined [] poll.key) (histo_report bucket_text poll histo) w)
    unfolding lens_histo_normalize emit_under histo_report Suffixes
    histo_normalize_calls bucket_text poll histo w ok texts =
        let (key, push, held) = push-Holds [] poll.key empty_key empty_key-Holds ok in
        rw (push, histo_entries_lem bucket_text poll histo)
          (emit_all_lem (histo_report bucket_text poll histo) poll.ts _ key w held (
            (omega arith, (omega arith, (omega arith, (omega arith, (omega arith, tt))))),
            (
              (omega arith, (omega arith, (omega arith, (omega arith, (omega arith, tt))))),
              bucket-Suffixes bucket_text poll histo (histo.buckets_len - 1) 0 texts,
            ),
          ))
