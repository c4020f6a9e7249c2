-- ===== src/Normalize.antt =====
-- Values for the backends: `optics_poll_normalize` of src/optics.c, `lens_rescale` of src/lens.c and the
-- functions `lens_<type>_normalize`. `W` is the world that the callback acts on, and `bucket_text` what
-- the format of a bucket prints.
pub mod Calls
use optics_light.Floating.{Floating}
use optics_light.Key.{Key, empty_key, optics_key_push, optics_key_pushf, optics_key_pop}
use optics_light.Lens.Dist.{DistValue}
use optics_light.Lens.Histo.{HistoValue}
use optics_light.Memory.{c_string}
use optics_light.Optics.Lenses.{◌>>=◌}
use optics_light.Poller.{Poll, counter_value, gauge_value, dist_value, histo_value, quantile_value}
use optics_light.Prelude.{
  ℕ, zero, suc, ◌+◌, ◌-◌, Option, none, some, List, [], ◌∷◌, Bool, true, false, get_or, take,
}

module _ {D W : Type 0} (cb : ℕ → List ℕ → D → W → Bool × W) where
  -- A push of each suffix, the callback and a pop, until a callback returns false; `none` is an abort.
  unfoldable pub emit_all : ℕ → Key → List (List ℕ × D) → W → Option (Bool × W)
  emit_all ts key [] w = some (true, w)
  emit_all ts key ((suffix, value) ∷ es) w = do
    r ← optics_key_push key suffix
    c ← some (cb ts (c_string r.1.bytes) value w)
    back ← optics_key_pop r.1 r.0
    (elim c.0 [ true ↦ emit_all ts back es c.1 | false ↦ some (false, c.1) ])

  module _ ⦃fp : Floating D⦄ where
    unfoldable pub lens_rescale : Poll D → D → D
    lens_rescale poll value = fp.div value (fp.of_u64 poll.elapsed)

    unfoldable pub dist_entries : Poll D → DistValue D → List (List ℕ × D)
    dist_entries poll dist =
        (b'c' ∷ b'o' ∷ b'u' ∷ b'n' ∷ b't' ∷ [], lens_rescale poll (fp.of_u64 dist.n))
        ∷ (b'p' ∷ b'5' ∷ b'0' ∷ [], dist.p50)
        ∷ (b'p' ∷ b'9' ∷ b'0' ∷ [], dist.p90)
        ∷ (b'p' ∷ b'9' ∷ b'9' ∷ [], dist.p99)
        ∷ (b'm' ∷ b'a' ∷ b'x' ∷ [], dist.max)
        ∷ []

    -- The buckets from the `i`-th on, `n` of them. `optics_key_pushf` cuts the text.
    unfoldable pub bucket_entries :
        (ℕ → ℕ → List ℕ) → Poll D → HistoValue → ℕ → ℕ → List (List ℕ × D)
    bucket_entries bucket_text poll histo zero i = []
    bucket_entries bucket_text poll histo (suc n) i =
        (
          take 255 (bucket_text (get_or histo.buckets i 0) (get_or histo.buckets (i + 1) 0)),
          lens_rescale poll (fp.of_u64 (get_or histo.counts i 0)),
        )
        ∷ bucket_entries bucket_text poll histo n (i + 1)

    unfoldable pub histo_entries : (ℕ → ℕ → List ℕ) → Poll D → HistoValue → List (List ℕ × D)
    histo_entries bucket_text poll histo =
        (b'b' ∷ b'e' ∷ b'l' ∷ b'o' ∷ b'w' ∷ [], lens_rescale poll (fp.of_u64 histo.below))
        ∷ (b'a' ∷ b'b' ∷ b'o' ∷ b'v' ∷ b'e' ∷ [], lens_rescale poll (fp.of_u64 histo.above))
        ∷ bucket_entries bucket_text poll histo (histo.buckets_len - 1) 0

    -- The common form of `lens_dist_normalize` and `lens_histo_normalize`.
    unfoldable pub emit_under : Poll D → List (List ℕ × D) → W → Option (Bool × W)
    emit_under poll es w = do r ← optics_key_push empty_key poll.key; emit_all poll.ts r.1 es w

    unfoldable pub lens_dist_normalize : Poll D → DistValue D → W → Option (Bool × W)
    lens_dist_normalize poll dist w = emit_under poll (dist_entries poll dist) w

    unfoldable pub lens_histo_normalize :
        (ℕ → ℕ → List ℕ) → Poll D → HistoValue → W → Option (Bool × W)
    lens_histo_normalize bucket_text poll histo w =
        emit_under poll (histo_entries bucket_text poll histo) w

    unfoldable pub optics_poll_normalize : (ℕ → ℕ → List ℕ) → Poll D → W → Option (Bool × W)
    optics_poll_normalize bucket_text poll w = elim poll.value [
      | counter_value v ↦ some (cb poll.ts poll.key (lens_rescale poll (fp.of_i64 v)) w)
      | gauge_value v ↦ some (cb poll.ts poll.key v w)
      | dist_value dist ↦ lens_dist_normalize poll dist w
      | histo_value histo ↦ lens_histo_normalize bucket_text poll histo w
      | quantile_value q ↦ some (cb poll.ts poll.key q.sample w)
    ]
