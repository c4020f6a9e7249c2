-- ===== src/Poller/Round.antt =====
-- A whole poll: the epoch, the lenses and the backends.
use optics_light.Floating.{Floating}
use optics_light.Lens.{ok}
use optics_light.Optics.{
  foreach_from, optics_get_prefix, Optics, optics_epoch, optics_epoch_inc, optics_epoch_inc_at,
  optics_foreach_lens,
}
use optics_light.Optics.Chain.{Chain, Chain-agree}
use optics_light.Optics.Defer.{among, Live, other, optics_epoch_inc_lem}
use optics_light.Optics.Lenses.{Heap}
use optics_light.Poller.{
  Backend, Poller, PollCtx, PollEvent, poll_begin, poll_done, record_all, poller_poll_lens,
  poller_poll_optics, optics_poller_poll_at, poll_elapsed, poller_backend_record,
  optics_poller_get_host,
}
use optics_light.Poller.Visit.{
  all_metrics, after, all_metrics-agree, record_all-append, foreach-visits,
}
use optics_light.Qsort.{Qsort}
use optics_light.Prelude.{
  ℕ, ◌+◌, ◌-◌, ◌<◌, ◌≡◌, refl, ap, sym, ◌∙◌, none, some, List, [], ◌∷◌, ◌++◌, true, false,
  if◌then◌else◌, length, arith, Bool-cases, inl, inr,
}

-- A poll always has some time behind it, all of it where the clock has moved on.
pub poll_elapsed_positive :
    (ts last_poll : ℕ)
    → (0 < poll_elapsed ts last_poll)
      × (last_poll < ts → last_poll + poll_elapsed ts last_poll ≡ ts)
unfolding poll_elapsed
poll_elapsed_positive ts last_poll = (ground arith, λ h. ground arith)

module _ {D : Type 0} ⦃fp : Floating D⦄ (qsort : Qsort D) where
  recorded :
      {W : Type 0} (bs : List (Backend D W)) (es : List (PollEvent D)) (w : W)
      → record_all bs (poll_begin ∷ (es ++ (poll_done ∷ []))) w
        ≡ poller_backend_record bs poll_done
            (record_all bs es (poller_backend_record bs poll_begin w))
  unfolding record_all
  recorded bs es w =
      record_all-append qsort bs es (poll_done ∷ []) (poller_backend_record bs poll_begin w)

  settled :
      (epoch q : ℕ) (ps qs : List ℕ) (h0 h1 h : Heap D)
      → h1 q ≡ (if among q qs then none else h0 q)
      → (among q ps ≡ true → among q qs ≡ false)
      → h q ≡ (if among q ps then after qsort epoch (h1 q) else h1 q)
      → h q ≡ (if among q ps then after qsort epoch (h0 q) else if among q qs then none else h0 q)
  settled epoch q ps qs h0 h1 h freed apart reads = elim (Bool-cases (among q ps)) [
    | inl i ↦ let same : h1 q ≡ h0 q = freed ∙ rw (apart i) refl in rw i (reads ∙ rw (i, same) refl)
    | inr i ↦ rw i (reads ∙ rw i freed)
  ]

module _ {D T : Type 0} where
  inc_at :
      (o o1 : Optics D T) (now epoch : ℕ)
      → optics_epoch_inc (record o { epoch_last_inc = now }) ≡ some (epoch, o1)
      → optics_epoch_inc_at o now ≡ some (epoch, o.epoch_last_inc, o1)
  unfolding optics_epoch_inc_at
  inc_at o o1 now epoch run = rw run refl

  module _ ⦃fp : Floating D⦄ (qsort : Qsort D) {W : Type 0} (poller : Poller D W) where
    -- What the lenses of a registry are polled with.
    abbrev pub ctx_of : Optics D T → ℕ → PollCtx
    ctx_of o ts = record {
      ts = ts;
      elapsed = poll_elapsed ts o.epoch_last_inc;
      host = poller.host;
      prefix = o.prefix;
      epoch = optics_epoch o;
    }

    -- All that the backends are handed by a poll.
    abbrev pub events_of : Optics D T → ℕ → List ℕ → List (PollEvent D)
    events_of o ts ps = poll_begin ∷ (all_metrics qsort (ctx_of o ts) o.heap ps ++ (poll_done ∷ []))

    -- The same, with the prefix that the registry has after the epoch.
    abbrev ctx_after : Optics D T → Optics D T → ℕ → PollCtx
    ctx_after o o1 ts = record (ctx_of o ts) { prefix = o1.prefix }

    round :
        (fuel ts : ℕ) (o o1 : Optics D T) (w w' : W) (h : Heap D)
        → optics_epoch_inc_at o ts ≡ some (optics_epoch o, o.epoch_last_inc, o1)
        → foreach_from
            (poller_poll_lens qsort poller (ctx_after o o1 ts))
            fuel
            o1
            (poller_backend_record poller.backends poll_begin w)
            o1.lens_head
          ≡ some (ok, record o1 { heap = h }, w')
        → optics_poller_poll_at qsort poller fuel o ts w
          ≡ some (record o1 { heap = h }, poller_backend_record poller.backends poll_done w')
    unfolding optics_poller_poll_at poller_poll_optics optics_foreach_lens optics_poller_get_host
        optics_get_prefix
    round fuel ts o o1 w w' h inc run = rw (inc, run) refl

    -- A poll returns. It hands the backends a begin, for each lens of the list in its order what a
    -- read of the epoch that ends gives, and a done; each lens is read once, the lenses that were
    -- closed an epoch before are freed, and the time is kept for the next poll. The list of lenses is
    -- sound, the lenses to be freed are in memory and not in the list, and the fuel is more than the
    -- length of the list.
    pub poll_at_visits :
        (fuel ts : ℕ) (o : Optics D T) (w : W) (ps : List ℕ)
        → Chain o.heap 0 ps o.lens_head
        → Live o.heap (other o)
        → ((q : ℕ) → among q ps ≡ true → among q (other o) ≡ false)
        → length ps < fuel
        → (out : Optics D T) × (optics_poller_poll_at qsort poller fuel o ts w
            ≡ some (out, record_all poller.backends (events_of o ts ps) w))
          × ((q : ℕ)
              → out.heap q ≡ (
                  if among q ps
                  then after qsort (optics_epoch o) (o.heap q)
                  else if among q (other o)
                  then none
                  else o.heap q))
          × (out.epoch_last_inc ≡ ts)
          × (optics_epoch out ≡ 1 - optics_epoch o)
    unfolding optics_epoch
    poll_at_visits fuel ts o w ps chain live apart lt =
        let stamped : Optics D T = record o { epoch_last_inc = ts } in
        let (o1, inc, a) = optics_epoch_inc_lem stamped live in
        let kept : (q : ℕ) → among q ps ≡ true → o1.heap q ≡ o.heap q =
          λ q i. a.freed q ∙ rw (apart q i) refl in
        let chain1 : Chain o1.heap 0 ps o1.lens_head =
          rw a.head (Chain-agree o.heap o1.heap 0 ps o.lens_head kept chain) in
        let (h, run, reads) =
          foreach-visits qsort poller (ctx_after o o1 ts) ps fuel 0 o1.lens_head o1
            (poller_backend_record poller.backends poll_begin w) chain1 lt in
        let metrics : all_metrics qsort (ctx_after o o1 ts) o1.heap ps
            ≡ all_metrics qsort (ctx_of o ts) o.heap ps =
          all_metrics-agree qsort (ctx_after o o1 ts) o.heap o1.heap ps kept
          ∙ ap (λ r. all_metrics qsort (record (ctx_of o ts) { prefix = r }) o.heap ps)
              a.same_prefix in
        let start = poller_backend_record poller.backends poll_begin w in
        let finish = λ (es : List (PollEvent D)).
          poller_backend_record poller.backends poll_done (record_all poller.backends es start) in
        (
          record o1 { heap = h },
          round fuel ts o o1 w _ h (inc_at o o1 ts (optics_epoch o) inc) run
              ∙ ap (λ v. some (record o1 { heap = h }, v))
                  (ap finish metrics
                    ∙ sym (
                        recorded qsort poller.backends (all_metrics qsort (ctx_of o ts) o.heap ps)
                          w)),
          λ q.
              settled qsort (optics_epoch o) q ps (other o) o.heap o1.heap h (a.freed q) (apart q)
                (reads q),
          a.same_last,
          a.epoch,
        )
