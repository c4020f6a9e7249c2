-- ===== src/Poller/Visit.antt =====
-- What a poll does to the lenses of the registry and hands to the backends.
use optics_light.Floating.{Floating}
use optics_light.Lens.{Lens, Sub, OpticsRet, counter, gauge, dist, histo, quantile, ok}
use optics_light.Lens.Counter.{lens_counter_read}
use optics_light.Lens.Gauge.{lens_gauge_read}
use optics_light.Lens.Dist.{lens_dist_read, DistValue}
use optics_light.Lens.Histo.{lens_histo_read, HistoValue}
use optics_light.Lens.Quantile.{lens_quantile_read}
use optics_light.Optics.{Optics, foreach_from}
use optics_light.Optics.Chain.{Chain, Chain-agree, among_here, among_there, among_apart}
use optics_light.Optics.Defer.{among}
use optics_light.Optics.Lenses.{Heap, update, lens_next}
use optics_light.Poller.{
  Backend, Poller, PollCtx, PollEvent, poller_backend_record, record_all, read_lens, metrics_of,
  poller_poll_lens, no_dist, no_histo,
}
use optics_light.Qsort.{Qsort}
use optics_light.Prelude.{
  ℕ, zero, suc, ◌<◌, ◌≡◌, ◌≢◌, refl, ap, ◌∙◌, Option, none, some, List, [], ◌∷◌, ◌++◌, true, false,
  ◌==◌, if◌then◌else◌, length, arith, Bool-cases, inl, inr,
}

module _ {D : Type 0} ⦃fp : Floating D⦄ (qsort : Qsort D) where
  abbrev SameLinks : Lens D → Lens D → Type 0
  SameLinks lens lens' = (lens'.next ≡ lens.next) × (lens'.prev ≡ lens.prev)

  -- A read leaves the lens in its place of the list.
  counter-links : (lens : Lens D) (epoch : ℕ) → SameLinks lens (lens_counter_read lens epoch).2
  unfolding lens_counter_read
  counter-links lens epoch = (ground arith, ground arith)

  gauge-links : (lens : Lens D) (epoch : ℕ) → SameLinks lens (lens_gauge_read lens epoch).2
  unfolding lens_gauge_read
  gauge-links lens epoch = (ground arith, ground arith)

  dist-links :
      (lens : Lens D) (epoch : ℕ) (value : DistValue D)
      → SameLinks lens (lens_dist_read qsort lens epoch value).2
  unfolding lens_dist_read
  dist-links lens epoch value = (ground arith, ground arith)

  histo-links :
      (lens : Lens D) (epoch : ℕ) (value : HistoValue)
      → SameLinks lens (lens_histo_read lens epoch value).2
  unfolding lens_histo_read
  histo-links lens epoch value = (ground arith, ground arith)

  quantile-links : (lens : Lens D) (epoch : ℕ) → SameLinks lens (lens_quantile_read lens epoch).2
  unfolding lens_quantile_read
  quantile-links lens epoch = (ground arith, ground arith)

  read_as :
      (lens : Lens D) (epoch : ℕ) (sub : Sub D)
      → lens.sub ≡ sub
      → SameLinks lens (read_lens qsort lens epoch).2
  unfolding read_lens
  read_as lens epoch (counter c) e = rw (e, read_lens) (counter-links lens epoch)
  read_as lens epoch (gauge g) e = rw (e, read_lens) (gauge-links lens epoch)
  read_as lens epoch (dist d) e = rw (e, read_lens) (dist-links lens epoch no_dist)
  read_as lens epoch (histo h) e = rw (e, read_lens) (histo-links lens epoch no_histo)
  read_as lens epoch (quantile q) e = rw (e, read_lens) (quantile-links lens epoch)

  read_lens-links : (lens : Lens D) (epoch : ℕ) → SameLinks lens (read_lens qsort lens epoch).2
  read_lens-links lens epoch = read_as lens epoch lens.sub refl

  -- The metrics of a list of lenses, in its order.
  unfoldable pub all_metrics : PollCtx → Heap D → List ℕ → List (PollEvent D)
  all_metrics ctx h [] = []
  all_metrics ctx h (p ∷ ps) =
      elim (h p) [ none ↦ [] | some l ↦ metrics_of qsort ctx l ] ++ all_metrics ctx h ps

  -- What a poll leaves of a lens.
  unfoldable pub after : ℕ → Option (Lens D) → Option (Lens D)
  after epoch none = none
  after epoch (some l) = some (read_lens qsort l epoch).2

  pub all_metrics-agree :
      (ctx : PollCtx) (h h' : Heap D) (ps : List ℕ)
      → ((q : ℕ) → among q ps ≡ true → h' q ≡ h q)
      → all_metrics ctx h' ps ≡ all_metrics ctx h ps
  unfolding all_metrics
  all_metrics-agree ctx h h' [] same = refl
  all_metrics-agree ctx h h' (p ∷ ps) same =
      let here = same p (among_here p ps) in
      let ih = all_metrics-agree ctx h h' ps (λ q i. same q (among_there q p ps i)) in
      rw (here, ih) refl

  all_metrics-cons :
      (ctx : PollCtx) (h : Heap D) (p : ℕ) (ps : List ℕ) (l : Lens D)
      → h p ≡ some l
      → all_metrics ctx h (p ∷ ps) ≡ metrics_of qsort ctx l ++ all_metrics ctx h ps
  unfolding all_metrics
  all_metrics-cons ctx h p ps l e = rw e refl

  after-some :
      (epoch : ℕ) (h : Heap D) (p : ℕ) (l : Lens D)
      → h p ≡ some l
      → after epoch (h p) ≡ some (read_lens qsort l epoch).2
  unfolding after
  after-some epoch h p l e = rw e refl

  next-update : (h : Heap D) (p : ℕ) (l : Lens D) → lens_next (update h p (some l)) p ≡ some l.next
  unfolding lens_next
  next-update h p l = let same : (p == p) ≡ true = ground arith in rw same refl

  visited :
      (epoch : ℕ) (h0 h : Heap D) (p q : ℕ) (ps : List ℕ) (l : Lens D)
      → h0 p ≡ some l
      → among p ps ≡ false
      → let h1 = update h0 p (some (read_lens qsort l epoch).2) in
        h q ≡ (if among q ps then after epoch (h1 q) else h1 q)
        → h q ≡ (if among q (p ∷ ps) then after epoch (h0 q) else h0 q)
  unfolding among
  visited epoch h0 h p q ps l e apart reads = elim (Bool-cases (q == p)) [
    | inl here ↦
        let same : q ≡ p = ground arith in
        ground (
          arith,
          reads,
          ap h0 same,
          ap (λ r. among r ps) same,
          ap (λ r. after epoch (h0 r)) same,
          after-some epoch h0 p l e,
        )
    | inr else_where ↦ ground (arith, reads)
  ]

  pub record_all-append :
      {W : Type 0} (bs : List (Backend D W)) (es fs : List (PollEvent D)) (w : W)
      → record_all bs (es ++ fs) w ≡ record_all bs fs (record_all bs es w)
  unfolding record_all
  record_all-append bs [] fs w = refl
  record_all-append bs (e ∷ es) fs w = record_all-append bs es fs (poller_backend_record bs e w)

  module _ {T W : Type 0} (poller : Poller D W) (ctx : PollCtx) where
    visit :
        (o : Optics D T) (w : W) (p : ℕ) (l : Lens D)
        → o.heap p ≡ some l
        → poller_poll_lens qsort poller ctx o w p
          ≡ some (
            ok,
            record o { heap = update o.heap p (some (read_lens qsort l ctx.epoch).2) },
            record_all poller.backends (metrics_of qsort ctx l) w,
          )
    unfolding poller_poll_lens
    visit o w p l e = rw e refl

    abbrev cb : Optics D T → W → ℕ → Option (OpticsRet × Optics D T × W)
    cb = poller_poll_lens qsort poller ctx

    foreach-step :
        (fuel p next : ℕ) (o o1 : Optics D T) (w w1 : W)
        → p ≢ 0
        → cb o w p ≡ some (ok, o1, w1)
        → lens_next o1.heap p ≡ some next
        → foreach_from cb (suc fuel) o w p ≡ foreach_from cb fuel o1 w1 next
    unfolding foreach_from
    foreach-step fuel p next o o1 w w1 some_address step link =
        let filled : (p == 0) ≡ false = ground arith in rw (filled, step, link) refl

    -- The loop over the lenses reads each of them once and ends.
    pub foreach-visits :
        (ps : List ℕ) (fuel prev head : ℕ) (o : Optics D T) (w : W)
        → Chain o.heap prev ps head
        → length ps < fuel
        → (h : Heap D) × (foreach_from cb fuel o w head
            ≡ some (
              ok,
              record o { heap = h },
              record_all poller.backends (all_metrics ctx o.heap ps) w,
            ))
          × ((q : ℕ) → h q ≡ (if among q ps then after ctx.epoch (o.heap q) else o.heap q))
    unfolding foreach_from Chain all_metrics record_all among
    foreach-visits [] zero prev head o w chain lt = absurd (omega arith)
    foreach-visits [] (suc fuel) prev head o w chain lt = (o.heap, rw chain refl, λ q. refl)
    foreach-visits (p ∷ ps) zero prev head o w chain lt = absurd (omega arith)
    foreach-visits (p ∷ ps) (suc fuel) prev head o w (at, some_address, apart, (l, e, back, rest))
          lt =
        let read = (read_lens qsort l ctx.epoch).2 in
        let h1 : Heap D = update o.heap p (some read) in
        let same : (q : ℕ) → among q ps ≡ true → h1 q ≡ o.heap q =
          λ q i. rw (among_apart q p ps apart i) refl in
        let links = read_lens-links l ctx.epoch in
        let rest1 : Chain h1 p ps read.next =
          rw links.0 (Chain-agree o.heap h1 p ps l.next same rest) in
        let (h, run, reads) =
          foreach-visits ps fuel p read.next (record o { heap = h1 })
            (record_all poller.backends (metrics_of qsort ctx l) w) rest1 (omega arith) in
        (
          h,
          ap (λ x. foreach_from cb (suc fuel) o w x) at
              ∙ foreach-step fuel p read.next o _ w _ some_address (visit o w p l e)
                  (next-update o.heap p read)
              ∙ rw
                  (
                    all_metrics-cons ctx o.heap p ps l e,
                    record_all-append poller.backends (metrics_of qsort ctx l),
                    ← all_metrics-agree ctx o.heap h1 ps same,
                  )
                  run,
          λ q. visited ctx.epoch o.heap h p q ps l e apart (reads q),
        )
