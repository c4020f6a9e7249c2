-- ===== src/Lens/Histo/Totals.antt =====
-- Each observation is counted once, and a read takes all the counts of its epoch.
use optics_light.Floating.{Floating}
use optics_light.Lens.{Lens, at_epoch, set_epoch, histo, histo_ptr, LensHisto, HistoEpoch, ok}
use optics_light.Lens.Histo.{
  Bucket, below, above, count, bump, add_one, lens_histo_inc, lens_histo_read, HistoValue,
}
use optics_light.Lens.Histo.Buckets.{IsHisto, Falls, bucket_of-Falls}
use optics_light.Memory.{write_at}
use optics_light.Prelude.{
  ℕ, zero, suc, ◌+◌, ◌-◌, ◌%◌, ◌^◌, ◌≤◌, ◌<◌, ◌≡◌, ◌≢◌, refl, ap, ◌∙◌, sym, some, List, [], ◌∷◌,
  ◌++◌, true, false, length, take, drop, get_or, set, replicate, arith, length-set, length-append,
  length-drop, length-replicate, length-take,
}

unfoldable pub sum : List ℕ → ℕ
sum [] = 0
sum (x ∷ xs) = x + sum xs

-- The observations that an epoch holds.
unfoldable pub total : HistoEpoch → ℕ
total e = e.below + e.above + sum e.counts

sum-set : (xs : List ℕ) (i v : ℕ) → i < length xs → sum (set xs i v) + get_or xs i 0 ≡ sum xs + v
unfolding sum
sum-set [] i v h = absurd (omega arith)
sum-set (x ∷ xs) zero v h = omega arith
sum-set (x ∷ xs) (suc i) v h = omega (arith, sum-set xs i v (omega arith))

InRange : Bucket → Type 0
InRange below = Unit {0}
InRange above = Unit {0}
InRange (count i) = i < 8

bump-total :
    (e : HistoEpoch) (b : Bucket)
    → length e.counts ≡ 8
    → InRange b
    → (total (bump e b) % 2 ^ 64 ≡ (total e + 1) % 2 ^ 64) × (length (bump e b).counts ≡ 8)
unfolding total bump InRange
bump-total e below size h = (omega arith, size)
bump-total e above size h = (omega arith, size)
bump-total e (count i) size h = (
  omega (arith, sum-set e.counts i (add_one (get_or e.counts i 0)) (omega arith)),
  length-set e.counts i (add_one (get_or e.counts i 0)) ∙ size,
)

sum-replicate : (n : ℕ) (xs : List ℕ) → sum (replicate n 0 ++ xs) ≡ sum xs
unfolding sum
sum-replicate zero xs = refl
sum-replicate (suc n) xs = omega (arith, sum-replicate n xs)

sum-take-drop : (n : ℕ) (xs : List ℕ) → sum (take n xs) + sum (drop n xs) ≡ sum xs
unfolding sum
sum-take-drop zero xs = omega arith
sum-take-drop (suc n) [] = omega arith
sum-take-drop (suc n) (x ∷ xs) = omega (arith, sum-take-drop n xs)

take-write_at : (xs bs : List ℕ) → length bs ≤ length xs → take (length bs) (write_at xs 0 bs) ≡ bs
take-write_at xs [] h = refl
take-write_at [] (b ∷ bs) h = absurd (omega arith)
take-write_at (x ∷ xs) (b ∷ bs) h = ap (λ r. b ∷ r) (take-write_at xs bs (omega arith))

-- An epoch after a read of its first `n` counts.
abbrev pub cleared : ℕ → HistoEpoch → HistoEpoch
cleared n e = record { below = 0; above = 0; counts = replicate n 0 ++ drop n e.counts }

total-cleared :
    (n : ℕ) (e : HistoEpoch)
    → e.below + e.above + sum (take n e.counts) + total (cleared n e) ≡ total e
unfolding total
total-cleared n e = omega (arith, sum-replicate n (drop n e.counts), sum-take-drop n e.counts)

length-cleared :
    (n : ℕ) (e : HistoEpoch) → n ≤ 8 → length e.counts ≡ 8 → length (cleared n e).counts ≡ 8
length-cleared n e small size = omega (
  arith,
  length-append (replicate n 0) (drop n e.counts),
  length-replicate {A = ℕ} n 0,
  length-drop n e.counts,
)

copy_counts :
    (size n : ℕ) (xs bs : List ℕ)
    → n ≤ size
    → length xs ≡ size
    → length bs ≡ size
    → take n (write_at xs 0 (take n bs)) ≡ take n bs
copy_counts size n xs bs small is is' =
    let e : length (take n bs) ≡ n = omega (arith, length-take n bs) in
    ap (λ k. take k (write_at xs 0 (take n bs))) (sym e)
    ∙ take-write_at xs (take n bs) (omega arith)

module _ {D : Type 0} ⦃fp : Floating D⦄ where
  Falls-InRange : (h : LensHisto) (value : D) (b : Bucket) → IsHisto h → Falls h value b → InRange b
  unfolding InRange
  Falls-InRange h value below v f = tt
  Falls-InRange h value above v f = tt
  Falls-InRange h value (count i) v f = omega (arith, v.at_most, f.0)

  -- Recording a number succeeds and adds one observation, to the counter whose range holds the number
  -- and in the epoch that it was recorded under; the other epoch, the bounds and the shape stay.
  pub lens_histo_inc_lem :
      (lens : Lens D) (h : LensHisto) (epoch : ℕ) (value : D)
      → histo_ptr lens.sub ≡ some h
      → IsHisto h
      → fp.is_nan value ≡ false
      → (b : Bucket) × (h' : LensHisto) × (lens_histo_inc lens epoch value
          ≡ some (true, record lens { sub = histo h' }))
        × Falls h value b
        × (at_epoch h'.epochs epoch ≡ bump (at_epoch h.epochs epoch) b)
        × (total (at_epoch h'.epochs epoch) % 2 ^ 64
            ≡ (total (at_epoch h.epochs epoch) + 1) % 2 ^ 64)
        × (epoch ≡ 0 → h'.epochs.second ≡ h.epochs.second)
        × (epoch ≢ 0 → h'.epochs.first ≡ h.epochs.first)
        × (h'.buckets ≡ h.buckets)
        × IsHisto h'
  unfolding lens_histo_inc
  lens_histo_inc_lem lens h epoch value is v number =
      let (b, run, falls) = bucket_of-Falls h value number v in
      let size : length (at_epoch h.epochs epoch).counts ≡ 8 = ground (arith, v.first, v.second) in
      let (counted, size') =
        bump-total (at_epoch h.epochs epoch) b size (Falls-InRange h value b v falls) in
      let h' : LensHisto = record h {
        epochs = set_epoch h.epochs epoch (bump (at_epoch h.epochs epoch) b);
      } in
      let here : at_epoch h'.epochs epoch ≡ bump (at_epoch h.epochs epoch) b = ground arith in
      (
        b,
        h',
        ground arith,
        falls,
        here,
        rw here counted,
        λ e. ground arith,
        λ e. ground arith,
        refl,
        record {
          at_least = v.at_least;
          at_most = v.at_most;
          first = ground (arith, v.first);
          second = ground (arith, v.second);
        },
      )

  -- A read of an epoch hands out the bounds of the histogram, the counts below and above its range and
  -- the count of each bucket, each in its own place, and resets them; what it hands out and what is
  -- left make up the total of the epoch, and the other epoch stays. The structure to fill has room for
  -- nine bounds and eight counts.
  pub lens_histo_read_lem :
      (lens : Lens D) (h : LensHisto) (epoch : ℕ) (value : HistoValue)
      → histo_ptr lens.sub ≡ some h
      → IsHisto h
      → length h.buckets ≡ 9
      → length value.buckets ≡ 9
      → length value.counts ≡ 8
      → let n = h.buckets_len - 1 in
        (out : HistoValue) × (h' : LensHisto) × (lens_histo_read lens epoch value
          ≡ (ok, out, record lens { sub = histo h' }))
        × (out.buckets_len ≡ h.buckets_len)
        × (take h.buckets_len out.buckets ≡ take h.buckets_len h.buckets)
        × (out.below ≡ (at_epoch h.epochs epoch).below)
        × (out.above ≡ (at_epoch h.epochs epoch).above)
        × (take n out.counts ≡ take n (at_epoch h.epochs epoch).counts)
        × (out.below + out.above + sum (take n out.counts) + total (at_epoch h'.epochs epoch)
            ≡ total (at_epoch h.epochs epoch))
        × (at_epoch h'.epochs epoch ≡ cleared n (at_epoch h.epochs epoch))
        × (epoch ≡ 0 → h'.epochs.second ≡ h.epochs.second)
        × (epoch ≢ 0 → h'.epochs.first ≡ h.epochs.first)
        × IsHisto h'
  unfolding lens_histo_read
  lens_histo_read_lem lens h epoch value is v bounds bounds' size =
      let n = h.buckets_len - 1 in
      let e = at_epoch h.epochs epoch in
      let size' : length e.counts ≡ 8 = ground (arith, v.first, v.second) in
      let small : n ≤ 8 = omega (arith, v.at_most) in
      let out : HistoValue = record {
        buckets_len = h.buckets_len;
        buckets = write_at value.buckets 0 (take h.buckets_len h.buckets);
        below = e.below;
        above = e.above;
        counts = write_at value.counts 0 (take n e.counts);
      } in
      let h' : LensHisto = record h { epochs = set_epoch h.epochs epoch (cleared n e) } in
      let here : at_epoch h'.epochs epoch ≡ cleared n e = ground arith in
      let copied : take n out.counts ≡ take n e.counts =
        copy_counts 8 n value.counts e.counts small size size' in
      let few : h.buckets_len ≤ 9 = v.at_most in
      let shape = length-cleared n e small size' in
      (
        out,
        h',
        ground arith,
        refl,
        copy_counts 9 h.buckets_len value.buckets h.buckets few bounds' bounds,
        refl,
        refl,
        copied,
        rw (copied, here) (total-cleared n e),
        here,
        λ z. ground arith,
        λ z. ground arith,
        record {
          at_least = v.at_least;
          at_most = v.at_most;
          first = ground (arith, v.first);
          second = ground (arith, v.second);
        },
      )
