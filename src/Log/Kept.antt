-- ===== src/Log/Kept.antt =====
-- What the ring of a thread holds.
use optics_light.Htable.Total.{mod_differ}
use optics_light.Log.{LogMsg, LogRing, ring_size, new_ring, message, ring_log}
use optics_light.Prelude.{
  ℕ, zero, suc, ◌+◌, ◌-◌, ◌%◌, ◌^◌, ◌<◌, ◌≡◌, ◌≢◌, refl, ap, sym, ◌∙◌, List, [], ◌∷◌, arith, length,
  get_elem?, set, length-set, length-replicate, get_elem?-set_self, get_elem?-set_ne,
}

-- The rings that a thread reaches, each with the messages of the thread, the newest first.
pub data Logged : LogRing → List LogMsg → Type 0 where
  start : Logged new_ring []
  log :
      {ring : LogRing} {history : List LogMsg}
      → Logged ring history
      → (tid ticks : ℕ) (title text : List ℕ)
      → Logged (ring_log tid title text ticks ring).1 (message tid ticks title text ∷ history)

record Keeps (ring : LogRing) (history : List LogMsg) : Type 0 where
  pub pos : ring.pos ≡ length history
  pub size : length ring.cells ≡ ring_size
  pub cells :
      (k : ℕ)
      → k < length history
      → k < ring_size
      → get_elem? ring.cells ((length history - 1 - k) % ring_size) ≡ get_elem? history k

start-Keeps : Keeps new_ring []
start-Keeps = record {
  pos = refl;
  size =
      length-replicate {A = LogMsg} ring_size (record { tid = 0; tick = 0; title = []; msg = [] });
  cells = λ k h _. absurd (omega (arith, h));
}

log-Keeps :
    (ring : LogRing) (history : List LogMsg) (tid ticks : ℕ) (title text : List ℕ)
    → length history + 1 < 2 ^ 64
    → Keeps ring history
    → Keeps (ring_log tid title text ticks ring).1 (message tid ticks title text ∷ history)
unfolding ring_log
log-Keeps ring history tid ticks title text few keeps = record {
  pos = omega (arith, keeps.pos);
  size = length-set ring.cells (ring.pos % ring_size) _ ∙ keeps.size;
  cells = λ k h small. by_age k h small;
}
  where
    by_age :
        (k : ℕ)
        → k < suc (length history)
        → k < ring_size
        → get_elem?
            (set ring.cells (ring.pos % ring_size) (message tid ticks title text))
            ((suc (length history) - 1 - k) % ring_size)
          ≡ get_elem? (message tid ticks title text ∷ history) k
    by_age zero h small =
        let here : (suc (length history) - 1 - 0) % ring_size ≡ ring.pos % ring_size =
          ap (λ n. n % ring_size) (omega (arith, keeps.pos)) in
        rw here (
          get_elem?-set_self ring.cells (ring.pos % ring_size) (message tid ticks title text)
            (omega (arith, keeps.size)))
    by_age (suc k) h small =
        let there : suc (length history) - 1 - suc k ≡ length history - 1 - k = omega arith in
        let apart : ring.pos % ring_size ≢ (length history - 1 - k) % ring_size = λ e.
          mod_differ (length history - 1 - k) ring.pos ring_size (omega (arith, keeps.pos, h))
            (omega (arith, keeps.pos, h, small)) (sym e) in
        rw there (
          get_elem?-set_ne ring.cells (message tid ticks title text) apart
          ∙ keeps.cells k (omega (arith, h)) (omega (arith, small)))

-- The ring of a thread, after any messages and as long as their number fits a word, holds the last
-- 16384 of them, cut to 127 bytes: the message that is `k` messages old is in the cell at its number
-- modulo the size of the ring.
pub ring_log_lem :
    (ring : LogRing) (history : List LogMsg)
    → Logged ring history
    → length history < 2 ^ 64
    → (k : ℕ) → k < length history
    → k < ring_size
    → get_elem? ring.cells ((length history - 1 - k) % ring_size) ≡ get_elem? history k
ring_log_lem ring history logged few = (keeps ring history logged few).cells
  where
    keeps :
        (ring : LogRing) (history : List LogMsg)
        → Logged ring history
        → length history < 2 ^ 64
        → Keeps ring history
    keeps _ _ start few = start-Keeps
    keeps _ _ (log {ring} {history} before tid ticks title text) few =
        log-Keeps ring history tid ticks title text (omega (arith, few))
          (keeps ring history before (omega (arith, few)))
