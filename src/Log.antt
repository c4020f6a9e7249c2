-- ===== src/Log.antt =====
-- The log in memory: src/utils/log.c. Each thread has a ring of messages; they share the counter of
-- the ticks. The text of a message is what its format prints, and a failed allocation is left out.
pub mod Kept
use optics_light.Qsort.{Sign, negative, null, positive, Qsort}
use optics_light.Prelude.{
  ℕ, ◌+◌, ◌-◌, ◌%◌, ◌^◌, List, [], ◌∷◌, ◌++◌, Bool, ltb, ◌==◌, if◌then◌else◌, map, set, take,
  replicate,
}

abbrev pub ring_size : ℕ
ring_size = 16384

-- `struct log_msg`; `msg` is the string in its array of 128 bytes.
pub record LogMsg : Type 0 where
  pub tid : ℕ
  pub tick : ℕ
  pub title : List ℕ
  pub msg : List ℕ

-- `struct log_ring`
pub record LogRing : Type 0 where
  pub pos : ℕ
  pub cells : List LogMsg

-- `calloc`
abbrev pub empty_cells : List LogMsg
empty_cells = replicate ring_size (record { tid = 0; tick = 0; title = []; msg = [] })

-- What `ring_get` makes on the first message of a thread.
abbrev pub new_ring : LogRing
new_ring = record { pos = 0; cells = empty_cells }

-- The tick, and the counter after it.
unfoldable pub tick_inc : ℕ → ℕ × ℕ
tick_inc ticks = (ticks, (ticks + 1) % 2 ^ 64)

abbrev pub message : ℕ → ℕ → List ℕ → List ℕ → LogMsg
message tid ticks title text = record {
  tid = tid;
  tick = (tick_inc ticks).0;
  title = title;
  msg = take 127 text;
}

-- The counter of the ticks and the ring after a message.
unfoldable pub ring_log : ℕ → List ℕ → List ℕ → ℕ → LogRing → ℕ × LogRing
ring_log tid title text ticks ring = (
  (tick_inc ticks).1,
  record {
    pos = (ring.pos + 1) % 2 ^ 64;
    cells = set ring.cells (ring.pos % ring_size) (message tid ticks title text);
  },
)

unfoldable pub all_cells : List LogRing → List LogMsg
all_cells [] = []
all_cells (ring ∷ rings) = ring.cells ++ all_cells rings

-- `if (!msgs[i]->tick) continue;`
unfoldable pub printed : List LogMsg → List LogMsg
printed [] = []
printed (m ∷ ms) = let later = printed ms in if m.tick == 0 then later else m ∷ later

-- The difference of the ticks, from the second to the first, cut to an `int`.
unfoldable pub ring_cmp : LogMsg → LogMsg → Sign
ring_cmp lhs rhs =
    let difference = (rhs.tick + 2 ^ 64 - lhs.tick) % 2 ^ 32 in
    if difference == 0 then null else if ltb difference (2 ^ 31) then positive else negative

-- The messages that are written, and the rings after.
unfoldable pub ring_dump : Qsort LogMsg → List LogRing → List LogMsg × List LogRing
ring_dump qsort rings = (
  printed (qsort ring_cmp (all_cells rings)),
  map (λ (ring : LogRing). record ring { cells = empty_cells }) rings,
)
