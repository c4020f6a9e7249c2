-- ===== src/Tests/Logs.antt =====
-- The log in memory.
use optics_light.Log.{LogMsg, LogRing, new_ring, message, ring_log}
use optics_light.Log.Kept.{start, log, ring_log_lem}
use optics_light.Prelude.{◌≡◌, ◌%◌, some, List, [], ◌∷◌, get_elem?, arith}

-- Thread 3 logs twice, while another thread takes a tick.
abbrev logged_ring : LogRing
logged_ring = (ring_log 3 (b'a' ∷ []) (b'x' ∷ []) 2 (ring_log 3 (b'a' ∷ []) [] 0 new_ring).1).1

abbrev logged_messages : List LogMsg
logged_messages = message 3 2 (b'a' ∷ []) (b'x' ∷ []) ∷ message 3 0 (b'a' ∷ []) [] ∷ []

ring_log_lem_example : get_elem? logged_ring.cells (0 % 16384) ≡ some (message 3 0 (b'a' ∷ []) [])
ring_log_lem_example =
    ring_log_lem logged_ring logged_messages
      (log (log start 3 0 (b'a' ∷ []) []) 3 2 (b'a' ∷ []) (b'x' ∷ [])) (omega arith) 1 (omega arith)
      (omega arith)
