-- ===== src/Carbon/Dump.antt =====
-- The callbacks of the Carbon backend: `carbon_dump` and `carbon_dump_normalized` of
-- src/backend_carbon.c. The `n`-th send of the program gets the `n`-th of the system's answers.
pub mod Lines
use optics_light.Buffer.{Buffer, Heap, empty_buffer, buffer_printf}
use optics_light.Carbon.{Carbon, Answers, Effect, carbon_send}
use optics_light.Floating.{Floating}
use optics_light.Normalize.{optics_poll_normalize}
use optics_light.Optics.Lenses.{◌>>=◌}
use optics_light.Poller.{Poll, PollEvent, poll_begin, poll_done, poll_metric}
use optics_light.Rest.Get.{Prints}
use optics_light.Prelude.{ℕ, ◌+◌, Option, none, some, List, [], ◌∷◌, ◌++◌, Bool, true, take}

-- The backend, the number of its sends and what it asked of the system.
pub record Wire : Type 0 where
  pub carbon : Carbon
  pub sends : ℕ
  pub effects : List Effect

module _ {D : Type 0} (heap : Heap) (prints : Prints D) (answers : ℕ → Answers) where
  -- `none` is an abort.
  unfoldable pub send_line : Poll D → ℕ → List ℕ → D → Wire → Option Wire
  send_line poll ts key value wire = do
    head ← buffer_printf heap empty_buffer (poll.prefix ++ (b'.' ∷ poll.host))
    line ←
        buffer_printf heap head
          (b'.' ∷ key ++ (b' ' ∷ prints.g value ++ (b' ' ∷ prints.u64 ts ++ (10 ∷ []))))
    sent ← carbon_send wire.carbon (answers wire.sends) (take line.len line.cells) ts
    some (record { carbon = sent.0; sends = wire.sends + 1; effects = wire.effects ++ sent.1 })

  unfoldable pub carbon_dump_normalized : Poll D → ℕ → List ℕ → D → Option Wire → Bool × Option Wire
  carbon_dump_normalized poll ts key value none = (true, none)
  carbon_dump_normalized poll ts key value (some wire) = (true, send_line poll ts key value wire)

  unfoldable pub carbon_dump :
      ⦃fp : Floating D⦄ → (ℕ → ℕ → List ℕ) → PollEvent D → Wire → Option Wire
  carbon_dump bucket_text poll_begin wire = some wire
  carbon_dump bucket_text poll_done wire = some wire
  carbon_dump bucket_text (poll_metric poll) wire = do
    r ← optics_poll_normalize (carbon_dump_normalized poll) bucket_text poll (some wire)
    r.1
