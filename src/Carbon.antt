-- ===== src/Carbon.antt =====
-- The Carbon backend: the connection of src/backend_carbon.c. What `socket_stream_connect` and `send`
-- return is given with each send; the text is a parameter, and warnings are left out.
pub mod Attempts
pub mod Dump
use optics_light.Optics.Lenses.{◌>>=◌}
use optics_light.Prelude.{
  ℕ, Option, none, some, List, [], ◌∷◌, ◌++◌, Bool, true, false, ltb, ◌==◌, if◌then◌else◌,
}

-- A descriptor: an `int`, which is an error below 0.
pub data Fd : Type 0 where
  negative : Fd
  fd : ℕ → Fd

-- `fd > 0`
unfoldable pub connected : Fd → Bool
connected negative = false
connected (fd n) = ltb 0 n

-- The state of `struct carbon`.
pub record Carbon : Type 0 where
  pub fd : Fd
  pub last_attempt : ℕ

-- `calloc`
abbrev pub new_carbon : Carbon
new_carbon = record { fd = fd 0; last_attempt = 0 }

-- What the system answers: the descriptor of a connection, should one be asked for, and whether
-- `send` takes bytes (`true`) or fails with a negative result.
pub record Answers : Type 0 where
  pub connection : Fd
  pub takes : Bool

-- What the backend asks of the system.
pub data Effect : Type 0 where
  attempt : ℕ → Effect
  send : Fd → List ℕ → Effect
  close : Fd → Effect

-- `none` is the abort of the failed assertion.
unfoldable pub carbon_connect : Carbon → Answers → Option (Bool × Carbon)
carbon_connect carbon answers =
    if connected carbon.fd
    then none
    else some (connected answers.connection, record carbon { fd = answers.connection })

-- `send`, and what follows a failure. A partial send is only warned about.
unfoldable pub send_data : Carbon → Answers → List ℕ → Carbon × List Effect
send_data carbon answers bytes =
    if answers.takes
    then (carbon, send carbon.fd bytes ∷ [])
    else (record carbon { fd = negative }, send carbon.fd bytes ∷ close carbon.fd ∷ [])

unfoldable pub carbon_send : Carbon → Answers → List ℕ → ℕ → Option (Carbon × List Effect)
carbon_send carbon answers bytes ts =
    if connected carbon.fd
    then some (send_data carbon answers bytes)
    else if carbon.last_attempt == ts
    then some (carbon, [])
    else (do
      r ← carbon_connect (record carbon { last_attempt = ts }) answers
      some (elim r.0 [
        | false ↦ (r.1, attempt ts ∷ [])
        | true ↦ let s = send_data r.1 answers bytes in (s.0, attempt ts ∷ s.1)
      ]))

-- The sends of one poll, which all have its time.
unfoldable pub send_all : Carbon → ℕ → List (Answers × List ℕ) → Option (Carbon × List Effect)
send_all carbon ts [] = some (carbon, [])
send_all carbon ts (s ∷ ss) = do
  r ← carbon_send carbon s.0 s.1 ts
  rest ← send_all r.0 ts ss
  some (rest.0, r.1 ++ rest.1)
