-- ===== src/Carbon/Attempts.antt =====
-- How often the backend tries to connect.
use optics_light.Carbon.{
  connected, Carbon, Answers, Effect, attempt, send, close, carbon_connect, send_data, carbon_send,
  send_all,
}
use optics_light.Prelude.{
  ℕ, suc, ◌+◌, ◌≤◌, ◌≡◌, refl, some, List, [], ◌∷◌, ◌++◌, ◌==◌, if◌then◌else◌, arith, Bool-cases,
  inl, inr,
}

unfoldable pub attempts : List Effect → ℕ
attempts [] = 0
attempts (attempt ts ∷ es) = suc (attempts es)
attempts (send d bytes ∷ es) = attempts es
attempts (close d ∷ es) = attempts es

attempts-append : (es fs : List Effect) → attempts (es ++ fs) ≡ attempts es + attempts fs
unfolding attempts
attempts-append [] fs = omega arith
attempts-append (attempt ts ∷ es) fs = omega (arith, attempts-append es fs)
attempts-append (send d bytes ∷ es) fs = attempts-append es fs
attempts-append (close d ∷ es) fs = attempts-append es fs

-- The attempts that are left at a time.
abbrev left : Carbon → ℕ → ℕ
left carbon ts = if carbon.last_attempt == ts then 0 else 1

send_data-attempts :
    (carbon : Carbon) (answers : Answers) (bytes : List ℕ)
    → (attempts (send_data carbon answers bytes).1 ≡ 0)
      × ((send_data carbon answers bytes).0.last_attempt ≡ carbon.last_attempt)
unfolding send_data attempts
send_data-attempts carbon answers bytes = (ground arith, ground arith)

pub send-attempts :
    (carbon : Carbon) (answers : Answers) (bytes : List ℕ) (ts : ℕ)
    → (out : Carbon) × (es : List Effect) × (carbon_send carbon answers bytes ts ≡ some (out, es))
      × (attempts es + left out ts ≤ left carbon ts)
unfolding carbon_send carbon_connect attempts
send-attempts carbon answers bytes ts = elim (Bool-cases (connected carbon.fd)) [
  | inl up ↦
      let (none_more, same) = send_data-attempts carbon answers bytes in
      (
        (send_data carbon answers bytes).0,
        (send_data carbon answers bytes).1,
        rw up refl,
        ground (arith, none_more, same),
      )
  | inr down ↦ elim (Bool-cases (carbon.last_attempt == ts)) [
    | inl tried ↦ (carbon, [], rw (down, tried) refl, omega arith)
    | inr fresh ↦ elim (Bool-cases (connected answers.connection)) [
      | inl up ↦
          let opened : Carbon = record { fd = answers.connection; last_attempt = ts } in
          let (none_more, same) = send_data-attempts opened answers bytes in
          (
            (send_data opened answers bytes).0,
            attempt ts ∷ (send_data opened answers bytes).1,
            rw (down, fresh, up) refl,
            ground (arith, none_more, same),
          )
      | inr no_answer ↦ (
        record { fd = answers.connection; last_attempt = ts },
        attempt ts ∷ [],
        rw (down, fresh, no_answer) refl,
        ground arith,
      )
    ]
  ]
]

-- Within one poll the backend never aborts and tries to connect at most once, and not at all if its
-- last attempt was at the same time, whatever connections and sends fail.
pub one_attempt :
    (ss : List (Answers × List ℕ)) (carbon : Carbon) (ts : ℕ)
    → (out : Carbon) × (es : List Effect) × (send_all carbon ts ss ≡ some (out, es))
      × (attempts es ≤ (if carbon.last_attempt == ts then 0 else 1))
unfolding send_all attempts
one_attempt [] carbon ts = (carbon, [], refl, ground arith)
one_attempt ((answers, bytes) ∷ ss) carbon ts =
    let (out, es, run, few) = send-attempts carbon answers bytes ts in
    let (out', es', run', few') = one_attempt ss out ts in
    (out', es ++ es', rw (run, run') refl, omega (arith, attempts-append es es'))
