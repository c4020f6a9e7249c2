-- ===== src/Buffer/Content.antt =====
-- The bytes that a buffer holds: every operation appends to them.
use optics_light.Memory.{write_at, write_at-append}
use optics_light.Buffer.{
  Buffer, Heap, empty_buffer, double_cap, buffer_reserve, buffer_put, buffer_write, buffer_printf,
  print_into, buffer_min_cap,
}
use optics_light.Prelude.{
  ℕ, zero, suc, ◌+◌, ◌-◌, ◌*◌, ◌^◌, ◌≤◌, ◌<◌, ◌≡◌, refl, ap, sym, ◌∙◌, List, [], ◌∷◌, ◌++◌, arith,
  length, take, drop, length-append, length-drop, length-take, ltb, ◌==◌, if◌then◌else◌, some,
  append_assoc, append-nil, lt→ltb, Bool-cases, inl, inr,
}

-- The first `len` of the `cap` cells are the content.
pub record Holds (content : List ℕ) (buffer : Buffer) : Type 0 where
  pub rest : List ℕ
  pub cells : buffer.cells ≡ content ++ rest
  pub len : buffer.len ≡ length content
  pub cap : length content + length rest ≡ buffer.cap

pub Holds-empty : Holds [] empty_buffer
Holds-empty = record { rest = []; cells = refl; len = refl; cap = refl }

-- The doubling ends with the fuel that `buffer_reserve` gives it.
pub double_cap_total :
    (fuel len cap : ℕ)
    → 0 < fuel
    → 0 < cap
    → len < fuel + cap
    → (c : ℕ) × (double_cap fuel len cap ≡ some c) × (len ≤ c) × (cap ≤ c)
unfolding double_cap
double_cap_total zero len cap f pos h = absurd (omega arith)
double_cap_total (suc fuel) len cap f pos h = elim (Bool-cases (ltb cap len)) [
  | inl more ↦
      let (c, e, le, grows) =
        double_cap_total fuel len (cap * 2) (ground arith) (omega arith) (ground arith) in
      (c, rw more e, le, omega arith)
  | inr done ↦ (cap, rw done, ground arith, omega arith)
]

-- It stays in a `size_t` if the capacity is one and the length at most 2^63.
double_cap-lt :
    (fuel len cap c : ℕ)
    → double_cap fuel len cap ≡ some c
    → cap < 2 ^ 64
    → len ≤ 2 ^ 63
    → c < 2 ^ 64
unfolding double_cap
double_cap-lt zero len cap c run h le = absurd (ground (arith, run))
double_cap-lt (suc fuel) len cap c run h le = elim (Bool-cases (ltb cap len)) [
  | inl more ↦
      let next : double_cap fuel len (cap * 2) ≡ some c = sym (rw more refl) ∙ run in
      double_cap-lt fuel len (cap * 2) c next (ground arith) le
  | inr done ↦ ground arith
]

reserve_cap :
    (cap len : ℕ)
    → (c : ℕ) × (double_cap (suc len) len (if cap == 0 then buffer_min_cap else cap) ≡ some c)
      × (len ≤ c)
      × (cap ≤ c)
reserve_cap cap len = elim (Bool-cases (cap == 0)) [
  | inl e ↦
      let (c, run, le, grows) =
        double_cap_total (suc len) len buffer_min_cap (omega arith) (omega arith) (omega arith) in
      (c, rw e run, le, ground arith)
  | inr e ↦
      let (c, run, le, grows) =
        double_cap_total (suc len) len cap (omega arith) (ground arith) (ground arith) in
      (c, rw e run, le, grows)
]

take-content : (s r : List ℕ) → take (length s) (s ++ r) ≡ s
take-content [] r = refl
take-content (c ∷ s) r = ap (λ t. c ∷ t) (take-content s r)

-- Reading the first `len` cells gives the content.
pub Holds-content : (content : List ℕ) (b : Buffer) → Holds content b → take b.len b.cells ≡ content
Holds-content content b h = rw (h.len, h.cells) (take-content content h.rest)

-- Cells written at the end of the content.
write_end :
    (content w : List ℕ) (buffer : Buffer) (h : Holds content buffer)
    → length w ≤ length h.rest
    → write_at buffer.cells buffer.len w ≡ content ++ (w ++ drop (length w) h.rest)
write_end content w buffer h fits = rw (h.cells, h.len) (write_at-append content h.rest w fits)

-- Printing into the free cells leaves the content, also where the text is cut.
print_into-Holds :
    (content text : List ℕ) (buffer : Buffer)
    → Holds content buffer
    → Holds content (print_into buffer text)
unfolding print_into
print_into-Holds content text buffer h = elim (Bool-cases (buffer.cap - buffer.len == 0)) [
  | inl e ↦ rw e h
  | inr e ↦
      let w = take (buffer.cap - buffer.len - 1) text ++ 0 ∷ [] in
      let n = length-append (take (buffer.cap - buffer.len - 1) text) (0 ∷ []) in
      let m = length-take (buffer.cap - buffer.len - 1) text in
      let k = length-append w (drop (length w) h.rest) in
      let l = length-drop (length w) h.rest in
      let free : 0 < buffer.cap - buffer.len = ground arith in
      let fits : length w ≤ length h.rest = omega (arith, h.len, h.cap) in
      rw e (record {
        rest = w ++ drop (length w) h.rest;
        cells = write_end content w buffer h fits;
        len = h.len;
        cap = omega (arith, h.cap);
      })
]

take-all : (n : ℕ) (s : List ℕ) → length s ≤ n → take n s ≡ s
take-all zero [] h = refl
take-all (suc n) [] h = refl
take-all zero (c ∷ s) h = absurd (omega arith)
take-all (suc n) (c ∷ s) h = ap (λ r. c ∷ r) (take-all n s (omega arith))

-- Where there is room for the text and a nil, the whole text is printed.
print_into_whole :
    (content text : List ℕ) (buffer : Buffer)
    → Holds content buffer
    → length content + length text + 1 ≤ buffer.cap
    → let out = print_into buffer text in
      Holds (content ++ text) (record out { len = out.len + length text })
unfolding print_into
print_into_whole content text buffer h room = elim (Bool-cases (buffer.cap - buffer.len == 0)) [
  | inl e ↦ absurd (ground arith)
  | inr e ↦
      let n = length-append text (0 ∷ []) in
      let m = length-append content text in
      let l = length-drop (length (text ++ 0 ∷ [])) h.rest in
      let whole = take-all (buffer.cap - buffer.len - 1) text (omega (arith, h.len)) in
      rw (e, whole)
        (record {
          rest = 0 ∷ drop (length (text ++ 0 ∷ [])) h.rest;
          cells = rw (append_assoc) (
              write_end content (text ++ 0 ∷ []) buffer h (omega (arith, h.cap))
              ∙ rw append_assoc refl);
          len = omega (arith, h.len);
          cap = omega (arith, h.cap);
        })
]

module _ (heap : Heap) where
  -- A reservation, without the bound of a `size_t`.
  grown :
      (content : List ℕ) (buffer : Buffer) (len : ℕ)
      → Holds content buffer
      → (out : Buffer) × (buffer_reserve heap buffer len ≡ some out)
        × Holds content out
        × (len ≤ out.cap)
        × (buffer.cap ≤ out.cap)
        × (buffer.cap < 2 ^ 64 → len ≤ 2 ^ 63 → out.cap < 2 ^ 64)
  unfolding buffer_reserve
  grown content buffer len h = elim (Bool-cases (ltb len buffer.cap)) [
    | inl e ↦ (buffer, rw e, h, ground arith, omega arith, λ small _. small)
    | inr e ↦
        let (c, run, le, grows) = reserve_cap buffer.cap len in
        let n = length-append h.rest (heap.stale (c - buffer.cap)) in
        let m = heap.length-stale (c - buffer.cap) in
        (
          record { len = buffer.len; cap = c; cells = buffer.cells ++ heap.stale (c - buffer.cap) },
          rw (e, run),
          record {
            rest = h.rest ++ heap.stale (c - buffer.cap);
            cells = rw (h.cells, append_assoc);
            len = h.len;
            cap = omega arith;
          },
          le,
          grows,
          λ small short. double_cap-lt (suc len) len _ c run (ground arith) short,
        )
  ]

  -- `memcpy` of `bytes` at the end of the content, where there is room.
  written :
      (content bytes : List ℕ) (buffer : Buffer)
      → Holds content buffer
      → length content + length bytes ≤ buffer.cap
      → Holds (content ++ bytes) (record buffer {
        len = buffer.len + length bytes;
        cells = write_at buffer.cells buffer.len bytes;
      })
  written content bytes buffer h room =
      let n = length-append content bytes in
      let m = length-drop (length bytes) h.rest in
      record {
        rest = drop (length bytes) h.rest;
        cells =
            rw (h.cells, h.len, append_assoc)
              (write_at-append content h.rest bytes (omega (arith, h.cap)));
        len = omega (arith, h.len);
        cap = omega (arith, h.cap);
      }

  -- A write appends the bytes, and never fails.
  pub buffer_write-Holds :
      (content bytes : List ℕ) (buffer : Buffer)
      → Holds content buffer
      → (out : Buffer) × (buffer_write heap buffer bytes ≡ some out) × Holds (content ++ bytes) out
  unfolding buffer_write
  buffer_write-Holds content bytes buffer h =
      let (b, run, held, room, _, _) = grown content buffer (buffer.len + length bytes) h in
      (
        record b { len = b.len + length bytes; cells = write_at b.cells b.len bytes },
        rw (run, buffer_write) refl,
        written content bytes b held (omega (arith, h.len)),
      )

  -- A put appends the byte, and never fails.
  pub buffer_put-Holds :
      (content : List ℕ) (c : ℕ) (buffer : Buffer)
      → Holds content buffer
      → (out : Buffer) × (buffer_put heap buffer c ≡ some out) × Holds (content ++ c ∷ []) out
  unfolding buffer_put
  buffer_put-Holds content c buffer h =
      let (b, run, held, room, _, _) = grown content buffer (buffer.len + 1) h in
      (
        record b { len = b.len + 1; cells = write_at b.cells b.len (c ∷ []) },
        rw (run, buffer_put) refl,
        written content (c ∷ []) b held (omega (arith, h.len)),
      )

  -- A print appends the text, on the first try where it fits and after growing where it does not.
  pub buffer_printf-Holds :
      (content text : List ℕ) (buffer : Buffer)
      → Holds content buffer
      → (out : Buffer) × (buffer_printf heap buffer text ≡ some out) × Holds (content ++ text) out
  unfolding buffer_printf
  buffer_printf-Holds content [] buffer h = (
    record (print_into buffer []) { len = (print_into buffer []).len + 0 },
    refl,
    let held = print_into-Holds content [] buffer h in
        rw append-nil (record {
          rest = held.rest;
          cells = held.cells;
          len = omega (arith, held.len);
          cap = held.cap;
        }),
  )
  buffer_printf-Holds content (c ∷ text) buffer h =
      let first = print_into buffer (c ∷ text) in
      elim (Bool-cases (ltb (buffer.cap - buffer.len) (length (c ∷ text) + 1))) [
        | inl e ↦
            let (larger, run, held, room, _, _) =
              grown content first (buffer.len + length (c ∷ text) + 1)
                (print_into-Holds content (c ∷ text) buffer h) in
            let second = print_into larger (c ∷ text) in
            (
              record second { len = second.len + length (c ∷ text) },
              rw (lt→ltb 0 (length (c ∷ text)) (omega arith), e, run),
              print_into_whole content (c ∷ text) larger held (omega (arith, h.len)),
            )
        | inr e ↦ (
          record first { len = first.len + length (c ∷ text) },
          rw (lt→ltb 0 (length (c ∷ text)) (omega arith), e),
          print_into_whole content (c ∷ text) buffer h (ground (arith, h.len)),
        )
      ]
