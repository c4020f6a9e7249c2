-- ===== src/Memory.antt =====
-- C strings and byte arrays, as src/utils/key.c and src/utils/buffer.c use them: a string is the
-- list of its bytes with no terminating nil, an array the list of its cells.
use optics_light.Prelude.{
  ℕ, zero, suc, ◌≤◌, ◌≡◌, refl, ap, ◌≢◌, List, [], ◌∷◌, ◌++◌, arith, length, take, drop, ◌==◌,
  if◌then◌else◌,
}

-- `memcpy(array + at, bytes, ..)`. A write past the end is dropped.
abbrev pub write_at : List ℕ → ℕ → List ℕ → List ℕ
write_at xs zero [] = xs
write_at xs (suc i) [] = xs
write_at [] i (b ∷ bs) = []
write_at (x ∷ xs) zero (b ∷ bs) = b ∷ write_at xs zero bs
write_at (x ∷ xs) (suc i) (b ∷ bs) = x ∷ write_at xs i (b ∷ bs)

-- The string that starts an array: the bytes before the first nil.
abbrev pub c_string : List ℕ → List ℕ
c_string [] = []
c_string (c ∷ cs) = if c == 0 then [] else c ∷ c_string cs

-- No byte of a string is nil.
abbrev pub NoNil : List ℕ → Type 0
NoNil [] = Unit {0}
NoNil (c ∷ cs) = (c ≢ 0) × NoNil cs

-- `strlcpy(array + at, src, size)`, with the length that it returns: at most `size - 1` bytes and
-- a nil, and nothing where there is no room.
abbrev pub strlcpy : List ℕ → ℕ → List ℕ → ℕ → List ℕ × ℕ
strlcpy xs i src zero = (xs, length src)
strlcpy xs i src (suc room) = (write_at xs i (take room src ++ 0 ∷ []), length src)

-- Writing where `s` ends replaces what follows it.
pub write_at-append :
    (s t bs : List ℕ)
    → length bs ≤ length t
    → write_at (s ++ t) (length s) bs ≡ s ++ (bs ++ drop (length bs) t)
write_at-append [] t [] h = refl
write_at-append [] [] (b ∷ bs) h = absurd (omega arith)
write_at-append [] (x ∷ t) (b ∷ bs) h = ap (λ r. b ∷ r) (write_at-append [] t bs (omega arith))
write_at-append (x ∷ s) t [] h = refl
write_at-append (x ∷ s) t (b ∷ bs) h = ap (λ r. x ∷ r) (write_at-append s t (b ∷ bs) h)

pub c_string-append : (s t : List ℕ) → NoNil s → c_string (s ++ (0 ∷ t)) ≡ s
c_string-append [] t h = refl
c_string-append (c ∷ s) t h = ground (arith, c_string-append s t)

pub NoNil-append : (s t : List ℕ) → NoNil s → NoNil t → NoNil (s ++ t)
NoNil-append [] t hs ht = ht
NoNil-append (c ∷ s) t hs ht = (hs.0, NoNil-append s t hs.1 ht)

pub NoNil-take : (n : ℕ) (s : List ℕ) → NoNil s → NoNil (take n s)
NoNil-take zero s h = tt
NoNil-take (suc n) [] h = tt
NoNil-take (suc n) (c ∷ s) h = (h.0, NoNil-take n s h.1)

pub length-write_at : (xs : List ℕ) (i : ℕ) (bs : List ℕ) → length (write_at xs i bs) ≡ length xs
length-write_at xs zero [] = refl
length-write_at xs (suc i) [] = refl
length-write_at [] zero (b ∷ bs) = refl
length-write_at [] (suc i) (b ∷ bs) = refl
length-write_at (x ∷ xs) zero (b ∷ bs) = ap suc (length-write_at xs zero bs)
length-write_at (x ∷ xs) (suc i) (b ∷ bs) = ap suc (length-write_at xs i (b ∷ bs))
