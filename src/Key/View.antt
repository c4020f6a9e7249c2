-- ===== src/Key/View.antt =====
-- The string that a key holds.
use optics_light.Memory.{
  write_at, c_string, NoNil, write_at-append, c_string-append, NoNil-append, NoNil-take,
}
use optics_light.Prelude.{
  ℕ, zero, suc, ◌+◌, ◌-◌, ◌≤◌, min, ◌≡◌, refl, ap, ◌≢◌, ◌∙◌, List, [], ◌∷◌, ◌++◌, arith, length,
  take, drop, length-append, length-drop, length-take, leb, ◌==◌, if◌then◌else◌, some, get_elem?,
  append_assoc, Bool-cases, inl, inr,
}
use mathlib.Core.Path.{subst}
use optics_light.Key.{
  Key, push_dot, push_suffix, optics_key_push, optics_key_pop, optics_name_max_len,
}

-- The array is `s`, a nil and a rest.
pub record Holds (s : List ℕ) (key : Key) : Type 0 where
  pub rest : List ℕ
  pub bytes : key.bytes ≡ s ++ (0 ∷ rest)
  pub len : key.len ≡ length s
  pub size : length s + length rest + 1 ≡ optics_name_max_len
  pub no_nil : NoNil s

-- The key as the C string that the callbacks read.
pub Holds-c_string : (s : List ℕ) (key : Key) → Holds s key → c_string key.bytes ≡ s
Holds-c_string s key h = rw h.bytes (c_string-append s h.rest h.no_nil)

-- What a push writes before the suffix: the string and a dot, and nothing for an empty key.
unfoldable pub dotted : List ℕ → List ℕ
dotted [] = []
dotted (c ∷ s) = (c ∷ s) ++ (b'.' ∷ [])

-- What a key holds after a push: a full key is left alone, and a long result is cut to 255 bytes.
unfoldable pub joined : List ℕ → List ℕ → List ℕ
joined s suffix = if length s == 255 then s else take 255 (dotted s ++ suffix)

take-append : (n : ℕ) (s t : List ℕ) → length s ≤ n → take n (s ++ t) ≡ s ++ take (n - length s) t
take-append n [] t h = ap (λ k. take k t) (omega arith)
take-append zero (c ∷ s) t h = absurd (omega arith)
take-append (suc n) (c ∷ s) t h =
    ap (λ r. c ∷ r) (take-append n s t (omega arith) ∙ ap (λ k. s ++ take k t) (omega arith))

get_elem?-append : (s : List ℕ) (c : ℕ) (t : List ℕ) → get_elem? (s ++ (c ∷ t)) (length s) ≡ some c
get_elem?-append [] c t = refl
get_elem?-append (x ∷ s) c t = get_elem?-append s c t

capped : (a b k : ℕ) → k ≡ min 255 (a + b) → (if leb 256 (a + b) then 255 else a + b) ≡ k
capped a b k e = ground arith

-- The bytes that the `strlcpy` of a push leaves.
copied :
    (s suffix t : List ℕ)
    → length s + length t ≡ 256
    → length s ≤ 255
    → write_at (s ++ t) (length s) (take (255 - length s) suffix ++ 0 ∷ [])
      ≡ take 255 (s ++ suffix) ++ 0 ∷ drop (suc (length (take (255 - length s) suffix))) t
copied s suffix t size h =
    let w = take (255 - length s) suffix in
    let n = length-append w (0 ∷ []) in
    let m = length-take (255 - length s) suffix in
    let e : length (w ++ 0 ∷ []) ≡ suc (length w) = omega arith in
    rw (
      write_at-append s t (w ++ 0 ∷ []) (omega arith),
      e,
      take-append 255 s suffix h,
      append_assoc,
      append_assoc,
    )

-- After the dot: `push_suffix` at a key whose first bytes are `s`.
push_suffix-Holds :
    (s suffix t : List ℕ) (key : Key)
    → NoNil s
    → NoNil suffix
    → key.bytes ≡ s ++ t
    → key.len ≡ length s
    → length s + length t ≡ 256
    → length s ≤ 255
    → Holds (take 255 (s ++ suffix)) (push_suffix key suffix)
unfolding push_suffix
push_suffix-Holds s suffix t key hs hx e l size h =
    let room : 256 - length s ≡ suc (255 - length s) = omega arith in
    let m = length-take 255 (s ++ suffix) in
    let n = length-append s suffix in
    let k = length-take (255 - length s) suffix in
    let d = length-drop (suc (length (take (255 - length s) suffix))) t in
    record {
      rest = drop (suc (length (take (255 - length s) suffix))) t;
      bytes = rw (e, l, room) (copied s suffix t size h);
      len = rw (e, l, room) (capped (length s) (length suffix) _ (omega arith));
      size = omega arith;
      no_nil = NoNil-take 255 (s ++ suffix) (NoNil-append s suffix hs hx);
    }

-- Reading the byte at the end of the string finds the nil.
Holds-end : (s : List ℕ) (key : Key) → Holds s key → get_elem? key.bytes key.len ≡ some 0
Holds-end s key h = rw (h.bytes, h.len) (get_elem?-append s 0 h.rest)

pub length-dotted : (s : List ℕ) → length (dotted s) ≤ length s + 1
unfolding dotted
length-dotted [] = omega arith
length-dotted (c ∷ s) = omega (arith, length-append s (b'.' ∷ []))

NoNil-dotted : (s : List ℕ) → NoNil s → NoNil (dotted s)
unfolding dotted
NoNil-dotted [] h = tt
NoNil-dotted (c ∷ s) h = NoNil-append (c ∷ s) (b'.' ∷ []) h (omega arith)

push_dot_empty : (key : Key) → key.len ≡ 0 → push_dot key ≡ key
unfolding push_dot
push_dot_empty key h = ground arith

push_dot_filled :
    (key : Key)
    → key.len ≢ 0
    → push_dot key ≡ record { len = key.len + 1; bytes = write_at key.bytes key.len (b'.' ∷ []) }
unfolding push_dot
push_dot_filled key h = ground arith

push_dot-dotted :
    (s : List ℕ) (key : Key)
    → Holds s key
    → (t : List ℕ) × ((push_dot key).bytes ≡ dotted s ++ t)
      × ((push_dot key).len ≡ length (dotted s))
      × (length (dotted s) + length t ≡ 256)
unfolding dotted
push_dot-dotted [] key h = (
  0 ∷ h.rest,
  rw (push_dot_empty key h.len) h.bytes,
  rw (push_dot_empty key h.len) h.len,
  omega arith,
)
push_dot-dotted (c ∷ s) key h =
    let n = length-append s (b'.' ∷ []) in
    let e = push_dot_filled key (omega arith) in
    (
      h.rest,
      rw e (
          rw (h.bytes, h.len, append_assoc)
            (write_at-append (c ∷ s) (0 ∷ h.rest) (b'.' ∷ []) (omega arith))),
      rw e (omega arith),
      omega arith,
    )

pushed :
    (key : Key) (suffix : List ℕ)
    → key.len + 1 ≢ 256
    → get_elem? (push_suffix (push_dot key) suffix).bytes (push_suffix (push_dot key) suffix).len
      ≡ some 0
    → optics_key_push key suffix ≡ some (key.len, push_suffix (push_dot key) suffix)
unfolding optics_key_push
pushed key suffix h e = ground arith

full :
    (s suffix : List ℕ) (key : Key)
    → Holds s key
    → length s ≡ 255
    → optics_key_push key suffix ≡ some (length s, key)
unfolding optics_key_push
full s suffix key h e = ground arith

-- A push onto a key that holds `s` never aborts, returns the length of `s`, and leaves `joined`.
pub push-Holds :
    (s suffix : List ℕ) (key : Key)
    → Holds s key
    → NoNil suffix
    → (out : Key) × (optics_key_push key suffix ≡ some (length s, out))
      × Holds (joined s suffix) out
unfolding joined
push-Holds s suffix key h hx = elim (Bool-cases (length s == 255)) [
  | inl e ↦ (key, full s suffix key h (ground arith), rw e h)
  | inr e ↦
      let (t, bytes, len, size) = push_dot-dotted s key h in
      let l = length-dotted s in
      let held =
        push_suffix-Holds (dotted s) suffix t (push_dot key) (NoNil-dotted s h.no_nil) hx bytes len
          size (ground arith) in
      (
        push_suffix (push_dot key) suffix,
        rw (← h.len) (pushed key suffix (ground arith) (Holds-end _ _ held)),
        rw e held,
      )
]

cut :
    (s rest : List ℕ) (pos : ℕ)
    → pos ≤ length s
    → write_at (s ++ (0 ∷ rest)) pos (0 ∷ [])
      ≡ take pos s ++ (0 ∷ drop 1 (drop pos s ++ (0 ∷ rest)))
cut [] rest zero h = refl
cut [] rest (suc pos) h = absurd (omega arith)
cut (c ∷ s) rest zero h = refl
cut (c ∷ s) rest (suc pos) h = ap (λ r. c ∷ r) (cut s rest pos (omega arith))

-- A pop to a length within the string cuts it there.
pub pop-Holds :
    (s : List ℕ) (key : Key) (pos : ℕ)
    → Holds s key
    → pos ≤ length s
    → (out : Key) × (optics_key_pop key pos ≡ some out) × Holds (take pos s) out
unfolding optics_key_pop
pop-Holds s key pos h le =
    let n = length-take pos s in
    let m = length-drop pos s in
    let k = length-append (drop pos s) (0 ∷ h.rest) in
    let l = length-drop 1 (drop pos s ++ (0 ∷ h.rest)) in
    (
      record { len = pos; bytes = write_at key.bytes pos (0 ∷ []) },
      ground arith,
      record {
        rest = drop 1 (drop pos s ++ (0 ∷ h.rest));
        bytes = rw h.bytes (cut s h.rest pos le);
        len = omega arith;
        size = omega arith;
        no_nil = NoNil-take pos s h.no_nil;
      },
    )

take-take_append : (s t : List ℕ) (n : ℕ) → length s ≤ n → take (length s) (take n (s ++ t)) ≡ s
take-take_append [] t n h = refl
take-take_append (c ∷ s) t zero h = absurd (omega arith)
take-take_append (c ∷ s) t (suc n) h = ap (λ r. c ∷ r) (take-take_append s t n (omega arith))

take-length : (s : List ℕ) → take (length s) s ≡ s
take-length [] = refl
take-length (c ∷ s) = ap (λ r. c ∷ r) (take-length s)

take-joined : (s suffix : List ℕ) → length s ≤ 255 → take (length s) (joined s suffix) ≡ s
unfolding joined dotted
take-joined [] suffix h = refl
take-joined (c ∷ s) suffix h = elim (Bool-cases (length (c ∷ s) == 255)) [
  | inl e ↦ rw e (take-length (c ∷ s))
  | inr e ↦ rw (e, append_assoc) (take-take_append (c ∷ s) (b'.' ∷ suffix) 255 h)
]

-- A pop to what a push returned restores the string that the key held, whatever was pushed and
-- also where the key was full.
pub push-pop :
    (s suffix : List ℕ) (key : Key)
    → Holds s key
    → NoNil suffix
    → (out back : Key) × (optics_key_push key suffix ≡ some (length s, out))
      × (optics_key_pop out (length s) ≡ some back)
      × Holds s back
push-pop s suffix key h hx =
    let (out, pushes, held) = push-Holds s suffix key h hx in
    let same = take-joined s suffix (omega (arith, h.size)) in
    let shorter : length s ≤ length (joined s suffix) =
      omega (arith, ap length same, length-take (length s) (joined s suffix)) in
    let (back, pops, cut) = pop-Holds (joined s suffix) out (length s) held shorter in
    (out, back, pushes, pops, subst (λ r. Holds r back) same cut)
