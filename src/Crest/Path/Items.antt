-- ===== src/Crest/Path/Items.antt =====
-- What the items of a path are.
use optics_light.Memory.{c_string, NoNil, NoNil-take}
use optics_light.Crest.Path.{
  CrestPath, count_from, fill_from, path_new, path_empty, path_head, path_tail, item_string,
  max_path_len,
}
use optics_light.Crest.Path.Segments.{
  pieces, not_empty, segments, fill_query, fill_slash, fill_letter, pieces_query, pieces_slash,
  pieces_letter, count_query, count_slash, count_letter,
}
use optics_light.Prelude.{
  ℕ, zero, suc, ◌+◌, ◌≤◌, ◌<◌, ◌≡◌, refl, ap, ap₂, sym, ◌∙◌, none, some, List, [], ◌∷◌, ◌++◌, map,
  Bool, true, false, ◌==◌, if◌then◌else◌, ltb, take, drop, get_or, length, arith, append_assoc,
  length-append, Bool-cases, inl, inr,
}

abbrev strings : List ℕ → List ℕ → List (List ℕ)
strings raw items = map (λ o. item_string raw o) items

-- What the filling loop leaves after `pre`.
expected : Bool → List ℕ → List (List ℕ)
expected true s = not_empty (pieces s).1
expected false s = segments s

drop_all : (pre r : List ℕ) → drop (length pre) (pre ++ r) ≡ r
drop_all [] r = refl
drop_all (c ∷ pre) r = drop_all pre r

-- Both loops agree on the number of items.
count-fill :
    (cs : List ℕ) (i : ℕ) (inside : Bool) → count_from cs inside ≡ length (fill_from cs i inside).1
unfolding count_from fill_from
count-fill [] i inside = refl
count-fill (c ∷ cs) i inside = elim (Bool-cases (c == b'?')) [
  | inl e ↦ rw (fill_query c cs i inside e, count_query c cs inside e) refl
  | inr e ↦ elim (Bool-cases (c == b'/')) [
    | inl s ↦
        rw (fill_slash c cs i inside e s, count_slash c cs inside e s) (count-fill cs (suc i) false)
    | inr s ↦ letter inside (count-fill cs (suc i) true) e s
  ]
]
  where
    letter :
        (inside : Bool)
        → count_from cs true ≡ length (fill_from cs (suc i) true).1
        → (c == b'?') ≡ false
        → (c == b'/') ≡ false
        → count_from (c ∷ cs) inside ≡ length (fill_from (c ∷ cs) i inside).1
    letter true ih e s = rw (fill_letter c cs i true e s, count_letter c cs true e s) ih
    letter false ih e s = rw (fill_letter c cs i false e s, count_letter c cs false e s) (ap suc ih)

fill_word :
    (cs : List ℕ) (i : ℕ) (inside : Bool)
    → NoNil cs
    → c_string (fill_from cs i inside).0 ≡ (pieces cs).0
fill_word [] i inside h = unfold fill_from pieces in refl
fill_word (c ∷ cs) i inside (ne, h) = elim (Bool-cases (c == b'?')) [
  | inl e ↦ rw (fill_query c cs i inside e, pieces_query c cs e) refl
  | inr e ↦ elim (Bool-cases (c == b'/')) [
    | inl s ↦ rw (fill_slash c cs i inside e s, pieces_slash c cs e s) refl
    | inr s ↦
        let nil : (c == 0) ≡ false = ground arith in
        rw (fill_letter c cs i inside e s, pieces_letter c cs e s, nil)
          (ap (λ t. c ∷ t) (fill_word cs (suc i) true h))
  ]
]

length_snoc : (pre : List ℕ) (c : ℕ) → length (pre ++ (c ∷ [])) ≡ suc (length pre)
length_snoc pre c = omega (arith, length-append pre (c ∷ []))

item_at :
    (pre : List ℕ) (c : ℕ) (r : List ℕ)
    → (c == 0) ≡ false
    → item_string (pre ++ (c ∷ r)) (length pre) ≡ c ∷ c_string r
unfolding item_string
item_at pre c r nil = rw (drop_all, nil) refl

-- The strings that the items point to, behind any bytes `pre`.
fill_strings :
    (cs pre : List ℕ) (inside : Bool)
    → NoNil cs
    → let filled = fill_from cs (length pre) inside in
      strings (pre ++ filled.0) filled.1 ≡ expected inside cs
fill_strings [] pre true h = unfold fill_from expected pieces not_empty in refl
fill_strings [] pre false h = unfold fill_from expected segments pieces not_empty in refl
fill_strings (c ∷ cs) pre inside (ne, h) = elim (Bool-cases (c == b'?')) [
  | inl e ↦ rw (fill_query c cs (length pre) inside e) (query inside e)
  | inr e ↦ elim (Bool-cases (c == b'/')) [
    | inl s ↦
        rw (fill_slash c cs (length pre) inside e s)
          (moved 0 false (fill_strings cs (pre ++ (0 ∷ [])) false h) ∙ slash inside e s)
    | inr s ↦
        letter inside e s (moved c true (fill_strings cs (pre ++ (c ∷ [])) true h))
          (fill_word cs (suc (length pre)) true h) (ground arith)
  ]
]
  where
    more : (c == b'?') ≡ false → (c == b'/') ≡ false → expected true cs ≡ expected true (c ∷ cs)
    more e s = unfold expected in rw (pieces_letter c cs e s) refl

    starts :
        (c == b'?') ≡ false
        → (c == b'/') ≡ false
        → expected false (c ∷ cs) ≡ (c ∷ (pieces cs).0) ∷ expected true cs
    starts e s = unfold expected segments not_empty in rw (pieces_letter c cs e s) refl

    query : (inside : Bool) → (c == b'?') ≡ true → [] ≡ expected inside (c ∷ cs)
    query true e = unfold expected not_empty in rw (pieces_query c cs e) refl
    query false e = unfold expected segments not_empty in rw (pieces_query c cs e) refl

    slash :
        (inside : Bool)
        → (c == b'?') ≡ false
        → (c == b'/') ≡ true
        → expected false cs ≡ expected inside (c ∷ cs)
    slash true e s = unfold expected segments in rw (pieces_slash c cs e s) refl
    slash false e s = unfold expected segments not_empty in rw (pieces_slash c cs e s) refl

    moved :
        (b : ℕ) (now : Bool)
        → strings
            ((pre ++ (b ∷ [])) ++ (fill_from cs (length (pre ++ (b ∷ []))) now).0)
            (fill_from cs (length (pre ++ (b ∷ []))) now).1
          ≡ expected now cs
        → strings
            (pre ++ (b ∷ (fill_from cs (suc (length pre)) now).0))
            (fill_from cs (suc (length pre)) now).1
          ≡ expected now cs
    moved b now ih = simp (length_snoc, append_assoc) at ih

    letter :
        (inside : Bool)
        → (c == b'?') ≡ false
        → (c == b'/') ≡ false
        → strings
            (pre ++ (c ∷ (fill_from cs (suc (length pre)) true).0))
            (fill_from cs (suc (length pre)) true).1
          ≡ expected true cs
        → c_string (fill_from cs (suc (length pre)) true).0 ≡ (pieces cs).0
        → (c == 0) ≡ false
        → let filled = fill_from (c ∷ cs) (length pre) inside in
          strings (pre ++ filled.0) filled.1 ≡ expected inside (c ∷ cs)
    letter true e s ih word nil = rw (fill_letter c cs (length pre) true e s) (ih ∙ more e s)
    letter false e s ih word nil = rw (fill_letter c cs (length pre) false e s) (
        ap₂ (λ t ts. t ∷ ts)
          (item_at pre c (fill_from cs (suc (length pre)) true).0 nil ∙ ap (λ t. c ∷ t) word) ih
        ∙ sym (starts e s))

-- What is left of a path.
unfoldable pub path_rest : CrestPath → List (List ℕ)
path_rest path = drop path.i (strings path.raw path.items)

pub record IsPath (path : CrestPath) : Type 0 where
  pub counted : path.n ≡ length path.items
  pub within : path.i ≤ path.n

-- The items of a path that is made of a text without nils are the segments of the first 1024 bytes of
-- the text: what stands between slashes, up to a question mark, the empty ones left out. The path
-- counts all of them, and nothing of it is read yet.
pub path_new-segments :
    (raw : List ℕ)
    → NoNil raw
    → IsPath (path_new raw) × (path_rest (path_new raw) ≡ segments (take max_path_len raw))
unfolding path_new path_rest
path_new-segments raw h = (
  record { counted = count-fill (take max_path_len raw) 0 false; within = omega arith },
  fill_strings (take max_path_len raw) [] false (NoNil-take max_path_len raw h)
      ∙ (unfold expected in refl),
)

drop-map : (f : ℕ → List ℕ) (xs : List ℕ) (i : ℕ) → drop i (map f xs) ≡ map f (drop i xs)
drop-map f xs zero = refl
drop-map f [] (suc i) = refl
drop-map f (x ∷ xs) (suc i) = drop-map f xs i

drop_next : (xs : List ℕ) (i : ℕ) → i < length xs → drop i xs ≡ get_or xs i 0 ∷ drop (suc i) xs
drop_next [] i h = absurd (omega arith)
drop_next (x ∷ xs) zero h = refl
drop_next (x ∷ xs) (suc i) h = drop_next xs i (omega arith)

drop_end : (xs : List ℕ) (i : ℕ) → length xs ≤ i → drop i xs ≡ []
drop_end [] zero h = refl
drop_end [] (suc i) h = refl
drop_end (x ∷ xs) zero h = absurd (omega arith)
drop_end (x ∷ xs) (suc i) h = drop_end xs i (omega arith)

-- At the end of a path.
pub IsPath-end :
    (path : CrestPath)
    → IsPath path
    → path_empty path ≡ true
    → (path_rest path ≡ []) × (path_head path ≡ none) × (path_tail path ≡ path)
unfolding path_empty path_rest path_head path_tail
IsPath-end path is e =
    let f = item_string path.raw in
    let same : (if ltb path.i path.n then path.i + 1 else path.n) ≡ path.i = ground arith in
    (
      drop-map f path.items path.i
          ∙ ap (map f) (drop_end path.items path.i (ground (arith, is.counted))),
      rw e refl,
      ap (λ k. record path { i = k }) same,
    )

-- On a path that counts its items and is not at its end, `path_head` gives the first of the tokens that
-- are left, and `path_tail` leaves the others.
pub IsPath-step :
    (path : CrestPath)
    → IsPath path
    → path_empty path ≡ false
    → (t : List ℕ) × (path_head path ≡ some t)
      × (path_rest path ≡ t ∷ path_rest (path_tail path))
      × IsPath (path_tail path)
unfolding path_empty path_rest path_head path_tail
IsPath-step path is e =
    let lt : path.i < path.n = ground (arith, is.within) in
    let f = item_string path.raw in
    let next : (if ltb path.i path.n then path.i + 1 else path.n) ≡ suc path.i = ground arith in
    (
      item_string path.raw (get_or path.items path.i 0),
      rw e refl,
      rw next (
          drop-map f path.items path.i
          ∙ ap (map f) (drop_next path.items path.i (omega (arith, is.counted)))
          ∙ ap (λ r. f (get_or path.items path.i 0) ∷ r)
              (sym (drop-map f path.items (suc path.i)))),
      record { counted = is.counted; within = ground arith },
    )
