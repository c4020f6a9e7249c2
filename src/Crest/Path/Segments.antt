-- ===== src/Crest/Path/Segments.antt =====
-- The tokens of a URL, and the rounds of the loops of `path_new`.
use optics_light.Crest.Path.{count_from, fill_from}
use optics_light.Prelude.{ℕ, suc, ◌≡◌, List, [], ◌∷◌, Bool, true, false, ◌==◌, if◌then◌else◌, arith}

-- The pieces of a text between slashes, up to a question mark: the first one and the others.
unfoldable pub pieces : List ℕ → List ℕ × List (List ℕ)
pieces [] = ([], [])
pieces (c ∷ cs) = elim (c == b'?') [
  | true ↦ ([], [])
  | false ↦ elim (c == b'/') [
    | true ↦ ([], (pieces cs).0 ∷ (pieces cs).1)
    | false ↦ (c ∷ (pieces cs).0, (pieces cs).1)
  ]
]

unfoldable pub not_empty : List (List ℕ) → List (List ℕ)
not_empty [] = []
not_empty ([] ∷ ts) = not_empty ts
not_empty ((c ∷ t) ∷ ts) = (c ∷ t) ∷ not_empty ts

-- The tokens of a URL: its pieces that are not empty.
unfoldable pub segments : List ℕ → List (List ℕ)
segments s = not_empty ((pieces s).0 ∷ (pieces s).1)

-- The rounds of the loop and of the pieces, by what the byte is.
module _ (c : ℕ) (cs : List ℕ) where
  pub fill_query :
      (i : ℕ) (inside : Bool) → (c == b'?') ≡ true → fill_from (c ∷ cs) i inside ≡ (0 ∷ cs, [])
  unfolding fill_from
  fill_query i inside e = ground arith

  pub fill_slash :
      (i : ℕ) (inside : Bool)
      → (c == b'?') ≡ false
      → (c == b'/') ≡ true
      → fill_from (c ∷ cs) i inside
        ≡ (0 ∷ (fill_from cs (suc i) false).0, (fill_from cs (suc i) false).1)
  unfolding fill_from
  fill_slash i inside e s = ground arith

  pub fill_letter :
      (i : ℕ) (inside : Bool)
      → (c == b'?') ≡ false
      → (c == b'/') ≡ false
      → let rest = fill_from cs (suc i) true in
        fill_from (c ∷ cs) i inside ≡ (c ∷ rest.0, if inside then rest.1 else i ∷ rest.1)
  unfolding fill_from
  fill_letter i true e s = ground arith
  fill_letter i false e s = ground arith

  pub pieces_query : (c == b'?') ≡ true → pieces (c ∷ cs) ≡ ([], [])
  unfolding pieces
  pieces_query e = ground arith

  pub pieces_slash :
      (c == b'?') ≡ false
      → (c == b'/') ≡ true
      → pieces (c ∷ cs) ≡ ([], (pieces cs).0 ∷ (pieces cs).1)
  unfolding pieces
  pieces_slash e s = ground arith

  pub pieces_letter :
      (c == b'?') ≡ false
      → (c == b'/') ≡ false
      → pieces (c ∷ cs) ≡ (c ∷ (pieces cs).0, (pieces cs).1)
  unfolding pieces
  pieces_letter e s = ground arith

  pub count_query : (inside : Bool) → (c == b'?') ≡ true → count_from (c ∷ cs) inside ≡ 0
  unfolding count_from
  count_query inside e = ground arith

  pub count_slash :
      (inside : Bool)
      → (c == b'?') ≡ false
      → (c == b'/') ≡ true
      → count_from (c ∷ cs) inside ≡ count_from cs false
  unfolding count_from
  count_slash inside e s = ground arith

  pub count_letter :
      (inside : Bool)
      → (c == b'?') ≡ false
      → (c == b'/') ≡ false
      → count_from (c ∷ cs) inside
        ≡ (if inside then count_from cs true else suc (count_from cs true))
  unfolding count_from
  count_letter true e s = ground arith
  count_letter false e s = ground arith
