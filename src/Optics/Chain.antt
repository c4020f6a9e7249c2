-- ===== src/Optics/Chain.antt =====
-- The list of the lenses in memory: `lens_head` and the fields `next` and `prev`.
use optics_light.Lens.{Lens}
use optics_light.Optics.Defer.{among}
use optics_light.Optics.Lenses.{Heap}
use optics_light.Prelude.{
  ℕ, ◌≡◌, ◌≢◌, ap, ◌∙◌, some, List, [], ◌∷◌, true, false, ◌==◌, arith, Bool-cases, inl, inr,
}

-- From `head` on, the different lenses `ps` follow one another, each with the one before as `prev`,
-- and the last one has no `next`.
unfoldable pub Chain : {D : Type 0} → Heap D → ℕ → List ℕ → ℕ → Type 0
Chain h prev [] head = head ≡ 0
Chain {D} h prev (p ∷ ps) head =
    (head ≡ p)
    × (p ≢ 0)
    × (among p ps ≡ false)
    × ((l : Lens D) × (h p ≡ some l) × (l.prev ≡ prev) × Chain h p ps l.next)

pub among_here : (p : ℕ) (ps : List ℕ) → among p (p ∷ ps) ≡ true
unfolding among
among_here p ps = ground arith

pub among_there : (q p : ℕ) (ps : List ℕ) → among q ps ≡ true → among q (p ∷ ps) ≡ true
unfolding among
among_there q p ps h = ground arith

pub among_apart :
    (q p : ℕ) (ps : List ℕ) → among p ps ≡ false → among q ps ≡ true → (p == q) ≡ false
among_apart q p ps apart here = elim (Bool-cases (p == q)) [
  | inl e ↦ let same : p ≡ q = ground arith in absurd (ground (arith, ap (λ r. among r ps) same))
  | inr e ↦ e
]

module _ {D : Type 0} where
  pub Chain-agree :
      (h h' : Heap D) (prev : ℕ) (ps : List ℕ) (head : ℕ)
      → ((q : ℕ) → among q ps ≡ true → h' q ≡ h q)
      → Chain h prev ps head
      → Chain h' prev ps head
  unfolding Chain
  Chain-agree h h' prev [] head same chain = chain
  Chain-agree h h' prev (p ∷ ps) head same (at, some_address, apart, (l, e, back, rest)) =
      let here = same p (among_here p ps) in
      (
        at,
        some_address,
        apart,
        (
          l,
          here ∙ e,
          back,
          Chain-agree h h' p ps l.next (λ q i. same q (among_there q p ps i)) rest,
        ),
      )
