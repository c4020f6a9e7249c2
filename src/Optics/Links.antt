-- ===== src/Optics/Links.antt =====
-- Adding a lens to the list of the registry and taking one out.
use optics_light.Lens.{Lens}
use optics_light.Optics.Chain.{Chain, Chain-agree, among_apart}
use optics_light.Optics.Defer.{among, among-append}
use optics_light.Optics.Lenses.{Heap, update, link_back, lens_set_next, skip_back, skip_forth}
use optics_light.Prelude.{
  ℕ, ◌≡◌, ◌≢◌, refl, ap, ◌∙◌, some, List, [], ◌∷◌, ◌++◌, true, false, ◌==◌, arith, Bool-cases, inl,
  inr,
}

pub among_tail :
    (q p : ℕ) (ps : List ℕ) → among q (p ∷ ps) ≡ false → ((q == p) ≡ false) × (among q ps ≡ false)
unfolding among
among_tail q p ps h = (ground arith, ground arith)

among_without :
    (q p : ℕ) (as' bs : List ℕ) → among q (as' ++ (p ∷ bs)) ≡ false → among q (as' ++ bs) ≡ false
unfolding among
among_without q p [] bs h = ground arith
among_without q p (a ∷ as') bs h = elim (Bool-cases (q == a)) [
  | inl e ↦ absurd (ground arith)
  | inr e ↦ let ih = among_without q p as' bs (ground arith) in ground arith
]

module _ {D : Type 0} where
  link_back_nil : (h : Heap D) (p : ℕ) → link_back h p 0 ≡ some h
  unfolding link_back
  link_back_nil h p = refl

  skip_back_nil : (h : Heap D) (p prev : ℕ) → skip_back h p 0 prev ≡ some h
  unfolding skip_back
  skip_back_nil h p prev = refl

  link_back_lem :
      (h : Heap D) (p x : ℕ) (n : Lens D)
      → h x ≡ some n
      → x ≢ 0
      → n.prev ≡ 0
      → link_back h p x ≡ some (update h x (some (record n { prev = p })))
  unfolding link_back
  link_back_lem h p x n e filled first =
      let not_null : (x == 0) ≡ false = ground arith in
      let is_first : (n.prev == 0) ≡ true = ground arith in rw (not_null, e, is_first) refl

  skip_back_lem :
      (h : Heap D) (p b prev : ℕ) (n : Lens D)
      → h b ≡ some n
      → b ≢ 0
      → n.prev ≡ p
      → skip_back h p b prev ≡ some (update h b (some (record n { prev = prev })))
  unfolding skip_back
  skip_back_lem h p b prev n e filled back =
      let not_null : (b == 0) ≡ false = ground arith in
      let linked : (n.prev == p) ≡ true = ground arith in rw (not_null, e, linked) refl

  skip_forth_lem :
      (h : Heap D) (p next a : ℕ) (n : Lens D)
      → h a ≡ some n
      → a ≢ 0
      → n.next ≡ p
      → skip_forth h p next a ≡ some (update h a (some (record n { next = next })))
  unfolding skip_forth
  skip_forth_lem h p next a n e filled forth =
      let not_null : (a == 0) ≡ false = ground arith in
      let linked : (n.next == p) ≡ true = ground arith in rw (not_null, e, linked) refl

  pub set_next-Chain :
      (h : Heap D) (p : ℕ) (l : Lens D) (ps : List ℕ) (head : ℕ)
      → Chain h 0 ps head
      → h p ≡ some l
      → l.prev ≡ 0
      → p ≢ 0
      → among p ps ≡ false
      → (h' : Heap D) × (lens_set_next h p head ≡ some h') × Chain h' 0 (p ∷ ps) p
  unfolding Chain lens_set_next among
  set_next-Chain h p l [] head chain e alone some_address apart =
      let h1 : Heap D = update h p (some (record l { next = head })) in
      (
        h1,
        rw e (ap (λ k. link_back h1 p k) chain ∙ link_back_nil h1 p),
        (refl, some_address, refl, (record l { next = head }, ground arith, alone, chain)),
      )
  set_next-Chain h p l (x ∷ xs) head (at, filled, once, (n, e', back, rest)) e alone some_address
        apart =
      let l1 : Lens D = record l { next = head } in
      let n1 : Lens D = record n { prev = p } in
      let h1 : Heap D = update h p (some l1) in
      let h2 : Heap D = update h1 x (some n1) in
      let (differ, out) = among_tail p x xs apart in
      let e1 : h1 x ≡ some n = ground arith in
      let kept : (q : ℕ) → among q xs ≡ true → h2 q ≡ h q =
        λ q i. ground (arith, among_apart q x xs once i, among_apart q p xs out i) in
      (
        h2,
        rw e (ap (λ k. link_back h1 p k) at ∙ link_back_lem h1 p x n e1 filled back),
        (
          refl,
          some_address,
          apart,
          (
            l1,
            ground arith,
            alone,
            (at, filled, once, (n1, ground arith, refl, Chain-agree h h2 x xs n.next kept rest)),
          ),
        ),
      )

  -- The lens behind the one that goes gets its `prev`.
  pub skip_back-Chain :
      (h : Heap D) (p next prev : ℕ) (bs : List ℕ)
      → Chain h p bs next
      → (h1 : Heap D) × (skip_back h p next prev ≡ some h1)
        × Chain h1 prev bs next
        × ((q : ℕ) → among q bs ≡ false → h1 q ≡ h q)
  unfolding Chain among
  skip_back-Chain h p next prev [] chain =
      (h, ap (λ k. skip_back h p k prev) chain ∙ skip_back_nil h p prev, chain, λ q i. refl)
  skip_back-Chain h p next prev (b ∷ bs) (at, filled, once, (n, e, back, rest)) =
      let n1 : Lens D = record n { prev = prev } in
      let h1 : Heap D = update h b (some n1) in
      (
        h1,
        rw at (skip_back_lem h p b prev n e filled back),
        (
          at,
          filled,
          once,
          (
            n1,
            ground arith,
            refl,
            Chain-agree h h1 b bs n.next (λ q i. ground (arith, among_apart q b bs once i)) rest,
          ),
        ),
        λ q i. ground arith,
      )

  same_lens : (l l' : Lens D) (h : Heap D) (p : ℕ) → h p ≡ some l → h p ≡ some l' → l ≡ l'
  same_lens l l' h p e e' = ground arith

  -- The lens before the one that goes gets its `next`.
  pub skip_forth-Chain :
      (as' bs : List ℕ) (a p prev head : ℕ) (h h1 : Heap D) (l : Lens D)
      → Chain h prev ((a ∷ as') ++ (p ∷ bs)) head
      → h p ≡ some l
      → Chain h1 l.prev bs l.next
      → ((q : ℕ) → among q bs ≡ false → h1 q ≡ h q)
      → (h2 : Heap D) × (skip_forth h1 p l.next l.prev ≡ some h2)
        × Chain h2 prev ((a ∷ as') ++ bs) head
        × ((q : ℕ) → among q (a ∷ as') ≡ false → among q bs ≡ false → h2 q ≡ h q)
        × ((q : ℕ) → among q (a ∷ as') ≡ false → h2 q ≡ h1 q)
  unfolding Chain among
  skip_forth-Chain [] bs a p prev head h h1 l
        (at, filled, once, (la, ea, back, (next, filled_p, once_p, (lp, ep, back_p, rest)))) e
        chain1 same =
      let la1 : Lens D = record la { next = l.next } in
      let h2 : Heap D = update h1 a (some la1) in
      let before : l.prev ≡ a = ap (λ (r : Lens D). r.prev) (same_lens l lp h p e ep) ∙ back_p in
      let (differ, once_b) = among_tail a p bs once in
      (
        h2,
        rw before (skip_forth_lem h1 p l.next a la (same a once_b ∙ ea) filled next),
        (
          at,
          filled,
          once_b,
          (
            la1,
            ground arith,
            back,
            Chain-agree h1 h2 a bs l.next (λ q i. rw (among_apart q a bs once_b i) refl)
                (rw before at chain1),
          ),
        ),
        λ q i j. ground (arith, same q j),
        λ q i. ground arith,
      )
  skip_forth-Chain (x ∷ xs) bs a p prev head h h1 l (at, filled, once, (la, ea, back, rest)) e
        chain1 same =
      let (h2, run, chain2, frame, frame2) =
        skip_forth-Chain xs bs x p a la.next h h1 l rest e chain1 same in
      let once_b = among_without a p (x ∷ xs) bs once in
      (
        h2,
        run,
        (
          at,
          filled,
          once_b,
          (
            la,
            frame a (among-append a (x ∷ xs) (p ∷ bs) once).0
                  (among_tail a p bs (among-append a (x ∷ xs) (p ∷ bs) once).1).1
                ∙ ea,
            back,
            chain2,
          ),
        ),
        λ q i j. frame q (among_tail q a (x ∷ xs) i).1 j,
        λ q i. frame2 q (among_tail q a (x ∷ xs) i).1,
      )
