-- ===== src/Optics/Listed.antt =====
-- The list of the registry through additions and removals.
use optics_light.Lens.{Lens}
use optics_light.Optics.{Optics, optics_push_lens, optics_remove_lens}
use optics_light.Optics.Chain.{Chain}
use optics_light.Optics.Defer.{among, among-append}
use optics_light.Optics.Lenses.{Heap, lens_next, skip_back, skip_forth, lens_kill}
use optics_light.Optics.Links.{among_tail, set_next-Chain, skip_back-Chain, skip_forth-Chain}
use optics_light.Prelude.{
  ℕ, ◌≡◌, ◌≢◌, refl, ap, sym, ◌∙◌, some, List, [], ◌∷◌, ◌++◌, true, false, ◌==◌, if◌then◌else◌,
  arith,
}

not_among :
    (p a : ℕ) (as' bs : List ℕ)
    → among a (as' ++ (p ∷ bs)) ≡ false
    → among p as' ≡ false
    → among p (a ∷ as') ≡ false
unfolding among
not_among p a as' bs once apart =
    let (left, right) = among-append a as' (p ∷ bs) once in
    let (differ, rest) = among_tail a p bs right in ground arith

module _ {D : Type 0} where
  -- A lens within the list.
  inside :
      (as' bs : List ℕ) (h : Heap D) (prev p head : ℕ)
      → Chain h prev (as' ++ (p ∷ bs)) head
      → (l : Lens D) × (h p ≡ some l)
        × (among p as' ≡ false)
        × (among p bs ≡ false)
        × Chain h p bs l.next
  unfolding Chain among
  inside [] bs h prev p head (at, filled, once, (l, e, back, rest)) = (l, e, refl, once, rest)
  inside (a ∷ as') bs h prev p head (at, filled, once, (la, ea, back, rest)) =
      let (l, e, apart, once_p, chain) = inside as' bs h a p la.next rest in
      (l, e, not_among p a as' bs once apart, once_p, chain)

  forth_nil : (h : Heap D) (p next : ℕ) → skip_forth h p next 0 ≡ some h
  unfolding skip_forth
  forth_nil h p next = refl

  kill-run :
      (h h1 h2 : Heap D) (p : ℕ) (l : Lens D)
      → h p ≡ some l
      → skip_back h p l.next l.prev ≡ some h1
      → skip_forth h1 p l.next l.prev ≡ some h2
      → lens_kill h p ≡ some h2
  unfolding lens_kill
  kill-run h h1 h2 p l e back forth = rw (e, back, forth) refl

  -- Taking a lens out of memory's list; the lens itself stays as it is.
  kill-Chain :
      (as' bs : List ℕ) (h : Heap D) (p head : ℕ)
      → Chain h 0 (as' ++ (p ∷ bs)) head
      → (h2 : Heap D) × (l : Lens D) × (lens_kill h p ≡ some h2)
        × (h p ≡ some l)
        × (h2 p ≡ some l)
        × Chain h2 0 (as' ++ bs) (if head == p then l.next else head)
  unfolding Chain
  kill-Chain [] bs h p head (at, filled, once, (l, e, back, rest)) =
      let (h1, run1, chain1, same) = skip_back-Chain h p l.next l.prev bs rest in
      let here : (head == p) ≡ true = ground arith in
      (
        h1,
        l,
        kill-run h h1 h1 p l e run1
            (ap (λ k. skip_forth h1 p l.next k) back ∙ forth_nil h1 p l.next),
        e,
        same p once ∙ e,
        rw here (rw (← back) chain1),
      )
  kill-Chain (a ∷ as') bs h p head chain =
      let (l, e, apart, once, rest) = inside (a ∷ as') bs h 0 p head chain in
      let (h1, run1, chain1, same) = skip_back-Chain h p l.next l.prev bs rest in
      let (h2, run2, chain2, frame, frame2) =
        skip_forth-Chain as' bs a p 0 head h h1 l chain e chain1 same in
      let (differ, others) = among_tail p a as' apart in
      let elsewhere : (head == p) ≡ false = ground (arith, chain.0) in
      (h2, l, kill-run h h1 h2 p l e run1 run2, e, frame p apart once ∙ e, rw elsewhere chain2)

module _ {D T : Type 0} where
  -- Adding a lens that is in memory and in no list never fails, and puts it first.
  pub push_lens-Chain :
      (o : Optics D T) (ps : List ℕ) (p : ℕ) (l : Lens D)
      → Chain o.heap 0 ps o.lens_head
      → o.heap p ≡ some l
      → l.prev ≡ 0
      → p ≢ 0
      → among p ps ≡ false
      → (out : Optics D T) × (optics_push_lens o p ≡ some out)
        × Chain out.heap 0 (p ∷ ps) out.lens_head
  unfolding optics_push_lens
  push_lens-Chain o ps p l chain e alone some_address apart =
      let (h, run, chain') =
        set_next-Chain o.heap p l ps o.lens_head chain e alone some_address apart in
      (record o { heap = h; lens_head = p }, rw run refl, chain')

  removed :
      (o : Optics D T) (p : ℕ) (h : Heap D) (l : Lens D)
      → lens_kill o.heap p ≡ some h
      → h p ≡ some l
      → optics_remove_lens o p
        ≡ some (record o { heap = h; lens_head = if o.lens_head == p then l.next else o.lens_head })
  unfolding optics_remove_lens lens_next
  removed o p h l kill e = rw (kill, e) refl

  -- Taking out any lens of the list never fails and leaves the others in their order. The lens that
  -- went stays in memory as it was, so a traversal that stands on it goes on to its successor.
  pub remove_lens-Chain :
      (as' bs : List ℕ) (o : Optics D T) (p : ℕ)
      → Chain o.heap 0 (as' ++ (p ∷ bs)) o.lens_head
      → (out : Optics D T) × (optics_remove_lens o p ≡ some out)
        × Chain out.heap 0 (as' ++ bs) out.lens_head
        × (out.heap p ≡ o.heap p)
  remove_lens-Chain as' bs o p chain =
      let (h, l, kill, e, e', chain') = kill-Chain as' bs o.heap p o.lens_head chain in
      (
        record o { heap = h; lens_head = if o.lens_head == p then l.next else o.lens_head },
        removed o p h l kill e',
        chain',
        e' ∙ sym e,
      )
