-- ===== src/Optics/Frame.antt =====
-- The changes of the list leave the names of the lenses.
use mathlib.Core.Path.{subst}
use optics_light.Lens.{Lens, lens_name}
use optics_light.Optics.{Optics, optics_push_lens, optics_remove_lens}
use optics_light.Optics.Lenses.{
  Heap, ◌>>=◌, update, lens_next, link_back, lens_set_next, skip_back, skip_forth, lens_kill,
}
use optics_light.Prelude.{
  ℕ, ◌≡◌, refl, ap, sym, ◌∙◌, none, some, Bool, ◌==◌, if◌then◌else◌, arith, Bool-cases,
  Option-cases, inl, inr,
}

module _ {D : Type 0} where
  -- Every lens is still there, under its name.
  unfoldable pub Keeps : Heap D → Heap D → Type 0
  Keeps h h' =
      (q : ℕ) (l : Lens D)
      → h q ≡ some l
      → (l' : Lens D) × (h' q ≡ some l') × (lens_name l' ≡ lens_name l)

  Keeps-refl : (h : Heap D) → Keeps h h
  unfolding Keeps
  Keeps-refl h q l e = (l, e, refl)

  Keeps-trans : (h1 h2 h3 : Heap D) → Keeps h1 h2 → Keeps h2 h3 → Keeps h1 h3
  unfolding Keeps
  Keeps-trans h1 h2 h3 k1 k2 q l e =
      let (l2, e2, n2) = k1 q l e in let (l3, e3, n3) = k2 q l2 e2 in (l3, e3, n3 ∙ n2)

  update-Keeps :
      (h : Heap D) (p : ℕ) (old new : Lens D)
      → h p ≡ some old
      → lens_name new ≡ lens_name old
      → Keeps h (update h p (some new))
  unfolding Keeps
  update-Keeps h p old new at same q l e = elim (Bool-cases (p == q)) [
    | inl here ↦
        let eq : p ≡ q = ground arith in
        let one : old ≡ l = some_inj old l (sym at ∙ ap h eq ∙ e) in
        (new, rw here refl, same ∙ ap lens_name one)
    | inr other ↦ (l, rw other e, refl)
  ]
    where
      some_inj : (a b : Lens D) → some a ≡ some b → a ≡ b
      some_inj a b s = ground (arith, s)

  -- The common form of the three changes.
  guarded-Keeps :
      (h h' : Heap D) (a : ℕ) (test : Lens D → Bool) (new : Lens D → Lens D)
      → ((n : Lens D) → lens_name (new n) ≡ lens_name n)
      → (if a == 0
          then some h
          else (do n ← h a; if test n then some (update h a (some (new n))) else none))
        ≡ some h'
      → Keeps h h'
  guarded-Keeps h h' a test new names run = elim (Bool-cases (a == 0)) [
    | inl e ↦ let same : h ≡ h' = ground arith in subst (Keeps h) same (Keeps-refl h)
    | inr e ↦ elim (Option-cases (h a)) [
      | inl gone ↦ absurd (ground arith)
      | inr (n, at) ↦
          let same : update h a (some (new n)) ≡ h' = ground arith in
          subst (Keeps h) same (update-Keeps h a n (new n) at (names n))
    ]
  ]

  set_next-Keeps :
      (h h' : Heap D) (lens next : ℕ) → lens_set_next h lens next ≡ some h' → Keeps h h'
  unfolding lens_set_next link_back lens_name
  set_next-Keeps h h' lens next run = elim (Option-cases (h lens)) [
    | inl gone ↦ absurd (ground arith)
    | inr (l, at) ↦
        let mid = update h lens (some (record l { next = next })) in
        let linked : link_back mid lens next ≡ some h' = ground arith in
        Keeps-trans h mid h' (update-Keeps h lens l (record l { next = next }) at refl) (
          guarded-Keeps mid h' next (λ n. n.prev == 0) (λ n. record n { prev = lens }) (λ n. refl)
            linked)
  ]

  kill-Keeps : (h h' : Heap D) (lens : ℕ) → lens_kill h lens ≡ some h' → Keeps h h'
  unfolding lens_kill skip_back skip_forth lens_name
  kill-Keeps h h' lens run = elim (Option-cases (h lens)) [
    | inl gone ↦ absurd (ground arith)
    | inr (l, at) ↦ elim (Option-cases (skip_back h lens l.next l.prev)) [
      | inl stuck ↦ absurd (ground arith)
      | inr (mid, back) ↦
          let forth : skip_forth mid lens l.next l.prev ≡ some h' = ground arith in
          Keeps-trans h mid h'
            (guarded-Keeps h mid l.next (λ n. n.prev == lens) (λ n. record n { prev = l.prev })
              (λ n. refl) back)
            (guarded-Keeps mid h' l.prev (λ b. b.next == lens) (λ b. record b { next = l.next })
              (λ b. refl) forth)
    ]
  ]

module _ {D T : Type 0} where
  -- An addition and a removal change the memory and the head only.
  pub push_lens-Keeps :
      (o out : Optics D T) (p : ℕ)
      → optics_push_lens o p ≡ some out
      → Keeps o.heap out.heap × (out.keys ≡ o.keys)
  unfolding optics_push_lens
  push_lens-Keeps o out p run = elim (Option-cases (lens_set_next o.heap p o.lens_head)) [
    | inl e ↦ absurd (ground arith)
    | inr (h, e) ↦
        let same : record o { heap = h; lens_head = p } ≡ out = ground arith in
        (
          subst (λ x. Keeps o.heap x.heap) same (set_next-Keeps o.heap h p o.lens_head e),
          ap (λ x. x.keys) (sym same),
        )
  ]

  pub remove_lens-Keeps :
      (o out : Optics D T) (p : ℕ)
      → optics_remove_lens o p ≡ some out
      → Keeps o.heap out.heap
        × (out.keys ≡ o.keys)
        × (out.epoch ≡ o.epoch)
        × (out.epoch_defers ≡ o.epoch_defers)
  unfolding optics_remove_lens
  remove_lens-Keeps o out p run = elim (Option-cases (lens_kill o.heap p)) [
    | inl e ↦ absurd (ground arith)
    | inr (h, e) ↦ elim (Option-cases (lens_next h p)) [
      | inl e' ↦ absurd (ground arith)
      | inr (next, e') ↦
          let same : record o {
            heap = h;
            lens_head = if o.lens_head == p then next else o.lens_head;
          }
              ≡ out =
            ground arith in
          (
            subst (λ x. Keeps o.heap x.heap) same (kill-Keeps o.heap h p e),
            ap (λ x. x.keys) (sym same),
            ap (λ x. x.epoch) (sym same),
            ap (λ x. x.epoch_defers) (sym same),
          )
    ]
  ]
