-- ===== src/Optics/Defer.antt =====
-- Lenses that are closed are freed once, and not before the poller has gone over to the next epoch
-- twice.
use optics_light.Lens.{Lens, Two, at_epoch, set_epoch}
use optics_light.Optics.Lenses.{Heap, update, lens_free}
use optics_light.Optics.{
  Optics, free_all, optics_epoch, optics_defer_free, optics_free_defered, optics_epoch_inc,
}
use optics_light.Prelude.{
  ℕ, ◌+◌, ◌-◌, ◌%◌, ◌^◌, ◌≤◌, ◌≡◌, refl, ap, ◌∙◌, none, some, List, [], ◌∷◌, ◌++◌, Bool, true,
  false, ◌==◌, if◌then◌else◌, arith, Bool-cases, inl, inr,
}

unfoldable pub among : ℕ → List ℕ → Bool
among p [] = false
among p (q ∷ qs) = if p == q then true else among p qs

-- The addresses are those of different lenses that are in memory.
unfoldable pub Live : {D : Type 0} → Heap D → List ℕ → Type 0
Live h [] = Unit {0}
Live {D} h (p ∷ ps) = ((l : Lens D) × (h p ≡ some l)) × (among p ps ≡ false) × Live h ps

pub among-append :
    (p : ℕ) (ps qs : List ℕ)
    → among p (ps ++ qs) ≡ false
    → (among p ps ≡ false) × (among p qs ≡ false)
unfolding among
among-append p [] qs h = (refl, h)
among-append p (x ∷ ps) qs h = elim (Bool-cases (p == x)) [
  | inl e ↦ absurd (ground arith)
  | inr e ↦ let (a, b) = among-append p ps qs (ground arith) in (ground arith, b)
]

deferred_cell :
    (t : Two (List ℕ)) (e p : ℕ)
    → e ≤ 1
    → (at_epoch (set_epoch t e (p ∷ at_epoch t e)) e ≡ p ∷ at_epoch t e)
      × (at_epoch (set_epoch t e (p ∷ at_epoch t e)) (1 - e) ≡ at_epoch t (1 - e))
deferred_cell t e p h = (ground arith, ground arith)

among_first : (p : ℕ) (ps : List ℕ) → among p (p ∷ ps) ≡ true
unfolding among
among_first p ps = ground arith

first_apart : {D : Type 0} (h : Heap D) (p : ℕ) (ps : List ℕ) → Live h (p ∷ ps) → among p ps ≡ false
unfolding Live
first_apart h p ps (one, apart, rest) = apart

module _ {D : Type 0} where
  Live-update :
      (h : Heap D) (p : ℕ) (ps : List ℕ)
      → among p ps ≡ false
      → Live h ps
      → Live (update h p none) ps
  unfolding Live among
  Live-update h p [] apart live = tt
  Live-update h p (q ∷ qs) apart ((l, e), once, rest) =
      ((l, ground arith), once, Live-update h p qs (ground arith) rest)

  lens_free_lem :
      (h : Heap D) (p : ℕ) (l : Lens D) → h p ≡ some l → lens_free h p ≡ some (update h p none)
  unfolding lens_free
  lens_free_lem h p l e = rw e refl

  pub Live-right : (h : Heap D) (ps qs : List ℕ) → Live h (ps ++ qs) → Live h qs
  unfolding Live
  Live-right h [] qs live = live
  Live-right h (p ∷ ps) qs (here, once, rest) = Live-right h ps qs rest

  -- The lenses of the first list stay when those of the second are freed.
  pub Live-left :
      (h h' : Heap D) (ps qs : List ℕ)
      → Live h (ps ++ qs)
      → ((q : ℕ) → h' q ≡ (if among q qs then none else h q))
      → Live h' ps
  unfolding Live
  Live-left h h' [] qs live reads = tt
  Live-left h h' (p ∷ ps) qs ((l, e), once, rest) reads =
      let (a, b) = among-append p ps qs once in
      ((l, ground (arith, reads p)), a, Live-left h h' ps qs rest reads)

  free_all_lem :
      (h : Heap D) (ps : List ℕ)
      → Live h ps
      → (h' : Heap D) × (free_all h ps ≡ some h')
        × ((q : ℕ) → h' q ≡ (if among q ps then none else h q))
  unfolding free_all Live among
  free_all_lem h [] live = (h, refl, λ q. refl)
  free_all_lem h (p ∷ ps) ((l, e), once, rest) =
      let (h', run, reads) = free_all_lem (update h p none) ps (Live-update h p ps once rest) in
      (h', rw (lens_free_lem h p l e) run, λ q. ground (arith, reads q))

turned : (n : ℕ) → (n + 1) % 2 ^ 64 % 2 ≡ 1 - n % 2
turned n = omega arith

module _ {A : Type 0} where
  kept_cell :
      (t : Two A) (e e' : ℕ) (x : A)
      → e ≤ 1
      → e' ≡ 1 - e
      → at_epoch (set_epoch t (1 - e) x) (1 - e') ≡ at_epoch t e
  kept_cell t e e' x h turn = ground arith

  set_cell : (t : Two A) (e e' : ℕ) (x : A) → e' ≡ 1 - e → at_epoch (set_epoch t (1 - e) x) e' ≡ x
  set_cell t e e' x turn = ground arith

module _ {D T : Type 0} where
  abbrev pub current : Optics D T → List ℕ
  current o = at_epoch o.epoch_defers (optics_epoch o)

  abbrev pub other : Optics D T → List ℕ
  other o = at_epoch o.epoch_defers (1 - optics_epoch o)

  -- What going over to the next epoch does: the lenses of the other list are freed and that list is
  -- the one that is filled next.
  pub record Advanced (o : Optics D T) (old : ℕ) (out : Optics D T) : Type 0 where
    pub ended : old ≡ optics_epoch o
    pub epoch : optics_epoch out ≡ 1 - optics_epoch o
    pub freed : (q : ℕ) → out.heap q ≡ (if among q (other o) then none else o.heap q)
    pub pending : other out ≡ current o
    pub emptied : current out ≡ []
    pub head : out.lens_head ≡ o.lens_head
    pub same_prefix : out.prefix ≡ o.prefix
    pub same_last : out.epoch_last_inc ≡ o.epoch_last_inc

  pub optics_epoch_inc_lem :
      (o : Optics D T)
      → Live o.heap (other o)
      → (out : Optics D T) × (optics_epoch_inc o ≡ some (optics_epoch o, out))
        × Advanced o (optics_epoch o) out
  unfolding optics_epoch_inc optics_free_defered optics_epoch
  optics_epoch_inc_lem o live =
      let (h, run, reads) = free_all_lem o.heap (other o) live in
      (
        record o {
          heap = h;
          epoch_defers = set_epoch o.epoch_defers (1 - o.epoch % 2) [];
          epoch = (o.epoch + 1) % 2 ^ 64;
        },
        rw run refl,
        record {
          ended = refl;
          epoch = turned o.epoch;
          freed = reads;
          pending = kept_cell o.epoch_defers (o.epoch % 2) _ [] (omega arith) (turned o.epoch);
          emptied = set_cell o.epoch_defers (o.epoch % 2) _ [] (turned o.epoch);
          head = refl;
          same_prefix = refl;
          same_last = refl;
        },
      )

  deferred :
      (o : Optics D T) (p : ℕ)
      → let out = (optics_defer_free true o p).1 in
        (current out ≡ p ∷ current o)
        × (other out ≡ other o)
        × (out.heap ≡ o.heap)
        × (optics_epoch out ≡ optics_epoch o)
  unfolding optics_defer_free optics_epoch
  deferred o p =
      let (a, b) = deferred_cell o.epoch_defers (o.epoch % 2) p (omega arith) in (a, b, refl, refl)

  -- A lens that is deferred is still in memory after the poller has gone over to the next epoch, and
  -- is freed when it goes over again; both steps succeed, and the first frees the lenses of the other
  -- list and no more. The deferred lenses are different ones in memory.
  pub freed_at_second_epoch :
      (o : Optics D T) (p : ℕ)
      → Live o.heap ((p ∷ current o) ++ other o)
      → (o1 o2 : Optics D T) × (optics_epoch_inc (optics_defer_free true o p).1
          ≡ some (optics_epoch o, o1))
        × (o1.heap p ≡ o.heap p)
        × ((q : ℕ) → o1.heap q ≡ (if among q (other o) then none else o.heap q))
        × (optics_epoch_inc o1 ≡ some (1 - optics_epoch o, o2))
        × (o2.heap p ≡ none)
  freed_at_second_epoch o p live =
      let d = (optics_defer_free true o p).1 in
      let (cur, oth, heap, epoch) = deferred o p in
      let right = Live-right o.heap (p ∷ current o) (other o) live in
      let (o1, run1, a1) = optics_epoch_inc_lem d (rw (heap, oth) right) in
      let freed : (q : ℕ) → o1.heap q ≡ (if among q (other o) then none else o.heap q) =
        λ q. a1.freed q ∙ rw (oth, heap) refl in
      let left = Live-left o.heap o1.heap (p ∷ current o) (other o) live freed in
      let apart = first_apart o.heap p (current o ++ other o) live in
      let pending = a1.pending ∙ cur in
      let (o2, run2, a2) = optics_epoch_inc_lem o1 (rw pending left) in
      (
        o1,
        o2,
        run1 ∙ ap (λ e. some (e, o1)) epoch,
        freed p ∙ rw (among-append p (current o) (other o) apart).1 refl,
        freed,
        run2 ∙ ap (λ e. some (e, o2)) (a1.epoch ∙ ap (λ e. 1 - e) epoch),
        a2.freed p ∙ rw (pending, among_first p (current o)) refl,
      )
