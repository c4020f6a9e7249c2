-- ===== src/Optics/Close.antt =====
-- Closing a lens, in the table of the keys, the list, the memory and the deferred lenses together.
use mathlib.Core.Path.{subst}
use optics_light.Htable.{HtableRet, same_key}
use optics_light.Htable.Ops.{ret_of}
use optics_light.KeyMap.{KeyMap, Acts}
use optics_light.Lens.{Lens, lens_name, Two, at_epoch, set_epoch}
use optics_light.Optics.{Optics, optics_epoch, optics_defer_free, optics_lens_close}
use optics_light.Optics.Defer.{among}
use optics_light.Optics.Frame.{Keeps, remove_lens-Keeps}
use optics_light.Optics.Listed.{remove_lens-Chain}
use optics_light.Optics.Names.{IsRegistry}
use optics_light.Prelude.{
  ℕ, ◌≡◌, refl, ap, sym, ◌∙◌, none, some, List, [], ◌∷◌, ◌++◌, true, false, ◌==◌, if◌then◌else◌,
  arith, Bool-cases, inl, inr,
}

among_others :
    (r p : ℕ) (as' bs : List ℕ)
    → among r (as' ++ (p ∷ bs)) ≡ true
    → (r == p) ≡ false
    → among r (as' ++ bs) ≡ true
unfolding among
among_others r p [] bs h e = ground arith
among_others r p (a ∷ as') bs h e = elim (Bool-cases (r == a)) [
  | inl here ↦ rw here refl
  | inr there ↦ rw there (among_others r p as' bs (ground arith) e)
]

at_epoch-set : (A : Type 0) (t : Two A) (e : ℕ) (x : A) → at_epoch (set_epoch t e x) e ≡ x
at_epoch-set A t e x = elim (Bool-cases (e == 0)) [ inl z ↦ rw z refl | inr z ↦ rw z refl ]

module _ {D T : Type 0} (m : KeyMap T) where
  -- The registry without the lens at `p`, which waits in memory to be freed.
  pub record Closed (o : Optics D T) (ps : List ℕ) (p : ℕ) (lens : Lens D) (out : Optics D T)
      : Type 0 where
    pub is_registry : IsRegistry m out ps
    pub names :
        (q : List ℕ)
        → m.view out.keys q ≡ (if same_key (lens_name lens) q then none else m.view o.keys q)
    pub waits : (l : Lens D) × (out.heap p ≡ some l)
    pub deferred :
        at_epoch out.epoch_defers (optics_epoch o) ≡ p ∷ at_epoch o.epoch_defers (optics_epoch o)

  module _ (o : Optics D T) (as' bs : List ℕ) (p : ℕ) (lens : Lens D) (ret : HtableRet) (keys : T)
      (is : IsRegistry m o (as' ++ (p ∷ bs))) (at : o.heap p ≡ some lens)
      (del : m.del o.keys (lens_name lens) ≡ some (ret, keys)) where
    acts :
        Acts m.IsValid m.view ret keys
          (ret_of (m.view o.keys (lens_name lens)))
          (λ q. if same_key (lens_name lens) q then none else m.view o.keys q)
    acts = m.del-Acts o.keys (lens_name lens) ret keys is.valid del

    -- What a name still leads to is another lens.
    left :
        (q : List ℕ) (r : ℕ)
        → m.view keys q ≡ some r
        → (same_key (lens_name lens) q ≡ false) × (m.view o.keys q ≡ some r)
    left q r e = elim (Bool-cases (same_key (lens_name lens) q)) [
      | inl same ↦ absurd (ground (arith, acts.reads q, e))
      | inr other ↦ (other, ground (arith, acts.reads q, e))
    ]

    not_it : (q : List ℕ) (r : ℕ) → m.view keys q ≡ some r → (r == p) ≡ false
    not_it q r e = elim (Bool-cases (r == p)) [
      | inl same ↦
          let (other, was) = left q r e in
          let (l, there, its) = is.named q r was in
          let eq : r ≡ p = ground arith in
          let one : l ≡ lens = ground (arith, ap o.heap eq, there, at) in
          absurd (ground (arith, ap (λ x. same_key (lens_name x) q) one, other, its))
      | inr other ↦ other
    ]

    abbrev without_name : Optics D T
    without_name = record o { keys = keys }

    abbrev deferred_in : Optics D T → Optics D T
    deferred_in out = (optics_defer_free true out p).1

    closes :
        m.view o.keys (lens_name lens) ≡ some p
        → (out : Optics D T) × (optics_lens_close m true o p ≡ some (true, out))
          × Closed o (as' ++ bs) p lens out
    unfolding optics_lens_close optics_defer_free optics_epoch Keeps
    closes there =
        let (mid, run, chain, kept) = remove_lens-Chain as' bs without_name p is.chain in
        let (keeps, same, epoch, defers) = remove_lens-Keeps without_name mid p run in
        let found : ret.ok ≡ true = ground (arith, acts.answers, there) in
        (
          deferred_in mid,
          rw (at, del, found, run) refl,
          record {
            is_registry = record {
              valid = subst m.IsValid (sym same) acts.valid;
              chain = chain;
              listed = λ q r e.
                  let e' : m.view keys q ≡ some r = ap (λ t. m.view t q) (sym same) ∙ e in
                  among_others r p as' bs (is.listed q r (left q r e').1) (not_it q r e');
              named = λ q r e.
                  let e' : m.view keys q ≡ some r = ap (λ t. m.view t q) (sym same) ∙ e in
                  let (l, was, its) = is.named q r (left q r e').1 in
                  let (l', now, name) = keeps r l was in
                  (l', now, ap (λ s. same_key s q) name ∙ its);
            };
            names = λ q. ap (λ t. m.view t q) same ∙ acts.reads q;
            waits = (lens, kept ∙ at);
            deferred = rw (epoch, defers) (at_epoch-set (List ℕ) o.epoch_defers (optics_epoch o) _);
          },
        )

    refuses :
        m.view o.keys (lens_name lens) ≡ none
        → (optics_lens_close m true o p ≡ some (false, without_name))
          × IsRegistry m without_name (as' ++ (p ∷ bs))
    unfolding optics_lens_close
    refuses absent =
        let gone : ret.ok ≡ false = ground (arith, acts.answers, absent) in
        (
          rw (at, del, gone) refl,
          record {
            valid = acts.valid;
            chain = is.chain;
            listed = λ q r e. is.listed q r (left q r e).1;
            named = λ q r e. is.named q r (left q r e).1;
          },
        )

  -- Let every name of a registry lead to a lens of its list that has the name, and let a lens of the
  -- list be closed. If the deletion from the table returns and there is memory for the deferral, then
  -- closing returns. Where the name of the lens leads to it, closing says true: the name leads nowhere
  -- then, all others to where they led, the list has lost the lens and no other, and the lens is still
  -- in memory and among those deferred in the current epoch. Where the name leads nowhere, closing says
  -- false, and the memory, the list and the deferred lenses are as before.
  pub optics_lens_close_lem :
      (o : Optics D T) (as' bs : List ℕ) (p : ℕ) (lens : Lens D) (ret : HtableRet) (keys : T)
      → IsRegistry m o (as' ++ (p ∷ bs))
      → o.heap p ≡ some lens
      → m.del o.keys (lens_name lens) ≡ some (ret, keys)
      → (m.view o.keys (lens_name lens) ≡ some p
          → (out : Optics D T) × (optics_lens_close m true o p ≡ some (true, out))
            × Closed o (as' ++ bs) p lens out)
        × (m.view o.keys (lens_name lens) ≡ none
            → (optics_lens_close m true o p ≡ some (false, record o { keys = keys }))
              × IsRegistry m (record o { keys = keys }) (as' ++ (p ∷ bs)))
  optics_lens_close_lem o as' bs p lens ret keys is at del =
      (closes o as' bs p lens ret keys is at del, refuses o as' bs p lens ret keys is at del)
