-- ===== src/Optics/Names.antt =====
-- The names of the registry: what creating, opening and closing a lens do to the table of the keys,
-- to the list and to the memory together.
use mathlib.Core.Path.{subst}
use optics_light.Htable.{HtableRet, same_key}
use optics_light.Htable.Put.{put_ret, put_view}
use optics_light.KeyMap.{KeyMap, Acts}
use optics_light.Lens.{Lens, lens_name}
use optics_light.Optics.{
  Optics, optics_push_lens, optics_lens_create, optics_lens_open, create_with, open_with,
}
use optics_light.Optics.Chain.{Chain, Chain-agree, among_here, among_there, among_apart}
use optics_light.Optics.Defer.{among}
use optics_light.Optics.Lenses.{Heap, update, lens_free}
use optics_light.Optics.Frame.{Keeps, push_lens-Keeps}
use optics_light.Optics.Listed.{push_lens-Chain}
use optics_light.Prelude.{
  ℕ, ◌≡◌, ◌≢◌, refl, ap, sym, ◌∙◌, Option, none, some, List, [], ◌∷◌, true, false, ◌==◌,
  if◌then◌else◌, arith, Bool-cases, inl, inr,
}

module _ {D : Type 0} where
  -- What is in no memory is in no list.
  free_apart :
      (h : Heap D) (prev : ℕ) (ps : List ℕ) (head p : ℕ)
      → Chain h prev ps head
      → h p ≡ none
      → among p ps ≡ false
  unfolding Chain among
  free_apart h prev [] head p chain e = refl
  free_apart h prev (a ∷ ps) head p (at, _, _, (l, filled, _, rest)) e =
      let later = free_apart h a ps l.next p rest e in
      elim (Bool-cases (a == p)) [
        | inl same ↦ let eq : a ≡ p = ground arith in absurd (ground (arith, ap h eq, e, filled))
        | inr other ↦ ground (arith, later)
      ]

  -- A lens that is put into free memory leaves the list.
  filled-Chain :
      (h : Heap D) (ps : List ℕ) (head p : ℕ) (l : Option (Lens D))
      → Chain h 0 ps head
      → h p ≡ none
      → Chain (update h p l) 0 ps head
  filled-Chain h ps head p l chain e =
      Chain-agree h (update h p l) 0 ps head
        (λ q there. rw (among_apart q p ps (free_apart h 0 ps head p chain e) there) refl) chain

module _ {D T : Type 0} (m : KeyMap T) where
  -- The lenses `ps` make the list, and each name leads to one of them, whose name it is.
  pub record IsRegistry (o : Optics D T) (ps : List ℕ) : Type 0 where
    pub valid : m.IsValid o.keys
    pub chain : Chain o.heap 0 ps o.lens_head
    pub listed : (q : List ℕ) (p : ℕ) → m.view o.keys q ≡ some p → among p ps ≡ true
    pub named :
        (q : List ℕ) (p : ℕ)
        → m.view o.keys q ≡ some p
        → (l : Lens D) × (o.heap p ≡ some l) × (same_key (lens_name l) q ≡ true)

  -- The registry with the new lens, under its name and first in the list.
  pub record Added (o : Optics D T) (ps : List ℕ) (p : ℕ) (lens : Lens D) (out : Optics D T)
      : Type 0 where
    pub is_registry : IsRegistry out (p ∷ ps)
    pub names :
        (q : List ℕ)
        → m.view out.keys q ≡ (if same_key (lens_name lens) q then some p else m.view o.keys q)

  -- The registry as before, with nothing new in memory.
  pub record Unchanged (o : Optics D T) (ps : List ℕ) (out : Optics D T) : Type 0 where
    pub is_registry : IsRegistry out ps
    pub memory : (q : ℕ) → out.heap q ≡ o.heap q
    pub names : (q : List ℕ) → m.view out.keys q ≡ m.view o.keys q

  -- A new lens at `p`, and the table after its put.
  module _ (o : Optics D T) (ps : List ℕ) (p : ℕ) (lens : Lens D) (ret : HtableRet) (keys : T)
      (is : IsRegistry o ps) (unused : o.heap p ≡ none) (some_address : p ≢ 0)
      (alone : lens.prev ≡ 0) (put : m.put o.keys (lens_name lens) p ≡ some (ret, keys)) where
    abbrev with_lens : Optics D T
    with_lens = record o { heap = update o.heap p (some lens); keys = keys }

    here : update o.heap p (some lens) p ≡ some lens
    here = let e : (p == p) ≡ true = ground arith in rw e refl

    acts :
        Acts m.IsValid m.view ret keys
          (put_ret (m.view o.keys (lens_name lens)))
          (put_view (m.view o.keys) (lens_name lens) p)
    acts = m.put-Acts o.keys (lens_name lens) p ret keys is.valid put

    apart : among p ps ≡ false
    apart = free_apart o.heap 0 ps o.lens_head p is.chain unused

    pushed :
        (out : Optics D T) × (optics_push_lens with_lens p ≡ some out)
        × Chain out.heap 0 (p ∷ ps) out.lens_head
    pushed =
        push_lens-Chain with_lens ps p lens
          (filled-Chain o.heap ps o.lens_head p (some lens) is.chain unused) here alone some_address
          apart

    reads :
        (q : List ℕ)
        → m.view o.keys (lens_name lens) ≡ none
        → m.view keys q ≡ (if same_key (lens_name lens) q then some p else m.view o.keys q)
    reads q absent = ground (arith, acts.reads q, absent)

    -- Whether the name was there or not, each name leads to a lens that was listed, or to the new one.
    listed_after :
        (q : List ℕ) (r : ℕ)
        → m.view o.keys (lens_name lens) ≡ none
        → m.view keys q ≡ some r
        → among r (p ∷ ps) ≡ true
    listed_after q r absent e = elim (Bool-cases (same_key (lens_name lens) q)) [
      | inl same ↦
          let at : p ≡ r = ground (arith, reads q absent) in
          subst (λ a. among a (p ∷ ps) ≡ true) at (among_here p ps)
      | inr other ↦ among_there r p ps (is.listed q r (ground (arith, reads q absent)))
    ]

    elsewhere : (r : ℕ) (l : Lens D) → o.heap r ≡ some l → with_lens.heap r ≡ some l
    elsewhere r l e = elim (Bool-cases (p == r)) [
      | inl same ↦ let at : p ≡ r = ground arith in absurd (ground (arith, ap o.heap at, unused, e))
      | inr other ↦ rw other e
    ]

    named_after :
        (q : List ℕ) (r : ℕ) (out : Optics D T)
        → Keeps with_lens.heap out.heap
        → m.view o.keys (lens_name lens) ≡ none
        → m.view keys q ≡ some r
        → (l : Lens D) × (out.heap r ≡ some l) × (same_key (lens_name l) q ≡ true)
    unfolding Keeps
    named_after q r out keeps absent e = elim (Bool-cases (same_key (lens_name lens) q)) [
      | inl same ↦
          let at : p ≡ r = ground (arith, reads q absent) in
          let (l, there, name) = keeps p lens here in
          (l, ap out.heap (sym at) ∙ there, ap (λ s. same_key s q) name ∙ same)
      | inr other ↦
          let (old, was, its) = is.named q r (ground (arith, reads q absent)) in
          let (l, there, name) = keeps r old (elsewhere r old was) in
          (l, there, ap (λ s. same_key s q) name ∙ its)
    ]

    added :
        (out : Optics D T)
        → m.view o.keys (lens_name lens) ≡ none
        → Keeps with_lens.heap out.heap × (out.keys ≡ keys)
        → Chain out.heap 0 (p ∷ ps) out.lens_head
        → Added o ps p lens out
    added out absent (keeps, same) chain = record {
      is_registry = record {
        valid = subst m.IsValid (sym same) acts.valid;
        chain = chain;
        listed = λ q r e. listed_after q r absent (ap (λ t. m.view t q) (sym same) ∙ e);
        named = λ q r e. named_after q r out keeps absent (ap (λ t. m.view t q) (sym same) ∙ e);
      };
      names = λ q. ap (λ t. m.view t q) same ∙ reads q absent;
    }

    create_new :
        m.view o.keys (lens_name lens) ≡ none
        → (out : Optics D T) × (create_with m o (some p) (some lens) ≡ some (p, out))
          × (open_with m o (some p) (some lens) ≡ some (p, out))
          × Added o ps p lens out
    unfolding create_with open_with optics_lens_create optics_lens_open
    create_new absent =
        let (out, push, chain) = pushed in
        let fresh : ret.ok ≡ true = ground (arith, acts.answers, absent) in
        let same : (p == p) ≡ true = ground arith in
        (
          out,
          rw (here, put, fresh, push) refl,
          rw (here, put, fresh, push, same) refl,
          added out absent (push_lens-Keeps with_lens out p push) chain,
        )

    -- `free` of the lens that was put at `p`.
    abbrev refused : Optics D T
    refused = record o { heap = update (update o.heap p (some lens)) p none; keys = keys }

    blank : (q : ℕ) → refused.heap q ≡ o.heap q
    blank q = elim (Bool-cases (p == q)) [
      | inl e ↦ let at : p ≡ q = ground arith in rw e (sym unused ∙ ap o.heap at)
      | inr e ↦ rw e refl
    ]

    refused-Unchanged :
        (old : ℕ) → m.view o.keys (lens_name lens) ≡ some old → Unchanged o ps refused
    refused-Unchanged old there =
        let same : (q : List ℕ) → m.view keys q ≡ m.view o.keys q =
          λ q. ground (arith, acts.reads q, there) in
        record {
          is_registry = record {
            valid = acts.valid;
            chain = Chain-agree o.heap refused.heap 0 ps o.lens_head (λ q _. blank q) is.chain;
            listed = λ q r e. is.listed q r (sym (same q) ∙ e);
            named = λ q r e.
                let (l, at, its) = is.named q r (sym (same q) ∙ e) in (l, blank r ∙ at, its);
          };
          memory = blank;
          names = same;
        }

    among_other : (old : ℕ) → m.view o.keys (lens_name lens) ≡ some old → (old == p) ≡ false
    among_other old there = elim (Bool-cases (old == p)) [
      | inl e ↦
          let at : old ≡ p = ground arith in
          absurd
            (ground (arith, is.listed (lens_name lens) old there, apart, ap (λ a. among a ps) at))
      | inr e ↦ e
    ]

    freed : lens_free (update o.heap p (some lens)) p ≡ some refused.heap
    unfolding lens_free
    freed = rw here refl

    create_taken :
        (old : ℕ)
        → m.view o.keys (lens_name lens) ≡ some old
        → (create_with m o (some p) (some lens) ≡ some (0, refused))
          × (open_with m o (some p) (some lens) ≡ some (old, refused))
          × Unchanged o ps refused
    unfolding create_with open_with optics_lens_create optics_lens_open
    create_taken old there =
        let taken : ret.ok ≡ false = ground (arith, acts.answers, there) in
        let at : ret.value ≡ old = ground (arith, acts.answers, there) in
        let other : (old == p) ≡ false = among_other old there in
        (
          rw (here, put, taken, freed) refl,
          rw (here, put, taken, at, other, freed) refl,
          refused-Unchanged old there,
        )

  -- Let every name of a registry lead to a lens of its list that has the name, and let a lens that is in no list be
  -- allocated at an address that was free. If the put into the table returns, then creating and opening
  -- it return. Where its name is new, both give its address; the name then leads to it, all others to
  -- where they led, and it heads the list. Where the name is taken, creating gives NULL and opening the
  -- lens that has the name; the new lens is freed, and the names, the list and the memory are as before.
  pub create_with-open_with :
      (o : Optics D T) (ps : List ℕ) (p : ℕ) (lens : Lens D) (ret : HtableRet) (keys : T)
      → IsRegistry o ps
      → o.heap p ≡ none
      → p ≢ 0
      → lens.prev ≡ 0
      → m.put o.keys (lens_name lens) p ≡ some (ret, keys)
      → (m.view o.keys (lens_name lens) ≡ none
          → (out : Optics D T) × (create_with m o (some p) (some lens) ≡ some (p, out))
            × (open_with m o (some p) (some lens) ≡ some (p, out))
            × Added o ps p lens out)
        × ((old : ℕ)
            → m.view o.keys (lens_name lens) ≡ some old
            → (out : Optics D T) × (create_with m o (some p) (some lens) ≡ some (0, out))
              × (open_with m o (some p) (some lens) ≡ some (old, out))
              × Unchanged o ps out)
  create_with-open_with o ps p lens ret keys is unused some_address alone put = (
    λ absent. create_new o ps p lens ret keys is unused some_address alone put absent,
    λ old there.
        let (created, opened, same) =
          create_taken o ps p lens ret keys is unused some_address alone put old there in
        (refused o ps p lens ret keys is unused some_address alone put, created, opened, same),
  )
