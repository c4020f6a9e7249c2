-- ===== src/Crest/Router/Below.antt =====
-- The trees below the tokens of a tree.
use optics_light.Htable.{str_eq}
use optics_light.Htable.Probe.{str_eq_sound, str_eq_refl}
use optics_light.Crest.Router.{
  Token, Router, Wildcards, Entries, null, sub, end, entry, route_entry, route_wild, new_router,
  add_entry, wildcards_of,
}
use optics_light.Crest.Router.Patterns.{Piece, any, literal, stored}
use optics_light.Prelude.{
  ◌≡◌, refl, ap, sym, ◌∙◌, Option, none, List, [], ◌∷◌, Bool, true, false, if◌then◌else◌, arith,
  Bool-cases, inl, inr,
}

other :
    (value head t : Token)
    → str_eq value head ≡ false
    → str_eq value t ≡ true
    → str_eq head t ≡ false
other value head t e v = elim (Bool-cases (str_eq head t)) [
  | inl h ↦
      let same : value ≡ head = str_eq_sound value t v ∙ sym (str_eq_sound head t h) in
      absurd (ground (arith, e, ap (λ a. str_eq value a) same, str_eq_refl value))
  | inr h ↦ h
]

module _ {R : Type 0} where
  pub stored_new : (qs : List Piece) (o : Bool) → stored qs o (new_router {R = R}) ≡ none
  unfolding stored route_entry
  stored_new [] true = refl
  stored_new [] false = refl
  stored_new (any ∷ qs) o = refl
  stored_new (literal t ∷ qs) o = refl

  -- The tree below the first entry for a token.
  pub entry_of : Entries R → Token → Router R
  entry_of end t = new_router
  entry_of (entry value below rest) t = if str_eq value t then below else entry_of rest t

  pub route_entry_of :
      (f : Router R → Option R) (es : Entries R) (t : Token)
      → f new_router ≡ none
      → route_entry f es t ≡ f (entry_of es t)
  unfolding route_entry entry_of
  route_entry_of f end t h = sym h
  route_entry_of f (entry value below rest) t h = elim (Bool-cases (str_eq value t)) [
    | inl e ↦ rw e refl
    | inr e ↦ rw e (route_entry_of f rest t h)
  ]

  pub add_entry_ok :
      (add : Router R → Bool × Router R) (es : Entries R) (head : Token)
      → (add_entry add es head).0 ≡ (add (entry_of es head)).0
  unfolding add_entry entry_of
  add_entry_ok add end head = refl
  add_entry_ok add (entry value below rest) head = elim (Bool-cases (str_eq value head)) [
    | inl e ↦ rw e refl
    | inr e ↦ rw e (add_entry_ok add rest head)
  ]

  -- Only the tree for the token changes.
  pub add_entry-entry_of :
      (add : Router R → Bool × Router R) (es : Entries R) (head t : Token)
      → entry_of (add_entry add es head).1 t
        ≡ (if str_eq head t then (add (entry_of es head)).1 else entry_of es t)
  unfolding add_entry entry_of
  add_entry-entry_of add end head t = refl
  add_entry-entry_of add (entry value below rest) head t = elim (Bool-cases (str_eq value head)) [
    | inl e ↦
        let same : str_eq value t ≡ str_eq head t =
          ap (λ r. str_eq r t) (str_eq_sound value head e) in
        rw (e, same) (branch (str_eq head t))
    | inr e ↦ elim (Bool-cases (str_eq value t)) [
      | inl v ↦ rw (e, v, other value head t e v) refl
      | inr v ↦ rw (e, v) (add_entry-entry_of add rest head t)
    ]
  ]
    where
      branch :
          (b : Bool)
          → (if b then (add below).1 else entry_of rest t)
            ≡ (if b then (add below).1 else (if b then below else entry_of rest t))
      branch true = refl
      branch false = refl

  pub route_wild_of :
      (f : Router R → Option R) (wild : Wildcards R)
      → f new_router ≡ none
      → route_wild f wild ≡ f (wildcards_of wild)
  route_wild_of f null h = sym h
  route_wild_of f (sub r) h = refl
