-- ===== src/Crest/Router/Add.antt =====
-- What an addition does to the map that a routing tree stands for.
use optics_light.Htable.{str_eq}
use optics_light.Htable.Probe.{str_eq_sound}
use optics_light.Crest.Path.{path_token_type, TokenType, token_star, token_wildcard, token_const}
use optics_light.Crest.Router.{
  Token, Router, Wildcards, Entries, router, sub, add_entry, wildcards_of, place, router_add,
}
use optics_light.Crest.Router.Patterns.{
  Piece, any, literal, pattern_of, pattern_star, pattern_wildcard, pattern_const, same_piece,
  same_parts, same_bool, same_pattern, free, insert, stored, view,
}
use optics_light.Crest.Router.Below.{
  stored_new, entry_of, route_entry_of, add_entry_ok, add_entry-entry_of, route_wild_of,
}
use optics_light.Prelude.{
  ◌≡◌, refl, ap, sym, ◌∙◌, Option, none, some, List, [], ◌∷◌, Bool, true, false, ◌&&◌,
  if◌then◌else◌, Bool-cases, inl, inr,
}

module _ {R : Type 0} where
  -- The rounds of an addition, by what the first token is.
  module _ (head : Token) (tail : List Token) (res : R) (star exact : Option R) (wild : Wildcards R)
      (entries : Entries R) where
    add_star :
        path_token_type head ≡ token_star
        → router_add (head ∷ tail) res (router star exact wild entries)
          ≡ ((place star res).0, router (place star res).1 exact wild entries)
    unfolding router_add
    add_star t = rw (t, router_add) refl

    add_wildcard :
        path_token_type head ≡ token_wildcard
        → let r = router_add tail res (wildcards_of wild) in
          router_add (head ∷ tail) res (router star exact wild entries)
          ≡ (r.0, router star exact (sub r.1) entries)
    unfolding router_add
    add_wildcard t = rw (t, router_add) refl

    add_const :
        path_token_type head ≡ token_const
        → let r = add_entry (λ q. router_add tail res q) entries head in
          router_add (head ∷ tail) res (router star exact wild entries)
          ≡ (r.0, router star exact wild r.1)
    unfolding router_add
    add_const t = rw (t, router_add) refl

  place_ok : (old : Option R) (res : R) → (place old res).0 ≡ free old
  unfolding place free
  place_ok none res = refl
  place_ok (some x) res = refl

  pub router_add-free :
      (path : List Token) (res : R) (r : Router R)
      → (router_add path res r).0 ≡ free (view r (pattern_of path))
  router_add-free [] res (router star exact wild entries) =
      unfold router_add view pattern_of stored in place_ok exact res
  router_add-free (head ∷ tail) res (router star exact wild entries) =
      cases (path_token_type head) refl (router_add-free tail res)
    where
      cases :
          (t : TokenType)
          → path_token_type head ≡ t
          → ((r : Router R) → (router_add tail res r).0 ≡ free (view r (pattern_of tail)))
          → (router_add (head ∷ tail) res (router star exact wild entries)).0
            ≡ free (view (router star exact wild entries) (pattern_of (head ∷ tail)))
      cases token_star t ih =
          rw (add_star head tail res star exact wild entries t, pattern_star head tail t)
            (unfold view stored in place_ok star res)
      cases token_wildcard t ih =
          rw (add_wildcard head tail res star exact wild entries t, pattern_wildcard head tail t)
            (unfold view stored in
              let f = stored (pattern_of tail).parts (pattern_of tail).is_open in
              ih (wildcards_of wild)
              ∙ ap free (
                  sym (
                    route_wild_of f wild
                      (stored_new (pattern_of tail).parts (pattern_of tail).is_open))))
      cases token_const t ih =
          rw (add_const head tail res star exact wild entries t, pattern_const head tail t)
            (unfold view stored in
              let f = stored (pattern_of tail).parts (pattern_of tail).is_open in
              add_entry_ok (λ q. router_add tail res q) entries head
              ∙ ih (entry_of entries head)
              ∙ ap free (
                  sym (
                    route_entry_of f entries head
                      (stored_new (pattern_of tail).parts (pattern_of tail).is_open))))

  -- The insertions, by where the resource goes.
  insert_exact :
      (old star : Option R) (wild : Wildcards R) (entries : Entries R) (res : R) (qs : List Piece)
      (o : Bool)
      → stored qs o (router star (place old res).1 wild entries) ≡ (
          if free old && (same_parts [] qs && same_bool false o)
          then some res
          else stored qs o (router star old wild entries))
  unfolding stored free place same_parts same_bool
  insert_exact none star wild entries res [] true = refl
  insert_exact none star wild entries res [] false = refl
  insert_exact none star wild entries res (any ∷ qs) o = refl
  insert_exact none star wild entries res (literal t ∷ qs) o = refl
  insert_exact (some x) star wild entries res [] true = refl
  insert_exact (some x) star wild entries res [] false = refl
  insert_exact (some x) star wild entries res (any ∷ qs) o = refl
  insert_exact (some x) star wild entries res (literal t ∷ qs) o = refl

  insert_star :
      (old exact : Option R) (wild : Wildcards R) (entries : Entries R) (res : R) (qs : List Piece)
      (o : Bool)
      → stored qs o (router (place old res).1 exact wild entries) ≡ (
          if free old && (same_parts [] qs && same_bool true o)
          then some res
          else stored qs o (router old exact wild entries))
  unfolding stored free place same_parts same_bool
  insert_star none exact wild entries res [] true = refl
  insert_star none exact wild entries res [] false = refl
  insert_star none exact wild entries res (any ∷ qs) o = refl
  insert_star none exact wild entries res (literal t ∷ qs) o = refl
  insert_star (some x) exact wild entries res [] true = refl
  insert_star (some x) exact wild entries res [] false = refl
  insert_star (some x) exact wild entries res (any ∷ qs) o = refl
  insert_star (some x) exact wild entries res (literal t ∷ qs) o = refl

  never : (b : Bool) (x y : Option R) → (if b && false then x else y) ≡ y
  never true x y = refl
  never false x y = refl

  -- `below` is what is added below, which is right by induction.
  insert_wildcard :
      (below : Router R → Bool × Router R) (ps : List Piece) (po : Bool) (star exact : Option R)
      (wild : Wildcards R) (entries : Entries R) (res : R)
      → ((qs : List Piece) (o : Bool)
          → stored qs o (below (wildcards_of wild)).1 ≡ (
              if free (stored ps po (wildcards_of wild)) && (same_parts ps qs && same_bool po o)
              then some res
              else stored qs o (wildcards_of wild)))
      → (qs : List Piece) (o : Bool)
      → stored qs o (router star exact (sub (below (wildcards_of wild)).1) entries) ≡ (
          if free (stored (any ∷ ps) po (router star exact wild entries))
            && (same_parts (any ∷ ps) qs && same_bool po o)
          then some res
          else stored qs o (router star exact wild entries))
  unfolding stored same_parts same_piece
  insert_wildcard below ps po star exact wild entries res ih [] true = sym (never _ _ _)
  insert_wildcard below ps po star exact wild entries res ih [] false = sym (never _ _ _)
  insert_wildcard below ps po star exact wild entries res ih (literal t ∷ qs) o = sym (never _ _ _)
  insert_wildcard below ps po star exact wild entries res ih (any ∷ qs) o =
      rw
        (
          route_wild_of (stored ps po) wild (stored_new ps po),
          route_wild_of (stored qs o) wild (stored_new qs o),
        )
        (ih qs o)

  insert_const :
      (below : Router R → Bool × Router R) (ps : List Piece) (po : Bool) (head : Token)
      (star exact : Option R) (wild : Wildcards R) (entries : Entries R) (res : R)
      → ((qs : List Piece) (o : Bool)
          → stored qs o (below (entry_of entries head)).1 ≡ (
              if free (stored ps po (entry_of entries head)) && (same_parts ps qs && same_bool po o)
              then some res
              else stored qs o (entry_of entries head)))
      → (qs : List Piece) (o : Bool)
      → stored qs o (router star exact wild (add_entry below entries head).1) ≡ (
          if free (stored (literal head ∷ ps) po (router star exact wild entries))
            && (same_parts (literal head ∷ ps) qs && same_bool po o)
          then some res
          else stored qs o (router star exact wild entries))
  unfolding stored same_parts same_piece
  insert_const below ps po head star exact wild entries res ih [] true = sym (never _ _ _)
  insert_const below ps po head star exact wild entries res ih [] false = sym (never _ _ _)
  insert_const below ps po head star exact wild entries res ih (any ∷ qs) o = sym (never _ _ _)
  insert_const below ps po head star exact wild entries res ih (literal t ∷ qs) o =
      rw
        (
          route_entry_of (stored ps po) entries head (stored_new ps po),
          route_entry_of (stored qs o) entries t (stored_new qs o),
          route_entry_of (stored qs o) (add_entry below entries head).1 t (stored_new qs o),
          add_entry-entry_of below entries head t,
        )
        (elim (Bool-cases (str_eq head t)) [
          | inl e ↦ rw e (
              ih qs o
              ∙ ap
                  (λ w.
                    if free (stored ps po (entry_of entries head))
                      && (same_parts ps qs && same_bool po o)
                    then some res
                    else stored qs o (entry_of entries w))
                  (str_eq_sound head t e))
          | inr e ↦ rw e (sym (never _ _ _))
        ])

  -- An addition is an insertion.
  pub router_add-insert :
      (path : List Token) (res : R) (r : Router R) (qs : List Piece) (o : Bool)
      → stored qs o (router_add path res r).1
        ≡ insert (view r) (pattern_of path) res (record { parts = qs; is_open = o })
  router_add-insert [] res (router star exact wild entries) qs o =
      unfold router_add insert view pattern_of same_pattern stored in
      insert_exact exact star wild entries res qs o
  router_add-insert (head ∷ tail) res (router star exact wild entries) qs o =
      cases (path_token_type head) refl (router_add-insert tail res)
    where
      cases :
          (t : TokenType)
          → path_token_type head ≡ t
          → ((r : Router R) (qs : List Piece) (o : Bool)
              → stored qs o (router_add tail res r).1
                ≡ insert (view r) (pattern_of tail) res (record { parts = qs; is_open = o }))
          → stored qs o (router_add (head ∷ tail) res (router star exact wild entries)).1
            ≡ insert
                (view (router star exact wild entries))
                (pattern_of (head ∷ tail))
                res
                (record { parts = qs; is_open = o })
      cases token_star t ih =
          rw (add_star head tail res star exact wild entries t, pattern_star head tail t)
            (unfold insert view same_pattern stored in insert_star star exact wild entries res qs o)
      cases token_wildcard t ih =
          rw (add_wildcard head tail res star exact wild entries t, pattern_wildcard head tail t)
            (unfold insert view same_pattern in
              insert_wildcard (λ q. router_add tail res q) (pattern_of tail).parts
                (pattern_of tail).is_open star exact wild entries res
                (λ qs o. ih (wildcards_of wild) qs o) qs o)
      cases token_const t ih =
          rw (add_const head tail res star exact wild entries t, pattern_const head tail t)
            (unfold insert view same_pattern in
              insert_const (λ q. router_add tail res q) (pattern_of tail).parts
                (pattern_of tail).is_open head star exact wild entries res
                (λ qs o. ih (entry_of entries head) qs o) qs o)
