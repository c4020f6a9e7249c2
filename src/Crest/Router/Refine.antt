-- ===== src/Crest/Router/Refine.antt =====
-- The routing tree refines the map from patterns to resources.
use optics_light.Crest.Router.{
  Token, Router, router, or, route_entry, route_wild, new_router, wildcards_of, router_add,
  router_route,
}
use optics_light.Crest.Router.Patterns.{
  any, literal, Pattern, pattern_of, same_pattern, candidates, Routes, free, insert, first, stored,
  view,
}
use optics_light.Crest.Router.Below.{stored_new, entry_of, route_entry_of, route_wild_of}
use optics_light.Crest.Router.Add.{router_add-free, router_add-insert}
use optics_light.Prelude.{
  ◌≡◌, refl, ap, ap₂, sym, ◌∙◌, Option, none, some, List, [], ◌∷◌, ◌++◌, map, Bool, true, ◌&&◌,
  if◌then◌else◌,
}

module _ {R : Type 0} where
  or_assoc : (a b c : Option R) → or (or a b) c ≡ or a (or b c)
  or_assoc none b c = refl
  or_assoc (some x) b c = refl

  or_none : (a : Option R) → or a none ≡ a
  or_none none = refl
  or_none (some x) = refl

  first_append :
      (m : Routes R) (ps qs : List Pattern) → first m (ps ++ qs) ≡ or (first m ps) (first m qs)
  unfolding first
  first_append m [] qs = refl
  first_append m (p ∷ ps) qs =
      ap (or (m p)) (first_append m ps qs) ∙ sym (or_assoc (m p) (first m ps) (first m qs))

  -- Two maps that agree where the first looks at the changed patterns.
  first_map :
      (m n : Routes R) (f : Pattern → Pattern) (ps : List Pattern)
      → ((p : Pattern) → m (f p) ≡ n p)
      → first m (map f ps) ≡ first n ps
  unfolding first
  first_map m n f [] h = refl
  first_map m n f (p ∷ ps) h = ap₂ or (h p) (first_map m n f ps h)

  first_same :
      (m n : Routes R) (ps : List Pattern) → ((p : Pattern) → m p ≡ n p) → first m ps ≡ first n ps
  unfolding first
  first_same m n [] h = refl
  first_same m n (p ∷ ps) h = ap₂ or (h p) (first_same m n ps h)

  route_new : (path : List Token) → router_route path (new_router {R = R}) ≡ none
  unfolding router_route route_entry
  route_new [] = refl
  route_new (head ∷ tail) = refl

  -- A lookup is the first of the candidates that is taken.
  pub router_route-first :
      (path : List Token) (r : Router R) → router_route path r ≡ first (view r) (candidates path)
  router_route-first [] (router star exact wild entries) =
      unfold router_route first candidates view stored in ap (or exact) (sym (or_none star))
  router_route-first (head ∷ tail) (router star exact wild entries) = step (router_route-first tail)
    where
      ps : List Pattern
      ps = candidates tail

      m : Routes R
      m = view (router star exact wild entries)

      lit : Pattern → Pattern
      lit p = record p { parts = literal head ∷ p.parts }

      wil : Pattern → Pattern
      wil p = record p { parts = any ∷ p.parts }

      here : Pattern
      here = record { parts = []; is_open = true }

      open_end : star ≡ first m (here ∷ [])
      open_end = unfold first view stored in sym (or_none star)

      literals :
          router_route tail (entry_of entries head) ≡ first (view (entry_of entries head)) ps
          → route_entry (λ q. router_route tail q) entries head ≡ first m (map lit ps)
      literals ih =
          route_entry_of (λ q. router_route tail q) entries head (route_new tail)
          ∙ ih
          ∙ sym (
              first_map m (view (entry_of entries head)) lit ps (λ p.
                unfold view stored in
                route_entry_of (stored p.parts p.is_open) entries head
                  (stored_new p.parts p.is_open)))

      wildcards :
          router_route tail (wildcards_of wild) ≡ first (view (wildcards_of wild)) ps
          → route_wild (λ q. router_route tail q) wild ≡ first m (map wil ps)
      wildcards ih =
          route_wild_of (λ q. router_route tail q) wild (route_new tail)
          ∙ ih
          ∙ sym (
              first_map m (view (wildcards_of wild)) wil ps (λ p.
                unfold view stored in
                route_wild_of (stored p.parts p.is_open) wild (stored_new p.parts p.is_open)))

      step :
          ((r : Router R) → router_route tail r ≡ first (view r) ps)
          → router_route (head ∷ tail) (router star exact wild entries)
            ≡ first m (candidates (head ∷ tail))
      step ih =
          unfold router_route candidates in
          ap₂ or (literals (ih (entry_of entries head)))
            (ap₂ or (wildcards (ih (wildcards_of wild))) open_end)
          ∙ sym (
              first_append m (map lit ps) (map wil ps ++ (here ∷ []))
              ∙ ap (or (first m (map lit ps))) (first_append m (map wil ps) (here ∷ [])))

  -- The additions of a service, and what the abstract service says to them.
  unfoldable pub add_all : List (List Token × R) → Router R → List Bool × Router R
  add_all [] r = ([], r)
  add_all ((path, res) ∷ more) r =
      let now = router_add path res r in
      let later = add_all more now.1 in (now.0 ∷ later.0, later.1)

  unfoldable pub insert_all : List (List Token × R) → Routes R → List Bool × Routes R
  insert_all [] m = ([], m)
  insert_all ((path, res) ∷ more) m =
      let later = insert_all more (insert m (pattern_of path) res) in
      (free (m (pattern_of path)) ∷ later.0, later.1)

  refines :
      (adds : List (List Token × R)) (r : Router R) (m : Routes R)
      → ((p : Pattern) → view r p ≡ m p)
      → ((add_all adds r).0 ≡ (insert_all adds m).0)
        × ((p : Pattern) → view (add_all adds r).1 p ≡ (insert_all adds m).1 p)
  unfolding add_all insert_all view stored insert
  refines [] r m h = (refl, h)
  refines ((path, res) ∷ more) r m h =
      let next = refines more (router_add path res r).1 (insert m (pattern_of path) res) (λ p.
        router_add-insert path res r p.parts p.is_open
        ∙ ap₂ (λ a b. if free a && same_pattern (pattern_of path) p then some res else b)
            (h (pattern_of path)) (h p)) in
      (
        ap₂ (λ b bs. b ∷ bs) (router_add-free path res r ∙ ap free (h (pattern_of path))) next.0,
        next.1,
      )

  -- For any additions to an empty router, each is accepted or refused as by the map from patterns to
  -- resources, which refuses a pattern that is taken; and then the route of any path is the resource of
  -- the first pattern that fits the path and is taken, where at each token the literal comes before the
  -- wildcard and the wildcard before the star.
  pub router_refines :
      (adds : List (List Token × R)) (path : List Token)
      → let spec = insert_all adds (λ _. none) in
        ((add_all adds new_router).0 ≡ spec.0)
        × (router_route path (add_all adds new_router).1 ≡ first spec.1 (candidates path))
  router_refines adds path =
      let r =
        refines adds new_router (λ _. none) (λ p. unfold view in stored_new p.parts p.is_open) in
      (
        r.0,
        router_route-first path (add_all adds new_router).1 ∙ first_same _ _ (candidates path) r.1,
      )
