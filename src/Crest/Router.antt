-- ===== src/Crest/Router.antt =====
-- The routing tree: src/utils/crest/router.c. A path is what is left of it, the list of its tokens, on
-- which `path_empty`, `path_head` and `path_tail` are the tests and parts of a list (Path.Items). The
-- capacity of the array of entries is left out.
pub mod Patterns
pub mod Below
pub mod Add
pub mod Refine
use optics_light.Htable.{str_eq}
use optics_light.Crest.Path.{path_token_type, TokenType, token_star, token_wildcard, token_const}
use optics_light.Prelude.{ℕ, Option, none, some, List, [], ◌∷◌, Bool, true, false, if◌then◌else◌}

abbrev pub Token : Type 0
Token = List ℕ

-- `struct router` and its array of `struct routing_entry`. `R` stands for `struct crest_res`.
mutual
  pub data Router (R : Type 0) : Type 0 where
    router : Option R → Option R → Wildcards R → Entries R → Router R

  pub data Wildcards (R : Type 0) : Type 0 where
    null : Wildcards R
    sub : Router R → Wildcards R

  pub data Entries (R : Type 0) : Type 0 where
    end : Entries R
    entry : Token → Router R → Entries R → Entries R

module _ {R : Type 0} where
  -- `calloc`, and the zeroed entry that `router_append` adds
  abbrev pub new_router : Router R
  new_router = router none none null end

  -- The loop of `router_add` over the entries, with `router_append` at its end. `add` adds the tail.
  unfoldable pub add_entry : (Router R → Bool × Router R) → Entries R → Token → Bool × Entries R
  add_entry add end head = let r = add new_router in (r.0, entry head r.1 end)
  add_entry add (entry value below rest) head =
      let here = add below in
      let later = add_entry add rest head in
      if str_eq value head
      then (here.0, entry value here.1 rest)
      else (later.0, entry value below later.1)

  abbrev pub wildcards_of : Wildcards R → Router R
  wildcards_of null = new_router
  wildcards_of (sub r) = r

  -- A resource is put where there is none.
  unfoldable pub place : Option R → R → Bool × Option R
  place none res = (true, some res)
  place (some old) res = (false, some old)

  unfoldable pub router_add : List Token → R → Router R → Bool × Router R
  router_add [] res (router star exact wild entries) =
      let p = place exact res in (p.0, router star p.1 wild entries)
  router_add (head ∷ tail) res (router star exact wild entries) = elim (path_token_type head) [
    | token_star ↦ let p = place star res in (p.0, router p.1 exact wild entries)
    | token_wildcard ↦
        let r = router_add tail res (wildcards_of wild) in
        (r.0, router star exact (sub r.1) entries)
    | token_const ↦
        let r = add_entry (λ q. router_add tail res q) entries head in
        (r.0, router star exact wild r.1)
  ]

  abbrev pub or : Option R → Option R → Option R
  or none b = b
  or (some a) b = some a

  -- The loop of `router_route`: only the first entry that fits is looked into.
  unfoldable pub route_entry : (Router R → Option R) → Entries R → Token → Option R
  route_entry route end head = none
  route_entry route (entry value below rest) head =
      let later = route_entry route rest head in if str_eq value head then route below else later

  abbrev pub route_wild : (Router R → Option R) → Wildcards R → Option R
  route_wild route null = none
  route_wild route (sub r) = route r

  unfoldable pub router_route : List Token → Router R → Option R
  router_route [] (router star exact wild entries) = or exact star
  router_route (head ∷ tail) (router star exact wild entries) =
      or (route_entry (λ q. router_route tail q) entries head)
        (or (route_wild (λ q. router_route tail q) wild) star)
