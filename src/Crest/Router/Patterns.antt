-- ===== src/Crest/Router/Patterns.antt =====
-- What a routing tree stands for: a map from patterns to resources.
use optics_light.Htable.{str_eq}
use optics_light.Crest.Path.{path_token_type, token_star, token_wildcard, token_const}
use optics_light.Crest.Router.{Token, Router, router, or, route_entry, route_wild}
use optics_light.Prelude.{
  ◌≡◌, refl, Option, none, some, List, [], ◌∷◌, ◌++◌, map, Bool, true, false, ◌&&◌, if◌then◌else◌,
}

pub data Piece : Type 0 where
  any : Piece
  literal : Token → Piece

-- A pattern is open where more tokens may follow.
pub record Pattern : Type 0 where
  pub parts : List Piece
  pub is_open : Bool

-- The pattern of a path that is added: what follows a star does not count.
unfoldable pub pattern_of : List Token → Pattern
pattern_of [] = record { parts = []; is_open = false }
pattern_of (head ∷ tail) = elim (path_token_type head) [
  | token_star ↦ record { parts = []; is_open = true }
  | token_wildcard ↦ record {
    parts = any ∷ (pattern_of tail).parts;
    is_open = (pattern_of tail).is_open;
  }
  | token_const ↦ record {
    parts = literal head ∷ (pattern_of tail).parts;
    is_open = (pattern_of tail).is_open;
  }
]

pub pattern_star :
    (head : Token) (tail : List Token)
    → path_token_type head ≡ token_star
    → pattern_of (head ∷ tail) ≡ record { parts = []; is_open = true }
unfolding pattern_of
pattern_star head tail t = rw (t, pattern_of) refl

pub pattern_wildcard :
    (head : Token) (tail : List Token)
    → path_token_type head ≡ token_wildcard
    → pattern_of (head ∷ tail)
      ≡ record { parts = any ∷ (pattern_of tail).parts; is_open = (pattern_of tail).is_open }
unfolding pattern_of
pattern_wildcard head tail t = rw (t, pattern_of) refl

pub pattern_const :
    (head : Token) (tail : List Token)
    → path_token_type head ≡ token_const
    → pattern_of (head ∷ tail) ≡ record {
      parts = literal head ∷ (pattern_of tail).parts;
      is_open = (pattern_of tail).is_open;
    }
unfolding pattern_of
pattern_const head tail t = rw (t, pattern_of) refl

unfoldable pub same_piece : Piece → Piece → Bool
same_piece any any = true
same_piece (literal a) (literal b) = str_eq a b
same_piece _ _ = false

unfoldable pub same_parts : List Piece → List Piece → Bool
same_parts [] [] = true
same_parts (a ∷ as') (b ∷ bs) = same_piece a b && same_parts as' bs
same_parts _ _ = false

unfoldable pub same_bool : Bool → Bool → Bool
same_bool true b = b
same_bool false true = false
same_bool false false = true

unfoldable pub same_pattern : Pattern → Pattern → Bool
same_pattern p q = same_parts p.parts q.parts && same_bool p.is_open q.is_open

-- The patterns that fit a path, the closest first: at each token the literal before the wildcard before
-- the star, and the longer ones first.
unfoldable pub candidates : List Token → List Pattern
candidates [] = record { parts = []; is_open = false } ∷ record { parts = []; is_open = true } ∷ []
candidates (head ∷ tail) =
    map (λ (p : Pattern). record p { parts = literal head ∷ p.parts }) (candidates tail)
    ++ (map (λ (p : Pattern). record p { parts = any ∷ p.parts }) (candidates tail)
        ++ (record { parts = []; is_open = true } ∷ []))

abbrev pub Routes : Type 0 → Type 0
Routes R = Pattern → Option R

module _ {R : Type 0} where
  -- The abstract service: an addition is refused if the pattern is taken.
  unfoldable pub free : Option R → Bool
  free none = true
  free (some _) = false

  unfoldable pub insert : Routes R → Pattern → R → Routes R
  insert m p res q = if free (m p) && same_pattern p q then some res else m q

  unfoldable pub first : Routes R → List Pattern → Option R
  first m [] = none
  first m (p ∷ ps) = or (m p) (first m ps)

  -- The resource that a tree holds for a pattern.
  unfoldable pub stored : List Piece → Bool → Router R → Option R
  stored [] true (router star exact wild entries) = star
  stored [] false (router star exact wild entries) = exact
  stored (any ∷ ps) o (router star exact wild entries) = route_wild (λ q. stored ps o q) wild
  stored (literal t ∷ ps) o (router star exact wild entries) =
      route_entry (λ q. stored ps o q) entries t

  unfoldable pub view : Router R → Routes R
  view r p = stored p.parts p.is_open r
