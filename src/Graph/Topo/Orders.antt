-- ===== src/Graph/Topo/Orders.antt =====
-- Two orders in which a map can be ranged over, for tests.
use covonaut.Base.{
  String, List, [], ◌∷◌, ◌++◌, ◌≡◌, refl, arith, count, length, count-append, length-append,
}
use covonaut.Graph.Topo.{MapOrder}

abbrev pub as_is : MapOrder
as_is = record { apply = λ xs. xs; same = λ k xs. refl; size = λ xs. refl }

abbrev rotate : List String → List String
rotate [] = []
rotate (x ∷ xs) = xs ++ x ∷ []

pub count-rotate : (k : String) (xs : List String) → count k (rotate xs) ≡ count k xs
count-rotate k [] = refl
count-rotate k (x ∷ xs) = omega (arith, count-append k xs (x ∷ []))

pub length-rotate : (xs : List String) → length (rotate xs) ≡ length xs
length-rotate [] = refl
length-rotate (x ∷ xs) = omega (arith, length-append xs (x ∷ []))

-- The first key comes last.
abbrev pub rotated : MapOrder
rotated = record { apply = rotate; same = count-rotate; size = length-rotate }
