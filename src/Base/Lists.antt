-- ===== src/Base/Lists.antt =====
-- Lists measured by native numbers, and lists of names by how often they hold each name.
use Prim.Native.Nat.{ℕ, zero, suc, ◌+◌, ◌-◌, ◌<◌, ◌≤◌, min}
use Prim.Native.String.{String}
use mathlib.Core.Path.{◌≡◌, refl, ap}
use mathlib.Core.Logic.{◌⊎◌, inl, inr, ◌↔◌}
use mathlib.Core.Bool.{Bool, true, false, ◌||◌}
use mathlib.Core.List.{List, [], ◌∷◌, ◌++◌}
use mathlib.Core.Option.{Option, none, some}
use native.Mathlib.Omega.{arith}
use text.Mathlib.TextEquality.{eq_iff}
use covonaut.Base.Tests.{if◌then◌else◌, ◌==◌}

module _ {ℓ} {A : Type ℓ} where
  abbrev pub length : List A → ℕ
  length [] = 0
  length (x ∷ xs) = suc (length xs)

  abbrev pub get_elem? : List A → ℕ → Option A
  get_elem? [] i = none
  get_elem? (x ∷ xs) zero = some x
  get_elem? (x ∷ xs) (suc i) = get_elem? xs i

  abbrev pub take : ℕ → List A → List A
  take zero xs = []
  take (suc n) [] = []
  take (suc n) (x ∷ xs) = x ∷ take n xs

  abbrev pub drop : ℕ → List A → List A
  drop zero xs = xs
  drop (suc n) [] = []
  drop (suc n) (x ∷ xs) = drop n xs

  abbrev pub concat : List (List A) → List A
  concat [] = []
  concat (l ∷ ls) = l ++ concat ls

  pub length-append : (xs ys : List A) → length (xs ++ ys) ≡ length xs + length ys
  length-append [] ys = omega arith
  length-append (x ∷ xs) ys = omega (arith, length-append xs ys)

  pub take-append-drop : (n : ℕ) (xs : List A) → take n xs ++ drop n xs ≡ xs
  take-append-drop zero xs = refl
  take-append-drop (suc n) [] = refl
  take-append-drop (suc n) (x ∷ xs) = ap (λ r. x ∷ r) (take-append-drop n xs)

  pub length-take : (n : ℕ) (xs : List A) → length (take n xs) ≡ min n (length xs)
  length-take zero xs = omega arith
  length-take (suc n) [] = omega arith
  length-take (suc n) (x ∷ xs) = omega (arith, length-take n xs)

  pub length-drop : (n : ℕ) (xs : List A) → length (drop n xs) ≡ length xs - n
  length-drop zero xs = omega arith
  length-drop (suc n) [] = omega arith
  length-drop (suc n) (x ∷ xs) = omega (arith, length-drop n xs)

  pub List-cases : (xs : List A) → (xs ≡ []) ⊎ ((x : A) × (rest : List A) × (xs ≡ x ∷ rest))
  List-cases [] = inl refl
  List-cases (x ∷ xs) = inr (x, xs, refl)

-- How often a name stands in a list.
abbrev pub count : String → List String → ℕ
count k [] = 0
count k (x ∷ xs) = (if x == k then 1 else 0) + count k xs

abbrev pub Has : String → List String → Type 0
Has k xs = 0 < count k xs

-- `slices.Contains`, as the source's own loops write it.
unfoldable pub contains : List String → String → Bool
contains [] k = false
contains (x ∷ xs) k = x == k || contains xs k

pub contains_iff : (xs : List String) (k : String) → (contains xs k ≡ true) ↔ Has k xs
unfolding contains
contains_iff [] k = ground arith
contains_iff (x ∷ xs) k = ground (arith, contains_iff xs k)

unfoldable pub remove : String → List String → List String
remove k [] = []
remove k (x ∷ xs) = let rest = remove k xs in if x == k then rest else x ∷ rest

pub count-append : (k : String) (xs ys : List String) → count k (xs ++ ys) ≡ count k xs + count k ys
count-append k [] ys = omega arith
count-append k (x ∷ xs) ys = omega (arith, count-append k xs ys)

pub count-remove :
    (k j : String) (xs : List String) → count j (remove k xs) ≡ (if k == j then 0 else count j xs)
unfolding remove
count-remove k j [] = ground arith
count-remove k j (x ∷ xs) = ground (arith, eq_iff k j, eq_iff x k, eq_iff x j, count-remove k j xs)

pub length-remove : (k : String) (xs : List String) → length (remove k xs) + count k xs ≡ length xs
unfolding remove
length-remove k [] = ground arith
length-remove k (x ∷ xs) = ground (arith, eq_iff x k, length-remove k xs)

-- Lists that hold every text equally often are equally long.
same_length :
    (n : ℕ) (xs ys : List String)
    → length xs ≤ n
    → ((k : String) → count k xs ≡ count k ys)
    → length xs ≡ length ys
same_length n [] [] fits same = refl
same_length n [] (y ∷ ys) fits same = absurd (ground (arith, same y, eq_iff y y))
same_length zero (x ∷ xs) ys fits same = absurd (omega arith)
same_length (suc n) (x ∷ xs) ys fits same =
    let some_x : 0 < count x (x ∷ xs) = ground (arith, eq_iff x x) in
    let rest =
      same_length n (remove x (x ∷ xs)) (remove x ys) (omega (arith, length-remove x (x ∷ xs)))
        (λ k. ground (arith, same k, count-remove x k (x ∷ xs), count-remove x k ys)) in
    omega (arith, rest, same x, length-remove x (x ∷ xs), length-remove x ys)

pub length-of_counts :
    (xs ys : List String) → ((k : String) → count k xs ≡ count k ys) → length xs ≡ length ys
length-of_counts xs ys same = same_length (length xs) xs ys (omega arith) same
