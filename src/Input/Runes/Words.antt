-- ===== src/Input/Runes/Words.antt =====
-- tui/core/runeutil.go: the word boundaries on the two sides of a cursor, seen as lists.
use mathlib.Core.List.{reverse, reverse-cons, reverse-append, append_assoc}
use covonaut.Base.{
  ℕ, suc, ◌+◌, List, [], ◌∷◌, ◌++◌, Bool, not, some, if◌then◌else◌, ◌≡◌, refl, ◌∙◌, ap, arith,
  length, get_elem?, take, drop, length-append, Bool-cases, inl, inr, sym,
}
use covonaut.Input.Runes.{
  ◌>>=◌, is_word_rune, skip_left, skip_right, find_word_boundary_left, find_word_boundary_right,
}

module _ {ℓ} {A : Type ℓ} where
  pub length-reverse : (xs : List A) → length (reverse xs) ≡ length xs
  length-reverse [] = refl
  length-reverse (x ∷ xs) =
      rw (reverse-cons x xs) (omega (arith, length-append (reverse xs) (x ∷ []), length-reverse xs))

  pub take-length : (xs ys : List A) → take (length xs) (xs ++ ys) ≡ xs
  take-length [] ys = refl
  take-length (x ∷ xs) ys = ap (λ r. x ∷ r) (take-length xs ys)

  pub drop-length : (xs ys : List A) → drop (length xs) (xs ++ ys) ≡ ys
  drop-length [] ys = refl
  drop-length (x ∷ xs) ys = drop-length xs ys

  pub get_elem?-length : (xs ys : List A) (y : A) → get_elem? (xs ++ y ∷ ys) (length xs) ≡ some y
  get_elem?-length [] ys y = refl
  get_elem?-length (x ∷ xs) ys y = get_elem?-length xs ys y

  pub reverse-move : (x : A) (xs ys : List A) → reverse (x ∷ xs) ++ ys ≡ reverse xs ++ x ∷ ys
  reverse-move x xs ys = simp (reverse-cons, append_assoc)

-- Dropping more than a prefix.
drop-past : (xs ys : List ℕ) (n : ℕ) → drop (length xs + n) (xs ++ ys) ≡ drop n ys
drop-past [] ys n = ap (λ k. drop k ys) (omega arith)
drop-past (x ∷ xs) ys n =
    let same : suc (length xs) + n ≡ suc (length xs + n) = omega arith in
    ap (λ k. drop k (x ∷ xs ++ ys)) same ∙ drop-past xs ys n

-- The longest prefix whose members pass the test, and the rest.
abbrev pub span : (ℕ → Bool) → List ℕ → List ℕ × List ℕ
span test [] = ([], [])
span test (x ∷ xs) =
    let (front, back) = span test xs in if test x then (x ∷ front, back) else ([], x ∷ xs)

-- From a cursor over what separates words and then over one word: the runes passed, and the rest.
abbrev pub word_span : (ℕ → Bool) → List ℕ → List ℕ × List ℕ
word_span word xs =
    let (gap, on) = span (λ r. not (word r)) xs in
    let (rest, beyond) = span word on in (gap ++ rest, beyond)

pub span-append : (test : ℕ → Bool) (xs : List ℕ) → (span test xs).0 ++ (span test xs).1 ≡ xs
span-append test [] = refl
span-append test (x ∷ xs) = ground (arith, span-append test xs)

pub word_span-append :
    (word : ℕ → Bool) (xs : List ℕ) → (word_span word xs).0 ++ (word_span word xs).1 ≡ xs
word_span-append word xs =
    let (gap, on) = span (λ r. not (word r)) xs in
    append_assoc gap (span word on).0 (span word on).1
    ∙ ap (λ t. gap ++ t) (span-append word on)
    ∙ span-append (λ r. not (word r)) xs

skip_left-span :
    (test : ℕ → Bool) (l r : List ℕ)
    → skip_left test (reverse l ++ r) (length l) ≡ some (length (span test l).1)
unfolding skip_left
skip_left-span test [] r = refl
skip_left-span test (c ∷ l) r =
    let here : get_elem? (reverse (c ∷ l) ++ r) (length l) ≡ some c =
      ap (λ t. get_elem? t (length l)) (reverse-move c l r)
      ∙ ap (get_elem? (reverse l ++ c ∷ r)) (sym (length-reverse l))
      ∙ get_elem?-length (reverse l) r c in
    let on =
      ap (λ t. skip_left test t (length l)) (reverse-move c l r) ∙ skip_left-span test l (c ∷ r) in
    rw (here, skip_left) (elim (Bool-cases (test c)) [ inl e ↦ rw e on | inr e ↦ rw e refl ])

skip_right-span :
    (test : ℕ → Bool) (xs : List ℕ) (i : ℕ) → skip_right test xs i ≡ i + length (span test xs).0
unfolding skip_right
skip_right-span test [] i = omega arith
skip_right-span test (x ∷ xs) i = ground (arith, skip_right-span test xs (i + 1))

module _ (letter digit : ℕ → Bool) where
  abbrev pub gap_rune : ℕ → Bool
  gap_rune r = not (is_word_rune letter digit r)

  pub find_word_boundary_left-word_span :
      (l r : List ℕ)
      → find_word_boundary_left letter digit (reverse l ++ r) (length l)
        ≡ some (length (word_span (is_word_rune letter digit) l).1)
  unfolding find_word_boundary_left
  find_word_boundary_left-word_span l r =
      let word = is_word_rune letter digit in
      let (gap, on) = span gap_rune l in
      let parts : reverse l ++ r ≡ reverse on ++ (reverse gap ++ r) =
        ap (λ t. reverse t ++ r) (sym (span-append gap_rune l))
        ∙ simp (reverse-append, append_assoc) in
      ap (λ o. o >>= λ i. skip_left word (reverse l ++ r) i) (skip_left-span gap_rune l r)
      ∙ ap (λ t. skip_left word t (length on)) parts
      ∙ skip_left-span word on (reverse gap ++ r)

  pub find_word_boundary_right-word_span :
      (l r : List ℕ)
      → find_word_boundary_right letter digit (reverse l ++ r) (length l)
        ≡ length l + length (word_span (is_word_rune letter digit) r).0
  unfolding find_word_boundary_right
  find_word_boundary_right-word_span l r =
      let word = is_word_rune letter digit in
      let (gap, on) = span gap_rune r in
      let start : drop (length l) (reverse l ++ r) ≡ r =
        ap (λ k. drop k (reverse l ++ r)) (sym (length-reverse l)) ∙ drop-length (reverse l) r in
      let first : skip_right gap_rune (drop (length l) (reverse l ++ r)) (length l)
          ≡ length l + length gap =
        ap (λ t. skip_right gap_rune t (length l)) start ∙ skip_right-span gap_rune r (length l) in
      let beyond : drop (length l + length gap) (reverse l ++ r) ≡ on =
        ap (λ k. drop (k + length gap) (reverse l ++ r)) (sym (length-reverse l))
        ∙ drop-past (reverse l) r (length gap)
        ∙ ap (drop (length gap)) (sym (span-append gap_rune r))
        ∙ drop-length gap on in
      ap (λ i. skip_right word (drop i (reverse l ++ r)) i) first
      ∙ ap (λ t. skip_right word t (length l + length gap)) beyond
      ∙ skip_right-span word on (length l + length gap)
      ∙ omega (arith, length-append gap (span word on).0)
