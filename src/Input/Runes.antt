-- ===== src/Input/Runes.antt =====
-- tui/core/runeutil.go: the word boundaries around a cursor, with the slices that the editors of
-- tui/component take of their runes. A rune is its code point. `letter` and `digit` are
-- `unicode.IsLetter` and `unicode.IsDigit`. Where an index is out of range the source panics, and
-- the result here is `none`.
pub mod Words
use covonaut.Base.{
  ℕ, zero, suc, ◌+◌, ◌-◌, List, [], ◌∷◌, ◌++◌, Bool, ◌||◌, not, Option, none, some, eqb, leb,
  if◌then◌else◌, length, get_elem?, take, drop,
}

infixl 5 ◌>>=◌
abbrev pub ◌>>=◌ {ℓ κ} : {A : Type ℓ} {B : Type κ} → Option A → (A → Option B) → Option B
none >>= next = none
some found >>= next = next found

-- `s[:n]` and `s[n:]` at once
unfoldable pub cut {ℓ} : {A : Type ℓ} → ℕ → List A → Option (List A × List A)
cut n xs = if leb n (length xs) then some (take n xs, drop n xs) else none

-- `append(s[:start], s[end:]...)`, where `start` is at most `end`
unfoldable pub without {ℓ} : {A : Type ℓ} → ℕ → ℕ → List A → Option (List A)
without start end xs = if leb end (length xs) then some (take start xs ++ drop end xs) else none

module _ (letter digit : ℕ → Bool) where
  unfoldable pub is_word_rune : ℕ → Bool
  is_word_rune r = letter r || digit r || eqb r 95

-- `for i > 0 && test(runes[i-1]) { i-- }`
unfoldable pub skip_left : (ℕ → Bool) → List ℕ → ℕ → Option ℕ
skip_left test runes zero = some zero
skip_left test runes (suc i) = elim (get_elem? runes i) [
  | none ↦ none
  | some r ↦ if test r then skip_left test runes i else some (suc i)
]

-- `for i < n && test(runes[i]) { i++ }`, where the runes from `i` on are given
unfoldable pub skip_right : (ℕ → Bool) → List ℕ → ℕ → ℕ
skip_right test [] i = i
skip_right test (r ∷ rest) i = if test r then skip_right test rest (i + 1) else i

module _ (letter digit : ℕ → Bool) where
  unfoldable pub find_word_boundary_left : List ℕ → ℕ → Option ℕ
  find_word_boundary_left runes cursor =
      skip_left (λ r. not (is_word_rune letter digit r)) runes cursor >>= λ i.
      skip_left (is_word_rune letter digit) runes i

  unfoldable pub find_word_boundary_right : List ℕ → ℕ → ℕ
  find_word_boundary_right runes cursor =
      let i = skip_right (λ r. not (is_word_rune letter digit r)) (drop cursor runes) cursor in
      skip_right (is_word_rune letter digit) (drop i runes) i
