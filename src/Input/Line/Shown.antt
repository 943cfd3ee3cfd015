-- ===== src/Input/Line/Shown.antt =====
-- tui/component/input.go: slices of a line's runes at its cursor, and the helpers of the actions.
use mathlib.Core.List.{reverse, reverse-append, reverse-reverse, append_assoc}
use covonaut.Base.{
  ℕ, ◌+◌, ◌-◌, List, [], ◌++◌, Bool, true, false, some, ◌≡◌, refl, sym, ap, ◌∙◌, arith, leb, length,
  take, drop, length-append,
}
use covonaut.Input.{insert_string}
use covonaut.Input.Runes.{◌>>=◌, cut, without}
use covonaut.Input.Runes.Words.{length-reverse, take-length, drop-length}
use covonaut.Input.Line.{Line, shown, cleared, put}

module _ {ℓ} {A : Type ℓ} where
  pub take_at : (l r : List A) → take (length l) (reverse l ++ r) ≡ reverse l
  take_at l r =
      ap (λ k. take k (reverse l ++ r)) (sym (length-reverse l)) ∙ take-length (reverse l) r

  pub drop_at : (l r : List A) → drop (length l) (reverse l ++ r) ≡ r
  drop_at l r =
      ap (λ k. drop k (reverse l ++ r)) (sym (length-reverse l)) ∙ drop-length (reverse l) r

  pub length_at : (l r : List A) → length (reverse l ++ r) ≡ length l + length r
  length_at l r = omega (arith, length-append (reverse l) r, length-reverse l)

  pub cut_at : (l r : List A) → cut (length l) (reverse l ++ r) ≡ some (reverse l, r)
  unfolding cut
  cut_at l r =
      let within : leb (length l) (length (reverse l ++ r)) ≡ true =
        ground (arith, length_at l r) in
      rw (within, take_at l r, drop_at l r) refl

  -- The runes that are nearest to the cursor move to its other side.
  pub shift : (d l r : List A) → reverse (d ++ l) ++ r ≡ reverse l ++ (reverse d ++ r)
  shift d l r = simp (reverse-append, append_assoc)

  pub without_before :
      (d l r : List A)
      → without (length l) (length (d ++ l)) (reverse (d ++ l) ++ r) ≡ some (reverse l ++ r)
  unfolding without
  without_before d l r =
      let within : leb (length (d ++ l)) (length (reverse (d ++ l) ++ r)) ≡ true =
        ground (arith, length_at (d ++ l) r) in
      let front : take (length l) (reverse (d ++ l) ++ r) ≡ reverse l =
        ap (take (length l)) (shift d l r) ∙ take_at l (reverse d ++ r) in
      rw (within, front, drop_at (d ++ l) r) refl

  pub without_after :
      (l d r : List A)
      → without (length l) (length l + length d) (reverse l ++ (d ++ r)) ≡ some (reverse l ++ r)
  unfolding without
  without_after l d r =
      let within : leb (length l + length d) (length (reverse l ++ (d ++ r))) ≡ true =
        ground (arith, length_at l (d ++ r), length-append d r) in
      let back : drop (length l + length d) (reverse l ++ (d ++ r)) ≡ r =
        ap (λ k. drop k (reverse l ++ (d ++ r)))
          (omega (arith, length-append (reverse l) d, length-reverse l))
        ∙ ap (drop (length (reverse l ++ d))) (sym (append_assoc (reverse l) d r))
        ∙ drop-length (reverse l ++ d) r in
      rw (within, take_at l (d ++ r), back) refl

  pub slice_before :
      (d l r : List A)
      → take (length (d ++ l) - length l) (drop (length l) (reverse (d ++ l) ++ r)) ≡ reverse d
  slice_before d l r =
      ap (λ k. take k (drop (length l) (reverse (d ++ l) ++ r)))
        (omega (arith, length-append d l, length-reverse d))
      ∙ ap (λ t. take (length (reverse d)) (drop (length l) t)) (shift d l r)
      ∙ ap (take (length (reverse d))) (drop_at l (reverse d ++ r))
      ∙ take-length (reverse d) r

  pub slice_after :
      (l d r : List A)
      → take (length l + length d - length l) (drop (length l) (reverse l ++ (d ++ r))) ≡ d
  slice_after l d r =
      ap (λ k. take k (drop (length l) (reverse l ++ (d ++ r)))) (omega arith)
      ∙ ap (take (length d)) (drop_at l (d ++ r))
      ∙ take-length d r

-- A line is not changed by moving its parts, if runes and cursor stay.
pub shown-eq :
    (l r l' r' : List ℕ) (x : Line)
    → reverse l ++ r ≡ reverse l' ++ r'
    → length l ≡ length l'
    → shown (record x { before = l; after = r }) ≡ shown (record x { before = l'; after = r' })
shown-eq l r l' r' x same n = λ i. record (shown x) { runes = same i; cursor = n i }

pub placed : (s l r : List ℕ) → reverse l ++ s ++ r ≡ reverse (reverse s ++ l) ++ r
placed s l r = simp (reverse-append, reverse-reverse, append_assoc)

placed_end : (s l : List ℕ) → length l + length s ≡ length (reverse s ++ l)
placed_end s l = omega (arith, length-append (reverse s) l, length-reverse s)

-- `put` is what `insertStringLocked` does.
pub insert_string-put : (s : List ℕ) (x : Line) → insert_string s (shown x) ≡ some (shown (put s x))
unfolding insert_string cut
insert_string-put s x = at_selected x.selected
  where
    at_selected :
        (b : Bool)
        → insert_string s (shown (record x { selected = b }))
          ≡ some (shown (put s (record x { selected = b })))
    at_selected true = λ i.
        some (record (shown (cleared x)) { runes = placed s [] [] i; cursor = placed_end s [] i })
    at_selected false =
        ap
          (λ o. o >>= λ (parts : List ℕ × List ℕ). some (record (shown x) {
            runes = parts.0 ++ s ++ parts.1;
            cursor = length x.before + length s;
            all_selected = false;
          }))
          (cut_at x.before x.after)
        ∙ λ i. some (record (shown x) {
          runes = placed s x.before x.after i;
          cursor = placed_end s x.before i;
          all_selected = false;
        })
