-- ===== src/Input/Line/Moves.antt =====
-- tui/component/input.go: the actions that move the cursor or take a value.
use mathlib.Core.List.{reverse, reverse-append, reverse-reverse, append_assoc, append-nil}
use covonaut.Base.{
  ℕ, ◌+◌, List, [], ◌∷◌, ◌++◌, false, Option, none, some, ◌≡◌, refl, sym, ap, ◌∙◌, arith, ltb,
  if◌then◌else◌, length, length-append, ℤ, pos, negsuc,
}
use covonaut.Input.{
  Input, Env, quiet, notify, moved, move_cursor, select_all, move_cursor_left_word,
  move_cursor_right_word, line_end, recall, set_value,
}
use covonaut.Input.Runes.{◌>>=◌}
use covonaut.Input.Runes.Words.{
  length-reverse, word_span, word_span-append, find_word_boundary_left-word_span,
  find_word_boundary_right-word_span,
}
use covonaut.Input.Line.{
  Line, shown, text, presented, line_act, step_left, step_right, word, setting,
}
use covonaut.Input.Line.Shown.{length_at, shift}
use covonaut.Input.Keys.{word_left, word_right}

abbrev still : List ℕ → List ℕ → Line → Line
still l r x = record x { before = l; after = r; selected = false; armed = false }

-- A cursor that comes to stand behind `l'` leaves the runes alone.
move_cursor-still :
    (delta : ℤ) (l r l' r' : List ℕ) (x : Line)
    → reverse l ++ r ≡ reverse l' ++ r'
    → (if ltb (length (reverse l ++ r)) (moved delta (length l))
        then length (reverse l ++ r)
        else moved delta (length l))
      ≡ length l'
    → move_cursor delta (shown (record x { before = l; after = r })) ≡ shown (still l' r' x)
unfolding move_cursor
move_cursor-still delta l r l' r' x same n =
    λ i. record (shown (still l' r' x)) { runes = same i; cursor = n i }

pub move_cursor-left :
    (l r : List ℕ) (x : Line)
    → some (quiet (move_cursor (negsuc 0) (shown (record x { before = l; after = r }))))
      ≡ some (presented (step_left l r x))
move_cursor-left [] r x =
    ap (λ j. some (quiet j))
      (move_cursor-still (negsuc 0) [] r [] r x refl (ground (arith, length_at {A = ℕ} [] r)))
move_cursor-left (c ∷ l) r x =
    ap (λ j. some (quiet j))
      (move_cursor-still (negsuc 0) (c ∷ l) r l (c ∷ r) x (shift (c ∷ []) l r)
        (ground (arith, length_at (c ∷ l) r)))

pub move_cursor-right :
    (l r : List ℕ) (x : Line)
    → some (quiet (move_cursor (pos 1) (shown (record x { before = l; after = r }))))
      ≡ some (presented (step_right l r x))
move_cursor-right l [] x =
    ap (λ j. some (quiet j))
      (move_cursor-still (pos 1) l [] l [] x refl (ground (arith, length_at l [])))
move_cursor-right l (c ∷ r) x =
    ap (λ j. some (quiet j))
      (move_cursor-still (pos 1) l (c ∷ r) (c ∷ l) r x (sym (shift (c ∷ []) l r))
        (ground (arith, length_at l (c ∷ r))))

pub select_all-text :
    (x : Line)
    → select_all (shown x)
      ≡ shown
          (record x { selected = ltb 0 (length (text x)); before = reverse (text x); after = [] })
unfolding select_all
select_all-text x = λ i. record (shown x) {
  runes = sym (append-nil (reverse (reverse (text x))) ∙ reverse-reverse (text x)) i;
  all_selected = ltb 0 (length (text x));
  cursor = sym (length-reverse (text x)) i;
}

pub move_cursor_left_word-word_span :
    (env : Env) (x : Line)
    → (move_cursor_left_word env (shown x) >>= λ j. some (quiet j))
      ≡ some (presented (line_act env word_left x))
unfolding move_cursor_left_word line_act
move_cursor_left_word-word_span env x =
    let l = x.before in
    let (passed, rest) = word_span (word env) l in
    let same : text x ≡ reverse rest ++ (reverse passed ++ x.after) =
      ap (λ t. reverse t ++ x.after) (sym (word_span-append (word env) l))
      ∙ shift passed rest x.after in
    ap
      (λ o.
        (o >>= λ (start : ℕ).
        some (record (shown x) { all_selected = false; cursor = start; last_kill_op = false }))
        >>= λ (j : Input). some (quiet j))
      (find_word_boundary_left-word_span env.letter env.digit l x.after)
    ∙ λ i. some (
        quiet (record (shown x) {
          runes = same i;
          all_selected = false;
          cursor = length rest;
          last_kill_op = false;
        }))

pub move_cursor_right_word-word_span :
    (env : Env) (x : Line)
    → some (quiet (move_cursor_right_word env (shown x)))
      ≡ some (presented (line_act env word_right x))
unfolding move_cursor_right_word line_act
move_cursor_right_word-word_span env x =
    let l = x.before in
    let (passed, rest) = word_span (word env) x.after in
    let same : text x ≡ reverse (reverse passed ++ l) ++ rest =
      ap (λ t. reverse l ++ t) (sym (word_span-append (word env) x.after))
      ∙ simp (reverse-append, reverse-reverse, append_assoc) in
    let stop : length l + length passed ≡ length (reverse passed ++ l) =
      omega (arith, length-append (reverse passed) l, length-reverse passed) in
    λ i. some (
      quiet (record (shown x) {
        runes = same i;
        all_selected = false;
        cursor = (find_word_boundary_right-word_span env.letter env.digit l x.after ∙ stop) i;
        last_kill_op = false;
      }))

pub line_end-text :
    (x : Line)
    → line_end (shown x)
      ≡ shown (record x { before = reverse (text x); after = []; selected = false })
unfolding line_end
line_end-text x = λ i. record (shown x) {
  runes = sym (append-nil (reverse (reverse (text x))) ∙ reverse-reverse (text x)) i;
  all_selected = false;
  cursor = sym (length-reverse (text x)) i;
}

pub recall-setting :
    (env : Env) (value : Option (Option (List ℕ))) (x : Line)
    → recall env value (shown x) ≡ presented (setting env value x)
unfolding recall set_value
recall-setting env none x = refl
recall-setting env (some none) x = refl
recall-setting env (some (some s)) x = λ i. notify env (record (shown x) {
  runes = sym (append-nil (reverse (reverse s)) ∙ reverse-reverse s) i;
  cursor = sym (length-reverse s) i;
  scroll = 0;
  all_selected = false;
})
