-- ===== src/Input/Line/Kills.antt =====
-- tui/component/input.go: the deletions cut the line at its cursor.
use mathlib.Core.List.{reverse, append-nil}
use covonaut.Base.{
  ℕ, suc, ◌+◌, ◌-◌, ◌<◌, List, [], ◌∷◌, ◌++◌, Bool, true, false, Option, some, ◌≡◌, refl, sym, ap,
  ◌∙◌, arith, leb, ltb, eqb, if◌then◌else◌, length, take, drop, length-append,
}
use covonaut.Input.{Input, Env, Edited, quiet, notify}
use covonaut.Input.Runes.{◌>>=◌, without, find_word_boundary_left, find_word_boundary_right}
use covonaut.Input.Deletion.{
  delete_backward, delete_forward, delete_word_backward, delete_word_forward, delete_to_line_start,
  delete_to_line_end, push_kill_ring, kill_range,
}
use covonaut.Input.Runes.Words.{
  length-reverse, word_span, word_span-append, find_word_boundary_left-word_span,
  find_word_boundary_right-word_span,
}
use covonaut.Input.Line.{Line, shown, text, presented, line_act, killing, drop_one, tail, word}
use covonaut.Input.Line.Shown.{
  length_at, cut_at, without_before, without_after, slice_before, slice_after,
}
use covonaut.Input.Keys.{
  backward, forward, word_backward, word_forward, line_backward, line_forward,
}

-- A line without a selection, cut at its cursor.
abbrev split : List ℕ → List ℕ → Line → Line
split l r x = record x { before = l; after = r; selected = false }

module _ (env : Env) where
  delete_backward-split :
      (l r : List ℕ) (x : Line)
      → delete_backward 1 env (shown (split l r x))
        ≡ some (presented (drop_one env l (split l r x) (split (tail l) r x)))
  unfolding delete_backward
  delete_backward-split [] r x = refl
  delete_backward-split (c ∷ l) r x =
      let some_left : eqb (suc (length l)) 0 ≡ false = ground arith in
      let start : suc (length l) - 1 ≡ length l = omega arith in
      rw (some_left, start, without_before (c ∷ []) l r) refl

  abbrev deleting_up_to : ℕ → List ℕ → List ℕ → Line → Option Edited
  deleting_up_to end l r x = if leb end (length l) then some (quiet (shown (split l r x))) else do
    rs ← without (length l) end (text (split l r x))
    some (notify env (record (shown (split l r x)) { runes = rs; last_kill_op = false }))

  delete_forward-split :
      (l r : List ℕ) (x : Line)
      → delete_forward 1 env (shown (split l r x))
        ≡ some (presented (drop_one env r (split l r x) (split l (tail r) x)))
  unfolding delete_forward
  delete_forward-split l [] x =
      let stop : (if ltb (length (reverse l ++ [])) (length l + 1)
            then length (reverse l ++ [])
            else length l + 1)
          ≡ length l =
        ground (arith, length_at l []) in
      let none_right : leb (length l) (length l) ≡ true = ground arith in
      ap (λ end. deleting_up_to end l [] x) stop ∙ rw none_right refl
  delete_forward-split l (c ∷ r) x =
      let stop : (if ltb (length (reverse l ++ c ∷ r)) (length l + 1)
            then length (reverse l ++ c ∷ r)
            else length l + 1)
          ≡ length l + 1 =
        ground (arith, length_at l (c ∷ r)) in
      let some_right : leb (length l + 1) (length l) ≡ false = ground arith in
      ap (λ end. deleting_up_to end l (c ∷ r) x) stop
      ∙ rw (some_right, without_after l (c ∷ []) r) refl

  push-killing :
      (s l r : List ℕ) (x : Line)
      → 0 < length s
      → notify env (push_kill_ring s (shown (split l r x)))
        ≡ presented (killing env s x (split l r x))
  unfolding push_kill_ring
  push-killing [] l r x some_text = absurd (omega arith)
  push-killing (c ∷ s) l r x some_text =
      let full : eqb (suc (length s)) 0 ≡ false = ground arith in rw full refl

  kill_cut :
      (start end cursor : ℕ) (i : Input) (rs killed : List ℕ)
      → leb end start ≡ false
      → without start end i.runes ≡ some rs
      → take (end - start) (drop start i.runes) ≡ killed
      → kill_range start end cursor env i
        ≡ some (notify env (push_kill_ring killed (record i { runes = rs; cursor = cursor })))
  kill_cut start end cursor i rs killed some_text left cut_out = rw (some_text, left, cut_out) refl

  kill_before :
      (d l r : List ℕ) (x : Line)
      → kill_range (length l) (length (d ++ l)) (length l) env (shown (split (d ++ l) r x))
        ≡ some (presented (killing env (reverse d) (split (d ++ l) r x) (split l r x)))
  kill_before [] l r x =
      let none_left : leb (length l) (length l) ≡ true = ground arith in rw none_left refl
  kill_before (c ∷ d) l r x =
      kill_cut (length l) (length (c ∷ d ++ l)) (length l) (shown (split (c ∷ d ++ l) r x))
        (reverse l ++ r) (reverse (c ∷ d)) (ground (arith, length-append d l))
        (without_before (c ∷ d) l r) (slice_before (c ∷ d) l r)
      ∙ ap some (
          push-killing (reverse (c ∷ d)) l r (split (c ∷ d ++ l) r x)
            (omega (arith, length-reverse (c ∷ d))))

  kill_after :
      (l d r : List ℕ) (x : Line)
      → kill_range (length l) (length l + length d) (length l) env (shown (split l (d ++ r) x))
        ≡ some (presented (killing env d (split l (d ++ r) x) (split l r x)))
  kill_after l [] r x =
      let none_right : leb (length l + 0) (length l) ≡ true = ground arith in rw none_right refl
  kill_after l (c ∷ d) r x =
      kill_cut (length l) (length l + length (c ∷ d)) (length l) (shown (split l (c ∷ d ++ r) x))
        (reverse l ++ r) (c ∷ d) (ground arith) (without_after l (c ∷ d) r)
        (slice_after l (c ∷ d) r)
      ∙ ap some (push-killing (c ∷ d) l r (split l (c ∷ d ++ r) x) (omega arith))

  kill_word_before :
      (l r : List ℕ) (x : Line)
      → (find_word_boundary_left env.letter env.digit (reverse l ++ r) (length l) >>= λ start.
          kill_range start (length l) start env (shown (split l r x)))
        ≡ some (
            presented (
              killing env
                (reverse (word_span (word env) l).0)
                (split l r x)
                (split (word_span (word env) l).1 r x)))
  kill_word_before l r x =
      let (killed, rest) = word_span (word env) l in
      let whole = word_span-append (word env) l in
      ap (λ o. o >>= λ start. kill_range start (length l) start env (shown (split l r x)))
        (find_word_boundary_left-word_span env.letter env.digit l r)
      ∙ ap (λ t. kill_range (length rest) (length t) (length rest) env (shown (split t r x)))
          (sym whole)
      ∙ kill_before killed rest r x
      ∙ ap (λ t. some (presented (killing env (reverse killed) (split t r x) (split rest r x))))
          whole

  kill_word_after :
      (l r : List ℕ) (x : Line)
      → kill_range
          (length l)
          (find_word_boundary_right env.letter env.digit (reverse l ++ r) (length l))
          (length l)
          env
          (shown (split l r x))
        ≡ some (
            presented (
              killing env
                (word_span (word env) r).0
                (split l r x)
                (split l (word_span (word env) r).1 x)))
  kill_word_after l r x =
      let (killed, rest) = word_span (word env) r in
      let whole = word_span-append (word env) r in
      ap (λ end. kill_range (length l) end (length l) env (shown (split l r x)))
        (find_word_boundary_right-word_span env.letter env.digit l r)
      ∙ ap
          (λ t.
            kill_range (length l) (length l + length killed) (length l) env (shown (split l t x)))
          (sym whole)
      ∙ kill_after l killed rest x
      ∙ ap (λ t. some (presented (killing env killed (split l t x) (split l rest x)))) whole

  kill_line_before :
      (l r : List ℕ) (x : Line)
      → delete_to_line_start env (shown (split l r x))
        ≡ some (presented (killing env (reverse l) (split l r x) (split [] r x)))
  unfolding delete_to_line_start
  kill_line_before [] r x = refl
  kill_line_before (c ∷ l) r x =
      let some_left : eqb (suc (length l)) 0 ≡ false = ground arith in
      rw (some_left, cut_at (c ∷ l) r)
        (ap some (
          push-killing (reverse (c ∷ l)) [] r (split (c ∷ l) r x)
            (omega (arith, length-reverse (c ∷ l)))))

  kill_line_after :
      (l r : List ℕ) (x : Line)
      → delete_to_line_end env (shown (split l r x))
        ≡ some (presented (killing env r (split l r x) (split l [] x)))
  unfolding delete_to_line_end
  kill_line_after l [] x =
      let none_right : leb (length (reverse l ++ [])) (length l) ≡ true =
        ground (arith, length_at l []) in
      rw none_right refl
  kill_line_after l (c ∷ r) x =
      let some_right : leb (length (reverse l ++ c ∷ r)) (length l) ≡ false =
        ground (arith, length_at l (c ∷ r)) in
      rw (some_right, cut_at l (c ∷ r))
        (ap
            (λ t.
              some
                (notify env (push_kill_ring (c ∷ r) (record (shown (split l [] x)) { runes = t }))))
            (sym (append-nil (reverse l)))
          ∙ ap some (push-killing (c ∷ r) l [] (split l (c ∷ r) x) (omega arith)))

  abbrev pub DeletesAsLine : Line → Type 0
  DeletesAsLine x =
      (delete_backward 1 env (shown x) ≡ some (presented (line_act env backward x)))
      × (delete_forward 1 env (shown x) ≡ some (presented (line_act env forward x)))
      × (delete_word_backward env (shown x) ≡ some (presented (line_act env word_backward x)))
      × (delete_word_forward env (shown x) ≡ some (presented (line_act env word_forward x)))
      × (delete_to_line_start env (shown x) ≡ some (presented (line_act env line_backward x)))
      × (delete_to_line_end env (shown x) ≡ some (presented (line_act env line_forward x)))

  -- Every deletion, with and without a selection.
  pub line_act-DeletesAsLine : (x : Line) → DeletesAsLine x
  unfolding line_act delete_backward delete_forward delete_word_backward delete_word_forward
      delete_to_line_start delete_to_line_end
  line_act-DeletesAsLine x = at_selected x.selected
    where
      at_selected : (b : Bool) → DeletesAsLine (record x { selected = b })
      at_selected true = (refl, refl, refl, refl, refl, refl)
      at_selected false = (
        delete_backward-split x.before x.after x,
        delete_forward-split x.before x.after x,
        kill_word_before x.before x.after x,
        kill_word_after x.before x.after x,
        kill_line_before x.before x.after x,
        kill_line_after x.before x.after x,
      )
