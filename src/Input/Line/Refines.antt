-- ===== src/Input/Line/Refines.antt =====
-- tui/component/input.go: every action, and every sequence of keys, does to the runes and the cursor
-- what it does to the line.
use mathlib.Core.List.{reverse}
use covonaut.Base.{
  ℕ, zero, suc, ◌-◌, ◌<◌, List, [], ◌∷◌, ◌++◌, Bool, true, false, some, ◌≡◌, refl, sym, ap, ◌∙◌,
  arith, leb, eqb, if◌then◌else◌, length, take, drop, get_elem?, take-append-drop, length-drop,
}
use covonaut.Input.{Env, quiet, notify, insert_rune, submit, line_start}
use covonaut.Input.Runes.{◌>>=◌, without}
use covonaut.Input.Yank.{yank, yank_pop, take_out, yank_previous}
use covonaut.Input.Line.{
  Line, shown, text, cleared, put, presented, line_act, HasRing, yanking, exchanging, taken_out,
  earlier,
}
use covonaut.Input.Line.Shown.{without_before, insert_string-put}
use covonaut.Input.Line.Moves.{
  move_cursor-left, move_cursor-right, select_all-text, move_cursor_left_word-word_span,
  move_cursor_right_word-word_span, line_end-text, recall-setting,
}
use covonaut.Input.Line.Kills.{line_act-DeletesAsLine}
use covonaut.Input.Keys.{
  Action, submits, selects, left, right, word_left, word_right, to_start, to_end, backward, forward,
  word_backward, word_forward, line_backward, line_forward, yanks, pops, older, newer, types,
  nothing, act,
}

pub get_elem?-some :
    {A : Type 0} (xs : List A) (i : ℕ) → i < length xs → (a : A) × (get_elem? xs i ≡ some a)
get_elem?-some [] i within = absurd (omega arith)
get_elem?-some (x ∷ xs) zero within = (x, refl)
get_elem?-some (x ∷ xs) (suc i) within = get_elem?-some xs i (omega arith)

-- The runes nearest to the cursor on its left.
drop_nearest :
    (n : ℕ) (l r : List ℕ)
    → without (length l - n) (length l) (reverse l ++ r) ≡ some (reverse (drop n l) ++ r)
drop_nearest n l r =
    ap (λ k. without k (length l) (reverse l ++ r)) (sym (length-drop n l))
    ∙ ap (λ t. without (length (drop n l)) (length t) (reverse t ++ r)) (sym (take-append-drop n l))
    ∙ without_before (take n l) (drop n l) r

take_out-taken_out : (n : ℕ) (x : Line) → take_out n (shown x) ≡ some (shown (taken_out n x))
unfolding take_out
take_out-taken_out n x = at_test (leb n (length x.before))
  where
    at_test :
        (b : Bool)
        → (if b
            then (without (length x.before - n) (length x.before) (text x) >>= λ (rs : List ℕ).
                some (record (shown x) { runes = rs; cursor = length x.before - n }))
            else some (shown x))
          ≡ some (shown (if b then record x { before = drop n x.before } else x))
    at_test true =
        ap
          (λ o. o >>= λ (rs : List ℕ).
            some (record (shown x) { runes = rs; cursor = length x.before - n }))
          (drop_nearest n x.before x.after)
        ∙ λ i. some (record (shown x) {
          runes = reverse (drop n x.before) ++ x.after;
          cursor = sym (length-drop n x.before) i;
        })
    at_test false = refl

taken_out-ring :
    (n : ℕ) (x : Line) → ((taken_out n x).ring ≡ x.ring) × (earlier (taken_out n x) ≡ earlier x)
taken_out-ring n x = at_test (leb n (length x.before))
  where
    at_test :
        (b : Bool)
        → ((if b then record x { before = drop n x.before } else x).ring ≡ x.ring)
          × (earlier (if b then record x { before = drop n x.before } else x) ≡ earlier x)
    at_test true = (refl, refl)
    at_test false = (refl, refl)

module _ (env : Env) where
  yank-nth :
      (b : Bool) (s : List ℕ) (ring : List (List ℕ)) (x : Line)
      → x.index < length (s ∷ ring)
      → yank env (shown (record x { ring = s ∷ ring; selected = b }))
        ≡ some (
            presented (
              yanking env
                (get_elem? (s ∷ ring) x.index)
                (record x { ring = s ∷ ring; selected = b })))
  unfolding yank
  yank-nth true s ring x within =
      let full : eqb (suc (length ring)) 0 ≡ false = ground arith in
      let (found, there) = get_elem?-some (s ∷ ring) x.index within in
      rw (full, there, insert_string-put found (cleared (record x { ring = s ∷ ring }))) refl
  yank-nth false s ring x within =
      let full : eqb (suc (length ring)) 0 ≡ false = ground arith in
      let (found, there) = get_elem?-some (s ∷ ring) x.index within in
      rw (full, there, insert_string-put found (record x { ring = s ∷ ring; selected = false }))
        refl

  yank-yanking :
      (x : Line) → HasRing x → yank env (shown x) ≡ some (presented (line_act env yanks x))
  unfolding yank line_act
  yank-yanking x valid = at_ring x.ring valid.1
    where
      at_ring :
          (ring : List (List ℕ))
          → (0 < length ring → x.index < length ring)
          → yank env (shown (record x { ring = ring }))
            ≡ some (presented (yanking env (get_elem? ring x.index) (record x { ring = ring })))
      at_ring [] within = refl
      at_ring (s ∷ ring) within = yank-nth x.selected s ring x (within (omega arith))

  yank_previous-put :
      (y : Line) (s : List ℕ)
      → get_elem? y.ring (earlier y) ≡ some s
      → yank_previous env (shown y)
        ≡ some (notify env (shown (put s (record y { index = earlier y }))))
  unfolding yank_previous
  yank_previous-put y s there =
      rw (there, insert_string-put s (record y { index = earlier y })) refl

  exchanged :
      (old new : List ℕ) (y : Line)
      → get_elem? y.ring (earlier y) ≡ some new
      → (take_out (length old) (shown y) >>= λ j. yank_previous env j)
        ≡ some (presented (exchanging env (some old) (some new) y))
  exchanged old new y there =
      let out = taken_out (length old) y in
      let (same_ring, same_index) = taken_out-ring (length old) y in
      ap (λ o. o >>= λ j. yank_previous env j) (take_out-taken_out (length old) y)
      ∙ yank_previous-put out new (
          ap (λ ring. get_elem? ring (earlier out)) same_ring
          ∙ ap (get_elem? y.ring) same_index
          ∙ there)
      ∙ ap (λ k. some (notify env (shown (put new (record out { index = k }))))) same_index

  yank_pop-nth :
      (s : List ℕ) (ring : List (List ℕ)) (x : Line)
      → x.index < length (s ∷ ring)
      → yank_pop env (shown (record x { ring = s ∷ ring; armed = true }))
        ≡ some (presented (line_act env pops (record x { ring = s ∷ ring; armed = true })))
  unfolding yank_pop line_act
  yank_pop-nth s ring x within =
      let y = record x { ring = s ∷ ring; armed = true } in
      let full : eqb (suc (length ring)) 0 ≡ false = ground arith in
      let (old, is_old) = get_elem?-some (s ∷ ring) x.index within in
      let (new, is_new) = get_elem?-some (s ∷ ring) (earlier y) (ground arith) in
      rw (full, is_old, is_new) (exchanged old new y is_new)

  yank_pop-exchanging :
      (x : Line) → HasRing x → yank_pop env (shown x) ≡ some (presented (line_act env pops x))
  unfolding yank_pop line_act
  yank_pop-exchanging x valid = at_ring x.armed x.ring valid.1
    where
      at_ring :
          (b : Bool) (ring : List (List ℕ))
          → (0 < length ring → x.index < length ring)
          → yank_pop env (shown (record x { ring = ring; armed = b }))
            ≡ some (presented (line_act env pops (record x { ring = ring; armed = b })))
      at_ring false ring within = refl
      at_ring true [] within = refl
      at_ring true (s ∷ ring) within = yank_pop-nth s ring x (within (omega arith))

  -- Every action on a line whose ring is in order succeeds, and does what the line promises.
  pub act-line_act :
      (a : Action) (x : Line)
      → HasRing x
      → act env a (shown x) ≡ some (presented (line_act env a x))
  unfolding act line_act submit insert_rune line_start
  act-line_act submits x valid = refl
  act-line_act selects x valid = ap (λ i. some (quiet i)) (select_all-text x)
  act-line_act left x valid = move_cursor-left x.before x.after x
  act-line_act right x valid = move_cursor-right x.before x.after x
  act-line_act word_left x valid = move_cursor_left_word-word_span env x
  act-line_act word_right x valid = move_cursor_right_word-word_span env x
  act-line_act to_start x valid = refl
  act-line_act to_end x valid = ap (λ i. some (quiet i)) (line_end-text x)
  act-line_act backward x valid = (line_act-DeletesAsLine env x).0
  act-line_act forward x valid = (line_act-DeletesAsLine env x).1
  act-line_act word_backward x valid = (line_act-DeletesAsLine env x).2
  act-line_act word_forward x valid = (line_act-DeletesAsLine env x).3
  act-line_act line_backward x valid = (line_act-DeletesAsLine env x).4
  act-line_act line_forward x valid = (line_act-DeletesAsLine env x).5
  act-line_act yanks x valid = yank-yanking x valid
  act-line_act pops x valid = yank_pop-exchanging x valid
  act-line_act older x valid = ap some (recall-setting env env.history_prev x)
  act-line_act newer x valid = ap some (recall-setting env env.history_next x)
  act-line_act (types r) x valid = rw (insert_string-put (r ∷ []) x) refl
  act-line_act nothing x valid = refl
