-- ===== src/Input/Line/Ring.antt =====
-- tui/component/input.go: the kill ring stays in order.
use mathlib.Core.List.{reverse}
use covonaut.Base.{
  ℕ, ◌-◌, List, [], ◌∷◌, ◌++◌, Bool, true, false, not, Option, none, some, arith, if◌then◌else◌,
  length, get_elem?, length-append, length-drop,
}
use covonaut.Input.{Env, Call}
use covonaut.Input.Runes.Words.{word_span}
use covonaut.Input.Line.{
  Line, line_act, HasRing, silent, killing, step_left, step_right, exchanging, yanking, setting,
  drop_one, earlier, word,
}
use covonaut.Input.Keys.{
  Action, left, right, backward, forward, word_backward, word_forward, line_backward, line_forward,
  yanks, pops, older, newer, types,
}

step_left-HasRing : (l r : List ℕ) (x : Line) → HasRing x → HasRing (step_left l r x).0
step_left-HasRing [] r x valid = valid
step_left-HasRing (c ∷ l) r x valid = valid

step_right-HasRing : (l r : List ℕ) (x : Line) → HasRing x → HasRing (step_right l r x).0
step_right-HasRing l [] x valid = valid
step_right-HasRing l (c ∷ r) x valid = valid

either-HasRing :
    (b : Bool) (p q : Line × List Call) → HasRing p.0 → HasRing q.0 → HasRing (if b then p else q).0
either-HasRing true p q valid kept = valid
either-HasRing false p q valid kept = kept

module _ (env : Env) where
  killing-HasRing : (s : List ℕ) (x y : Line) → HasRing x → HasRing (killing env s x y).0
  killing-HasRing [] x y valid = valid
  killing-HasRing (c ∷ s) x y valid =
      let ring = x.ring ++ (c ∷ s) ∷ [] in
      ground (arith, length-append x.ring ((c ∷ s) ∷ []), length-drop (length ring - 32) ring)

  drop_one-HasRing :
      (s : List ℕ) (x y : Line) → HasRing x → HasRing y → HasRing (drop_one env s x y).0
  drop_one-HasRing [] x y valid kept = valid
  drop_one-HasRing (c ∷ s) x y valid kept = kept

  setting-HasRing :
      (value : Option (Option (List ℕ))) (x : Line) → HasRing x → HasRing (setting env value x).0
  setting-HasRing none x valid = valid
  setting-HasRing (some none) x valid = valid
  setting-HasRing (some (some s)) x valid = valid

  yanking-HasRing : (s : Option (List ℕ)) (x : Line) → HasRing x → HasRing (yanking env s x).0
  yanking-HasRing none x valid = valid
  yanking-HasRing (some s) x valid = ground arith

  exchanging-HasRing :
      (old new : Option (List ℕ)) (x : Line) → HasRing x → HasRing (exchanging env old new x).0
  exchanging-HasRing none new x valid = valid
  exchanging-HasRing (some old) none x valid = valid
  exchanging-HasRing (some old) (some new) x valid = ground arith

  -- The ring of a line stays in order under every action.
  pub line_act-HasRing : (a : Action) (x : Line) → HasRing x → HasRing (line_act env a x).0
  unfolding line_act
  line_act-HasRing left x valid = step_left-HasRing x.before x.after x valid
  line_act-HasRing right x valid = step_right-HasRing x.before x.after x valid
  line_act-HasRing word_backward x valid =
      let (killed, rest) = word_span (word env) x.before in
      either-HasRing x.selected _ _ valid
        (killing-HasRing (reverse killed) x (record x { before = rest }) valid)
  line_act-HasRing word_forward x valid =
      let (killed, rest) = word_span (word env) x.after in
      either-HasRing x.selected _ _ valid
        (killing-HasRing killed x (record x { after = rest }) valid)
  line_act-HasRing line_backward x valid =
      either-HasRing x.selected _ _ valid
        (killing-HasRing (reverse x.before) x (record x { before = [] }) valid)
  line_act-HasRing line_forward x valid =
      either-HasRing x.selected _ _ valid
        (killing-HasRing x.after x (record x { after = [] }) valid)
  line_act-HasRing backward x valid =
      either-HasRing x.selected _ _ valid (drop_one-HasRing x.before x _ valid valid)
  line_act-HasRing forward x valid =
      either-HasRing x.selected _ _ valid (drop_one-HasRing x.after x _ valid valid)
  line_act-HasRing yanks x valid = yanking-HasRing (get_elem? x.ring x.index) x valid
  line_act-HasRing pops x valid =
      either-HasRing (not x.armed) (silent x) _ valid
        (exchanging-HasRing (get_elem? x.ring x.index) (get_elem? x.ring (earlier x)) x valid)
  line_act-HasRing older x valid = setting-HasRing env.history_prev x valid
  line_act-HasRing newer x valid = setting-HasRing env.history_next x valid
  line_act-HasRing (types r) x valid = ground arith
  line_act-HasRing _ x valid = valid
