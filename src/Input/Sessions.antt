-- ===== src/Input/Sessions.antt =====
-- tui/component/input.go: whole sequences of keys and messages.
use mathlib.Core.List.{reverse, reverse-reverse}
use covonaut.Base.{
  ◌≤◌, ◌<◌, List, [], ◌∷◌, ◌++◌, Bool, some, ◌≡◌, refl, sym, ap, ◌∙◌, arith, length, take, drop,
  take-append-drop, length-take, String, map,
}
use covonaut.Input.{Input, Env, Call}
use covonaut.Input.Runes.{◌>>=◌}
use covonaut.Input.Runes.Words.{length-reverse}
use covonaut.Input.Line.{Line, shown, presented, line_act, HasRing}
use covonaut.Input.Line.Shown.{length_at}
use covonaut.Input.Line.Refines.{act-line_act}
use covonaut.Input.Line.Ring.{line_act-HasRing}
use covonaut.Input.Keys.{Action, Key, action_of, process_keys, add_calls}

-- The cursor stands in the runes, the ring is bounded, and the index names one of its texts.
pub record IsWf (i : Input) : Type 0 where
  pub within : i.cursor ≤ length i.runes
  pub bounded : length i.kill_ring ≤ 32
  pub pointed : 0 < length i.kill_ring → i.kill_index < length i.kill_ring

unfoldable pub line_of : Input → Line
line_of i = record {
  before = reverse (take i.cursor i.runes);
  after = drop i.cursor i.runes;
  offset = i.scroll;
  selected = i.all_selected;
  ring = i.kill_ring;
  index = i.kill_index;
  armed = i.last_kill_op;
}

pub shown-line_of : (i : Input) → IsWf i → shown (line_of i) ≡ i
unfolding line_of
shown-line_of i valid =
    let stop : length (reverse (take i.cursor i.runes)) ≡ i.cursor =
      omega (
        arith,
        length-reverse (take i.cursor i.runes),
        length-take i.cursor i.runes,
        valid.within,
      ) in
    λ k. record i {
      runes =
          (ap (λ t. t ++ drop i.cursor i.runes) (reverse-reverse (take i.cursor i.runes))
              ∙ take-append-drop i.cursor i.runes)
            k;
      cursor = stop k;
    }

pub line_of-HasRing : (i : Input) → IsWf i → HasRing (line_of i)
unfolding line_of
line_of-HasRing i valid = (valid.bounded, valid.pointed)

pub shown-IsWf : (x : Line) → HasRing x → IsWf (shown x)
shown-IsWf x valid = record {
  within = omega (arith, length_at x.before x.after);
  bounded = valid.0;
  pointed = valid.1;
}

-- An action that fails leaves nothing; one that succeeds shows a line whose ring is in order.
abbrev pub line_keys : Env → List Action → Line → Line × List Call
line_keys env [] x = (x, [])
line_keys env (a ∷ actions) x =
    let (y, calls) = line_act env a x in
    let (z, more) = line_keys env actions y in (z, calls ++ more)

module _ (env : Env) (matches : String → String → Bool) where
  pub line_keys-HasRing :
      (actions : List Action) (x : Line) → HasRing x → HasRing (line_keys env actions x).0
  line_keys-HasRing [] x valid = valid
  line_keys-HasRing (a ∷ actions) x valid =
      line_keys-HasRing actions (line_act env a x).0 (line_act-HasRing env a x valid)

  process_keys-shown :
      (keys : List Key) (x : Line)
      → HasRing x
      → process_keys env matches keys (shown x)
        ≡ some (presented (line_keys env (map (action_of matches) keys) x))
  unfolding process_keys
  process_keys-shown [] x valid = refl
  process_keys-shown (k ∷ keys) x valid =
      let a = action_of matches k in
      let y = (line_act env a x).0 in
      ap
        (λ o. o >>= λ first.
          process_keys env matches keys first.input >>= λ rest. some (add_calls first.calls rest))
        (act-line_act env a x valid)
      ∙ ap (λ o. o >>= λ rest. some (add_calls (line_act env a x).1 rest))
          (process_keys-shown keys y (line_act-HasRing env a x valid))

  -- A sequence of keys never panics, and has the effect of their actions on the line at the cursor.
  pub process_keys-line_keys :
      (keys : List Key) (i : Input)
      → IsWf i
      → process_keys env matches keys i
        ≡ some (presented (line_keys env (map (action_of matches) keys) (line_of i)))
  process_keys-line_keys keys i valid =
      ap (process_keys env matches keys) (sym (shown-line_of i valid))
      ∙ process_keys-shown keys (line_of i) (line_of-HasRing i valid)
