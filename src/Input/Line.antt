-- ===== src/Input/Line.antt =====
-- What the editor of tui/component/input.go promises: a line is the runes on the two sides of the
-- cursor, the ones on its left with the nearest first, and each action works at the cursor.
pub mod Shown
pub mod Moves
pub mod Kills
pub mod Refines
pub mod Ring
use mathlib.Core.List.{reverse}
use covonaut.Base.{
  ℕ, ◌+◌, ◌-◌, ◌≤◌, ◌<◌, List, [], ◌∷◌, ◌++◌, Bool, true, false, not, ◌||◌, Option, none, some, eqb,
  leb, ltb, if◌then◌else◌, length, get_elem?, drop,
}
use covonaut.Input.{Input, Env, Edited, Call, changed, submitted, call_if}
use covonaut.Input.Deletion.{keep_last}
use covonaut.Input.Runes.{is_word_rune}
use covonaut.Input.Runes.Words.{span, word_span}
use covonaut.Input.Keys.{
  Action, submits, selects, left, right, word_left, word_right, to_start, to_end, backward, forward,
  word_backward, word_forward, line_backward, line_forward, yanks, pops, older, newer, types,
  nothing,
}

pub record Line : Type 0 where
  pub before : List ℕ
  pub after : List ℕ
  pub offset : ℕ
  pub selected : Bool
  pub ring : List (List ℕ)
  pub index : ℕ
  pub armed : Bool

abbrev pub text : Line → List ℕ
text x = reverse x.before ++ x.after

abbrev pub shown : Line → Input
shown x = record {
  runes = text x;
  cursor = length x.before;
  scroll = x.offset;
  all_selected = x.selected;
  kill_ring = x.ring;
  kill_index = x.index;
  last_kill_op = x.armed;
}

abbrev pub presented : Line × List Call → Edited
presented (x, calls) = record { input = shown x; calls = calls }

-- The ring holds at most 32 texts, and the index names one of them if there are any.
abbrev pub HasRing : Line → Type 0
HasRing x = (length x.ring ≤ 32) × (0 < length x.ring → x.index < length x.ring)

abbrev pub silent : Line → Line × List Call
silent x = (x, [])

abbrev pub cleared : Line → Line
cleared x = record x { before = []; after = []; offset = 0; selected = false; armed = false }

abbrev pub fresh : Line → Line
fresh x = if x.selected then cleared x else x

abbrev pub put : List ℕ → Line → Line
put s x = let y = fresh x in record y { before = reverse s ++ y.before; selected = false }

abbrev pub moving : List ℕ → List ℕ → Line → Line × List Call
moving l r x = silent (record x { before = l; after = r; selected = false; armed = false })

abbrev pub taken_out : ℕ → Line → Line
taken_out n x = if leb n (length x.before) then record x { before = drop n x.before } else x

abbrev pub earlier : Line → ℕ
earlier x = if eqb x.index 0 then length x.ring - 1 else x.index - 1

abbrev pub step_left : List ℕ → List ℕ → Line → Line × List Call
step_left [] r x = moving [] r x
step_left (c ∷ l) r x = moving l (c ∷ r) x

abbrev pub step_right : List ℕ → List ℕ → Line → Line × List Call
step_right l [] x = moving l [] x
step_right l (c ∷ r) x = moving (c ∷ l) r x

abbrev pub tail : List ℕ → List ℕ
tail [] = []
tail (c ∷ s) = s

module _ (env : Env) where
  abbrev pub word : ℕ → Bool
  word = is_word_rune env.letter env.digit

  abbrev pub told : Line → Line × List Call
  told x = (x, call_if env.on_change (changed (text x)))

  -- Nothing is killed if there is nothing on that side of the cursor.
  abbrev pub killing : List ℕ → Line → Line → Line × List Call
  killing [] x y = silent x
  killing (c ∷ s) x y =
      let ring' = keep_last (x.ring ++ (c ∷ s) ∷ []) in
      told (record y { ring = ring'; index = length ring' - 1; armed = true })

  abbrev pub unless_all : Line → Line × List Call → Line × List Call
  unless_all x rest = if x.selected then told (cleared x) else rest

  abbrev pub setting : Option (Option (List ℕ)) → Line → Line × List Call
  setting none x = silent x
  setting (some none) x = silent x
  setting (some (some s)) x =
      told (record x { before = reverse s; after = []; offset = 0; selected = false })

  abbrev pub yanking : Option (List ℕ) → Line → Line × List Call
  yanking none x = silent x
  yanking (some s) x = told (record (put s x) { armed = true })

  abbrev pub exchanging : Option (List ℕ) → Option (List ℕ) → Line → Line × List Call
  exchanging none new x = silent x
  exchanging (some old) none x = silent x
  exchanging (some old) (some new) x =
      told (put new (record (taken_out (length old) x) { index = earlier x }))

  abbrev pub drop_one : List ℕ → Line → Line → Line × List Call
  drop_one [] x y = silent x
  drop_one (c ∷ s) x y = told (record y { armed = false })

  unfoldable pub line_act : Action → Line → Line × List Call
  line_act submits x = (x, call_if env.on_submit (submitted (text x)))
  line_act selects x =
      silent
        (record x { selected = ltb 0 (length (text x)); before = reverse (text x); after = [] })
  line_act left x = step_left x.before x.after x
  line_act right x = step_right x.before x.after x
  line_act word_left x =
      let (passed, rest) = word_span word x.before in moving rest (reverse passed ++ x.after) x
  line_act word_right x =
      let (passed, rest) = word_span word x.after in moving (reverse passed ++ x.before) rest x
  line_act to_start x = silent (record x { before = []; after = text x; selected = false })
  line_act to_end x = silent (record x { before = reverse (text x); after = []; selected = false })
  line_act backward x =
      unless_all x (drop_one x.before x (record x { before = tail x.before; selected = false }))
  line_act forward x =
      unless_all x (drop_one x.after x (record x { after = tail x.after; selected = false }))
  line_act word_backward x =
      let (killed, rest) = word_span word x.before in
      unless_all x (killing (reverse killed) x (record x { before = rest }))
  line_act word_forward x =
      let (killed, rest) = word_span word x.after in
      unless_all x (killing killed x (record x { after = rest }))
  line_act line_backward x = unless_all x (killing (reverse x.before) x (record x { before = [] }))
  line_act line_forward x = unless_all x (killing x.after x (record x { after = [] }))
  line_act yanks x = yanking (get_elem? x.ring x.index) x
  line_act pops x =
      if not x.armed
      then silent x
      else exchanging (get_elem? x.ring x.index) (get_elem? x.ring (earlier x)) x
  line_act older x = setting env.history_prev x
  line_act newer x = setting env.history_next x
  line_act (types r) x = told (record (put (r ∷ []) x) { armed = false })
  line_act nothing x = silent x
