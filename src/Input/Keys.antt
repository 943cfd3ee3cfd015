-- ===== src/Input/Keys.antt =====
-- tui/component/input.go: `processKeys` and `Update`. Which keys a binding matches is a parameter
-- (tui/terminal/keybindings.go), and so are the keys in a chunk (tui/terminal/keys.go).
use covonaut.Base.{
  ℕ, ◌/◌, List, [], ◌∷◌, ◌++◌, Bool, false, not, ◌&&◌, ◌||◌, Option, some, String, eqb, ltb,
  if◌then◌else◌, length, pos, negsuc,
}
use covonaut.Input.Runes.{◌>>=◌}
use covonaut.Input.{
  Input, Env, Edited, Call, quiet, select_all, move_cursor, move_cursor_left_word,
  move_cursor_right_word, line_start, line_end, submit, recall, insert_rune, insert_pasted_text,
}
use covonaut.Input.Deletion.{
  delete_backward, delete_forward, delete_word_backward, delete_word_forward, delete_to_line_start,
  delete_to_line_end,
}
use covonaut.Input.Yank.{yank, yank_pop}

pub data Action : Type 0 where
  submits selects left right word_left word_right to_start to_end : Action
  backward forward word_backward word_forward line_backward line_forward : Action
  yanks pops older newer : Action
  types : ℕ → Action
  nothing : Action

pub record Key : Type 0 where
  pub rune : ℕ
  pub mods : ℕ
  pub raw : String

-- No modifier but Shift, which is bit 0.
abbrev pub is_printable : Key → Bool
is_printable k = not (eqb k.rune 0) && eqb (k.mods / 2) 0

-- The first binding that matches, in the order of the `switch`.
pub first_match : (String → Bool) → List (String × Action) → Action → Action
first_match matches [] default = default
first_match matches ((name, a) ∷ bindings) default =
    if matches name then a else first_match matches bindings default

abbrev pub bindings : List (String × Action)
bindings =
    ("tui.input.submit", submits)
    ∷ ("tui.editor.selectAll", selects)
    ∷ ("tui.editor.cursorLeft", left)
    ∷ ("tui.editor.cursorRight", right)
    ∷ ("tui.editor.cursorWordLeft", word_left)
    ∷ ("tui.editor.cursorWordRight", word_right)
    ∷ ("tui.editor.cursorLineStart", to_start)
    ∷ ("tui.editor.cursorLineEnd", to_end)
    ∷ ("tui.editor.deleteCharBackward", backward)
    ∷ ("tui.editor.deleteCharForward", forward)
    ∷ ("tui.editor.deleteWordBackward", word_backward)
    ∷ ("tui.editor.deleteWordForward", word_forward)
    ∷ ("tui.editor.deleteToLineStart", line_backward)
    ∷ ("tui.editor.deleteToLineEnd", line_forward)
    ∷ ("tui.editor.yank", yanks)
    ∷ ("tui.editor.yankPop", pops)
    ∷ ("tui.select.up", older)
    ∷ ("tui.editor.cursorUp", older)
    ∷ ("tui.select.down", newer)
    ∷ ("tui.editor.cursorDown", newer)
    ∷ []

unfoldable pub action_of : (String → String → Bool) → Key → Action
unfolding first_match
action_of matches k =
    first_match (matches k.raw) bindings (if is_printable k then types k.rune else nothing)

unfoldable pub act : Env → Action → Input → Option Edited
act env submits i = some (submit env i)
act env selects i = some (quiet (select_all i))
act env left i = some (quiet (move_cursor (negsuc 0) i))
act env right i = some (quiet (move_cursor (pos 1) i))
act env word_left i = do j ← move_cursor_left_word env i; some (quiet j)
act env word_right i = some (quiet (move_cursor_right_word env i))
act env to_start i = some (quiet (line_start i))
act env to_end i = some (quiet (line_end i))
act env backward i = delete_backward 1 env i
act env forward i = delete_forward 1 env i
act env word_backward i = delete_word_backward env i
act env word_forward i = delete_word_forward env i
act env line_backward i = delete_to_line_start env i
act env line_forward i = delete_to_line_end env i
act env yanks i = yank env i
act env pops i = yank_pop env i
act env older i = some (recall env env.history_prev i)
act env newer i = some (recall env env.history_next i)
act env (types r) i = insert_rune env r i
act env nothing i = some (quiet i)

abbrev pub add_calls : List Call → Edited → Edited
add_calls calls o = record o { calls = calls ++ o.calls }

unfoldable pub process_keys : Env → (String → String → Bool) → List Key → Input → Option Edited
process_keys env matches [] i = some (quiet i)
process_keys env matches (k ∷ keys) i = do
  o ← act env (action_of matches k) i
  rest ← process_keys env matches keys o.input
  some (add_calls o.calls rest)

pub data Msg : Type 0 where
  key paste : List ℕ → Msg
  window_size other : Msg

-- `strings.ContainsAny(data, "\n\r")`
abbrev pub has_newline : List ℕ → Bool
has_newline [] = false
has_newline (r ∷ rest) = eqb r 10 || eqb r 13 || has_newline rest

unfoldable pub looks_like_pasted_text : (List ℕ → List Key) → List ℕ → Bool
looks_like_pasted_text parse text = has_newline text && ltb 1 (length (parse text))

-- `parse` is `terminal.ParseKeys`.
unfoldable pub update :
    Env → (List ℕ → List Key) → (String → String → Bool) → Msg → Input → Option Edited
update env parse matches (key text) i =
    if looks_like_pasted_text parse text
    then insert_pasted_text env text i
    else process_keys env matches (parse text) i
update env parse matches (paste text) i = insert_pasted_text env text i
update env parse matches window_size i = some (quiet i)
update env parse matches other i = some (quiet i)
