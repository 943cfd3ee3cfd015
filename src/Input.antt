-- ===== src/Input.antt =====
-- tui/component/input.go: the single-line editor, without its rendering. Texts are lists of code
-- points. A callback that is called is an event of the outcome, and one that returns a value is that
-- value. `none` is a panic: an index or a bound of a slice is out of range.
pub mod Runes
pub mod Deletion
pub mod Yank
pub mod Keys
pub mod Line
pub mod Sessions
pub mod Yanked
pub mod Popped
pub mod Pasted
mod Tests
use covonaut.Base.{
  ℕ, ◌+◌, ◌-◌, List, [], ◌∷◌, ◌++◌, Bool, true, false, not, ◌&&◌, ◌||◌, Option, none, some, eqb,
  leb, ltb, if◌then◌else◌, length, get_elem?, take, drop, ℤ, pos, negsuc,
}
use covonaut.Input.Runes.{◌>>=◌, cut, without, find_word_boundary_left, find_word_boundary_right}

pub record Input : Type 0 where
  pub runes : List ℕ
  pub cursor : ℕ
  pub scroll : ℕ
  pub all_selected : Bool
  pub kill_ring : List (List ℕ)
  pub kill_index : ℕ
  pub last_kill_op : Bool

pub data Call : Type 0 where
  changed submitted : List ℕ → Call

pub record Edited : Type 0 where
  pub input : Input
  pub calls : List Call

-- What the caller registers, and what its history returns, with the letters and digits of Unicode. The
-- history gives the same answer to all keys of a sequence.
pub record Env : Type 0 where
  pub letter : ℕ → Bool
  pub digit : ℕ → Bool
  pub on_change : Bool
  pub on_submit : Bool
  pub history_prev : Option (Option (List ℕ))
  pub history_next : Option (Option (List ℕ))

abbrev pub new_input : Input
new_input = record {
  runes = [];
  cursor = 0;
  scroll = 0;
  all_selected = false;
  kill_ring = [];
  kill_index = 0;
  last_kill_op = false;
}

abbrev pub quiet : Input → Edited
quiet i = record { input = i; calls = [] }

-- `if fn != nil { fn(v) }`
abbrev pub call_if : Bool → Call → List Call
call_if true c = c ∷ []
call_if false c = []

abbrev pub notify : Env → Input → Edited
notify env i = record { input = i; calls = call_if env.on_change (changed i.runes) }

unfoldable pub set_value : Env → List ℕ → Input → Edited
set_value env s i =
    notify env (record i { runes = s; cursor = length s; scroll = 0; all_selected = false })

unfoldable pub select_all : Input → Input
select_all i = record i { all_selected = ltb 0 (length i.runes); cursor = length i.runes }

unfoldable pub get_selected_text : Input → List ℕ
get_selected_text i = if not i.all_selected then [] else i.runes

abbrev pub clear_selection_content : Input → Input
clear_selection_content i = record i {
  runes = [];
  cursor = 0;
  scroll = 0;
  all_selected = false;
  last_kill_op = false;
}

-- `if i.allSelected { i.clearSelectionContentLocked() }`
abbrev pub clear_selected : Input → Input
clear_selected i = if i.all_selected then clear_selection_content i else i

unfoldable pub insert_string : List ℕ → Input → Option Input
insert_string s i = do
  let j = clear_selected i
  (before, after) ← cut j.cursor j.runes
  some (record j {
    runes = before ++ s ++ after;
    cursor = j.cursor + length s;
    all_selected = false;
  })

unfoldable pub insert_rune : Env → ℕ → Input → Option Edited
insert_rune env r i = do
  j ← insert_string (r ∷ []) i
  some (notify env (record j { last_kill_op = false }))

-- `strings.ReplaceAll(s, "\r\n", " ")`
abbrev pub replace_crlf : List ℕ → List ℕ
replace_crlf [] = []
replace_crlf (a ∷ []) = a ∷ []
replace_crlf (a ∷ b ∷ rest) =
    let both = 32 ∷ replace_crlf rest in
    let one = a ∷ replace_crlf (b ∷ rest) in if eqb a 13 && eqb b 10 then both else one

-- `strings.ReplaceAll(s, old, " ")` for one rune
abbrev pub replace_rune : ℕ → List ℕ → List ℕ
replace_rune old [] = []
replace_rune old (r ∷ rest) = (if eqb r old then 32 else r) ∷ replace_rune old rest

unfoldable pub flatten : List ℕ → List ℕ
flatten s = replace_rune 13 (replace_rune 10 (replace_crlf s))

unfoldable pub insert_pasted_text : Env → List ℕ → Input → Option Edited
insert_pasted_text env s i =
    if eqb (length (flatten s)) 0
    then some (quiet i)
    else do j ← insert_string (flatten s) i; some (notify env (record j { last_kill_op = false }))

-- `cursor + delta`, not below 0
abbrev pub moved : ℤ → ℕ → ℕ
moved (pos n) cursor = cursor + n
moved (negsuc n) cursor = cursor - (n + 1)

unfoldable pub move_cursor : ℤ → Input → Input
move_cursor delta i = record i {
  all_selected = false;
  cursor =
      if ltb (length i.runes) (moved delta i.cursor) then length i.runes else moved delta i.cursor;
  last_kill_op = false;
}

unfoldable pub move_cursor_left_word : Env → Input → Option Input
move_cursor_left_word env i = do
  start ← find_word_boundary_left env.letter env.digit i.runes i.cursor
  some (record i { all_selected = false; cursor = start; last_kill_op = false })

unfoldable pub move_cursor_right_word : Env → Input → Input
move_cursor_right_word env i = record i {
  all_selected = false;
  cursor = find_word_boundary_right env.letter env.digit i.runes i.cursor;
  last_kill_op = false;
}

unfoldable pub line_start : Input → Input
line_start i = record i { all_selected = false; cursor = 0 }

unfoldable pub line_end : Input → Input
line_end i = record i { all_selected = false; cursor = length i.runes }

unfoldable pub submit : Env → Input → Edited
submit env i = record { input = i; calls = call_if env.on_submit (submitted i.runes) }

-- `historyPrev` and `historyNext`, with what their callback returns
unfoldable pub recall : Env → Option (Option (List ℕ)) → Input → Edited
recall env none i = quiet i
recall env (some none) i = quiet i
recall env (some (some value)) i = set_value env value i
