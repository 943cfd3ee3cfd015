-- ===== src/Input/Deletion.antt =====
-- tui/component/input.go: the deletions, and the kill ring that keeps what the longer ones cut out.
use covonaut.Base.{
  ℕ, ◌+◌, ◌-◌, List, [], ◌∷◌, ◌++◌, true, false, Option, some, eqb, leb, ltb, if◌then◌else◌, length,
  take, drop,
}
use covonaut.Input.Runes.{◌>>=◌, cut, without, find_word_boundary_left, find_word_boundary_right}
use covonaut.Input.{Input, Env, Edited, quiet, notify, clear_selection_content}

-- The start of each deletion: a selection is all that is deleted.
abbrev pub unless_selected : Env → Input → Option Edited → Option Edited
unless_selected env i rest =
    if i.all_selected then some (notify env (clear_selection_content i)) else rest

unfoldable pub delete_backward : ℕ → Env → Input → Option Edited
delete_backward n env i =
    let start = i.cursor - n in
    unless_selected env i (
      if eqb i.cursor 0 then some (quiet i) else do
        rs ← without start i.cursor i.runes
        some (
            notify env (record i {
              runes = rs;
              cursor = start;
              last_kill_op = false;
              all_selected = false;
            })))

unfoldable pub delete_forward : ℕ → Env → Input → Option Edited
delete_forward n env i =
    let end = if ltb (length i.runes) (i.cursor + n) then length i.runes else i.cursor + n in
    unless_selected env i (
      if leb end i.cursor then some (quiet i) else do
        rs ← without i.cursor end i.runes
        some (notify env (record i { runes = rs; last_kill_op = false; all_selected = false })))

-- The kill ring keeps its last 32 texts.
abbrev pub keep_last : List (List ℕ) → List (List ℕ)
keep_last ring = if ltb 32 (length ring) then drop (length ring - 32) ring else ring

unfoldable pub push_kill_ring : List ℕ → Input → Input
push_kill_ring s i = if eqb (length s) 0 then i else record i {
  kill_ring = keep_last (i.kill_ring ++ s ∷ []);
  kill_index = length (keep_last (i.kill_ring ++ s ∷ [])) - 1;
  last_kill_op = true;
}

-- What is cut out of the runes goes to the kill ring.
abbrev pub kill_range : ℕ → ℕ → ℕ → Env → Input → Option Edited
kill_range start end cursor env i = if leb end start then some (quiet i) else do
  rs ← without start end i.runes
  some (
      notify env (
        push_kill_ring (take (end - start) (drop start i.runes))
          (record i { runes = rs; cursor = cursor })))

unfoldable pub delete_word_backward : Env → Input → Option Edited
delete_word_backward env i = unless_selected env i (
    find_word_boundary_left env.letter env.digit i.runes i.cursor >>= λ start.
    kill_range start i.cursor start env i)

unfoldable pub delete_word_forward : Env → Input → Option Edited
delete_word_forward env i = unless_selected env i (
    kill_range i.cursor (find_word_boundary_right env.letter env.digit i.runes i.cursor) i.cursor
      env i)

unfoldable pub delete_to_line_start : Env → Input → Option Edited
delete_to_line_start env i = unless_selected env i (
    if eqb i.cursor 0 then some (quiet i) else do
      (killed, rest) ← cut i.cursor i.runes
      some (notify env (push_kill_ring killed (record i { runes = rest; cursor = 0 }))))

unfoldable pub delete_to_line_end : Env → Input → Option Edited
delete_to_line_end env i = unless_selected env i (
    if leb (length i.runes) i.cursor then some (quiet i) else do
      (rest, killed) ← cut i.cursor i.runes
      some (notify env (push_kill_ring killed (record i { runes = rest }))))
