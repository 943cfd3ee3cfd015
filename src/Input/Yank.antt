-- ===== src/Input/Yank.antt =====
-- tui/component/input.go: `yank` and `yankPop`.
use covonaut.Base.{
  ℕ, ◌-◌, true, false, not, ◌||◌, Option, some, eqb, leb, if◌then◌else◌, length, get_elem?,
}
use covonaut.Input.Runes.{◌>>=◌, without}
use covonaut.Input.{Input, Env, Edited, quiet, notify, clear_selected, insert_string}

unfoldable pub yank : Env → Input → Option Edited
yank env i = if eqb (length i.kill_ring) 0 then some (quiet i) else do
  let j = clear_selected i
  text ← get_elem? j.kill_ring j.kill_index
  k ← insert_string text j
  some (notify env (record k { last_kill_op = true; all_selected = false }))

-- The text that was yanked last is taken out, if the cursor is that far from the start.
unfoldable pub take_out : ℕ → Input → Option Input
take_out n i =
    if leb n i.cursor
    then (do
      rs ← without (i.cursor - n) i.cursor i.runes
      some (record i { runes = rs; cursor = i.cursor - n }))
    else some i

abbrev pub previous_index : Input → ℕ
previous_index i = if eqb i.kill_index 0 then length i.kill_ring - 1 else i.kill_index - 1

unfoldable pub yank_previous : Env → Input → Option Edited
yank_previous env i = do
  text ← get_elem? i.kill_ring (previous_index i)
  j ← insert_string text (record i { kill_index = previous_index i })
  some (notify env j)

unfoldable pub yank_pop : Env → Input → Option Edited
yank_pop env i = if not i.last_kill_op || eqb (length i.kill_ring) 0 then some (quiet i) else do
  before ← get_elem? i.kill_ring i.kill_index
  j ← take_out (length before) i
  yank_previous env j
