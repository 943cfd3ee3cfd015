-- ===== src/Input/Tests.antt =====
-- tui/component/input.go: runs of the editor, and its theorems at a line of two words.
use covonaut.Base.{
  get_elem?, ℕ, ◌-◌, List, [], ◌∷◌, ◌++◌, Bool, true, false, ◌&&◌, none, some, ◌≡◌, refl, arith,
  String, leb, ◌==◌, take, map,
}
use covonaut.Input.{Input, Env, Edited, changed, insert_pasted_text}
use covonaut.Input.{insert_string}
use covonaut.Input.Runes.{is_word_rune, skip_left, find_word_boundary_left, cut, without}
use covonaut.Input.Deletion.{push_kill_ring, delete_word_backward, delete_to_line_end}
use covonaut.Input.Yank.{previous_index, yank, yank_pop, take_out, yank_previous}
use covonaut.Input.Keys.{
  Key, act, action_of, process_keys, update, key, yanks, pops, line_forward, has_newline,
}
use covonaut.Input.Line.{presented}
use covonaut.Input.Sessions.{IsWf, line_of, line_keys, process_keys-line_keys}
use covonaut.Input.Yanked.{kill, word_left_of, yank-kill}
use covonaut.Input.Popped.{yank_pop-yank, yank_pop-kill}
use covonaut.Input.Pasted.{pasting, insert_pasted_text-pasting, update-IsWf}

abbrev env : Env
env = record {
  letter = λ r. leb 97 r && leb r 122;
  digit = λ r. leb 48 r && leb r 57;
  on_change = true;
  on_submit = true;
  history_prev = some (some (120 ∷ []));
  history_next = none;
}

-- "ab cd" with the cursor behind it, after "q" was killed elsewhere
abbrev line : Input
line = record {
  runes = 97 ∷ 98 ∷ 32 ∷ 99 ∷ 100 ∷ [];
  cursor = 5;
  scroll = 0;
  all_selected = false;
  kill_ring = (113 ∷ []) ∷ [];
  kill_index = 0;
  last_kill_op = false;
}

line-IsWf : IsWf line
line-IsWf = record { within = omega arith; bounded = omega arith; pointed = λ h. omega arith }

abbrev after_kill : Input
after_kill = record line {
  runes = 97 ∷ 98 ∷ 32 ∷ [];
  cursor = 3;
  kill_ring = (113 ∷ []) ∷ (99 ∷ 100 ∷ []) ∷ [];
  kill_index = 1;
  last_kill_op = true;
}

abbrev killed : Edited
killed = record { input = after_kill; calls = changed (97 ∷ 98 ∷ 32 ∷ []) ∷ [] }

act-killed : act env (kill word_left_of) line ≡ some killed
unfolding act delete_word_backward find_word_boundary_left skip_left is_word_rune without
    push_kill_ring
act-killed = refl

yank-kill_example :
    (p : Edited) × (act env yanks after_kill ≡ some p) × (p.input.runes ≡ line.runes)
yank-kill_example = yank-kill env word_left_of line line-IsWf refl killed act-killed (λ e. cc)

abbrev yanked : Edited
yanked = record {
  input = record after_kill { runes = line.runes; cursor = 5 };
  calls = changed line.runes ∷ [];
}

act-yanked : act env yanks after_kill ≡ some yanked
unfolding act yank insert_string cut
act-yanked = refl

after_kill-IsWf : IsWf after_kill
after_kill-IsWf = record { within = omega arith; bounded = omega arith; pointed = λ h. omega arith }

yank_pop-yank_example :
    act env pops yanked.input ≡ act env yanks (record after_kill { kill_index = 0 })
yank_pop-yank_example = yank_pop-yank env after_kill after_kill-IsWf (omega arith) yanked act-yanked

-- The cursor is in front of "cd".
abbrev middle : Input
middle = record line { cursor = 3 }

abbrev cut_off : Edited
cut_off = killed

abbrev popped : Edited
popped = record {
  input = record after_kill { runes = 97 ∷ 113 ∷ []; cursor = 2; kill_index = 0 };
  calls = changed (97 ∷ 113 ∷ []) ∷ [];
}

act-cut_off : act env line_forward middle ≡ some cut_off
unfolding act delete_to_line_end cut push_kill_ring
act-cut_off = refl

-- "b " is gone, and "q" is put in.
act-popped : act env pops cut_off.input ≡ some popped
unfolding act yank_pop take_out without yank_previous insert_string cut
act-popped = refl

middle-IsWf : IsWf middle
middle-IsWf = record { within = omega arith; bounded = omega arith; pointed = λ h. omega arith }

yank_pop-kill_example :
    (t : List ℕ) × (get_elem? cut_off.input.kill_ring (previous_index cut_off.input) ≡ some t)
    × (popped.input.runes ≡ take (3 - (5 - 3)) (97 ∷ 98 ∷ 32 ∷ []) ++ t)
yank_pop-kill_example =
    yank_pop-kill env middle middle-IsWf refl (omega arith) (omega arith) cut_off popped act-cut_off
      act-popped

-- A binding has the name of its key here.
abbrev same_name : String → String → Bool
same_name k b = k == b

abbrev typed : ℕ → Key
typed r = record { rune = r; mods = 0; raw = "rune" }

abbrev pressed : String → Key
pressed b = record { rune = 0; mods = 0; raw = b }

abbrev keys : List Key
keys = typed 101 ∷ pressed "tui.editor.deleteWordBackward" ∷ pressed "tui.editor.yank" ∷ []

process_keys-line_keys_example :
    process_keys env same_name keys line
    ≡ some (presented (line_keys env (map (action_of same_name) keys) (line_of line)))
process_keys-line_keys_example = process_keys-line_keys env same_name keys line line-IsWf

insert_pasted_text-pasting_example :
    (insert_pasted_text env (97 ∷ 13 ∷ 10 ∷ 98 ∷ []) line
      ≡ some (presented (pasting env (97 ∷ 32 ∷ 98 ∷ []) (line_of line))))
    × (has_newline (97 ∷ 32 ∷ 98 ∷ []) ≡ false)
insert_pasted_text-pasting_example =
    insert_pasted_text-pasting env (97 ∷ 13 ∷ 10 ∷ 98 ∷ []) line line-IsWf

update-IsWf_example :
    (o : Edited) × (update env (λ _. keys) same_name (key (101 ∷ [])) line ≡ some o) × IsWf o.input
update-IsWf_example = update-IsWf env (λ _. keys) same_name (key (101 ∷ [])) line line-IsWf
