-- ===== src/Stdin/Mouse.antt =====
-- tui/terminal/stdin_buffer.go, `parseX11Mouse` and `parseSGRMouse`, with the message of
-- tui/core/message.go.
use covonaut.Base.{
  ℕ, zero, suc, ◌-◌, ◌/◌, ◌%◌, List, [], ◌∷◌, Bool, Option, none, some, ltb, eqb, if◌then◌else◌, ℤ,
  pos, negsuc, dec,
}

-- `press` is the zero value.
pub data MouseAction : Type 0 where
  press release wheel_up wheel_down motion : MouseAction

pub record MouseMsg : Type 0 where
  pub action : MouseAction
  pub row : ℤ
  pub col : ℤ
  pub button : ℕ
  pub alt : Bool
  pub ctrl : Bool
  pub shift : Bool

-- The lowest seven bits of an integer, in two's complement.
abbrev pub low_bits : ℤ → ℕ
low_bits (pos n) = n % 128
low_bits (negsuc n) = 127 - n % 128

abbrev pub bit : ℕ → ℕ → Bool
bit mask bits = eqb (bits / mask % 2) 1

-- The action of a button, where `plain` is what no wheel and no motion means.
abbrev pub mouse_action : ℕ → MouseAction × ℕ → MouseAction × ℕ
mouse_action bits plain =
    let button = bits % 4 in
    if bit 64 bits
    then if eqb button 0
      then (wheel_up, 0)
      else if eqb button 1
      then (wheel_down, 0)
      else (press, 0)
    else if bit 32 bits
    then (motion, button)
    else plain

abbrev pub mouse_msg : ℕ → ℤ → ℤ → MouseAction × ℕ → MouseMsg
mouse_msg bits cx cy (action, button) = record {
  action = action;
  row = dec cy;
  col = dec cx;
  button = button;
  alt = bit 8 bits;
  ctrl = bit 16 bits;
  shift = bit 4 bits;
}

unfoldable pub parse_x11_mouse : ℤ → ℤ → ℤ → MouseMsg
parse_x11_mouse cb cx cy =
    let bits = low_bits cb in
    let button = bits % 4 in
    mouse_msg bits cx cy
      (mouse_action bits (if eqb button 3 then (release, 0) else (press, button)))

abbrev pub last_of : List ℕ → ℕ
last_of [] = 0
last_of (b ∷ []) = b
last_of (b ∷ c ∷ bs) = last_of (c ∷ bs)

unfoldable pub parse_sgr_mouse : (List ℕ → Option (ℤ × ℤ × ℤ)) → List ℕ → Option MouseMsg
parse_sgr_mouse scan seq = elim (scan seq) [
  | none ↦ none
  | some (cb, cx, cy) ↦
      let bits = low_bits cb in
      some (
        mouse_msg bits cx cy
          (mouse_action bits (if eqb (last_of seq) 109 then (release, 0) else (press, bits % 4))))
]

-- `int(b) - 32`
abbrev pub less_32 : ℕ → ℤ
less_32 b = if ltb b 32 then negsuc (31 - b) else pos (b - 32)

abbrev pub at_least_1 : ℤ → ℤ
at_least_1 (pos zero) = pos 1
at_least_1 (pos (suc n)) = pos (suc n)
at_least_1 (negsuc n) = pos 1
