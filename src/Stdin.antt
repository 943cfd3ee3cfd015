-- ===== src/Stdin.antt =====
-- tui/terminal/stdin_buffer.go: terminal input, split into keys, pastes and mouse events. Bytes are
-- numbers below 256, texts are lists of bytes, and a position in a buffer is the rest of the buffer
-- from there on. `scan` is `fmt.Sscanf` with the format "%d;%d;%d", and a moment is a number of
-- nanoseconds. Callbacks get the events that `feed` returns; the background ticker only calls
-- `flush_esc`.
pub mod Events
pub mod Mouse
pub mod Drain
pub mod Paste
mod Tests
use covonaut.Base.{
  ℕ, zero, suc, ◌+◌, ◌-◌, ◌/◌, ◌%◌, List, [], ◌∷◌, ◌++◌, Bool, true, false, not, ◌&&◌, ◌||◌, Option,
  none, some, ltb, leb, eqb, if◌then◌else◌, length, take, drop, ℤ, pos, negsuc, dec,
}
use covonaut.Stdin.Mouse.{MouseMsg, parse_x11_mouse, parse_sgr_mouse, last_of, less_32, at_least_1}
use covonaut.Stdin.Events.{
  starts_with, consume_key_events, split_input_into_events, index_bytes, index_byte_from,
}

-- `pasteBytes` is the length of `paste_buf`, which is why it is not stored.
pub record StdinBuffer : Type 0 where
  pub max_paste_bytes : ℕ
  pub buf : List ℕ
  pub in_paste : Bool
  pub paste_buf : List ℕ
  pub esc_pending_at : Option ℕ

pub record Drained : Type 0 where
  pub keys : List (List ℕ)
  pub pastes : List (List ℕ)
  pub mice : List MouseMsg

abbrev pub no_events : Drained
no_events = record { keys = []; pastes = []; mice = [] }

abbrev pub add_keys : List (List ℕ) → Drained → Drained
add_keys ks e = record e { keys = ks ++ e.keys }

abbrev pub add_paste : List ℕ → Drained → Drained
add_paste p e = record e { pastes = p ∷ e.pastes }

abbrev pub add_mouse : Option MouseMsg → Drained → Drained
add_mouse none e = e
add_mouse (some m) e = record e { mice = m ∷ e.mice }

abbrev pub default_max_paste : ℕ
default_max_paste = 16777216

unfoldable pub new_stdin_buffer : Option ℤ → StdinBuffer
new_stdin_buffer opts = record {
  max_paste_bytes = elim opts [
    | none ↦ default_max_paste
    | some (pos zero) ↦ default_max_paste
    | some (pos (suc n)) ↦ suc n
    | some (negsuc n) ↦ default_max_paste
  ];
  buf = [];
  in_paste = false;
  paste_buf = [];
  esc_pending_at = none;
}

unfoldable pub reset : StdinBuffer → StdinBuffer
reset b = record b { buf = []; in_paste = false; paste_buf = []; esc_pending_at = none }

abbrev pub is_lone_esc : List ℕ → Bool
is_lone_esc [] = false
is_lone_esc (c ∷ []) = eqb c 27
is_lone_esc (c ∷ d ∷ cs) = false

unfoldable pub update_esc_pending : ℕ → List ℕ → Option ℕ → Option ℕ
update_esc_pending now buf pending =
    if is_lone_esc buf then elim pending [ none ↦ some now | some t ↦ some t ] else none

-- What the paste buffer holds after `p` was appended, cut at the limit.
unfoldable pub append_paste : ℕ → List ℕ → List ℕ → List ℕ
append_paste limit p paste = paste ++ take (limit - length paste) p

-- ESC [ 2 0 0 ~ and ESC [ 2 0 1 ~
abbrev pub paste_start : List ℕ
paste_start = 27 ∷ 91 ∷ 50 ∷ 48 ∷ 48 ∷ 126 ∷ []

abbrev pub paste_end : List ℕ
paste_end = 27 ∷ 91 ∷ 50 ∷ 48 ∷ 49 ∷ 126 ∷ []

-- One round of the loop of `drainLocked`: it returns, or goes on with what is left in the buffer
-- after the events of the round.
pub data Round : Type 0 where
  returns : StdinBuffer → Drained → Round
  goes_on : StdinBuffer → (Drained → Drained) → Round

-- Inside a paste: up to its end, or all but the last bytes, which may begin the end.
unfoldable pub paste_round : StdinBuffer → Round
paste_round b = elim (index_bytes b.buf paste_end) [
  | none ↦
      let cut = length b.buf - 5 in
      returns
        (record b {
          buf = drop cut b.buf;
          paste_buf = append_paste b.max_paste_bytes (take cut b.buf) b.paste_buf;
        })
        no_events
  | some idx ↦
      goes_on (record b { buf = drop (idx + 6) b.buf; in_paste = false; paste_buf = [] })
        (add_paste (append_paste b.max_paste_bytes (take idx b.buf) b.paste_buf))
]

-- ESC [ M and three bytes.
unfoldable pub x11_round : StdinBuffer → Round
x11_round b =
    let byte = λ (i : ℕ). less_32 (last_of (take (suc i) b.buf)) in
    goes_on (record b { buf = drop 6 b.buf })
      (add_mouse (some (parse_x11_mouse (byte 3) (at_least_1 (byte 4)) (at_least_1 (byte 5)))))

-- ESC [ < and parameters up to M or m.
unfoldable pub sgr_round : (List ℕ → Option (ℤ × ℤ × ℤ)) → StdinBuffer → Round
sgr_round scan b = elim (index_byte_from b.buf 3 77 109) [
  | none ↦ returns (record b { buf = if ltb 64 (length b.buf) then [] else b.buf }) no_events
  | some end ↦
      goes_on (record b { buf = drop (suc end) b.buf })
        (add_mouse (parse_sgr_mouse scan (take (suc end - 3) (drop 3 b.buf))))
]

-- Keys, up to the next paste.
unfoldable pub key_round : StdinBuffer → Round
key_round b = elim (index_bytes b.buf paste_start) [
  | some idx ↦
      goes_on (record b { buf = drop (idx + 6) b.buf; in_paste = true })
        (add_keys (split_input_into_events (take idx b.buf)))
  | none ↦
      let (consumed, chunks) = consume_key_events b.buf in
      if eqb consumed 0
      then returns b (add_keys chunks no_events)
      else goes_on (record b { buf = drop consumed b.buf }) (add_keys chunks)
]

-- `len(b.buf) >= 6 && b.buf[0] == 0x1B && b.buf[1] == '[' && b.buf[2] == c`
abbrev pub begins : ℕ → List ℕ → Bool
begins c buf = leb 6 (length buf) && starts_with (27 ∷ 91 ∷ c ∷ []) buf

-- The tests of a round in their order: inside a paste, an X11 event, an SGR event.
abbrev pub round_by : (List ℕ → Option (ℤ × ℤ × ℤ)) → Bool → Bool → Bool → StdinBuffer → Round
round_by scan true x11 sgr b = paste_round b
round_by scan false true sgr b = x11_round b
round_by scan false false true b = sgr_round scan b
round_by scan false false false b = key_round b

unfoldable pub round : (List ℕ → Option (ℤ × ℤ × ℤ)) → ℕ → StdinBuffer → Round
round scan now b =
    let b' = record b { esc_pending_at = update_esc_pending now b.buf b.esc_pending_at } in
    if eqb (length b.buf) 0
    then returns b' no_events
    else round_by scan b.in_paste (begins 77 b.buf) (begins 60 b.buf) b'

-- The end of a round: `rest` is the loop on what is left.
abbrev pub finish : Round → (StdinBuffer → StdinBuffer × Drained) → StdinBuffer × Drained
finish (returns b e) rest = (b, e)
finish (goes_on b add) rest = let (b', e) = rest b in (b', add e)

-- The loop; `fuel` bounds the rounds.
unfoldable pub drain : (List ℕ → Option (ℤ × ℤ × ℤ)) → ℕ → ℕ → StdinBuffer → StdinBuffer × Drained
drain scan zero now b = (b, no_events)
drain scan (suc fuel) now b = finish (round scan now b) (drain scan fuel now)

unfoldable pub feed :
    (List ℕ → Option (ℤ × ℤ × ℤ)) → ℕ → List ℕ → StdinBuffer → StdinBuffer × Drained
feed scan now chunk b =
    let filled = record b { buf = b.buf ++ chunk } in
    drain scan (suc (length filled.buf)) now filled

-- A lone ESC that has waited for `delay` becomes a key.
unfoldable pub flush_esc : ℕ → ℕ → StdinBuffer → StdinBuffer × List (List ℕ)
flush_esc delay now b = elim b.esc_pending_at [
  | none ↦ (b, [])
  | some since ↦
      if is_lone_esc b.buf && leb delay (now - since)
      then (record b { buf = []; esc_pending_at = none }, (27 ∷ []) ∷ [])
      else (b, [])
]
