-- ===== src/Stdin/Tests.antt =====
-- Terminal input at small buffers, and the theorems at them.
use covonaut.Base.{
  take, ℕ, suc, ◌≡◌, refl, List, [], ◌∷◌, ◌++◌, concat, drop, length, Option, none, true, arith, ℤ,
  ◌+◌,
}
use covonaut.Stdin.Events.{
  csi_end, string_end, skip_ansi_seq, ansi_seq_complete, rune_byte_size, next_size, consume,
  consume_key_events, split_input_into_events, index_bytes, index_byte, index_byte_from,
}
use covonaut.Stdin.Events.Split.{consume_key_events-split}
use covonaut.Stdin.{
  StdinBuffer, new_stdin_buffer, append_paste, update_esc_pending, paste_round, x11_round,
  sgr_round, key_round, round, drain, feed, flush_esc,
}
use covonaut.Stdin.Mouse.{parse_x11_mouse, parse_sgr_mouse}
use covonaut.Stdin.Paste.{at_rest, feed-paste}
use covonaut.Stdin.{paste_start, paste_end}
use covonaut.Stdin.Drain.{IsWithin, feed-IsWithin}

input_program : Unit {0}
unfolding csi_end string_end skip_ansi_seq ansi_seq_complete rune_byte_size next_size consume
    consume_key_events split_input_into_events index_bytes index_byte index_byte_from
    new_stdin_buffer append_paste update_esc_pending parse_x11_mouse parse_sgr_mouse paste_round
    x11_round sgr_round key_round round drain feed flush_esc
input_program = tt

abbrev no_scan : List ℕ → Option (ℤ × ℤ × ℤ)
no_scan s = none

-- An `a`, the arrow ESC [ A, and the beginning of another one.
abbrev partly : List ℕ
partly = 97 ∷ 27 ∷ 91 ∷ 65 ∷ 27 ∷ 91 ∷ []

consume_key_events-partly : consume_key_events partly ≡ (4, (97 ∷ []) ∷ (27 ∷ 91 ∷ 65 ∷ []) ∷ [])
unfolding input_program
consume_key_events-partly = refl

consume_key_events-split_example :
    (concat (consume_key_events partly).1 ++ drop (consume_key_events partly).0 partly ≡ partly)
    × (consume_key_events (partly ++ 66 ∷ []) ≡ (
      (consume_key_events partly).0
          + (consume_key_events (drop (consume_key_events partly).0 partly ++ 66 ∷ [])).0,
      (consume_key_events partly).1
          ++ (consume_key_events (drop (consume_key_events partly).0 partly ++ 66 ∷ [])).1,
    ))
consume_key_events-split_example = consume_key_events-split partly (66 ∷ [])

-- A buffer for pastes of at most two bytes.
abbrev small : StdinBuffer
small = record {
  max_paste_bytes = 2;
  buf = [];
  in_paste = true;
  paste_buf = 120 ∷ [];
  esc_pending_at = none;
}

abbrev ending : List ℕ
ending = 97 ∷ 98 ∷ 27 ∷ 91 ∷ 50 ∷ 48 ∷ 49 ∷ 126 ∷ 99 ∷ []

feed-ending :
    (feed no_scan 0 ending small).1
    ≡ record { keys = (99 ∷ []) ∷ []; pastes = (120 ∷ 97 ∷ []) ∷ []; mice = [] }
unfolding input_program
feed-ending = refl

feed-IsWithin_example :
    IsWithin 2 (feed no_scan 0 ending small)
    × (drain no_scan
          (suc (length (small.buf ++ ending)) + 7)
          0
          (record small { buf = small.buf ++ ending })
        ≡ feed no_scan 0 ending small)
feed-IsWithin_example = feed-IsWithin no_scan 0 7 ending small (omega arith)

-- An X11 event that comes in two chunks is taken for keys.
feed-x11_halves :
    (feed no_scan 0 (27 ∷ 91 ∷ 77 ∷ []) (new_stdin_buffer none)).1.keys ≡ (27 ∷ 91 ∷ 77 ∷ []) ∷ []
unfolding input_program
feed-x11_halves = refl

feed-x11 : (feed no_scan 0 (27 ∷ 91 ∷ 77 ∷ 32 ∷ 33 ∷ 33 ∷ []) (new_stdin_buffer none)).1.keys ≡ []
unfolding input_program
feed-x11 = refl

feed-paste_example :
    feed no_scan 0 (paste_start ++ (97 ∷ 98 ∷ 99 ∷ []) ++ paste_end) (at_rest 2 [] none)
    ≡ (at_rest 2 [] none, record { keys = []; pastes = take 2 (97 ∷ 98 ∷ 99 ∷ []) ∷ []; mice = [] })
feed-paste_example = feed-paste no_scan 0 2 (97 ∷ 98 ∷ 99 ∷ []) (refl, (refl, (refl, tt)))
