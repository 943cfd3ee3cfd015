-- ===== src/Stdin/Paste.antt =====
-- tui/terminal/stdin_buffer.go: a bracketed paste in one chunk.
use covonaut.Base.{
  ℕ, suc, ◌+◌, ◌-◌, List, [], ◌∷◌, ◌++◌, true, false, Option, none, some, ◌≡◌, refl, ◌∙◌, ap, arith,
  eqb, length, take, drop, length-append, ℤ,
}
use covonaut.Stdin.Events.{index_bytes, consume, consume_key_events, split_input_into_events}
use covonaut.Stdin.{
  StdinBuffer, Drained, no_events, add_keys, add_paste, append_paste, paste_start, paste_end,
  returns, goes_on, paste_round, key_round, round, finish, drain, feed, begins, update_esc_pending,
}

-- No byte is ESC.
abbrev pub IsPlain : List ℕ → Type 0
IsPlain [] = Unit
IsPlain (b ∷ bs) = (eqb b 27 ≡ false) × IsPlain bs

index_bytes-end :
    (text : List ℕ) → IsPlain text → index_bytes (text ++ paste_end) paste_end ≡ some (length text)
unfolding index_bytes
index_bytes-end [] plain = refl
index_bytes-end (b ∷ text) plain = rw (plain.0, index_bytes-end text plain.1) refl

take-text : (text e : List ℕ) → take (length text) (text ++ e) ≡ text
take-text [] e = refl
take-text (b ∷ text) e = ap (λ r. b ∷ r) (take-text text e)

drop-end : (text : List ℕ) → drop (length text + 6) (text ++ paste_end) ≡ []
drop-end [] = refl
drop-end (b ∷ text) =
    let same : suc (length text) + 6 ≡ suc (length text + 6) = omega arith in
    ap (λ k. drop k (b ∷ text ++ paste_end)) same ∙ drop-end text

-- A buffer in which nothing but the given bytes and the time of a lone ESC is left.
abbrev pub at_rest : ℕ → List ℕ → Option ℕ → StdinBuffer
at_rest limit bs pending = record {
  max_paste_bytes = limit;
  buf = bs;
  in_paste = false;
  paste_buf = [];
  esc_pending_at = pending;
}

module _ (scan : List ℕ → Option (ℤ × ℤ × ℤ)) (now limit : ℕ) where
  start_round :
      (rest : List ℕ) (pending : Option ℕ)
      → round scan now (at_rest limit (paste_start ++ rest) pending)
        ≡ goes_on (record (at_rest limit rest none) { in_paste = true }) (add_keys [])
  unfolding round key_round index_bytes consume consume_key_events split_input_into_events
      update_esc_pending
  start_round rest pending =
      let bytes : eqb (length (paste_start ++ rest)) 0 ≡ false = ground arith in
      let x11 : begins 77 (paste_start ++ rest) ≡ false = ground arith in rw (bytes, x11) refl

  paste_round-end :
      (text : List ℕ) (pending : Option ℕ)
      → IsPlain text
      → paste_round (record (at_rest limit (text ++ paste_end) pending) { in_paste = true })
        ≡ goes_on (at_rest limit [] pending) (add_paste (append_paste limit text []))
  unfolding paste_round
  paste_round-end text pending plain =
      rw (index_bytes-end text plain, paste_round)
        (ap
            (λ k.
              goes_on (at_rest limit k pending)
                (add_paste (append_paste limit (take (length text) (text ++ paste_end)) [])))
            (drop-end text)
          ∙ ap (λ t. goes_on (at_rest limit [] pending) (add_paste (append_paste limit t [])))
              (take-text text paste_end))

  end_round :
      (text : List ℕ)
      → IsPlain text
      → round scan now (record (at_rest limit (text ++ paste_end) none) { in_paste = true })
        ≡ goes_on
            (at_rest limit [] (update_esc_pending now (text ++ paste_end) none))
            (add_paste (append_paste limit text []))
  unfolding round
  end_round text plain =
      let bytes : eqb (length (text ++ paste_end)) 0 ≡ false =
        ground (arith, length-append text paste_end) in
      rw bytes (paste_round-end text (update_esc_pending now (text ++ paste_end) none) plain)

  no_round :
      (pending : Option ℕ)
      → round scan now (at_rest limit [] pending) ≡ returns (at_rest limit [] none) no_events
  unfolding round update_esc_pending
  no_round pending = refl

  three_rounds :
      (fuel : ℕ) (text : List ℕ)
      → IsPlain text
      → drain scan
          (suc (suc (suc fuel)))
          now
          (at_rest limit (paste_start ++ text ++ paste_end) none)
        ≡ (
          at_rest limit [] none,
          record { keys = []; pastes = append_paste limit text [] ∷ []; mice = [] },
        )
  unfolding drain
  three_rounds fuel text plain =
      ap (λ r. finish r (drain scan (suc (suc fuel)) now)) (start_round (text ++ paste_end) none)
      ∙ ap
          (λ r.
            finish (goes_on (at_rest limit [] none) (add_keys []))
              (λ b. finish r (drain scan (suc fuel) now)))
          (end_round text plain)
      ∙ ap
          (λ r. finish (goes_on (at_rest limit [] none) (add_keys [])) (λ b.
            finish (goes_on b (add_paste (append_paste limit text [])))
              (λ c. finish r (drain scan fuel now))))
          (no_round (update_esc_pending now (text ++ paste_end) none))

-- A paste without ESC bytes that comes in one chunk with its markers, while nothing else is pending,
-- is handed on as one paste, cut at the limit, and leaves nothing behind.
pub feed-paste :
    (scan : List ℕ → Option (ℤ × ℤ × ℤ)) (now limit : ℕ) (text : List ℕ)
    → IsPlain text
    → feed scan now (paste_start ++ text ++ paste_end) (at_rest limit [] none)
      ≡ (at_rest limit [] none, record { keys = []; pastes = take limit text ∷ []; mice = [] })
unfolding feed append_paste
feed-paste scan now limit text plain =
    let whole : limit - 0 ≡ limit = omega arith in
    three_rounds scan now limit _ text plain
    ∙ ap
        (λ k. (
          at_rest limit [] none,
          let e : Drained = record { keys = []; pastes = take k text ∷ []; mice = [] } in e,
        ))
        whole
