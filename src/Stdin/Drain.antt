-- ===== src/Stdin/Drain.antt =====
-- tui/terminal/stdin_buffer.go, `drainLocked`: the loop ends, and no paste exceeds its limit.
use covonaut.Base.{
  ℕ, zero, suc, ◌+◌, ◌-◌, ◌≤◌, ◌<◌, List, [], ◌∷◌, ◌++◌, Bool, true, false, Option, none, some, ◌≡◌,
  refl, sym, ◌∙◌, ap, subst, arith, eqb, length, take, ℤ, length-append, length-take, length-drop,
  Bool-cases, Option-cases, inl, inr,
}
use covonaut.Stdin.Events.{index_bytes, index_byte_from, consume_key_events}
use covonaut.Stdin.{
  StdinBuffer, Drained, add_mouse, append_paste, paste_start, paste_end, Round, returns, goes_on,
  paste_round, x11_round, sgr_round, key_round, round, round_by, drain, finish, feed, begins,
  update_esc_pending,
}
use covonaut.Stdin.Mouse.{MouseMsg}

-- No paste is longer than the limit.
abbrev pub AllWithin : ℕ → List (List ℕ) → Type 0
AllWithin limit [] = Unit
AllWithin limit (p ∷ ps) = (length p ≤ limit) × AllWithin limit ps

-- A round that goes on has fewer bytes left, and what is collected stays within the limit.
abbrev IsSound : ℕ → ℕ → Round → Type 0
IsSound limit n (returns b e) =
    (b.max_paste_bytes ≡ limit) × (length b.paste_buf ≤ limit) × AllWithin limit e.pastes
IsSound limit n (goes_on b add) =
    (length b.buf < n)
    × (b.max_paste_bytes ≡ limit)
    × (length b.paste_buf ≤ limit)
    × ((e : Drained) → AllWithin limit e.pastes → AllWithin limit (add e).pastes)

append_paste-le :
    (limit : ℕ) (p paste : List ℕ)
    → length paste ≤ limit
    → length (append_paste limit p paste) ≤ limit
unfolding append_paste
append_paste-le limit p paste h = omega (
  arith,
  length-append paste (take (limit - length paste) p),
  length-take (limit - length paste) p,
)

paste_round-IsSound :
    (b : StdinBuffer)
    → length b.paste_buf ≤ b.max_paste_bytes
    → 0 < length b.buf
    → IsSound b.max_paste_bytes (length b.buf) (paste_round b)
unfolding paste_round
paste_round-IsSound b h some_left = elim (Option-cases (index_bytes b.buf paste_end)) [
  | inl e ↦
      rw (e, paste_round, IsSound) (refl, append_paste-le b.max_paste_bytes _ b.paste_buf h, tt)
  | inr (idx, e) ↦
      rw (e, paste_round, IsSound)
        (
          omega (arith, length-drop (idx + 6) b.buf),
          refl,
          omega arith,
          λ d k. (append_paste-le b.max_paste_bytes _ b.paste_buf h, k),
        )
]

x11_round-IsSound :
    (b : StdinBuffer)
    → length b.paste_buf ≤ b.max_paste_bytes
    → 0 < length b.buf
    → IsSound b.max_paste_bytes (length b.buf) (x11_round b)
unfolding x11_round
x11_round-IsSound b h some_left = (omega (arith, length-drop 6 b.buf), refl, h, λ d k. k)

add_mouse-pastes : (m : Option MouseMsg) (e : Drained) → (add_mouse m e).pastes ≡ e.pastes
add_mouse-pastes none e = refl
add_mouse-pastes (some m) e = refl

sgr_round-IsSound :
    (scan : List ℕ → Option (ℤ × ℤ × ℤ)) (b : StdinBuffer)
    → length b.paste_buf ≤ b.max_paste_bytes
    → 0 < length b.buf
    → IsSound b.max_paste_bytes (length b.buf) (sgr_round scan b)
unfolding sgr_round
sgr_round-IsSound scan b h some_left = elim (Option-cases (index_byte_from b.buf 3 77 109)) [
  | inl e ↦ rw (e, sgr_round, IsSound) (refl, h, tt)
  | inr (end, e) ↦
      rw (e, sgr_round, IsSound)
        (
          omega (arith, length-drop (suc end) b.buf),
          refl,
          h,
          λ d k. subst (AllWithin b.max_paste_bytes) (sym (add_mouse-pastes _ d)) k,
        )
]

key_round-IsSound :
    (b : StdinBuffer)
    → length b.paste_buf ≤ b.max_paste_bytes
    → 0 < length b.buf
    → IsSound b.max_paste_bytes (length b.buf) (key_round b)
unfolding key_round
key_round-IsSound b h some_left = elim (Option-cases (index_bytes b.buf paste_start)) [
  | inr (idx, e) ↦
      rw (e, key_round, IsSound) (omega (arith, length-drop (idx + 6) b.buf), refl, h, λ d k. k)
  | inl e ↦ elim (Bool-cases (eqb (consume_key_events b.buf).0 0)) [
    | inl stop ↦ rw (e, stop, key_round, IsSound) (refl, h, tt)
    | inr on ↦
        rw (e, on, key_round, IsSound)
          (
            ground (arith, on, length-drop (consume_key_events b.buf).0 b.buf, some_left),
            refl,
            h,
            λ d k. k,
          )
  ]
]

round_by-IsSound :
    (scan : List ℕ → Option (ℤ × ℤ × ℤ)) (pasting x11 sgr : Bool) (b : StdinBuffer)
    → length b.paste_buf ≤ b.max_paste_bytes
    → 0 < length b.buf
    → IsSound b.max_paste_bytes (length b.buf) (round_by scan pasting x11 sgr b)
round_by-IsSound scan true x11 sgr b h left = paste_round-IsSound b h left
round_by-IsSound scan false true sgr b h left = x11_round-IsSound b h left
round_by-IsSound scan false false true b h left = sgr_round-IsSound scan b h left
round_by-IsSound scan false false false b h left = key_round-IsSound b h left

round-IsSound :
    (scan : List ℕ → Option (ℤ × ℤ × ℤ)) (now : ℕ) (b : StdinBuffer)
    → length b.paste_buf ≤ b.max_paste_bytes
    → IsSound b.max_paste_bytes (length b.buf) (round scan now b)
unfolding round
round-IsSound scan now b h =
    let waiting : StdinBuffer = record b {
      esc_pending_at = update_esc_pending now b.buf b.esc_pending_at;
    } in
    elim (Bool-cases (eqb (length b.buf) 0)) [
      | inl empty ↦ rw empty (refl, h, tt)
      | inr more ↦ rw more (
          round_by-IsSound scan b.in_paste (begins 77 b.buf) (begins 60 b.buf) waiting h
            (ground arith))
    ]

-- What a pass leaves behind keeps the limit.
abbrev pub IsWithin : ℕ → StdinBuffer × Drained → Type 0
IsWithin limit (b, e) =
    (b.max_paste_bytes ≡ limit) × (length b.paste_buf ≤ limit) × AllWithin limit e.pastes

drain-IsWithin :
    (scan : List ℕ → Option (ℤ × ℤ × ℤ)) (fuel limit now : ℕ) (b : StdinBuffer)
    → b.max_paste_bytes ≡ limit
    → length b.paste_buf ≤ limit
    → IsWithin limit (drain scan fuel now b)
unfolding drain
drain-IsWithin scan zero limit now b m h = (m, h, tt)
drain-IsWithin scan (suc fuel) limit now b m h =
    after (round scan now b)
      (subst (λ l. IsSound l (length b.buf) (round scan now b)) m
        (round-IsSound scan now b (omega arith)))
      (drain-IsWithin scan fuel limit now)
  where
    after :
        (r : Round)
        → IsSound limit (length b.buf) r
        → ((c : StdinBuffer)
            → c.max_paste_bytes ≡ limit
            → length c.paste_buf ≤ limit
            → IsWithin limit (drain scan fuel now c))
        → IsWithin limit (finish r (drain scan fuel now))
    after (returns c e) s rest = s
    after (goes_on c add) s rest =
        let k = rest c s.1 s.2 in (k.0, k.1, s.3 (drain scan fuel now c).1 k.2)

-- With more fuel than bytes the loop ends.
drain-fuel :
    (scan : List ℕ → Option (ℤ × ℤ × ℤ)) (fuel more now : ℕ) (b : StdinBuffer)
    → length b.paste_buf ≤ b.max_paste_bytes
    → length b.buf < fuel
    → drain scan (fuel + more) now b ≡ drain scan fuel now b
unfolding drain
drain-fuel scan zero more now b h f = absurd (omega arith)
drain-fuel scan (suc fuel) more now b h f =
    let same : suc fuel + more ≡ suc (fuel + more) = omega arith in
    ap (λ k. drain scan k now b) same
    ∙ after (round scan now b) (round-IsSound scan now b h) (drain-fuel scan fuel more now)
  where
    after :
        (r : Round)
        → IsSound b.max_paste_bytes (length b.buf) r
        → ((c : StdinBuffer)
            → length c.paste_buf ≤ c.max_paste_bytes
            → length c.buf < fuel
            → drain scan (fuel + more) now c ≡ drain scan fuel now c)
        → finish r (drain scan (fuel + more) now) ≡ finish r (drain scan fuel now)
    after (returns c e) s rest = refl
    after (goes_on c add) s rest =
        ap (λ (x : StdinBuffer × Drained). (x.0, add x.1))
          (rest c (omega (arith, s.1, s.2)) (omega (arith, s.0)))

-- If what was pasted so far is within the limit, then after any chunk it is again, as is every
-- paste that was handed on; and the loop of `drainLocked` ends: any number of further rounds would
-- change nothing.
pub feed-IsWithin :
    (scan : List ℕ → Option (ℤ × ℤ × ℤ)) (now more : ℕ) (chunk : List ℕ) (b : StdinBuffer)
    → length b.paste_buf ≤ b.max_paste_bytes
    → IsWithin b.max_paste_bytes (feed scan now chunk b)
      × (drain scan (suc (length (b.buf ++ chunk)) + more) now (record b { buf = b.buf ++ chunk })
          ≡ feed scan now chunk b)
unfolding feed
feed-IsWithin scan now more chunk b h =
    let filled : StdinBuffer = record b { buf = b.buf ++ chunk } in
    (
      drain-IsWithin scan (suc (length filled.buf)) b.max_paste_bytes now filled refl h,
      drain-fuel scan (suc (length filled.buf)) more now filled h (omega arith),
    )
