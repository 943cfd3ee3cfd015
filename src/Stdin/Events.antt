-- ===== src/Stdin/Events.antt =====
-- tui/terminal/stdin_buffer.go, from `consumeKeyEvents` on, and `SkipAnsiSeq` of tui/core/width.go:
-- how many bytes of a buffer make the next key.
pub mod Sizes
pub mod Split
use covonaut.Base.{
  ℕ, zero, suc, ◌+◌, ◌-◌, ◌/◌, List, [], ◌∷◌, Bool, true, false, ◌&&◌, ◌||◌, Option, none, some,
  ltb, leb, eqb, if◌then◌else◌, length, take, drop,
}

-- The length of a CSI sequence's rest up to its final byte, or nothing.
unfoldable pub csi_end : List ℕ → Option ℕ
csi_end [] = none
csi_end (b ∷ bs) =
    let rest = csi_end bs in
    if leb 64 b && leb b 126 then some 1 else elim rest [ none ↦ none | some n ↦ some (suc n) ]

abbrev pub starts_with_backslash : List ℕ → Bool
starts_with_backslash [] = false
starts_with_backslash (b ∷ bs) = eqb b 92

-- The length of the rest of a sequence that BEL or ESC \ ends, or nothing.
unfoldable pub string_end : List ℕ → Option ℕ
string_end [] = none
string_end (b ∷ bs) =
    let rest = string_end bs in
    if eqb b 7
    then some 1
    else if eqb b 27 && starts_with_backslash bs
    then some 2
    else elim rest [ none ↦ none | some n ↦ some (suc n) ]

abbrev pub plus_2 : Option ℕ → ℕ
plus_2 none = 0
plus_2 (some n) = suc (suc n)

abbrev pub is_string_start : ℕ → Bool
is_string_start c = eqb c 93 || eqb c 95 || eqb c 80 || eqb c 94

abbrev pub is_ss : ℕ → Bool
is_ss c = eqb c 78 || eqb c 79

-- `SkipAnsiSeq` on a buffer that starts with the byte at `i`.
unfoldable pub skip_ansi_seq : List ℕ → ℕ
skip_ansi_seq [] = 0
skip_ansi_seq (e ∷ []) = 0
skip_ansi_seq (e ∷ c ∷ cs) =
    if eqb e 27
    then if eqb c 91
      then plus_2 (csi_end cs)
      else if is_string_start c
      then plus_2 (string_end cs)
      else if is_ss c
      then elim cs [ [] ↦ 0 | x ∷ xs ↦ 3 ]
      else 2
    else 0

-- The byte before position `n`, of which there is one if `n` is within the buffer.
abbrev pub byte_before : ℕ → List ℕ → ℕ
byte_before n [] = 0
byte_before zero (b ∷ bs) = 0
byte_before (suc zero) (b ∷ bs) = b
byte_before (suc (suc n)) (b ∷ bs) = byte_before (suc n) bs

abbrev pub second_byte : List ℕ → ℕ
second_byte bs = byte_before 2 bs

unfoldable pub ansi_seq_complete : List ℕ → ℕ → Bool
ansi_seq_complete bs adv =
    if leb adv 1
    then true
    else if ltb (length bs) adv
    then false
    else if eqb (second_byte bs) 91
    then leb 64 (byte_before adv bs) && leb (byte_before adv bs) 126
    else if is_string_start (second_byte bs)
    then eqb (byte_before adv bs) 7
      || (eqb (byte_before (adv - 1) bs) 27 && eqb (byte_before adv bs) 92)
    else if is_ss (second_byte bs)
    then leb 3 adv
    else leb 2 adv

-- For bytes, `c&0xE0 == 0xC0` is `c / 32 == 6`, and so on.
unfoldable pub rune_byte_size : List ℕ → ℕ
rune_byte_size [] = 0
rune_byte_size (c ∷ cs) =
    if ltb c 128
    then 1
    else if eqb (c / 32) 6
    then 2
    else if eqb (c / 16) 14
    then 3
    else if eqb (c / 8) 30
    then 4
    else 1

abbrev pub complete_size : List ℕ → ℕ → ℕ
complete_size bs adv = if ansi_seq_complete bs adv then adv else 0

abbrev pub present_size : List ℕ → ℕ → ℕ
present_size bs size = if leb size (length bs) then size else 0

-- How many bytes the body of the loop of `consumeKeyEvents` takes; 0 if it returns.
unfoldable pub next_size : List ℕ → ℕ
next_size [] = 0
next_size (b ∷ bs) =
    if eqb b 27
    then complete_size (b ∷ bs) (skip_ansi_seq (b ∷ bs))
    else present_size (b ∷ bs) (rune_byte_size (b ∷ bs))

-- The loop, with the number of bytes taken; `fuel` bounds the events.
unfoldable pub consume : ℕ → List ℕ → ℕ × List (List ℕ)
consume zero bs = (0, [])
consume (suc fuel) bs =
    let n = next_size bs in
    let (k, events) = consume fuel (drop n bs) in
    if eqb n 0 then (0, []) else (n + k, take n bs ∷ events)

unfoldable pub consume_key_events : List ℕ → ℕ × List (List ℕ)
consume_key_events bs = consume (length bs) bs

unfoldable pub split_input_into_events : List ℕ → List (List ℕ)
split_input_into_events bs = (consume_key_events bs).1

abbrev pub starts_with : List ℕ → List ℕ → Bool
starts_with [] bs = true
starts_with (n ∷ ns) [] = false
starts_with (n ∷ ns) (b ∷ bs) = let rest = starts_with ns bs in if eqb b n then rest else false

-- The index of the first place where `needle` starts, or nothing, for a needle with a byte.
unfoldable pub index_bytes : List ℕ → List ℕ → Option ℕ
index_bytes [] needle = none
index_bytes (b ∷ bs) needle =
    let rest = index_bytes bs needle in
    if starts_with needle (b ∷ bs)
    then some 0
    else elim rest [ none ↦ none | some i ↦ some (suc i) ]

-- The index of the first byte that is `a` or `b`.
unfoldable pub index_byte : List ℕ → ℕ → ℕ → Option ℕ
index_byte [] a b = none
index_byte (c ∷ cs) a b =
    let rest = index_byte cs a b in
    if eqb c a || eqb c b then some 0 else elim rest [ none ↦ none | some i ↦ some (suc i) ]

unfoldable pub index_byte_from : List ℕ → ℕ → ℕ → ℕ → Option ℕ
index_byte_from bs from a b = elim (index_byte (drop from bs) a b) [
  | none ↦ none
  | some i ↦ some (from + i)
]
