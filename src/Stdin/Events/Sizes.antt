-- ===== src/Stdin/Events/Sizes.antt =====
-- tui/terminal/stdin_buffer.go and tui/core/width.go: what makes a key does not depend on the bytes
-- behind it.
use covonaut.Base.{
  ℕ, zero, suc, ◌≤◌, List, [], ◌∷◌, ◌++◌, true, false, ◌&&◌, some, ◌≡◌, refl, arith, leb, eqb,
  length, length-append, Bool-cases, Option-cases, inl, inr,
}
use covonaut.Stdin.Events.{
  csi_end, string_end, plus_2, skip_ansi_seq, starts_with_backslash, byte_before, ansi_seq_complete,
  rune_byte_size, next_size, complete_size,
}

csi_end-append :
    (a b : List ℕ) (n : ℕ) → csi_end a ≡ some n → (csi_end (a ++ b) ≡ some n) × (n ≤ length a)
unfolding csi_end
csi_end-append [] b n e = absurd cc
csi_end-append (x ∷ a) b n e = elim (Bool-cases (leb 64 x && leb x 126)) [
  | inl final ↦ ground (arith, final)
  | inr on ↦ elim (Option-cases (csi_end a)) [
    | inl none_left ↦ absurd (ground (arith, on, none_left))
    | inr (k, there) ↦ ground (arith, on, there, csi_end-append a b k there)
  ]
]

backslash-append :
    (a b : List ℕ) → starts_with_backslash a ≡ true → starts_with_backslash (a ++ b) ≡ true
backslash-append [] b e = absurd cc
backslash-append (x ∷ a) b e = e

string_end-append :
    (a b : List ℕ) (n : ℕ) → string_end a ≡ some n → (string_end (a ++ b) ≡ some n) × (n ≤ length a)
unfolding string_end
string_end-append [] b n e = absurd cc
string_end-append (x ∷ a) b n e = elim (Bool-cases (eqb x 7)) [
  | inl bell ↦ ground (arith, bell)
  | inr quiet ↦ elim (Bool-cases (eqb x 27 && starts_with_backslash a)) [
    | inl ended ↦ backslash a ended e
    | inr on ↦ elim (Option-cases (string_end a)) [
      | inl none_left ↦ absurd (ground (arith, quiet, on, none_left))
      | inr (k, there) ↦
          let found : n ≡ suc k = ground (arith, quiet, on, there) in
          rw found (later a k quiet on there (string_end-append a b k there))
    ]
  ]
]
  where
    backslash :
        (a : List ℕ)
        → (eqb x 27 && starts_with_backslash a) ≡ true
        → string_end (x ∷ a) ≡ some n
        → (string_end (x ∷ a ++ b) ≡ some n) × (n ≤ suc (length a))
    backslash [] h q = absurd (ground arith)
    backslash (y ∷ a) h q = ground arith

    later :
        (a : List ℕ) (k : ℕ)
        → eqb x 7 ≡ false
        → (eqb x 27 && starts_with_backslash a) ≡ false
        → string_end a ≡ some k
        → (string_end (a ++ b) ≡ some k) × (k ≤ length a)
        → (string_end (x ∷ a ++ b) ≡ some (suc k)) × (suc k ≤ suc (length a))
    later [] k quiet h q r = absurd cc
    later (y ∷ a) k quiet h q r = (rw (quiet, h, r.0, string_end) refl, omega (arith, r.1))

csi_size-append :
    (a b : List ℕ) (n : ℕ)
    → plus_2 (csi_end a) ≡ suc n
    → (plus_2 (csi_end (a ++ b)) ≡ suc n) × (n ≤ suc (length a))
csi_size-append a b n e = elim (Option-cases (csi_end a)) [
  | inl missing ↦ absurd (cc (e, missing))
  | inr (k, there) ↦ ground (arith, there, csi_end-append a b k there)
]

string_size-append :
    (a b : List ℕ) (n : ℕ)
    → plus_2 (string_end a) ≡ suc n
    → (plus_2 (string_end (a ++ b)) ≡ suc n) × (n ≤ suc (length a))
string_size-append a b n e = elim (Option-cases (string_end a)) [
  | inl missing ↦ absurd (cc (e, missing))
  | inr (k, there) ↦ ground (arith, there, string_end-append a b k there)
]

skip_ansi_seq-append :
    (a b : List ℕ) (n : ℕ)
    → skip_ansi_seq a ≡ suc n
    → (skip_ansi_seq (a ++ b) ≡ suc n) × (suc n ≤ length a)
unfolding skip_ansi_seq
skip_ansi_seq-append [] b n e = absurd cc
skip_ansi_seq-append (x ∷ []) b n e = absurd cc
skip_ansi_seq-append (x ∷ c ∷ []) [] n e =
    ground (arith, csi_size-append [] [] n, string_size-append [] [] n)
skip_ansi_seq-append (x ∷ c ∷ []) (d ∷ b) n e =
    ground (arith, csi_size-append [] (d ∷ b) n, string_size-append [] (d ∷ b) n)
skip_ansi_seq-append (x ∷ c ∷ d ∷ a) b n e =
    ground (arith, csi_size-append (d ∷ a) b n, string_size-append (d ∷ a) b n)

byte_before-append :
    (n : ℕ) (a b : List ℕ) → n ≤ length a → byte_before n (a ++ b) ≡ byte_before n a
byte_before-append zero [] [] h = refl
byte_before-append zero [] (y ∷ b) h = refl
byte_before-append (suc n) [] b h = absurd (omega arith)
byte_before-append zero (x ∷ a) b h = refl
byte_before-append (suc zero) (x ∷ a) b h = refl
byte_before-append (suc (suc n)) (x ∷ a) b h = byte_before-append (suc n) a b (omega arith)

ansi_seq_complete-append :
    (a b : List ℕ) (n : ℕ)
    → suc n ≤ length a
    → ansi_seq_complete (a ++ b) (suc n) ≡ ansi_seq_complete a (suc n)
unfolding ansi_seq_complete
ansi_seq_complete-append a b zero h = refl
ansi_seq_complete-append [] b (suc n) h = absurd (omega arith)
ansi_seq_complete-append (x ∷ []) b (suc n) h = absurd (omega arith)
ansi_seq_complete-append (x ∷ y ∷ a) b (suc n) h = ground (
  arith,
  byte_before-append (suc (suc n)) (x ∷ y ∷ a) b h,
  byte_before-append (suc n) (x ∷ y ∷ a) b (omega arith),
  length-append a b,
)

-- What makes a key stays the same when more bytes follow.
pub next_size-append :
    (a b : List ℕ) (n : ℕ) → next_size a ≡ suc n → (next_size (a ++ b) ≡ suc n) × (suc n ≤ length a)
unfolding next_size rune_byte_size
next_size-append [] b n e = absurd cc
next_size-append (x ∷ a) b n e = elim (Bool-cases (eqb x 27)) [
  | inl esc ↦
      let at_n = skip_ansi_seq-append (x ∷ a) b n in
      let complete = ansi_seq_complete-append (x ∷ a) b n in
      let size : complete_size (x ∷ a) (skip_ansi_seq (x ∷ a)) ≡ suc n = ground (arith, esc) in
      let skipped : skip_ansi_seq (x ∷ a) ≡ suc n = ground arith in
      ground (arith, esc, skipped, at_n, complete)
  | inr plain ↦ ground (arith, plain, length-append a b)
]
