-- ===== src/Stdin/Events/Split.antt =====
-- tui/terminal/stdin_buffer.go, `consumeKeyEvents`: no byte is lost, and where a text is cut into
-- chunks does not matter.
use covonaut.Base.{
  ℕ, zero, suc, ◌+◌, ◌≤◌, List, [], ◌∷◌, ◌++◌, false, ◌≡◌, ◌⊎◌, refl, sym, ◌∙◌, ap, arith, eqb,
  length, take, drop, concat, take-append-drop, length-append, length-drop, Bool-cases, inl, inr,
}
use mathlib.Core.List.{append_assoc}
use covonaut.Stdin.Events.{next_size, consume, consume_key_events}
use covonaut.Stdin.Events.Sizes.{next_size-append}

add_assoc : (a b c : ℕ) → a + (b + c) ≡ a + b + c
add_assoc a b c = omega arith

zero-add : (n : ℕ) → n ≡ 0 + n
zero-add n = omega arith

drop-empty : (n : ℕ) → drop {A = ℕ} n [] ≡ []
drop-empty zero = refl
drop-empty (suc n) = refl

drop-drop : (m n : ℕ) (bs : List ℕ) → drop (m + n) bs ≡ drop n (drop m bs)
drop-drop zero n bs = let same : zero + n ≡ n = omega arith in ap (λ k. drop k bs) same
drop-drop (suc m) n [] = drop-empty (suc m + n) ∙ sym (drop-empty n)
drop-drop (suc m) n (b ∷ bs) =
    let same : suc m + n ≡ suc (m + n) = omega arith in
    ap (λ k. drop k (b ∷ bs)) same ∙ drop-drop m n bs

-- No byte is lost: the keys and what is left in the buffer make the buffer.
consume-concat :
    (fuel : ℕ) (bs : List ℕ) → concat (consume fuel bs).1 ++ drop (consume fuel bs).0 bs ≡ bs
unfolding consume
consume-concat zero bs = refl
consume-concat (suc fuel) bs = elim (Bool-cases (eqb (next_size bs) 0)) [
  | inl stop ↦ rw stop refl
  | inr on ↦ rw on (
      append_assoc (take (next_size bs) bs) _ _
      ∙ ap (λ r. take (next_size bs) bs ++ r)
          (ap (λ r. concat (consume fuel (drop (next_size bs) bs)).1 ++ r)
              (drop-drop (next_size bs) _ bs)
            ∙ consume-concat fuel (drop (next_size bs) bs))
      ∙ take-append-drop (next_size bs) bs)
]

drop-append : (n : ℕ) (a b : List ℕ) → n ≤ length a → drop n (a ++ b) ≡ drop n a ++ b
drop-append zero a b h = refl
drop-append (suc n) [] b h = absurd (omega arith)
drop-append (suc n) (x ∷ a) b h = drop-append n a b (omega arith)

take-append : (n : ℕ) (a b : List ℕ) → n ≤ length a → take n (a ++ b) ≡ take n a
take-append zero a b h = refl
take-append (suc n) [] b h = absurd (omega arith)
take-append (suc n) (x ∷ a) b h = ap (λ r. x ∷ r) (take-append n a b (omega arith))

ℕ-cases : (n : ℕ) → (n ≡ 0) ⊎ ((m : ℕ) × (n ≡ suc m))
ℕ-cases zero = inl refl
ℕ-cases (suc n) = inr (n, refl)

consume-stop : (fuel : ℕ) (bs : List ℕ) → next_size bs ≡ 0 → consume fuel bs ≡ (0, [])
unfolding consume
consume-stop zero bs e = refl
consume-stop (suc fuel) bs e = rw e refl

consume-next :
    (fuel n : ℕ) (bs : List ℕ)
    → next_size bs ≡ suc n
    → consume (suc fuel) bs ≡ (
      suc n + (consume fuel (drop (suc n) bs)).0,
      take (suc n) bs ∷ (consume fuel (drop (suc n) bs)).1,
    )
unfolding consume
consume-next fuel n bs e =
    let positive : eqb (suc n) 0 ≡ false = ground arith in rw (e, positive) refl

next_size-pos : (bs : List ℕ) (n : ℕ) → next_size bs ≡ suc n → suc n ≤ length bs
next_size-pos bs n e = (next_size-append bs [] n e).1

next_size-empty : next_size [] ≡ 0
unfolding next_size
next_size-empty = refl

-- Fuel for every byte is enough.
consume-fuel : (f g : ℕ) (bs : List ℕ) → length bs ≤ f → length bs ≤ g → consume f bs ≡ consume g bs
unfolding consume
consume-fuel zero g [] hf hg = sym (consume-stop g [] next_size-empty)
consume-fuel zero g (b ∷ bs) hf hg = absurd (omega arith)
consume-fuel (suc f) zero [] hf hg = consume-stop (suc f) [] next_size-empty
consume-fuel (suc f) zero (b ∷ bs) hf hg = absurd (omega arith)
consume-fuel (suc f) (suc g) bs hf hg = elim (ℕ-cases (next_size bs)) [
  | inl stop ↦ consume-stop (suc f) bs stop ∙ sym (consume-stop (suc g) bs stop)
  | inr (n, on) ↦
      consume-next f n bs on
      ∙ ap (λ (r : ℕ × List (List ℕ)). (suc n + r.0, take (suc n) bs ∷ r.1))
          (consume-fuel f g (drop (suc n) bs) (omega (arith, length-drop (suc n) bs))
            (omega (arith, length-drop (suc n) bs)))
      ∙ sym (consume-next g n bs on)
]

-- The keys of `a`, then those of what it leaves and `b`.
abbrev keys_in_turn : ℕ → ℕ → List ℕ → List ℕ → ℕ × List (List ℕ)
keys_in_turn f g a b =
    let r = consume f a in let s = consume g (drop r.0 a ++ b) in (r.0 + s.0, r.1 ++ s.1)

append-stop :
    (f g h : ℕ) (a b : List ℕ)
    → next_size a ≡ 0
    → length (a ++ b) ≤ g
    → length (a ++ b) ≤ h
    → consume h (a ++ b) ≡ keys_in_turn f g a b
append-stop f g h a b stop hg hh =
    consume-fuel h g (a ++ b) hh hg
    ∙ ap (λ k. (k, (consume g (a ++ b)).1)) (zero-add (consume g (a ++ b)).0)
    ∙ ap
        (λ (r : ℕ × List (List ℕ)).
          (r.0 + (consume g (drop r.0 a ++ b)).0, r.1 ++ (consume g (drop r.0 a ++ b)).1))
        (sym (consume-stop f a stop))

append-next :
    (f g h n : ℕ) (a b : List ℕ)
    → next_size a ≡ suc n
    → consume h (drop (suc n) a ++ b) ≡ keys_in_turn f g (drop (suc n) a) b
    → consume (suc h) (a ++ b) ≡ keys_in_turn (suc f) g a b
append-next f g h n a b on rest =
    let here = next_size-append a b n on in
    let left = drop (suc n) a in
    let k = (consume f left).0 in
    let there = drop-drop (suc n) k a in
    consume-next h n (a ++ b) here.0
    ∙ ap (λ (bs : List ℕ). (suc n + (consume h bs).0, take (suc n) (a ++ b) ∷ (consume h bs).1))
        (drop-append (suc n) a b here.1)
    ∙ ap (λ (r : ℕ × List (List ℕ)). (suc n + r.0, take (suc n) (a ++ b) ∷ r.1)) rest
    ∙ ap
        (λ (t : List ℕ). (
          suc n + (k + (consume g (drop k left ++ b)).0),
          t ∷ (consume f left).1 ++ (consume g (drop k left ++ b)).1,
        ))
        (take-append (suc n) a b here.1)
    ∙ ap
        (λ (bs : List ℕ). (
          suc n + (k + (consume g (bs ++ b)).0),
          take (suc n) a ∷ (consume f left).1 ++ (consume g (bs ++ b)).1,
        ))
        (sym there)
    ∙ ap
        (λ (c : ℕ).
          (c, take (suc n) a ∷ (consume f left).1 ++ (consume g (drop (suc n + k) a ++ b)).1))
        (add_assoc (suc n) k (consume g (drop (suc n + k) a ++ b)).0)
    ∙ ap
        (λ (r : ℕ × List (List ℕ)).
          (r.0 + (consume g (drop r.0 a ++ b)).0, r.1 ++ (consume g (drop r.0 a ++ b)).1))
        (sym (consume-next f n a on))

consume-append :
    (f g h : ℕ) (a b : List ℕ)
    → length a ≤ f
    → length (a ++ b) ≤ g
    → length (a ++ b) ≤ h
    → consume h (a ++ b) ≡ keys_in_turn f g a b
consume-append zero g h [] b hf hg hh = append-stop zero g h [] b next_size-empty hg hh
consume-append zero g h (x ∷ a) b hf hg hh = absurd (omega arith)
consume-append (suc f) g zero a b hf hg hh = elim (ℕ-cases (next_size a)) [
  | inl stop ↦ append-stop (suc f) g zero a b stop hg hh
  | inr (n, on) ↦ absurd (omega (arith, next_size-append a b n on, length-append a b))
]
consume-append (suc f) g (suc h) a b hf hg hh = elim (ℕ-cases (next_size a)) [
  | inl stop ↦ append-stop (suc f) g (suc h) a b stop hg hh
  | inr (n, on) ↦
      let shorter = length-drop (suc n) a in
      let sum = length-append a b in
      let sum' = length-append (drop (suc n) a) b in
      append-next f g h n a b on (
        consume-append f g h (drop (suc n) a) b (omega arith) (omega arith)
          (omega (arith, next_size-append a b n on)))
]

-- The keys of a buffer and what is left of it hold every byte, in order; and if more bytes follow,
-- its keys and then those of what it left and the new bytes are the keys of all bytes at once.
pub consume_key_events-split :
    (a b : List ℕ)
    → (concat (consume_key_events a).1 ++ drop (consume_key_events a).0 a ≡ a)
      × (consume_key_events (a ++ b) ≡ (
        (consume_key_events a).0 + (consume_key_events (drop (consume_key_events a).0 a ++ b)).0,
        (consume_key_events a).1 ++ (consume_key_events (drop (consume_key_events a).0 a ++ b)).1,
      ))
unfolding consume_key_events
consume_key_events-split a b =
    let r = consume (length a) a in
    let left = drop r.0 a ++ b in
    let shorter : length left ≤ length (a ++ b) =
      omega (arith, length-append (drop r.0 a) b, length-append a b, length-drop r.0 a) in
    (
      consume-concat (length a) a,
      consume-append (length a) (length (a ++ b)) (length (a ++ b)) a b (omega arith) (omega arith)
            (omega arith)
          ∙ ap (λ (s : ℕ × List (List ℕ)). (r.0 + s.0, r.1 ++ s.1))
              (consume-fuel (length (a ++ b)) (length left) left shorter (omega arith)),
    )
