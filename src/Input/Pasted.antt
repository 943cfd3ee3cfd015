-- ===== src/Input/Pasted.antt =====
-- tui/component/input.go: `insertPastedText`, and `Update` as a whole.
use covonaut.Base.{
  ℕ, suc, List, [], ◌∷◌, Bool, false, ◌&&◌, ◌||◌, some, ◌≡◌, refl, sym, ap, ◌∙◌, arith, eqb,
  if◌then◌else◌, length, String, map, Bool-cases, inl, inr,
}
use covonaut.Input.{
  Input, Env, Edited, Call, insert_string, notify, quiet, insert_pasted_text, flatten,
}
use covonaut.Input.Runes.{◌>>=◌}
use covonaut.Input.Line.{Line, shown, put, presented, HasRing, told, silent}
use covonaut.Input.Line.Shown.{insert_string-put}
use covonaut.Input.Sessions.{
  IsWf, line_of, shown-line_of, line_of-HasRing, shown-IsWf, line_keys, line_keys-HasRing,
  process_keys-line_keys,
}
use covonaut.Input.Keys.{
  Key, action_of, process_keys, Msg, key, paste, window_size, other, update, looks_like_pasted_text,
  has_newline,
}

-- Each line break, of one rune or two, becomes one space.
abbrev pub one_pass : List ℕ → List ℕ
one_pass [] = []
one_pass (a ∷ []) = (if eqb a 13 || eqb a 10 then 32 else a) ∷ []
one_pass (a ∷ b ∷ rest) =
    let both = 32 ∷ one_pass rest in
    let one = (if eqb a 13 || eqb a 10 then 32 else a) ∷ one_pass (b ∷ rest) in
    if eqb a 13 && eqb b 10 then both else one

flatten-one_pass : (s : List ℕ) → flatten s ≡ one_pass s
unfolding flatten
flatten-one_pass [] = refl
flatten-one_pass (a ∷ []) = ground arith
flatten-one_pass (a ∷ b ∷ rest) = ground (arith, flatten-one_pass rest, flatten-one_pass (b ∷ rest))

one_pass-flat : (s : List ℕ) → has_newline (one_pass s) ≡ false
one_pass-flat [] = refl
one_pass-flat (a ∷ []) = ground arith
one_pass-flat (a ∷ b ∷ rest) = ground (arith, one_pass-flat rest, one_pass-flat (b ∷ rest))

-- A text that is put in by a paste; an empty one changes nothing.
abbrev pub pasting : Env → List ℕ → Line → Line × List Call
pasting env [] x = silent x
pasting env (c ∷ s) x = told env (record (put (c ∷ s) x) { armed = false })

module _ (env : Env) where
  pasting-HasRing : (s : List ℕ) (x : Line) → HasRing x → HasRing (pasting env s x).0
  pasting-HasRing [] x valid = valid
  pasting-HasRing (c ∷ s) x valid = ground arith

  pasting-shown :
      (s : List ℕ) (x : Line)
      → (if eqb (length s) 0
          then some (quiet (shown x))
          else (insert_string s (shown x) >>= λ (j : Input).
              some (notify env (record j { last_kill_op = false }))))
        ≡ some (presented (pasting env s x))
  pasting-shown [] x = refl
  pasting-shown (c ∷ s) x =
      let full : eqb (suc (length s)) 0 ≡ false = ground arith in
      rw (full, insert_string-put (c ∷ s) x) refl

  -- A pasted text is put in at the cursor, or in the place of the selection, with each line break
  -- turned into one space, and what is put in has no line break.
  pub insert_pasted_text-pasting :
      (s : List ℕ) (i : Input)
      → IsWf i
      → (insert_pasted_text env s i ≡ some (presented (pasting env (one_pass s) (line_of i))))
        × (has_newline (one_pass s) ≡ false)
  unfolding insert_pasted_text
  insert_pasted_text-pasting s i valid = (
    ap (insert_pasted_text env s) (sym (shown-line_of i valid))
        ∙ pasting-shown (flatten s) (line_of i)
        ∙ ap (λ t. some (presented (pasting env t (line_of i)))) (flatten-one_pass s),
    one_pass-flat s,
  )

  paste-IsWf :
      (s : List ℕ) (i : Input)
      → IsWf i
      → (o : Edited) × (insert_pasted_text env s i ≡ some o) × IsWf o.input
  paste-IsWf s i valid =
      let y = pasting env (one_pass s) (line_of i) in
      (
        presented y,
        (insert_pasted_text-pasting s i valid).0,
        shown-IsWf y.0 (pasting-HasRing (one_pass s) (line_of i) (line_of-HasRing i valid)),
      )

  keys-IsWf :
      (matches : String → String → Bool) (keys : List Key) (i : Input)
      → IsWf i
      → (o : Edited) × (process_keys env matches keys i ≡ some o) × IsWf o.input
  keys-IsWf matches keys i valid =
      let actions = map (action_of matches) keys in
      let y = line_keys env actions (line_of i) in
      (
        presented y,
        process_keys-line_keys env matches keys i valid,
        shown-IsWf y.0
            (line_keys-HasRing env matches actions (line_of i) (line_of-HasRing i valid)),
      )

  -- No message makes the editor panic, and each leaves the cursor inside the runes and the kill ring
  -- in order.
  pub update-IsWf :
      (parse : List ℕ → List Key) (matches : String → String → Bool) (msg : Msg) (i : Input)
      → IsWf i
      → (o : Edited) × (update env parse matches msg i ≡ some o) × IsWf o.input
  unfolding update
  update-IsWf parse matches (key s) i valid = elim (Bool-cases (looks_like_pasted_text parse s)) [
    | inl pasted ↦ rw pasted (paste-IsWf s i valid)
    | inr typed ↦ rw typed (keys-IsWf matches (parse s) i valid)
  ]
  update-IsWf parse matches (paste s) i valid = paste-IsWf s i valid
  update-IsWf parse matches window_size i valid = (quiet i, refl, valid)
  update-IsWf parse matches other i valid = (quiet i, refl, valid)
