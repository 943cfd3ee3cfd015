-- ===== src/Input/Yanked.antt =====
-- tui/component/input.go: what a yank gives back, and what a yank-pop takes away.
use mathlib.Core.List.{reverse, append_assoc, append-nil}
use covonaut.Base.{
  ℕ, zero, suc, ◌-◌, ◌≤◌, List, [], ◌∷◌, ◌++◌, Bool, true, false, some, ◌≡◌, ◌≢◌, refl, sym, ap,
  ◌∙◌, arith, ltb, if◌then◌else◌, length, drop, get_elem?, length-append, subst,
}
use covonaut.Input.{Input, Env, Edited}
use covonaut.Input.Runes.Words.{word_span, get_elem?-length, word_span-append}
use covonaut.Input.Deletion.{keep_last}
use covonaut.Input.Line.{Line, shown, text, presented, line_act, HasRing, killing, word}
use covonaut.Input.Line.Shown.{placed, shift}
use covonaut.Input.Line.Refines.{act-line_act}
use covonaut.Input.Line.Ring.{line_act-HasRing}
use covonaut.Input.Sessions.{IsWf, line_of, shown-line_of, line_of-HasRing}
use covonaut.Input.Keys.{
  Action, word_backward, word_forward, line_backward, line_forward, yanks, act,
}

drop-last :
    (n : ℕ) (ring : List (List ℕ)) (s : List ℕ)
    → n ≤ length ring
    → drop n (ring ++ s ∷ []) ≡ drop n ring ++ s ∷ []
drop-last zero ring s few = refl
drop-last (suc n) [] s few = absurd (omega arith)
drop-last (suc n) (t ∷ ring) s few = drop-last n ring s (omega arith)

newest_of :
    (ring : List (List ℕ)) (s : List ℕ)
    → get_elem? (ring ++ s ∷ []) (length (ring ++ s ∷ []) - 1) ≡ some s
newest_of ring s =
    ap (get_elem? (ring ++ s ∷ [])) (omega (arith, length-append ring (s ∷ [])))
    ∙ get_elem?-length ring [] s

-- The text that was put into the ring last.
pub newest :
    (ring : List (List ℕ)) (s : List ℕ)
    → get_elem? (keep_last (ring ++ s ∷ [])) (length (keep_last (ring ++ s ∷ [])) - 1) ≡ some s
newest ring s =
    at_test (ltb 32 (length (ring ++ s ∷ []))) (ground (arith, length-append ring (s ∷ [])))
  where
    at_test :
        (b : Bool)
        → length (ring ++ s ∷ []) - 32 ≤ length ring
        → get_elem?
            (if b then drop (length (ring ++ s ∷ []) - 32) (ring ++ s ∷ []) else ring ++ s ∷ [])
            (length
                (if b then drop (length (ring ++ s ∷ []) - 32) (ring ++ s ∷ []) else ring ++ s ∷ [])
              - 1)
          ≡ some s
    at_test true few =
        ap (λ t. get_elem? t (length t - 1)) (drop-last (length (ring ++ s ∷ []) - 32) ring s few)
        ∙ newest_of (drop (length (ring ++ s ∷ []) - 32) ring) s
    at_test false few = newest_of ring s

-- The deletions that feed the kill ring.
pub data Kill : Type 0 where
  word_left_of word_right_of line_left_of line_right_of : Kill

abbrev pub kill : Kill → Action
kill word_left_of = word_backward
kill word_right_of = word_forward
kill line_left_of = line_backward
kill line_right_of = line_forward

module _ (env : Env) where
  yank-killing :
      (s l r : List ℕ) (x : Line)
      → text (killing env s x (record x { before = l; after = r; selected = false })).0 ≢ text x
      → text x ≡ reverse l ++ (s ++ r)
      → text
          (line_act env yanks
            (killing env s x (record x { before = l; after = r; selected = false })).0).0
        ≡ text x
  unfolding line_act
  yank-killing [] l r x changed whole = absurd (changed refl)
  yank-killing (c ∷ s) l r x changed whole =
      rw (newest x.ring (c ∷ s))
        (sym (placed (c ∷ s) l r) ∙ append_assoc (reverse l) (c ∷ s) r ∙ sym whole)

  -- On a line without a selection.
  yanks-kill :
      (k : Kill) (x : Line)
      → text (line_act env (kill k) (record x { selected = false })).0 ≢ text x
      → text (line_act env yanks (line_act env (kill k) (record x { selected = false })).0).0
        ≡ text x
  unfolding line_act
  yanks-kill word_left_of x changed =
      let (killed, rest) = word_span (word env) x.before in
      yank-killing (reverse killed) rest x.after (record x { selected = false }) changed
        (ap (λ l. reverse l ++ x.after) (sym (word_span-append (word env) x.before))
          ∙ shift killed rest x.after)
  yanks-kill word_right_of x changed =
      let (killed, rest) = word_span (word env) x.after in
      yank-killing killed x.before rest (record x { selected = false }) changed
        (ap (λ r. reverse x.before ++ r) (sym (word_span-append (word env) x.after)))
  yanks-kill line_left_of x changed =
      yank-killing (reverse x.before) [] x.after (record x { selected = false }) changed refl
  yanks-kill line_right_of x changed =
      yank-killing x.after x.before [] (record x { selected = false }) changed
        (ap (λ r. reverse x.before ++ r) (sym (append-nil x.after)))

  abbrev Restores : Action → Input → Type 0
  Restores a i =
      (o : Edited)
      → act env a i ≡ some o
      → o.input.runes ≢ i.runes
      → (p : Edited) × (act env yanks o.input ≡ some p) × (p.input.runes ≡ i.runes)

  kill-Restores :
      (k : Kill) (x : Line) → HasRing x → Restores (kill k) (shown (record x { selected = false }))
  kill-Restores k x valid o done changed =
      let y = record x { selected = false } in
      let z = (line_act env (kill k) y).0 in
      let same : presented (line_act env (kill k) y) ≡ o =
        cc (act-line_act env (kill k) y valid, done) in
      subst
        (λ q.
          q.input.runes ≢ text x
          → (p : Edited) × (act env yanks q.input ≡ some p) × (p.input.runes ≡ text x))
        same
        (λ changed'. (
          presented (line_act env yanks z),
          act-line_act env yanks z (line_act-HasRing env (kill k) y valid),
          yanks-kill k x changed',
        ))
        changed

  -- Without a selection, a yank right after a deletion that fed the kill ring and that changed the
  -- runes restores them.
  pub yank-kill :
      (k : Kill) (i : Input)
      → IsWf i
      → i.all_selected ≡ false
      → (o : Edited) → act env (kill k) i ≡ some o
      → o.input.runes ≢ i.runes
      → (p : Edited) × (act env yanks o.input ≡ some p) × (p.input.runes ≡ i.runes)
  unfolding line_of
  yank-kill k i valid unselected =
      subst (Restores (kill k))
        (ap (λ (b : Bool). record (shown (line_of i)) { all_selected = b }) (sym unselected)
          ∙ shown-line_of i valid)
        (kill-Restores k (line_of i) (line_of-HasRing i valid))
