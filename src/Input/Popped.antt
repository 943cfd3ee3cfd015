-- ===== src/Input/Popped.antt =====
-- tui/component/input.go: what `yankPop` takes away, after a yank and after a deletion.
use mathlib.Core.List.{reverse, reverse-append, append-nil}
use covonaut.Base.{
  ℕ, ◌-◌, ◌≤◌, ◌<◌, List, [], ◌∷◌, ◌++◌, Bool, true, false, some, ◌≡◌, sym, ap, ◌∙◌, arith, leb,
  if◌then◌else◌, length, take, drop, get_elem?, length-append, take-append-drop, length-take,
  length-drop, subst,
}
use covonaut.Input.{Input, Env, Edited}
use covonaut.Input.Runes.Words.{length-reverse, drop-length}
use covonaut.Input.Deletion.{keep_last}
use covonaut.Input.Yank.{previous_index}
use covonaut.Input.Line.{
  Line, shown, text, put, presented, line_act, HasRing, told, killing, exchanging, yanking,
  taken_out, earlier,
}
use covonaut.Input.Line.Shown.{placed, take_at, length_at}
use covonaut.Input.Line.Refines.{act-line_act, get_elem?-some}
use covonaut.Input.Line.Ring.{line_act-HasRing}
use covonaut.Input.Sessions.{IsWf, line_of, shown-line_of, line_of-HasRing}
use covonaut.Input.Yanked.{newest}
use covonaut.Input.Keys.{line_forward, yanks, pops, act}

drop-reverse : (s l : List ℕ) → drop (length s) (reverse s ++ l) ≡ l
drop-reverse s l =
    ap (λ k. drop k (reverse s ++ l)) (sym (length-reverse s)) ∙ drop-length (reverse s) l

kept : (n : ℕ) (l : List ℕ) → reverse (drop n l) ≡ take (length l - n) (reverse l)
kept n l = sym (
    ap (λ k. take k (reverse l)) (sym (length-drop n l))
    ∙ ap (λ u. take (length (drop n l)) (reverse u)) (sym (take-append-drop n l))
    ∙ ap (take (length (drop n l))) (reverse-append (take n l) (drop n l))
    ∙ take_at (drop n l) (reverse (take n l)))

filled_ring : (ring : List (List ℕ)) (s : List ℕ) → 0 < length (keep_last (ring ++ s ∷ []))
filled_ring ring s =
    let more = ring ++ s ∷ [] in
    ground (arith, length-append ring (s ∷ []), length-drop (length more - 32) more)

within : (s l : List ℕ) → leb (length s) (length (reverse s ++ l)) ≡ true
within s l = ground (arith, length-append (reverse s) l, length-reverse s)

module _ (env : Env) where
  -- What was put before the cursor is taken out again.
  replaced :
      (s t l : List ℕ) (y : Line) (k : ℕ)
      → told env (
          put t
            (record (taken_out (length s) (record y { before = reverse s ++ l })) { index = k }))
        ≡ told env (put t (record y { before = l; index = k }))
  replaced s t l y k =
      ap
        (λ b. told env (
          put t
            (record (if b
              then record y { before = drop (length s) (reverse s ++ l) }
              else record y { before = reverse s ++ l }) { index = k })))
        (within s l)
      ∙ ap (λ r. told env (put t (record y { before = r; index = k }))) (drop-reverse s l)

  popped :
      (b : Bool) (x : Line) (s t : List ℕ)
      → get_elem? x.ring x.index ≡ some s
      → get_elem? x.ring (earlier x) ≡ some t
      → line_act env pops (line_act env yanks (record x { selected = b })).0
        ≡ line_act env yanks (record x { selected = b; index = earlier x })
  unfolding line_act
  popped b x s t is_s is_t =
      let z = record x { selected = b; index = earlier x } in
      ap (λ o. line_act env pops (yanking env o (record x { selected = b })).0) is_s
      ∙ at_selected b
      ∙ sym (ap (λ o. yanking env o z) is_t)
    where
      at_selected :
          (b' : Bool)
          → line_act env pops (yanking env (some s) (record x { selected = b' })).0
            ≡ yanking env (some t) (record x { selected = b'; index = earlier x })
      at_selected true =
          let y = record (put s (record x { selected = true })) { armed = true } in
          ap (λ o. exchanging env o (get_elem? x.ring (earlier x)) y) is_s
          ∙ ap (λ o. exchanging env (some s) o y) is_t
          ∙ replaced s t [] y (earlier x)
      at_selected false =
          let y = record (put s (record x { selected = false })) { armed = true } in
          ap (λ o. exchanging env o (get_elem? x.ring (earlier x)) y) is_s
          ∙ ap (λ o. exchanging env (some s) o y) is_t
          ∙ replaced s t x.before y (earlier x)

  pops-yanks :
      (x : Line)
      → HasRing x
      → 0 < length x.ring
      → line_act env pops (line_act env yanks x).0
        ≡ line_act env yanks (record x { index = earlier x })
  pops-yanks x valid filled =
      let (s, is_s) = get_elem?-some x.ring x.index (valid.1 filled) in
      let (t, is_t) = get_elem?-some x.ring (earlier x) (ground arith) in
      popped x.selected x s t is_s is_t

  abbrev Exchanges : Input → Type 0
  Exchanges i =
      (o : Edited)
      → act env yanks i ≡ some o
      → act env pops o.input ≡ act env yanks (record i { kill_index = previous_index i })

  yanks-Exchanges : (x : Line) → HasRing x → 0 < length x.ring → Exchanges (shown x)
  yanks-Exchanges x valid filled o done =
      let same : presented (line_act env yanks x) ≡ o = cc (act-line_act env yanks x valid, done) in
      let earlier_valid : HasRing (record x { index = earlier x }) = ground arith in
      subst (λ q. act env pops q.input ≡ act env yanks (shown (record x { index = earlier x })))
        same
        (act-line_act env pops (line_act env yanks x).0 (line_act-HasRing env yanks x valid)
          ∙ ap (λ p. some (presented p)) (pops-yanks x valid filled)
          ∙ sym (act-line_act env yanks (record x { index = earlier x }) earlier_valid))

  -- If the kill ring is not empty, a yank-pop right after a yank has the outcome that the yank would
  -- have had one text further back in the ring.
  pub yank_pop-yank :
      (i : Input)
      → IsWf i
      → 0 < length i.kill_ring
      → (o : Edited) → act env yanks i ≡ some o
      → act env pops o.input ≡ act env yanks (record i { kill_index = previous_index i })
  unfolding line_of
  yank_pop-yank i valid filled =
      subst Exchanges (shown-line_of i valid)
        (yanks-Exchanges (line_of i) (line_of-HasRing i valid) filled)

  -- What a yank-pop does right after the rest of the line was deleted.
  lost :
      (l r : List ℕ) (x : Line) (t : List ℕ)
      → 0 < length r
      → length r ≤ length l
      → get_elem? (keep_last (x.ring ++ r ∷ [])) (earlier (killing env r x x).0) ≡ some t
      → text
          (line_act env pops
            (killing env r x (record x { before = l; after = []; selected = false })).0).0
        ≡ take (length l - length r) (reverse l) ++ t
  unfolding line_act
  lost l [] x t filled room is_t = absurd (omega arith)
  lost l (c ∷ r) x t filled room is_t =
      let n = length (c ∷ r) in
      let y = (killing env (c ∷ r) x (record x { before = l; after = []; selected = false })).0 in
      let enough : leb n (length l) ≡ true = ground arith in
      ap (λ o. text (exchanging env o (get_elem? y.ring (earlier y)) y).0) (newest x.ring (c ∷ r))
      ∙ ap (λ o. text (exchanging env (some (c ∷ r)) o y).0) is_t
      ∙ ap
          (λ b. text (
            put t (record (if b then record y { before = drop n l } else y) { index = earlier y })))
          enough
      ∙ sym (placed t (drop n l) [])
      ∙ append-nil (reverse (drop n l) ++ t)
      ∙ ap (λ u. u ++ t) (kept n l)

  abbrev Loses : Input → Type 0
  Loses i =
      (o p : Edited)
      → act env line_forward i ≡ some o
      → act env pops o.input ≡ some p
      → (t : List ℕ) × (get_elem? o.input.kill_ring (previous_index o.input) ≡ some t)
        × (p.input.runes
            ≡ take (i.cursor - (length i.runes - i.cursor)) (take i.cursor i.runes) ++ t)

  line_forward-Loses :
      (l r : List ℕ) (x : Line)
      → HasRing x
      → 0 < length r
      → length r ≤ length l
      → Loses (shown (record x { before = l; after = r; selected = false }))
  unfolding line_act
  line_forward-Loses l [] x valid filled room o p killed popped_it = absurd (omega arith)
  line_forward-Loses l (c ∷ r) x valid filled room o p killed popped_it =
      let y = record x { before = l; after = c ∷ r; selected = false } in
      let z = (line_act env line_forward y).0 in
      let first : presented (line_act env line_forward y) ≡ o =
        cc (act-line_act env line_forward y valid, killed) in
      let second : act env pops (shown z) ≡ some p =
        ap (λ w. act env pops w.input) first ∙ popped_it in
      let last : presented (line_act env pops z) ≡ p =
        cc (act-line_act env pops z (line_act-HasRing env line_forward y valid), second) in
      let some_text : 0 < length z.ring = filled_ring x.ring (c ∷ r) in
      let (t, is_t) = get_elem?-some z.ring (earlier z) (ground arith) in
      let end : text (line_act env pops z).0 ≡ take (length l - length (c ∷ r)) (reverse l) ++ t =
        lost l (c ∷ r) y t filled room is_t in
      let same : length (reverse l ++ c ∷ r) - length l ≡ length (c ∷ r) =
        omega (arith, length_at l (c ∷ r)) in
      (
        t,
        ap (λ w. get_elem? w.input.kill_ring (previous_index w.input)) (sym first) ∙ is_t,
        ap (λ w. w.input.runes) (sym last)
            ∙ end
            ∙ ap (λ u. take (length l - length (c ∷ r)) u ++ t) (sym (take_at l (c ∷ r)))
            ∙ ap (λ k. take (length l - k) (take (length l) (reverse l ++ c ∷ r)) ++ t) (sym same),
      )

  -- A yank-pop right after the rest of an unselected line was deleted takes away runes that were never
  -- yanked: as many in front of the cursor as were deleted behind it, if there are that many. What is
  -- left is the text before those runes, and then the text of the kill ring before the deleted one.
  pub yank_pop-kill :
      (i : Input)
      → IsWf i
      → i.all_selected ≡ false
      → i.cursor < length i.runes
      → length i.runes - i.cursor ≤ i.cursor
      → (o p : Edited) → act env line_forward i ≡ some o
      → act env pops o.input ≡ some p
      → (t : List ℕ) × (get_elem? o.input.kill_ring (previous_index o.input) ≡ some t)
        × (p.input.runes
            ≡ take (i.cursor - (length i.runes - i.cursor)) (take i.cursor i.runes) ++ t)
  unfolding line_of
  yank_pop-kill i valid unselected behind room =
      let front : length (reverse (take i.cursor i.runes)) ≡ i.cursor = omega (
        arith,
        length-reverse (take i.cursor i.runes),
        length-take i.cursor i.runes,
        valid.within,
      ) in
      let back : length (drop i.cursor i.runes) ≡ length i.runes - i.cursor =
        length-drop i.cursor i.runes in
      subst Loses
        (ap (λ (b : Bool). record (shown (line_of i)) { all_selected = b }) (sym unselected)
          ∙ shown-line_of i valid)
        (line_forward-Loses (reverse (take i.cursor i.runes)) (drop i.cursor i.runes) (line_of i)
          (line_of-HasRing i valid) (omega (arith, back)) (omega (arith, front, back)))
