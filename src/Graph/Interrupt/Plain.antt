-- ===== src/Graph/Interrupt/Plain.antt =====
-- A run without interrupts or a limit on the steps, and how a pass compares with it.
use covonaut.Base.{
  ℕ, zero, suc, ◌≤◌, ◌<◌, String, List, [], ◌∷◌, Bool, true, false, ◌≡◌, ◌⊎◌, refl, sym, ◌∙◌, ap,
  subst, arith, ltb, length, drop, Map, insert, Bool-cases, inl, inr,
}
use covonaut.Agentcore.Errors.{Error, ok, err, wrap_node_error, Result-cases}
use covonaut.Agentcore.Step.{run_step}
use covonaut.Graph.Topo.{CompiledGraph}
use covonaut.Graph.Run.{get_node, activate_successors, reached}
use covonaut.Graph.Interrupt.{
  InterruptConfig, Checkpoint, InterruptResult, Progress, Pass, going, stopped, broken, and_then,
  resolve_node_input, save_checkpoint, stops_before, stops_after, execute, visit, visit_layers,
}
use Prim.Native.String.{◌++◌ as text_append}

-- The run without interrupts and without a limit on the steps.
pub data Plain : Type 0 where
  done : Map String → Plain
  bad : Map String → Error → Plain

abbrev pub plain_then : Plain → (Map String → Plain) → Plain
plain_then (done o) f = f o
plain_then (bad o e) f = bad o e

module _ (cg : CompiledGraph) (input : String) where
  pub plain_node : String → Map String → Plain
  plain_node n outputs = elim (run_step (get_node cg n) (resolve_node_input cg outputs n input)) [
    | err e ↦ bad outputs (wrap_node_error e (text_append "interruptable_graph:" n))
    | ok out ↦ elim (activate_successors cg.graph n out (insert n out outputs)) [
      | err e ↦ bad (insert n out outputs) e
      | ok outputs' ↦ done outputs'
    ]
  ]

  unfoldable pub plain_all : List String → Map String → Plain
  plain_all [] outputs = done outputs
  plain_all (n ∷ ns) outputs = plain_then (plain_node n outputs) (plain_all ns)

  unfoldable pub plain_layers : List (List String) → Map String → Plain
  plain_layers [] outputs = done outputs
  plain_layers (l ∷ ls) outputs =
      plain_then (plain_all (reached cg.entry outputs l) outputs) (plain_layers ls)

  module _ (interrupts : Map InterruptConfig) (stamp : String) where
    -- What every stop leaves behind.
    abbrev pub Saves : Map String → Checkpoint → InterruptResult → Type 0
    Saves outs cp ir =
        (ir.checkpoint_id ≡ cp.id) × (cp.state ≡ record { outputs = outs; last_input = input })

    -- A node that runs has the plain outcome; it may stop only behind itself.
    abbrev Executes : ℕ → ℕ → Plain → Pass → Type 0
    Executes steps idx r (going p) = (r ≡ done p.outputs) × (p.steps ≡ steps)
    Executes steps idx r (stopped outs cp ir) =
        Saves outs cp ir × (r ≡ done outs) × (cp.step_index ≡ suc idx)
    Executes steps idx r (broken outs e) = r ≡ bad outs e

    execute-Executes :
        (n : String) (idx : ℕ) (p : Progress)
        → Executes p.steps idx (plain_node n p.outputs) (execute cg interrupts input stamp n idx p)
    unfolding execute plain_node save_checkpoint
    execute-Executes n idx p =
        elim (Result-cases (run_step (get_node cg n) (resolve_node_input cg p.outputs n input))) [
          | inr (e, fails) ↦ rw (fails, execute, plain_node) refl
          | inl (out, runs) ↦
              elim (Result-cases (activate_successors cg.graph n out (insert n out p.outputs))) [
                | inr (e, fails) ↦ rw (runs, execute, plain_node, fails) refl
                | inl (outs, goes) ↦ elim (Bool-cases (stops_after cg interrupts input stamp n)) [
                  | inl stop ↦ rw (runs, execute, plain_node, goes, stop) ((refl, refl), refl, refl)
                  | inr on ↦ rw (runs, execute, plain_node, goes, on) (refl, refl)
                ]
              ]
        ]

    -- A node may also stop before itself, unless the pass was resumed there.
    abbrev Visits : Map String → ℕ → Bool → ℕ → Plain → Pass → Type 0
    Visits outputs steps skip idx r (going p) = (r ≡ done p.outputs) × (p.steps ≡ suc steps)
    Visits outputs steps skip idx r (stopped outs cp ir) =
        Saves outs cp ir
        × ((r ≡ done outs) × (cp.step_index ≡ suc idx)
            ⊎ (outs ≡ outputs) × (cp.step_index ≡ idx) × (skip ≡ false))
    Visits outputs steps skip idx r (broken outs e) = r ≡ bad outs e

    Executes-Visits :
        (outputs : Map String) (steps : ℕ) (skip : Bool) (idx : ℕ) (r : Plain) (x : Pass)
        → Executes (suc steps) idx r x
        → Visits outputs steps skip idx r x
    Executes-Visits outputs steps skip idx r (going p) h = h
    Executes-Visits outputs steps skip idx r (stopped outs cp ir) h = (h.0, inl (h.1, h.2))
    Executes-Visits outputs steps skip idx r (broken outs e) h = h

    pub visit-Visits :
        (n : String) (idx : ℕ) (outputs : Map String) (steps : ℕ) (skip : Bool)
        → suc steps ≤ cg.max_steps
        → Visits outputs steps skip idx (plain_node n outputs) (
            visit cg interrupts input stamp n idx
              (record { outputs = outputs; steps = steps; skip = skip }))
    unfolding visit save_checkpoint
    visit-Visits n idx outputs steps skip fits =
        let counted = λ (b : Bool).
          let q : Progress = record { outputs = outputs; steps = suc steps; skip = b } in q in
        let under : ltb cg.max_steps (suc steps) ≡ false = ground arith in
        let ran = λ (b : Bool).
          Executes-Visits outputs steps skip idx (plain_node n outputs) _
            (execute-Executes n idx (counted b)) in
        elim (Bool-cases (stops_before cg interrupts input stamp n)) [
          | inr on ↦ rw (under, on) (ran skip)
          | inl stop ↦ elim (Bool-cases skip) [
            | inl resumed ↦ simp (under, stop, resumed) (simp resumed at (ran false))
            | inr first ↦ simp (under, stop, first) ((refl, refl), inr (refl, refl, refl))
          ]
        ]

    -- A pass over layers: where it stops, the plain run goes on from the checkpoint, which lies
    -- further on if the pass was a resumed one.
    abbrev pub Passes : List (List String) → List (List String) → Bool → Plain → Pass → Type 0
    Passes all ls skip r (going p) = r ≡ done p.outputs
    Passes all ls skip r (stopped outs cp ir) =
        Saves outs cp ir
        × (r ≡ plain_layers (drop cp.step_index all) outs)
        × (length (drop cp.step_index all) ≤ length ls)
        × (skip ≡ true → length (drop cp.step_index all) < length ls)
    Passes all ls skip r (broken outs e) = r ≡ bad outs e

    pub drop-suc :
        (k : ℕ) (xs : List (List String)) (y : List String) (ys : List (List String))
        → drop k xs ≡ y ∷ ys
        → drop (suc k) xs ≡ ys
    drop-suc zero [] y ys e = cc
    drop-suc (suc k) [] y ys e = cc
    drop-suc zero (x ∷ xs) y ys e = ground arith
    drop-suc (suc k) (x ∷ xs) y ys e = drop-suc k xs y ys e

    pub Passes-cons :
        (all : List (List String)) (l : List String) (ls : List (List String)) (skip skip' : Bool)
        (r : Plain) (x : Pass)
        → Passes all ls skip r x
        → Passes all (l ∷ ls) skip' r x
    Passes-cons all l ls skip skip' r (going p) h = h
    Passes-cons all l ls skip skip' r (stopped outs cp ir) h =
        (h.0, h.1, omega (arith, h.2), λ e. omega (arith, h.2))
    Passes-cons all l ls skip skip' r (broken outs e) h = h

    pub visit-Passes :
        (all : List (List String)) (l : List String) (ls : List (List String)) (idx : ℕ)
        (outputs : Map String) (steps : ℕ) (skip : Bool) (r : Plain) (x : Pass)
        → drop idx all ≡ l ∷ ls
        → plain_layers (l ∷ ls) outputs ≡ plain_then r (plain_layers ls)
        → Visits outputs steps skip idx r x
        → ((p : Progress)
            → p.steps ≡ suc steps
            → Passes all ls p.skip
                (plain_layers ls p.outputs)
                (visit_layers cg interrupts input stamp ls (suc idx) p))
        → Passes all
            (l ∷ ls)
            skip
            (plain_layers (l ∷ ls) outputs)
            (and_then x (visit_layers cg interrupts input stamp ls (suc idx)))
    visit-Passes all l ls idx outputs steps skip r (going p) d e v next =
        Passes-cons all l ls p.skip skip _ _ (
          subst
            (λ q. Passes all ls p.skip q (visit_layers cg interrupts input stamp ls (suc idx) p))
            (sym (e ∙ ap (λ q. plain_then q (plain_layers ls)) v.0)) (next p v.1))
    visit-Passes all l ls idx outputs steps skip r (stopped outs cp ir) d e v next =
        let there =
          λ (at : cp.step_index ≡ suc idx). ap (λ k. drop k all) at ∙ drop-suc idx all l ls d in
        elim v.1 [
          | inl (ran, at) ↦ (
            v.0,
            e
                ∙ ap (λ q. plain_then q (plain_layers ls)) ran
                ∙ ap (λ q. plain_layers q outs) (sym (there at)),
            omega (arith, ap length (there at)),
            λ _. omega (arith, ap length (there at)),
          )
          | inr (same, at, first) ↦
              let here : drop cp.step_index all ≡ l ∷ ls = ap (λ k. drop k all) at ∙ d in
              (
                v.0,
                ap (plain_layers (l ∷ ls)) (sym same) ∙ ap (λ q. plain_layers q outs) (sym here),
                omega (arith, ap length here),
                λ resumed. cc,
              )
        ]
    visit-Passes all l ls idx outputs steps skip r (broken outs x) d e v next =
        e ∙ ap (λ q. plain_then q (plain_layers ls)) v
