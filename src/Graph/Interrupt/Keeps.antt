-- ===== src/Graph/Interrupt/Keeps.antt =====
-- What a pass over nodes leaves alone, and what a stop saves.
use covonaut.Base.{
  ℕ, suc, String, List, [], ◌∷◌, Bool, false, Option, ◌≡◌, ◌≢◌, refl, ◌∙◌, arith, eq_iff, count,
  Has, concat, count-append, ltb, Map, lookup, insert, lookup-insert, Bool-cases, inl, inr,
}
use covonaut.Agentcore.Errors.{Result-cases}
use covonaut.Agentcore.Step.{run_step}
use covonaut.Graph.{successors}
use covonaut.Graph.WellFormed.{IsWf}
use covonaut.Graph.Topo.{CompiledGraph}
use covonaut.Graph.Run.{get_node, activate_successors, reached}
use covonaut.Graph.Run.Layer.{lookup-activate, not_activated, count-reached}
use covonaut.Graph.Interrupt.{
  InterruptConfig, Progress, Pass, after_node, going, stopped, broken, and_then, resolve_node_input,
  save_checkpoint, stops_before, stops_after, execute, visit, visit_all, visit_layers,
}

abbrev pub outputs_of : Pass → Map String
outputs_of (going p) = p.outputs
outputs_of (stopped outs cp ir) = outs
outputs_of (broken outs e) = outs

module _ (cg : CompiledGraph) (w : IsWf cg.graph) (interrupts : Map InterruptConfig)
    (input stamp m : String) where
  -- A node other than `m` that has no edge to `m`.
  abbrev IsApart : String → Type 0
  IsApart n = (n ≢ m) × (count m (successors cg.graph.edges n) ≡ 0)

  execute-keeps :
      (n : String) (idx : ℕ) (p : Progress)
      → IsApart n
      → lookup m (outputs_of (execute cg interrupts input stamp n idx p)) ≡ lookup m p.outputs
  unfolding execute save_checkpoint
  execute-keeps n idx p apart =
      elim (Result-cases (run_step (get_node cg n) (resolve_node_input cg p.outputs n input))) [
        | inr (e, fails) ↦ rw (fails, execute) refl
        | inl (out, runs) ↦
            let kept : lookup m (insert n out p.outputs) ≡ lookup m p.outputs =
              ground (arith, lookup-insert n m out p.outputs, eq_iff n m, apart.0) in
            elim (Result-cases (activate_successors cg.graph n out (insert n out p.outputs))) [
              | inr (e, fails) ↦ rw (runs, execute, fails) kept
              | inl (outs, goes) ↦
                  let same : lookup m outs ≡ lookup m p.outputs = ground (
                    arith,
                    kept,
                    lookup-activate cg.graph n out (insert n out p.outputs) outs m goes,
                    not_activated cg.graph n out m w apart.1,
                  ) in
                  elim (Bool-cases (stops_after cg interrupts input stamp n)) [
                    | inl stop ↦ rw (runs, execute, goes, stop) same
                    | inr on ↦ rw (runs, execute, goes, on) same
                  ]
            ]
      ]

  pub visit-keeps :
      (n : String) (idx : ℕ) (p : Progress)
      → IsApart n
      → lookup m (outputs_of (visit cg interrupts input stamp n idx p)) ≡ lookup m p.outputs
  unfolding visit save_checkpoint
  visit-keeps n idx p apart =
      let counted = λ (b : Bool).
        let q : Progress = record { outputs = p.outputs; steps = suc p.steps; skip = b } in q in
      let ran = λ (b : Bool). execute-keeps n idx (counted b) apart in
      elim (Bool-cases (ltb cg.max_steps (suc p.steps))) [
        | inl over ↦ rw over refl
        | inr fits ↦ elim (Bool-cases (stops_before cg interrupts input stamp n)) [
          | inr on ↦ rw (fits, on) (ran p.skip)
          | inl stop ↦ elim (Bool-cases p.skip) [
            | inl resumed ↦ simp (fits, stop, resumed) (ran false)
            | inr first ↦ simp (fits, stop, first) refl
          ]
        ]
      ]

  and_then-keeps :
      (x : Pass) (f : Progress → Pass) (v : Option String)
      → lookup m (outputs_of x) ≡ v
      → ((p : Progress) → lookup m (outputs_of (f p)) ≡ lookup m p.outputs)
      → lookup m (outputs_of (and_then x f)) ≡ v
  and_then-keeps (going p) f v a b = b p ∙ a
  and_then-keeps (stopped outs cp ir) f v a b = a
  and_then-keeps (broken outs e) f v a b = a

  visit_all-keeps :
      (ns : List String) (idx : ℕ) (p : Progress)
      → ((n : String) → Has n ns → IsApart n)
      → lookup m (outputs_of (visit_all cg interrupts input stamp ns idx p)) ≡ lookup m p.outputs
  unfolding visit_all
  visit_all-keeps [] idx p apart = refl
  visit_all-keeps (n ∷ ns) idx p apart =
      and_then-keeps (visit cg interrupts input stamp n idx p) _ (lookup m p.outputs)
        (visit-keeps n idx p (apart n (ground (arith, eq_iff n n))))
        (λ q. visit_all-keeps ns idx q (λ k h. apart k (omega arith)))

  pub layers-keep :
      (ls : List (List String)) (idx : ℕ) (p : Progress)
      → ((n : String) → Has n (concat ls) → IsApart n)
      → lookup m (outputs_of (visit_layers cg interrupts input stamp ls idx p)) ≡ lookup m p.outputs
  unfolding visit_layers
  layers-keep [] idx p apart = refl
  layers-keep (l ∷ ls) idx p apart =
      let parts = λ (k : String). count-append k l (concat ls) in
      and_then-keeps (visit_all cg interrupts input stamp (reached cg.entry p.outputs l) idx p) _
        (lookup m p.outputs)
        (visit_all-keeps (reached cg.entry p.outputs l) idx p
          (λ k h. apart k (ground (arith, parts k, count-reached cg.entry p.outputs l k))))
        (λ q. layers-keep ls (suc idx) q (λ k h. apart k (omega (arith, parts k))))

-- A stop saves the outputs there are, and one behind a node goes on with the next layer.
abbrev pub AfterStop : ℕ → Pass → Type 0
AfterStop idx (going p) = Unit
AfterStop idx (stopped outs cp ir) =
    (cp.state.outputs ≡ outs) × (cp.phase ≡ after_node → cp.step_index ≡ suc idx)
AfterStop idx (broken outs e) = Unit

module _ (cg : CompiledGraph) (interrupts : Map InterruptConfig) (input stamp : String) where
  execute-AfterStop :
      (n : String) (idx : ℕ) (p : Progress)
      → AfterStop idx (execute cg interrupts input stamp n idx p)
  unfolding execute save_checkpoint
  execute-AfterStop n idx p =
      elim (Result-cases (run_step (get_node cg n) (resolve_node_input cg p.outputs n input))) [
        | inr (e, fails) ↦ rw (fails, execute) tt
        | inl (out, runs) ↦
            elim (Result-cases (activate_successors cg.graph n out (insert n out p.outputs))) [
              | inr (e, fails) ↦ rw (runs, execute, fails) tt
              | inl (outs, goes) ↦ elim (Bool-cases (stops_after cg interrupts input stamp n)) [
                | inl stop ↦ rw (runs, execute, goes, stop) (refl, λ _. refl)
                | inr on ↦ rw (runs, execute, goes, on) tt
              ]
            ]
      ]

  pub visit-AfterStop :
      (n : String) (idx : ℕ) (p : Progress)
      → AfterStop idx (visit cg interrupts input stamp n idx p)
  unfolding visit save_checkpoint
  visit-AfterStop n idx p =
      let counted = λ (b : Bool).
        let q : Progress = record { outputs = p.outputs; steps = suc p.steps; skip = b } in q in
      elim (Bool-cases (ltb cg.max_steps (suc p.steps))) [
        | inl over ↦ rw over tt
        | inr fits ↦ elim (Bool-cases (stops_before cg interrupts input stamp n)) [
          | inr on ↦ rw (fits, on) (execute-AfterStop n idx (counted p.skip))
          | inl stop ↦ elim (Bool-cases p.skip) [
            | inl resumed ↦ simp (fits, stop, resumed) (execute-AfterStop n idx (counted false))
            | inr first ↦ simp (fits, stop, first) (refl, λ e. cc)
          ]
        ]
      ]
