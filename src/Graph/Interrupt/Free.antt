-- ===== src/Graph/Interrupt/Free.antt =====
-- Passes without interrupts.
use covonaut.Base.{
  ℕ, suc, String, List, [], ◌∷◌, false, ◌≡◌, refl, sym, ap, ltb, lookup, insert, Bool-cases, inl,
  inr,
}
use covonaut.Agentcore.Errors.{Result-cases}
use covonaut.Agentcore.Step.{run_step}
use covonaut.Graph.Topo.{CompiledGraph}
use covonaut.Graph.Run.{all_nodes, get_node, activate_successors, reached, find_terminal_output}
use covonaut.Graph.Interrupt.{
  InterruptableGraph, Progress, Pass, going, stopped, broken, and_then, resolve_node_input,
  stops_before, stops_after, execute, visit, visit_all, visit_layers, Outcome, finished, errored,
  conclude,
}
use covonaut.Graph.Interrupt.Plain.{Plain, done, bad, Passes, done, bad}

abbrev pub outcome_of : CompiledGraph → Plain → Outcome
outcome_of cg (done outputs) =
    finished
      (find_terminal_output (all_nodes cg.graph.nodes cg.stream_nodes) cg.graph.edges outputs)
outcome_of cg (bad outputs e) = errored e

-- Without interrupts a pass does not stop.
abbrev Free : Pass → Type 0
Free (going p) = Unit
Free (stopped outs cp ir) = ⊥
Free (broken outs e) = Unit

and_then-Free :
    (x : Pass) (f : Progress → Pass) → Free x → ((p : Progress) → Free (f p)) → Free (and_then x f)
and_then-Free (going p) f a b = b p
and_then-Free (stopped outs cp ir) f a b = a
and_then-Free (broken outs e) f a b = tt

module _ (cg : CompiledGraph) (input stamp : String) where
  stops-none :
      (n : String)
      → (stops_before cg [] input stamp n ≡ false) × (stops_after cg [] input stamp n ≡ false)
  unfolding lookup
  stops-none n = (refl, refl)

  execute-Free : (n : String) (idx : ℕ) (p : Progress) → Free (execute cg [] input stamp n idx p)
  unfolding execute lookup
  execute-Free n idx p =
      elim (Result-cases (run_step (get_node cg n) (resolve_node_input cg p.outputs n input))) [
        | inr (e, fails) ↦ rw (fails, execute) tt
        | inl (out, runs) ↦
            elim (Result-cases (activate_successors cg.graph n out (insert n out p.outputs))) [
              | inr (e, fails) ↦ rw (runs, execute, fails) tt
              | inl (outs, goes) ↦ rw (runs, execute, goes) tt
            ]
      ]

  visit-Free : (n : String) (idx : ℕ) (p : Progress) → Free (visit cg [] input stamp n idx p)
  unfolding visit lookup
  visit-Free n idx p = elim (Bool-cases (ltb cg.max_steps (suc p.steps))) [
    | inl over ↦ rw over tt
    | inr fits ↦ rw fits (execute-Free n idx _)
  ]

  visit_all-Free :
      (ns : List String) (idx : ℕ) (p : Progress) → Free (visit_all cg [] input stamp ns idx p)
  unfolding visit_all
  visit_all-Free [] idx p = tt
  visit_all-Free (n ∷ ns) idx p =
      and_then-Free (visit cg [] input stamp n idx p) _ (visit-Free n idx p) (visit_all-Free ns idx)

  pub layers-Free :
      (ls : List (List String)) (idx : ℕ) (p : Progress)
      → Free (visit_layers cg [] input stamp ls idx p)
  unfolding visit_layers
  layers-Free [] idx p = tt
  layers-Free (l ∷ ls) idx p =
      and_then-Free (visit_all cg [] input stamp (reached cg.entry p.outputs l) idx p) _
        (visit_all-Free (reached cg.entry p.outputs l) idx p) (layers-Free ls (suc idx))

pub Free-outcome :
    (ig : InterruptableGraph) (input s : String) (all : List (List String)) (r : Plain) (x : Pass)
    → Passes ig.graph input ig.interrupts s all all false r x
    → Free x
    → (conclude ig x).0 ≡ outcome_of ig.graph r
unfolding conclude
Free-outcome ig input s all r (going p) h free = sym (ap (outcome_of ig.graph) h)
Free-outcome ig input s all r (stopped outs cp ir) h free = absurd free
Free-outcome ig input s all r (broken outs e) h free = sym (ap (outcome_of ig.graph) h)
