-- ===== src/Runner/Dag.antt =====
-- graph/runner.go, `runDAG`, against `Run` of graph/graph.go.
use Prim.Native.String.{◌++◌ as text_append}
use covonaut.Base.{
  ℕ, suc, String, List, [], ◌∷◌, Option, ◌≡◌, refl, Map, lookup, insert, get_or, ltb, contains,
  Bool-cases, Option-cases, inl, inr,
}
use covonaut.Agentcore.Errors.{
  plain, cause, Result, ok, err, ◌>>=◌, new_node_error, wrap_node_error, cause-wrap_node_error,
  Result-cases,
}
use covonaut.Graph.Topo.{MapOrder, CompiledGraph}
use covonaut.Graph.Run.{
  node_input, get_node, reached, launch, check_errors, activate_successors, commit, value,
  run_layer, run_layers, run_outputs, run,
}
use covonaut.Runner.{
  RunnerConfig, Runner, configure, run_mode_dag, trigger_all_predecessors, step_bound,
  new_dag_runner,
}
use covonaut.Runner.DagMode.{
  runner_get_node, resolve_input, start_nodes, first_error, activate_targets, store_results,
  dag_layer, dag_layers, run_dag,
}

-- A result without the path of its error.
abbrev pub without_path {ℓ} : {A : Type ℓ} → Result A → Result A
without_path (ok a) = ok a
without_path (err e) = err (plain (cause e))

pub without_path->>= {ℓ κ} :
    {A : Type ℓ} {B : Type κ} (m m' : Result A) (f f' : A → Result B)
    → without_path m ≡ without_path m'
    → ((a : A) → without_path (f a) ≡ without_path (f' a))
    → without_path (m >>= f) ≡ without_path (m' >>= f')
without_path->>= (ok a) (ok b) f f' e h = cc (h a)
without_path->>= (ok a) (err x) f f' e h = cc
without_path->>= (err x) (ok b) f f' e h = cc
without_path->>= (err x) (err y) f f' e h = cc

-- The graph with the step limit of the runner's configuration.
abbrev pub limited : CompiledGraph → Option RunnerConfig → CompiledGraph
limited cg opts =
    let cfg = configure run_mode_dag trigger_all_predecessors cg.max_steps opts in
    record cg { max_steps = step_bound cfg.max_steps }

module _ (V : Type 0) (o : MapOrder) (cg : CompiledGraph) (opts : Option RunnerConfig)
    (input : String) where
  abbrev runner : Runner V
  runner = new_dag_runner cg opts

  start_nodes-same :
      (outputs : Map String) (ns : List String) (steps : ℕ)
      → without_path (start_nodes runner input outputs ns steps)
        ≡ without_path (launch (limited cg opts) input outputs ns steps)
  unfolding start_nodes launch new_dag_runner runner_get_node get_node resolve_input node_input
      wrap_node_error
  start_nodes-same outputs [] steps = refl
  start_nodes-same outputs (n ∷ ns) steps =
      elim (Bool-cases (ltb (limited cg opts).max_steps (suc steps))) [
        | inl over ↦ rw over refl
        | inr fits ↦
            rw fits (without_path->>= _ _ _ _ (start_nodes-same outputs ns (suc steps)) λ a. refl)
      ]

  first_error-same :
      (ns : List String) (rs : Map (Result String))
      → without_path (first_error ns rs) ≡ without_path (check_errors ns rs)
  unfolding first_error check_errors
  first_error-same [] rs = refl
  first_error-same (n ∷ ns) rs = elim (Result-cases (get_or n (ok "") rs)) [
    | inl (out, e) ↦ rw (e, first_error, check_errors) (first_error-same ns rs)
    | inr (x, e) ↦
        rw (e, first_error, check_errors)
          (cc (
            cause-wrap_node_error x (text_append "runner:dag:" n),
            cause-wrap_node_error x (text_append "graph:" n),
          ))
  ]

  activate_targets-same :
      (n out : String) (outputs : Map String)
      → without_path (activate_targets runner n out outputs)
        ≡ without_path (activate_successors cg.graph n out outputs)
  unfolding activate_targets activate_successors new_dag_runner new_node_error lookup
  activate_targets-same n out outputs = elim (Option-cases (lookup n cg.graph.conditional_edges)) [
    | inl e ↦ rw e refl
    | inr (c, e) ↦ elim (Bool-cases (contains c.targets (c.route out))) [
      | inl there ↦ rw (e, there) refl
      | inr missing ↦ rw (e, missing) refl
    ]
  ]

  store_results-same :
      (ns : List String) (rs : Map (Result String)) (outputs : Map String)
      → without_path (store_results runner ns rs outputs)
        ≡ without_path (commit cg.graph ns rs outputs)
  unfolding store_results commit
  store_results-same [] rs outputs = refl
  store_results-same (n ∷ ns) rs outputs =
      let out = value (get_or n (ok "") rs) in
      without_path->>= _ _ _ _ (activate_targets-same n out (insert n out outputs))
        (store_results-same ns rs)

  dag_layer-same :
      (layer : List String) (s : Map String × ℕ)
      → without_path (dag_layer o runner input layer s)
        ≡ without_path (run_layer o (limited cg opts) input layer s)
  unfolding dag_layer run_layer new_dag_runner
  dag_layer-same layer (outputs, steps) =
      let ns = reached cg.entry outputs layer in
      without_path->>= _ _ _ _ (start_nodes-same outputs ns steps) λ (rs, steps').
        without_path->>= _ _ _ _ (first_error-same (o.apply ns) rs)
          λ _. without_path->>= _ _ _ _ (store_results-same (o.apply ns) rs outputs) λ _. refl

  dag_layers-same :
      (ls : List (List String)) (s : Map String × ℕ)
      → without_path (dag_layers o runner input ls s)
        ≡ without_path (run_layers o (limited cg opts) input ls s)
  unfolding dag_layers run_layers
  dag_layers-same [] s = refl
  dag_layers-same (l ∷ ls) s = without_path->>= _ _ _ _ (dag_layer-same l s) (dag_layers-same ls)

-- Under the same order of ranging over results, a runner for a compiled graph returns what `Run` of
-- the graph does with the step limit that the runner's options give: the same output, or an error
-- with the same cause.
pub run_dag-same :
    (V : Type 0) (o : MapOrder) (cg : CompiledGraph) (opts : Option RunnerConfig) (input : String)
    → without_path (run_dag o (new_dag_runner {V = V} cg opts) input)
      ≡ without_path (run o (limited cg opts) input)
unfolding run_dag run run_outputs new_dag_runner
run_dag-same V o cg opts input =
    without_path->>= _ _ _ _
      (dag_layers-same V o cg opts input cg.sorted_layers (insert cg.entry "" [], 0)) λ _. refl
