-- ===== src/Runner/DagMode.antt =====
-- graph/runner.go: `runDAG` and what it calls.
use Prim.Native.String.{◌++◌ as text_append}
use covonaut.Base.{
  ℕ, suc, String, List, [], ◌∷◌, Option, none, some, ltb, if◌then◌else◌, contains, Map, lookup,
  insert, get_or,
}
use covonaut.Agentcore.Errors.{
  plain, Result, ok, err, ◌>>=◌, ◌>>◌, new_node_error, wrap_node_error, no_matching_target,
  exceed_max_steps,
}
use covonaut.Agentcore.Step.{Step, run_step, stream_step_to_step}
use covonaut.Graph.{successors, is_empty}
use covonaut.Graph.Topo.{MapOrder}
use covonaut.Graph.Run.{
  all_nodes, present, pick_input, mark_all, reached, value, find_terminal_output,
}
use covonaut.Runner.{Runner, step_bound}

-- `for name, err := range errs` of `runDAG`
unfoldable pub first_error : List String → Map (Result String) → Result (Unit {0})
first_error [] rs = ok tt
first_error (n ∷ ns) rs = elim (get_or n (ok "") rs) [
  | ok out ↦ first_error ns rs
  | err e ↦ err (wrap_node_error e (text_append "runner:dag:" n))
]

module _ {V : Type 0} where
  unfoldable pub runner_get_node : Runner V → String → Option Step
  runner_get_node r name = elim (lookup name r.nodes) [
    | some step ↦ some step
    | none ↦ elim (lookup name r.stream_nodes) [
      | some s ↦ some (stream_step_to_step s)
      | none ↦ none
    ]
  ]

  unfoldable pub resolve_input : Runner V → String → String → Map String → String
  resolve_input r name graph_input outputs =
      let preds = get_or name [] r.rev_edges in
      if is_empty preds then graph_input else pick_input graph_input (present outputs preds)

  -- The loop that counts the steps and starts the nodes of a layer.
  unfoldable pub start_nodes :
      Runner V → String → Map String → List String → ℕ → Result (Map (Result String) × ℕ)
  start_nodes r input outputs [] steps = ok ([], steps)
  start_nodes r input outputs (n ∷ ns) steps =
      let rest = start_nodes r input outputs ns (suc steps) in
      if ltb (step_bound r.config.max_steps) (suc steps)
      then err (wrap_node_error (plain exceed_max_steps) "runner:dag")
      else rest >>= λ (rs, s).
          ok ((n, run_step (runner_get_node r n) (resolve_input r n input outputs)) ∷ rs, s)

  -- What follows a node's output: the chosen target of a conditional edge, or all targets.
  unfoldable pub activate_targets : Runner V → String → String → Map String → Result (Map String)
  activate_targets r name out outputs = elim (lookup name r.conditionals) [
    | some c ↦
        if contains c.targets (c.route out)
        then ok (insert (c.route out) "" outputs)
        else err (new_node_error no_matching_target ("runner:dag" ∷ name ∷ c.route out ∷ []))
    | none ↦ ok (mark_all (successors r.edges name) outputs)
  ]

  unfoldable pub store_results :
      Runner V → List String → Map (Result String) → Map String → Result (Map String)
  store_results r [] rs outputs = ok outputs
  store_results r (n ∷ ns) rs outputs =
      let out = value (get_or n (ok "") rs) in
      activate_targets r n out (insert n out outputs) >>= store_results r ns rs

  unfoldable pub dag_layer :
      MapOrder → Runner V → String → List String → Map String × ℕ → Result (Map String × ℕ)
  dag_layer o r input layer (outputs, steps) = do
    let layer_nodes = reached r.entry outputs layer
    (rs, steps') ← start_nodes r input outputs layer_nodes steps
    first_error (o.apply layer_nodes) rs
    outputs' ← store_results r (o.apply layer_nodes) rs outputs
    ok (outputs', steps')

  unfoldable pub dag_layers :
      MapOrder → Runner V → String → List (List String) → Map String × ℕ → Result (Map String × ℕ)
  dag_layers o r input [] s = ok s
  dag_layers o r input (l ∷ ls) s = dag_layer o r input l s >>= dag_layers o r input ls

  unfoldable pub run_dag : MapOrder → Runner V → String → Result String
  run_dag o r input =
      dag_layers o r input r.sorted_layers (insert r.entry "" [], 0) >>= λ (outputs, steps).
      ok (find_terminal_output (all_nodes r.nodes r.stream_nodes) r.edges outputs)
