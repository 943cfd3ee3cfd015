-- ===== src/Runner/Tests.antt =====
-- Runners of small graphs, and the theorems at them.
use covonaut.Base.{String, [], ◌∷◌, ◌≡◌, refl, true, some, none, pos}
use covonaut.Agentcore.Errors.{ok}
use covonaut.Graph.Tests.{sample_compiled, program}
use covonaut.Graph.Run.{run}
use covonaut.Graph.Topo.Orders.{as_is, rotated}
use covonaut.Pregel.Tests.{program as pregel_program, compiled_sample, empty_state, writer}
use covonaut.Pregel.{run as pregel_run}
use covonaut.Runner.{RunnerConfig, new_dag_runner, new_pregel_runner}
use covonaut.Runner.DagMode.{
  run_dag, start_nodes, first_error, store_results, activate_targets, dag_layer, dag_layers,
  runner_get_node, resolve_input,
}
use covonaut.Runner.PregelMode.{
  run_pregel_style, save_step, run_active, first_failure, targets_of, next_nodes, pregel_step,
  pregel_loop, validate_pregel_target,
}
use covonaut.Runner.Dag.{without_path, limited, run_dag-same}
use covonaut.Runner.Supersteps.{Agrees, limited_pregel, run_pregel_style-Agrees}

-- A configuration with the given limit, and a store.
abbrev three_steps : RunnerConfig
three_steps = record { mode = "pregel"; trigger = ""; max_steps = pos 3; store = true }

runner_program : Unit {0}
unfolding program pregel_program writer run_dag new_dag_runner start_nodes first_error store_results
    activate_targets dag_layer dag_layers runner_get_node resolve_input save_step run_active
    first_failure targets_of next_nodes pregel_step pregel_loop validate_pregel_target
    run_pregel_style new_pregel_runner
runner_program = tt

run_dag-sample :
    run_dag rotated (new_dag_runner {V = String} sample_compiled none) ">" ≡ ok ">a\n---\n>abc"
unfolding runner_program
run_dag-sample = refl

run_dag-same_example :
    without_path
      (run_dag rotated (new_dag_runner {V = String} sample_compiled (some three_steps)) ">")
    ≡ without_path (run rotated (limited sample_compiled (some three_steps)) ">")
run_dag-same_example = run_dag-same String rotated sample_compiled (some three_steps) ">"

-- The graph of three nodes ends after two supersteps, each saved before it runs.
run_pregel_style-sample :
    (run_pregel_style rotated
      (new_pregel_runner compiled_sample (some empty_state) (some three_steps))).saved
    ≡ record { node_name = "a"; step_index = 1; active_nodes = "a" ∷ [] }
      ∷ record { node_name = "b"; step_index = 2; active_nodes = "b" ∷ "c" ∷ [] }
      ∷ []
unfolding runner_program
run_pregel_style-sample = refl

run_pregel_style-Agrees_example :
    Agrees
      (run_pregel_style as_is
        (new_pregel_runner compiled_sample (some empty_state) (some three_steps)))
      (pregel_run as_is (limited_pregel compiled_sample (some three_steps)) empty_state)
run_pregel_style-Agrees_example =
    run_pregel_style-Agrees compiled_sample empty_state (some three_steps)
