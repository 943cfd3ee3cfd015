-- ===== src/Runner/Mode.antt =====
-- graph/runner.go: `Run`.
use covonaut.Base.{String, [], ◌==◌, if◌then◌else◌}
use covonaut.Graph.Topo.{MapOrder}
use covonaut.Runner.{run_mode_pregel, Runner}
use covonaut.Runner.DagMode.{run_dag}
use covonaut.Runner.PregelMode.{RunnerEnding, stop_with, run_pregel_style}

module _ {V : Type 0} where
  unfoldable pub run : MapOrder → Runner V → String → RunnerEnding V
  run o r input =
      if r.config.mode == run_mode_pregel
      then run_pregel_style o r
      else stop_with r.pregel_state [] (run_dag o r input)
