-- ===== src/Runner.antt =====
-- graph/runner.go: one engine for both kinds of graphs, its configuration and its constructors. The
-- mode and the trigger are texts, the store of a configuration is only asked whether it is there:
-- what is saved in it before each superstep is a part of the result. Streams (`RunStream`) are not
-- modelled.
pub mod DagMode
pub mod PregelMode
pub mod Mode
pub mod Dag
pub mod Supersteps
mod Tests
use Prim.Native.String.{◌++◌ as text_append}
use covonaut.Base.{
  ℕ, zero, suc, String, List, [], ◌∷◌, ◌++◌, Bool, true, false, Option, none, some, ◌==◌, ltb,
  if◌then◌else◌, contains, Map, lookup, insert, get_or, member, ℤ, pos, negsuc,
}
use covonaut.Agentcore.Errors.{
  Error, plain, Result, ok, err, ◌>>=◌, ◌>>◌, new_node_error, wrap_node_error, no_matching_target,
  node_not_found, unknown_conditional_target, undeclared_target, exceed_max_steps,
}
use covonaut.Agentcore.Step.{Step, StreamStep, run_step, stream_step_to_step}
use covonaut.Graph.{Graph, ConditionalEdge, successors, is_empty}
use covonaut.Graph.Topo.{MapOrder, CompiledGraph}
use covonaut.Graph.Run.{
  all_nodes, present, pick_input, mark_all, reached, value, find_terminal_output,
}
use covonaut.Pregel.{
  pregel_end, State, Node, Router, CompiledPregelGraph, Next, active, finished, failed_target,
  and_then, add_static, add_routed, write_all, check_results, merge_results,
}
use covonaut.Base.{keys}

abbrev pub run_mode_dag : String
run_mode_dag = "dag"

abbrev pub run_mode_pregel : String
run_mode_pregel = "pregel"

abbrev pub trigger_all_predecessors : String
trigger_all_predecessors = "all"

abbrev pub trigger_any_predecessor : String
trigger_any_predecessor = "any"

pub record RunnerConfig : Type 0 where
  pub mode : String
  pub trigger : String
  pub max_steps : ℤ
  pub store : Bool

pub record Runner (V : Type 0) : Type 0 where
  pub nodes : Map Step
  pub stream_nodes : Map StreamStep
  pub edges : Map (List String)
  pub conditionals : Map ConditionalEdge
  pub pregel_conditionals : Map (Router V)
  pub pregel_conditional_targets : Map (List String)
  pub pregel_nodes : Map (Node V)
  pub pregel_state : State V
  pub rev_edges : Map (List String)
  pub entry : String
  pub config : RunnerConfig
  pub sorted_layers : List (List String)

-- `if cfg.MaxSteps <= 0 { cfg.MaxSteps = ... }`
abbrev pub steps_or : ℕ → ℤ → ℤ
steps_or default (pos zero) = pos default
steps_or default (pos (suc n)) = pos (suc n)
steps_or default (negsuc n) = pos default

-- The configuration of a runner, from its first option or else from the graph.
abbrev pub configure : String → String → ℕ → Option RunnerConfig → RunnerConfig
configure mode trigger max_steps none = record {
  mode = mode;
  trigger = trigger;
  max_steps = pos max_steps;
  store = false;
}
configure mode trigger max_steps (some cfg) = record {
  mode = mode;
  trigger = if cfg.trigger == "" then trigger else cfg.trigger;
  max_steps = steps_or max_steps cfg.max_steps;
  store = cfg.store;
}

-- `steps > r.config.MaxSteps`, with `steps` counted from 1, holds after this many steps.
abbrev pub step_bound : ℤ → ℕ
step_bound (pos n) = n
step_bound (negsuc n) = 0

-- The targets of `from` other than the end, reversed.
unfoldable pub reverse_from : String → List String → Map (List String) → Map (List String)
reverse_from from [] rev = rev
reverse_from from (to ∷ tos) rev =
    reverse_from from tos
      (if to == pregel_end then rev else insert to (get_or to [] rev ++ from ∷ []) rev)

unfoldable pub reverse_pregel : Map (List String) → Map (List String) → Map (List String)
reverse_pregel [] rev = rev
reverse_pregel ((from, tos) ∷ edges) rev = reverse_pregel edges (reverse_from from tos rev)

module _ {V : Type 0} where
  abbrev pub empty_state : State V
  empty_state key = none

  unfoldable pub new_dag_runner : CompiledGraph → Option RunnerConfig → Runner V
  new_dag_runner cg opts = record {
    nodes = cg.graph.nodes;
    stream_nodes = cg.stream_nodes;
    edges = cg.graph.edges;
    conditionals = cg.graph.conditional_edges;
    pregel_conditionals = [];
    pregel_conditional_targets = [];
    pregel_nodes = [];
    pregel_state = empty_state;
    rev_edges = cg.rev_edges;
    entry = cg.entry;
    config = configure run_mode_dag trigger_all_predecessors cg.max_steps opts;
    sorted_layers = cg.sorted_layers;
  }

  -- A nil pointer to a state, or a pointer to nil, is `none`.
  unfoldable pub new_pregel_runner :
      CompiledPregelGraph V → Option (State V) → Option RunnerConfig → Runner V
  new_pregel_runner cpg state opts = record {
    nodes = [];
    stream_nodes = [];
    edges = cpg.pg.edges;
    conditionals = [];
    pregel_conditionals = cpg.pg.conditional_edges;
    pregel_conditional_targets = cpg.pg.conditional_targets;
    pregel_nodes = cpg.pg.nodes;
    pregel_state = elim state [ none ↦ empty_state | some s ↦ s ];
    rev_edges = reverse_pregel cpg.pg.edges [];
    entry = cpg.entry;
    config = configure run_mode_pregel trigger_any_predecessor cpg.max_steps opts;
    sorted_layers = [];
  }
