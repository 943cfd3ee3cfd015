-- ===== src/Graph/Interrupt.antt =====
-- graph/checkpoint.go: a compiled graph that stops before or after chosen nodes and resumes from a
-- checkpoint. The encoding of a checkpoint's state as JSON and back is taken as the identity, and
-- the time that makes its id unique is an argument, `stamp`. The store is the one in memory, whose
-- methods to save and to delete return no error.
pub mod Store
pub mod Plain
pub mod Chain
pub mod Free
pub mod Resume
pub mod Keeps
pub mod Skips
mod Tests
use Prim.Native.String.{◌++◌ as text_append}
use covonaut.Base.{
  ℕ, zero, suc, ◌+◌, String, List, [], ◌∷◌, Bool, true, false, ◌&&◌, Option, none, some, ◌==◌, ltb,
  if◌then◌else◌, drop, Map, lookup, insert, get_or, member,
}
use covonaut.Agentcore.Errors.{
  Error, plain, Result, ok, err, ◌>>=◌, wrap_node_error, exceed_max_steps, checkpoint_not_found,
}
use covonaut.Agentcore.Step.{run_step}
use covonaut.Graph.{is_empty}
use covonaut.Graph.WellFormed.{names}
use covonaut.Graph.Topo.{CompiledGraph}
use covonaut.Graph.Run.{
  all_nodes, pick_input, get_node, activate_successors, reached, find_terminal_output,
}

pub record InterruptConfig : Type 0 where
  pub before : Bool
  pub after : Bool

pub record CheckpointState : Type 0 where
  pub outputs : Map String
  pub last_input : String

pub data Phase : Type 0 where
  before_node after_node : Phase

pub record Checkpoint : Type 0 where
  pub id : String
  pub graph_id : String
  pub node_name : String
  pub step_index : ℕ
  pub state : CheckpointState
  pub phase : Phase

pub record InterruptResult : Type 0 where
  pub checkpoint_id : String
  pub node_name : String
  pub phase : Phase
  pub output : String

-- The store, the memory of an `InterruptableGraph`, and its configuration.
pub record InterruptableGraph : Type 0 where
  pub graph : CompiledGraph
  pub store : Map Checkpoint
  pub interrupts : Map InterruptConfig
  pub node_outputs : Map String

unfoldable pub new_interruptable_graph : CompiledGraph → Map Checkpoint → InterruptableGraph
new_interruptable_graph cg store = record {
  graph = cg;
  store = store;
  interrupts = [];
  node_outputs = [];
}

unfoldable pub set_interrupt : String → InterruptConfig → InterruptableGraph → InterruptableGraph
set_interrupt name cfg ig = record ig { interrupts = insert name cfg ig.interrupts }

-- The outputs of the given nodes that there are and that are not empty.
unfoldable pub present_outputs : Map String → List String → List String
present_outputs outputs [] = []
present_outputs outputs (p ∷ ps) =
    let rest = present_outputs outputs ps in
    elim (lookup p outputs) [ none ↦ rest | some out ↦ if out == "" then rest else out ∷ rest ]

unfoldable pub resolve_node_input : CompiledGraph → Map String → String → String → String
resolve_node_input cg outputs name graph_input =
    let preds = get_or name [] cg.rev_edges in
    if is_empty preds then graph_input else pick_input graph_input (present_outputs outputs preds)

abbrev pub phase_text : Phase → String
phase_text before_node = "before"
phase_text after_node = "after"

-- What the loops hand on: the outputs, the count of steps, and `skipFirstInterruptBefore`.
pub record Progress : Type 0 where
  pub outputs : Map String
  pub steps : ℕ
  pub skip : Bool

pub data Pass : Type 0 where
  going : Progress → Pass
  stopped : Map String → Checkpoint → InterruptResult → Pass
  broken : Map String → Error → Pass

abbrev pub and_then : Pass → (Progress → Pass) → Pass
and_then (going p) f = f p
and_then (stopped outputs cp ir) f = stopped outputs cp ir
and_then (broken outputs e) f = broken outputs e

module _ (cg : CompiledGraph) (interrupts : Map InterruptConfig) (input stamp : String) where
  -- `saveCheckpoint`
  unfoldable pub save_checkpoint : String → Phase → ℕ → Map String → String → Pass
  save_checkpoint name phase layer_idx outputs out =
      let id = text_append "cp_" (
        text_append name
          (text_append "_" (text_append (phase_text phase) (text_append "_" stamp)))) in
      stopped outputs
        (record {
          id = id;
          graph_id = "";
          node_name = name;
          step_index = layer_idx;
          state = record { outputs = outputs; last_input = input };
          phase = phase;
        })
        (record { checkpoint_id = id; node_name = name; phase = phase; output = out })

  abbrev pub stops_before : String → Bool
  stops_before name = elim (lookup name interrupts) [ none ↦ false | some cfg ↦ cfg.before ]

  abbrev pub stops_after : String → Bool
  stops_after name = elim (lookup name interrupts) [ none ↦ false | some cfg ↦ cfg.after ]

  -- The step of a node, its output and the activation of its successors.
  unfoldable pub execute : String → ℕ → Progress → Pass
  execute name layer_idx p =
      elim (run_step (get_node cg name) (resolve_node_input cg p.outputs name input)) [
        | err e ↦ broken p.outputs (wrap_node_error e (text_append "interruptable_graph:" name))
        | ok out ↦ elim (activate_successors cg.graph name out (insert name out p.outputs)) [
          | err e ↦ broken (insert name out p.outputs) e
          | ok outputs ↦
              if stops_after name
              then save_checkpoint name after_node (suc layer_idx) outputs out
              else going (record p { outputs = outputs })
        ]
      ]

  -- The body of the loop over the nodes of a layer.
  unfoldable pub visit : String → ℕ → Progress → Pass
  visit name layer_idx p =
      let counted = record p { steps = suc p.steps } in
      if ltb cg.max_steps (suc p.steps)
      then broken p.outputs (wrap_node_error (plain exceed_max_steps) "interruptable_graph")
      else if stops_before name
      then if p.skip
        then execute name layer_idx (record counted { skip = false })
        else save_checkpoint name before_node layer_idx p.outputs ""
      else execute name layer_idx counted

  unfoldable pub visit_all : List String → ℕ → Progress → Pass
  visit_all [] layer_idx p = going p
  visit_all (n ∷ ns) layer_idx p = and_then (visit n layer_idx p) (visit_all ns layer_idx)

  -- The loop over the layers, from `layer_idx` on.
  unfoldable pub visit_layers : List (List String) → ℕ → Progress → Pass
  visit_layers [] layer_idx p = going p
  visit_layers (l ∷ ls) layer_idx p =
      and_then (visit_all (reached cg.entry p.outputs l) layer_idx p)
        (visit_layers ls (suc layer_idx))

  unfoldable pub run_from : ℕ → Bool → Map String → Pass
  run_from start_layer resumed outputs =
      visit_layers (drop start_layer cg.sorted_layers) start_layer
        (record { outputs = outputs; steps = 0; skip = resumed })

-- What `Run` and `Resume` return.
pub data Outcome : Type 0 where
  finished : String → Outcome
  interrupted : InterruptResult → Outcome
  errored : Error → Outcome

unfoldable pub conclude : InterruptableGraph → Pass → Outcome × InterruptableGraph
conclude ig (going p) = (
  finished (
      find_terminal_output (all_nodes ig.graph.graph.nodes ig.graph.stream_nodes)
        ig.graph.graph.edges p.outputs),
  record ig { node_outputs = p.outputs },
)
conclude ig (stopped outputs cp ir) =
    (interrupted ir, record ig { node_outputs = outputs; store = insert cp.id cp ig.store })
conclude ig (broken outputs e) = (errored e, record ig { node_outputs = outputs })

unfoldable pub run : String → String → InterruptableGraph → Outcome × InterruptableGraph
run input stamp ig = conclude ig (run_from ig.graph ig.interrupts input stamp 0 false [])

abbrev pub resume_input : String → CheckpointState → String
resume_input input saved = if input == "" then saved.last_input else input

abbrev pub resume_from :
    Option Checkpoint → String → String → InterruptableGraph → Outcome × InterruptableGraph
resume_from none input stamp ig = (errored (plain checkpoint_not_found), ig)
resume_from (some cp) input stamp ig = conclude ig (
    run_from ig.graph ig.interrupts (resume_input input cp.state) stamp cp.step_index true
      cp.state.outputs)

unfoldable pub resume : String → String → String → InterruptableGraph → Outcome × InterruptableGraph
resume id input stamp ig = resume_from (lookup id ig.store) input stamp ig
