-- ===== src/Pregel/Checkpointed.antt =====
-- graph/pregel.go, `PregelCheckpointer`: a run that saves a checkpoint before each superstep and runs
-- its nodes one after the other, each on the state that the nodes before it left. encoding/json and
-- the store are the caller's: what the model has of them is the errors that they return. The id of a
-- checkpoint is its graph's id and its step.
use Prim.Native.String.{◌++◌ as text_append}
use covonaut.Base.{ℕ, zero, suc, String, List, [], ◌∷◌, ◌++◌, Option, none, some, lookup}
use covonaut.Agentcore.Errors.{
  Failure, Error, plain, ok, err, new_node_error, wrap_node_error, node_not_found, exceed_max_steps,
}
use covonaut.Pregel.{
  State, PregelGraph, CompiledPregelGraph, Next, active, finished, failed_target, add_targets,
  write_all,
}

pub record PregelCheckpoint (V : Type 0) : Type 0 where
  pub graph_id : String
  pub node_name : String
  pub step_index : ℕ
  pub saved_state : State V
  pub active_nodes : List String

-- The errors of json.Marshal on a state, and of the store on a checkpoint after those that it saved.
pub record Saving (V : Type 0) : Type 0 where
  pub marshal_error : State V → Option Failure
  pub save_error : List (PregelCheckpoint V) → PregelCheckpoint V → Option Failure

pub record CheckpointedEnding (V : Type 0) : Type 0 where
  pub state : State V
  pub error : Option Error
  pub saved : List (PregelCheckpoint V)

-- What becomes of the nodes of a superstep: the state and the next nodes, or the end of the run.
pub data Visit (V : Type 0) : Type 0 where
  visited : State V → List String → Visit V
  ended : State V → Visit V
  broke : State V → Error → Visit V

module _ {V : Type 0} where
  abbrev pub follow : Next → State V → (List String → Visit V) → Visit V
  follow (active next) state rest = rest next
  follow finished state rest = ended state
  follow (failed_target e) state rest = broke state e

  unfoldable pub visit_active : PregelGraph V → List String → State V → List String → Visit V
  visit_active g [] state next = visited state next
  visit_active g (n ∷ ns) state next = elim (lookup n g.nodes) [
    | none ↦ broke state (new_node_error node_not_found ("pregel_checkpointed" ∷ n ∷ []))
    | some node ↦ elim (node state) [
      | err e ↦ broke state (wrap_node_error e (text_append "pregel_checkpointed:" n))
      | ok out ↦
          follow (add_targets g (write_all out state) n next) (write_all out state)
            (visit_active g ns (write_all out state))
    ]
  ]

  abbrev pub stops : State V → Option Error → List (PregelCheckpoint V) → CheckpointedEnding V
  stops state error saved = record { state = state; error = error; saved = saved }

  abbrev pub after_visit :
      Visit V
      → List (PregelCheckpoint V)
      → (State V → List String → CheckpointedEnding V)
      → CheckpointedEnding V
  after_visit (visited state next) saved rest = rest state next
  after_visit (ended state) saved rest = stops state none saved
  after_visit (broke state e) saved rest = stops state (some e) saved

  -- The checkpoint is encoded and saved, or the run ends with the error.
  abbrev pub save_then :
      Saving V
      → State V
      → List (PregelCheckpoint V)
      → PregelCheckpoint V
      → CheckpointedEnding V
      → CheckpointedEnding V
  save_then io state saved cp rest = elim (io.marshal_error state) [
    | some f ↦ stops state (some (plain f)) saved
    | none ↦ elim (io.save_error saved cp) [
      | some f ↦ stops state (some (plain f)) saved
      | none ↦ rest
    ]
  ]

  -- The loop `for len(active) > 0`; `left` is `maxSteps - steps`.
  unfoldable pub checkpointed_loop :
      Saving V
      → PregelGraph V
      → String
      → ℕ
      → ℕ
      → List (PregelCheckpoint V)
      → State V
      → List String
      → CheckpointedEnding V
  checkpointed_loop io g graph_id left steps saved state [] = stops state none saved
  checkpointed_loop io g graph_id zero steps saved state (n ∷ ns) =
      stops state (some (wrap_node_error (plain exceed_max_steps) "pregel_checkpointed")) saved
  checkpointed_loop io g graph_id (suc left) steps saved state (n ∷ ns) =
      let cp : PregelCheckpoint V = record {
        graph_id = graph_id;
        node_name = n;
        step_index = suc steps;
        saved_state = state;
        active_nodes = n ∷ ns;
      } in
      save_then io state saved cp (
        after_visit (visit_active g (n ∷ ns) state []) (saved ++ cp ∷ [])
          (checkpointed_loop io g graph_id left (suc steps) (saved ++ cp ∷ [])))

  unfoldable pub run_with_checkpoints :
      Saving V → CompiledPregelGraph V → State V → String → CheckpointedEnding V
  run_with_checkpoints io c initial graph_id =
      checkpointed_loop io c.pg graph_id c.max_steps 0 [] initial (c.entry ∷ [])
