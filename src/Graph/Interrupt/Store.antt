-- ===== src/Graph/Interrupt/Store.antt =====
-- graph/checkpoint.go, lines 236 to 282: the store in memory.
use covonaut.Base.{
  String, List, [], ◌∷◌, Bool, true, none, some, ◌==◌, if◌then◌else◌, Map, lookup, insert, delete,
}
use covonaut.Agentcore.Errors.{Result, ok, err, plain, checkpoint_not_found}
use covonaut.Graph.Interrupt.{Checkpoint}

unfoldable pub save : Checkpoint → Map Checkpoint → Map Checkpoint
save cp store = insert cp.id cp store

unfoldable pub load : String → Map Checkpoint → Result Checkpoint
load id store = elim (lookup id store) [ none ↦ err (plain checkpoint_not_found) | some cp ↦ ok cp ]

abbrev pub matches : String → Checkpoint → Bool
matches graph_id cp = if graph_id == "" then true else cp.graph_id == graph_id

-- The checkpoints of a graph, or all for the empty id.
unfoldable pub list : String → Map Checkpoint → List Checkpoint
list graph_id [] = []
list graph_id ((id, cp) ∷ store) =
    let rest = list graph_id store in if matches graph_id cp then cp ∷ rest else rest

unfoldable pub remove_checkpoint : String → Map Checkpoint → Map Checkpoint
remove_checkpoint id store = delete id store
