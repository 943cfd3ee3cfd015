-- ===== src/Graph.antt =====
-- graph/graph.go, lines 1 to 106: the graph under construction. Each method returns the new graph,
-- or the error with which the source leaves it as it was.
pub mod WellFormed
pub mod Built
pub mod Topo
pub mod Run
pub mod Interrupt
pub mod Typed
pub mod Tests
use covonaut.Base.{
  ℕ, String, List, [], ◌∷◌, ◌++◌, Bool, true, false, not, ◌||◌, Option, none, some, ◌==◌, leb,
  if◌then◌else◌, length, Map, keys, lookup, insert, get_or, member,
}
use covonaut.Agentcore.Errors.{
  Failure, Error, plain, Result, ok, err, ◌>>=◌, ◌>>◌, duplicate_node, unknown_source,
  unknown_target, has_conditional_edges, has_static_edges, route_required, targets_required,
}
use covonaut.Agentcore.Step.{Step, StreamStep}

pub record ConditionalEdge : Type 0 where
  pub route : String → String
  pub targets : List String

pub record Graph : Type 0 where
  pub nodes : Map Step
  pub stream_nodes : Map StreamStep
  pub edges : Map (List String)
  pub conditional_edges : Map ConditionalEdge

unfoldable pub new_graph : Graph
new_graph = record { nodes = []; stream_nodes = []; edges = []; conditional_edges = [] }

unfoldable pub node_exists : Graph → String → Bool
node_exists g name = member name g.nodes || member name g.stream_nodes

abbrev pub guard : Bool → Failure → Result (Unit {0})
guard true f = ok tt
guard false f = err (plain f)

unfoldable pub add_node : String → Step → Graph → Result Graph
add_node name step g = do
  guard (not (node_exists g name)) (duplicate_node name)
  ok (record g { nodes = insert name step g.nodes })

unfoldable pub add_stream_node : String → StreamStep → Graph → Result Graph
add_stream_node name step g = do
  guard (not (node_exists g name)) (duplicate_node name)
  ok (record g { stream_nodes = insert name step g.stream_nodes })

abbrev pub successors : Map (List String) → String → List String
successors edges name = get_or name [] edges

-- `g.edges[from] = append(g.edges[from], targets...)`
unfoldable pub append_edges : String → List String → Map (List String) → Map (List String)
append_edges from targets edges = insert from (successors edges from ++ targets) edges

unfoldable pub add_edge : String → String → Graph → Result Graph
add_edge from to g = do
  guard (node_exists g from) (unknown_source from)
  guard (node_exists g to) (unknown_target to)
  guard (not (member from g.conditional_edges)) (has_conditional_edges from)
  ok (record g { edges = append_edges from (to ∷ []) g.edges })

-- The loop over the targets of a conditional edge.
unfoldable pub check_targets : Graph → List String → Result (Unit {0})
check_targets g [] = ok tt
check_targets g (t ∷ ts) = do guard (node_exists g t) (unknown_target t); check_targets g ts

abbrev pub require {ℓ} : {A : Type ℓ} → Option A → Failure → Result A
require none f = err (plain f)
require (some a) f = ok a

abbrev pub is_empty {ℓ} : {A : Type ℓ} → List A → Bool
is_empty [] = true
is_empty (x ∷ xs) = false

-- A nil route is `none`.
unfoldable pub add_conditional_edge :
    String → Option (String → String) → List String → Graph → Result Graph
add_conditional_edge from route targets g = do
  guard (node_exists g from) (unknown_source from)
  check_targets g targets
  r ← require route route_required
  guard (not (is_empty targets)) targets_required
  guard (is_empty (successors g.edges from)) (has_static_edges from)
  guard (not (member from g.conditional_edges)) (has_conditional_edges from)
  ok (record g {
    conditional_edges = insert from (record { route = r; targets = targets }) g.conditional_edges;
    edges = append_edges from targets g.edges;
  })
