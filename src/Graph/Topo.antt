-- ===== src/Graph/Topo.antt =====
-- graph/graph.go, lines 108 to 230: `Compile` and `topoSort`. The order in which Go ranges over a
-- map is not fixed: `order`, a parameter, permutes the keys of each round.
pub mod Orders
pub mod Degrees
pub mod Initial
pub mod Layers
pub mod Acyclic
use covonaut.Base.{
  ℕ, zero, suc, ◌+◌, ◌-◌, ◌≤◌, String, List, [], ◌∷◌, ◌++◌, Bool, true, false, Option, none, some,
  ◌≡◌, map, count, length, eqb, if◌then◌else◌, Map, keys, lookup, insert, delete, get_or, ℤ, pos,
  negsuc, inc, dec, ◌==◌,
}
use covonaut.Agentcore.Errors.{
  Error, plain, Result, ok, err, ◌>>=◌, ◌>>◌, entry_required, entry_not_found, cycle_detected,
}
use covonaut.Agentcore.Step.{StreamStep}
use covonaut.Graph.{Graph, node_exists, successors, guard, is_empty}
use covonaut.Graph.WellFormed.{names}

-- A permutation of the keys of a map.
pub record MapOrder : Type 0 where
  pub apply : List String → List String
  pub same : (k : String) (xs : List String) → count k (apply xs) ≡ count k xs
  pub size : (xs : List String) → length (apply xs) ≡ length xs

abbrev pub is_zero : ℤ → Bool
is_zero (pos zero) = true
is_zero _ = false

-- `if inDegree[name] == 0 { layer = append(layer, name) }`
unfoldable pub ready : Map ℤ → List String → List String
ready m [] = []
ready m (k ∷ ks) = let rest = ready m ks in if is_zero (get_or k (pos 0) m) then k ∷ rest else rest

-- `for _, to := range edges[name] { inDegree[to]-- }`
unfoldable pub decrement_all : List String → Map ℤ → Map ℤ
decrement_all [] m = m
decrement_all (t ∷ ts) m = decrement_all ts (insert t (dec (get_or t (pos 0) m)) m)

unfoldable pub place : Map (List String) → String → Map ℤ → Map ℤ
place edges name m = decrement_all (successors edges name) (delete name m)

unfoldable pub place_all : Map (List String) → List String → Map ℤ → Map ℤ
place_all edges [] m = m
place_all edges (n ∷ ns) m = place_all edges ns (place edges n m)

pub data Sorting : Type 0 where
  sorted : List (List String) → Sorting
  cyclic out_of_fuel : Sorting

abbrev pub with_layer : List String → Sorting → Sorting
with_layer layer (sorted ls) = sorted (layer ∷ ls)
with_layer layer s = s

-- The loop `for remaining > 0`, on fuel.
unfoldable pub topo_rounds : MapOrder → ℕ → Map (List String) → ℕ → Map ℤ → Sorting
topo_rounds o zero edges remaining m = if eqb remaining 0 then sorted [] else out_of_fuel
topo_rounds o (suc fuel) edges remaining m =
    let layer = ready m (o.apply (keys m)) in
    let rest = topo_rounds o fuel edges (remaining - length layer) (place_all edges layer m) in
    if eqb remaining 0 then sorted [] else if is_empty layer then cyclic else with_layer layer rest

unfoldable pub topo_sort : MapOrder → List String → Map (List String) → Map ℤ → Sorting
topo_sort o node_names edges in_degree =
    topo_rounds o (length node_names) edges (length node_names) in_degree

-- `inDegree[name] = 0` for each node.
unfoldable pub zero_degrees : List String → Map ℤ
zero_degrees [] = []
zero_degrees (k ∷ ks) = (k, pos 0) ∷ zero_degrees ks

-- `for _, to := range tos { inDegree[to]++ }`
unfoldable pub increment_all : List String → Map ℤ → Map ℤ
increment_all [] m = m
increment_all (t ∷ ts) m = increment_all ts (insert t (inc (get_or t (pos 0) m)) m)

unfoldable pub in_degrees : Map (List String) → Map ℤ → Map ℤ
in_degrees [] m = m
in_degrees ((from, tos) ∷ es) m = in_degrees es (increment_all tos m)

-- `revEdges[to] = append(revEdges[to], from)` for each target.
unfoldable pub reverse_targets : String → List String → Map (List String) → Map (List String)
reverse_targets from [] rev = rev
reverse_targets from (t ∷ ts) rev =
    reverse_targets from ts (insert t (get_or t [] rev ++ from ∷ []) rev)

unfoldable pub reverse_edges : Map (List String) → Map (List String) → Map (List String)
reverse_edges [] rev = rev
reverse_edges ((from, tos) ∷ es) rev = reverse_edges es (reverse_targets from tos rev)

pub record CompileOptions : Type 0 where
  pub entry_node : String
  pub max_steps : ℤ

pub record CompiledGraph : Type 0 where
  pub graph : Graph
  pub entry : String
  pub sorted_layers : List (List String)
  pub max_steps : ℕ
  pub in_degree : Map ℤ
  pub rev_edges : Map (List String)
  pub stream_nodes : Map StreamStep

-- `if maxSteps <= 0 { maxSteps = 100 }`
abbrev pub step_limit : ℤ → ℕ
step_limit (pos zero) = 100
step_limit (pos (suc n)) = suc n
step_limit (negsuc n) = 100

unfoldable pub degrees_of : Graph → Map ℤ
degrees_of g = in_degrees g.edges (zero_degrees (names g))

-- The value that `Compile` returns.
unfoldable pub compiled : CompileOptions → Graph → List (List String) → CompiledGraph
compiled opts g layers = record {
  graph = g;
  entry = opts.entry_node;
  sorted_layers = layers;
  max_steps = step_limit opts.max_steps;
  in_degree = degrees_of g;
  rev_edges = reverse_edges g.edges [];
  stream_nodes = g.stream_nodes;
}

abbrev pub compile_sorted : CompileOptions → Graph → Sorting → Result CompiledGraph
compile_sorted opts g (sorted layers) = ok (compiled opts g layers)
compile_sorted opts g s = err (plain cycle_detected)

unfoldable pub compile : MapOrder → CompileOptions → Graph → Result CompiledGraph
compile o opts g =
    if opts.entry_node == ""
    then err (plain entry_required)
    else if node_exists g opts.entry_node
    then compile_sorted opts g (topo_sort o (names g) g.edges (degrees_of g))
    else err (plain (entry_not_found opts.entry_node))
