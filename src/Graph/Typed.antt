-- ===== src/Graph/Typed.antt =====
-- graph/typed_graph.go: the graphs whose nodes pass values of one type, and graph/typed.go: a typed node
-- of a graph of texts. The prefixes of the error texts, spans and contexts are left out.
pub mod Built
pub mod Launch
pub mod Commit
pub mod Layer
pub mod Ran
pub mod Dataflow
pub mod Solution
pub mod Solved
pub mod Fed
pub mod Tests
use Prim.Native.String.{◌++◌ as text_append}
use covonaut.Base.{
  ℕ, zero, suc, String, List, [], ◌∷◌, Bool, true, false, not, Option, none, some, ◌==◌, ltb,
  if◌then◌else◌, Map, keys, lookup, insert, get_or, member, ℤ, ◌&&◌,
}
use covonaut.Agentcore.Errors.{
  cause, Error, plain, Result, ok, err, ◌>>=◌, ◌>>◌, wrap_node_error, node_name_required,
  runnable_required, codec_required, no_values, merge_required, duplicate_node, unknown_source,
  unknown_target, entry_required, entry_not_found, cycle_detected, exceed_max_steps,
  nil_dereference,
}
use covonaut.Agentcore.Step.{Step}
use covonaut.Graph.{Graph, guard, require, successors, is_empty, append_edges, add_node}
use covonaut.Graph.Topo.{
  MapOrder, Sorting, sorted, topo_sort, zero_degrees, in_degrees, reverse_edges, step_limit,
}
use covonaut.Graph.Run.{sort_strings}

abbrev pub Runnable {κ ℓ} : Type κ → Type ℓ → Type (κ ⊔ ℓ)
Runnable I O = I → Result O

pub record TypedGraph {ℓ} (T : Type ℓ) : Type ℓ where
  pub nodes : Map (Runnable T T)
  pub edges : Map (List String)

abbrev pub TypedMerge {ℓ} : Type ℓ → Type ℓ
TypedMerge T = List T → Result T

pub record TypedCompileOptions {ℓ} (T : Type ℓ) : Type ℓ where
  pub entry_node : String
  pub max_steps : ℤ
  pub merge : Option (TypedMerge T)

pub record CompiledTypedGraph {ℓ} (T : Type ℓ) : Type ℓ where
  pub nodes : Map (Runnable T T)
  pub edges : Map (List String)
  pub rev_edges : Map (List String)
  pub layers : List (List String)
  pub entry : String
  pub max_steps : ℕ
  pub merge : Option (TypedMerge T)

-- What a run has when it comes to a layer.
pub record Running {ℓ} (T : Type ℓ) : Type ℓ where
  pub outputs : Map T
  pub reachable : Map Bool
  pub steps : ℕ

-- `reachable[target] = true` for each target.
unfoldable pub reach_all : List String → Map Bool → Map Bool
reach_all [] reachable = reachable
reach_all (t ∷ ts) reachable = reach_all ts (insert t true reachable)

-- The names of the layer that can be reached.
unfoldable pub reachable_names : Map Bool → List String → List String
reachable_names reachable [] = []
reachable_names reachable (n ∷ ns) =
    let rest = reachable_names reachable ns in if get_or n false reachable then n ∷ rest else rest

-- `len(graph.edges[name]) == 0 && reachable[name]`
unfoldable pub typed_terminals : Map (List String) → Map Bool → List String → List String
typed_terminals edges reachable [] = []
typed_terminals edges reachable (n ∷ ns) =
    let rest = typed_terminals edges reachable ns in
    if is_empty (successors edges n) && get_or n false reachable then n ∷ rest else rest

module _ {ℓ} {T : Type ℓ} where
  unfoldable pub new_typed_graph : TypedGraph T
  new_typed_graph = record { nodes = []; edges = [] }

  -- A nil runnable is `none`.
  unfoldable pub add_typed : String → Option (Runnable T T) → TypedGraph T → Result (TypedGraph T)
  add_typed name runnable g = do
    guard (not (name == "")) node_name_required
    r ← require runnable (runnable_required name)
    guard (not (member name g.nodes)) (duplicate_node name)
    ok (record g { nodes = insert name r g.nodes })

  unfoldable pub add_typed_edge : String → String → TypedGraph T → Result (TypedGraph T)
  add_typed_edge from to g = do
    guard (member from g.nodes) (unknown_source from)
    guard (member to g.nodes) (unknown_target to)
    ok (record g { edges = append_edges from (to ∷ []) g.edges })

  abbrev pub compile_layers_typed :
      TypedCompileOptions T → TypedGraph T → Sorting → Result (CompiledTypedGraph T)
  compile_layers_typed opts g (sorted layers) = ok (record {
    nodes = g.nodes;
    edges = g.edges;
    rev_edges = reverse_edges g.edges [];
    layers = layers;
    entry = opts.entry_node;
    max_steps = step_limit opts.max_steps;
    merge = opts.merge;
  })
  compile_layers_typed opts g s = err (plain cycle_detected)

  unfoldable pub compile_typed :
      MapOrder → TypedCompileOptions T → TypedGraph T → Result (CompiledTypedGraph T)
  compile_typed o opts g = do
    guard (not (opts.entry_node == "")) entry_required
    guard (member opts.entry_node g.nodes) (entry_not_found opts.entry_node)
    let degrees = in_degrees g.edges (zero_degrees (keys g.nodes))
    compile_layers_typed opts g (topo_sort o (keys g.nodes) g.edges degrees)

  unfoldable pub merge_values : Option (TypedMerge T) → String → List T → Result T
  merge_values merge location [] = err (plain (no_values location))
  merge_values merge location (v ∷ []) = ok v
  merge_values none location (v ∷ w ∷ vs) = err (plain (merge_required location))
  merge_values (some merge) location (v ∷ w ∷ vs) = merge (v ∷ w ∷ vs)

  -- The outputs there are of the given nodes.
  unfoldable pub values_of : Map T → List String → List T
  values_of outputs [] = []
  values_of outputs (p ∷ ps) =
      let rest = values_of outputs ps in elim (lookup p outputs) [ none ↦ rest | some v ↦ v ∷ rest ]

  unfoldable pub typed_input : CompiledTypedGraph T → String → T → Map T → Result T
  typed_input cg name root outputs =
      let predecessors = get_or name [] cg.rev_edges in
      if is_empty predecessors
      then ok root
      else merge_values cg.merge (text_append "node " name) (values_of outputs predecessors)

  unfoldable pub invoke : Option (Runnable T T) → T → Result T
  invoke none value = err (plain nil_dereference)
  invoke (some r) value = r value

  -- The loop that starts the nodes of a layer; their results, and the count of steps.
  unfoldable pub launch_typed :
      CompiledTypedGraph T → T → Map T → List String → ℕ → Result (Map (Result T) × ℕ)
  launch_typed cg root outputs [] steps = ok ([], steps)
  launch_typed cg root outputs (n ∷ ns) steps =
      let rest = launch_typed cg root outputs ns (suc steps) in
      if ltb cg.max_steps (suc steps)
      then err (wrap_node_error (plain exceed_max_steps) "typed_graph")
      else typed_input cg n root outputs >>= λ v.
          rest >>= λ (rs, s). ok ((n, invoke (lookup n cg.nodes) v) ∷ rs, s)

  -- `zero_value` is Go's zero value of the type, which a missing key gives.
  module _ (zero_value : T) where
    -- The loop that takes the results of a layer in its order.
    unfoldable pub commit_typed :
        Map (List String)
        → List String
        → Map (Result T)
        → Map T × Map Bool
        → Result (Map T × Map Bool)
    commit_typed edges [] rs s = ok s
    commit_typed edges (n ∷ ns) rs (outputs, reachable) = elim (get_or n (ok zero_value) rs) [
      | err e ↦ err (wrap_node_error e (text_append "typed_graph:" n))
      | ok v ↦
          commit_typed edges ns rs (insert n v outputs, reach_all (successors edges n) reachable)
    ]

    unfoldable pub run_typed_layer :
        CompiledTypedGraph T → T → List String → Running T → Result (Running T)
    run_typed_layer cg root layer s = do
      let names = reachable_names s.reachable layer
      (rs, steps) ← launch_typed cg root s.outputs names s.steps
      (outputs, reachable) ← commit_typed cg.edges names rs (s.outputs, s.reachable)
      ok (record { outputs = outputs; reachable = reachable; steps = steps })

    unfoldable pub run_typed_layers :
        CompiledTypedGraph T → T → List (List String) → Running T → Result (Running T)
    run_typed_layers cg root [] s = ok s
    run_typed_layers cg root (l ∷ ls) s =
        run_typed_layer cg root l s >>= run_typed_layers cg root ls

    -- `values = append(values, outputs[name])` for each name.
    unfoldable pub terminal_values : Map T → List String → List T
    terminal_values outputs [] = []
    terminal_values outputs (n ∷ ns) = get_or n zero_value outputs ∷ terminal_values outputs ns

    unfoldable pub run_typed : CompiledTypedGraph T → T → Result T
    run_typed cg input = do
      s ←
          run_typed_layers cg input cg.layers
            (record { outputs = []; reachable = (cg.entry, true) ∷ []; steps = 0 })
      let names = sort_strings (typed_terminals cg.edges s.reachable (keys cg.nodes))
      merge_values cg.merge "terminal outputs" (terminal_values s.outputs names)

-- A node whose runnable has types of its own; nil functions are `none`.
pub record TypedNode {κ ℓ} (I : Type κ) (O : Type ℓ) : Type (κ ⊔ ℓ) where
  pub name : String
  pub runnable : Option (Runnable I O)
  pub decode : Option (String → Result I)
  pub encode : Option (O → Result String)

-- `fmt.Errorf("…: %w", err)`: the error keeps its cause, and its path is out of reach.
abbrev pub wrapped {ℓ} : {A : Type ℓ} → Result A → Result A
wrapped (ok a) = ok a
wrapped (err e) = err (plain (cause e))

-- `typedNodeStep.Run`
unfoldable pub typed_node_step {κ ℓ} :
    {I : Type κ} {O : Type ℓ} → (String → Result I) → Runnable I O → (O → Result String) → Step
typed_node_step decode runnable encode input =
    wrapped (decode input) >>= λ i. wrapped (runnable i) >>= λ o. wrapped (encode o)

unfoldable pub add_typed_node {κ ℓ} :
    {I : Type κ} {O : Type ℓ} → TypedNode I O → Graph → Result Graph
add_typed_node node g = do
  guard (not (node.name == "")) node_name_required
  runnable ← require node.runnable (runnable_required node.name)
  decode ← require node.decode (codec_required node.name)
  encode ← require node.encode (codec_required node.name)
  add_node node.name (typed_node_step decode runnable encode) g
