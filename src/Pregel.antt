-- ===== src/Pregel.antt =====
-- graph/pregel.go: supersteps over a shared state. The state is the function that a map is for its
-- readers, so a clone is the state itself; what a node returns is a map whose keys are written.
-- Values are of any type `V`, nodes and routers are code of the caller that does not write to its
-- argument, and `o` is the order in which Go ranges over the results of a superstep.
pub mod Build
pub mod Targets
pub mod Merge
pub mod Checkpointed
pub mod Single
pub mod Tests
use covonaut.Base.{
  ℕ, zero, suc, String, List, [], ◌∷◌, ◌++◌, Bool, true, false, not, Option, none, some, ◌==◌,
  if◌then◌else◌, contains, Map, keys, lookup, insert, get_or, member, ℤ, pos, negsuc,
}
use covonaut.Agentcore.Errors.{
  Failure, Error, plain, Result, ok, err, ◌>>=◌, ◌>>◌, new_node_error, wrap_node_error,
  reserved_name, duplicate_node, unknown_source, unknown_target, route_required,
  unknown_conditional_node, unknown_conditional_target, undeclared_target, entry_not_found,
  node_not_found, exceed_max_steps,
}
use covonaut.Graph.{guard, require, is_empty}
use covonaut.Graph.Topo.{MapOrder, step_limit}
use Prim.Native.String.{◌++◌ as text_append}

abbrev pub pregel_end : String
pregel_end = "__end__"

-- `PregelState`, by `s[key]`.
abbrev pub State : Type 0 → Type 0
State V = String → Option V

abbrev pub Node : Type 0 → Type 0
Node V = State V → Result (Map V)

abbrev pub Router : Type 0 → Type 0
Router V = State V → List String

pub record PregelGraph (V : Type 0) : Type 0 where
  pub nodes : Map (Node V)
  pub edges : Map (List String)
  pub conditional_edges : Map (Router V)
  pub conditional_targets : Map (List String)

-- How a run ends: the state that it returns, and its error.
pub record Ending (V : Type 0) : Type 0 where
  pub state : State V
  pub error : Option Error

-- The nodes of the next superstep, or what ends the run while they are collected.
pub data Next : Type 0 where
  active : List String → Next
  finished : Next
  failed_target : Error → Next

abbrev pub and_then : Next → (List String → Next) → Next
and_then (active ns) f = f ns
and_then finished f = finished
and_then (failed_target e) f = failed_target e

-- `if !nextSet[t] { nextSet[t] = true; nextActive = append(nextActive, t) }`
abbrev pub add_active : String → List String → List String
add_active t next = if contains next t then next else next ++ t ∷ []

unfoldable pub add_static : List String → List String → Next
add_static [] next = active next
add_static (t ∷ ts) next =
    let rest = add_static ts (add_active t next) in if t == pregel_end then finished else rest

unfoldable pub add_routed : (String → Option Error) → List String → List String → Next
add_routed validate [] next = active next
add_routed validate (t ∷ ts) next =
    let rest = add_routed validate ts (add_active t next) in
    elim (validate t) [
      | some e ↦ failed_target e
      | none ↦ if t == pregel_end then finished else rest
    ]

module _ {V : Type 0} where
  unfoldable pub new_pregel_graph : PregelGraph V
  new_pregel_graph = record {
    nodes = [];
    edges = [];
    conditional_edges = [];
    conditional_targets = [];
  }

  unfoldable pub add_node : String → Node V → PregelGraph V → Result (PregelGraph V)
  add_node name n g = do
    guard (not (name == pregel_end)) (reserved_name pregel_end)
    guard (not (member name g.nodes)) (duplicate_node name)
    ok (record g { nodes = insert name n g.nodes })

  abbrev pub known_or_end : PregelGraph V → String → Bool
  known_or_end g to = if to == pregel_end then true else member to g.nodes

  unfoldable pub add_edge : String → String → PregelGraph V → Result (PregelGraph V)
  add_edge from to g = do
    guard (member from g.nodes) (unknown_source from)
    guard (known_or_end g to) (unknown_target to)
    ok (record g { edges = insert from (get_or from [] g.edges ++ to ∷ []) g.edges })

  unfoldable pub check_targets : PregelGraph V → List String → Result (Unit {0})
  check_targets g [] = ok tt
  check_targets g (t ∷ ts) = do
    guard (known_or_end g t) (unknown_conditional_node t)
    check_targets g ts

  -- A nil router is `none`.
  unfoldable pub set_conditional_edge_with_targets :
      String → List String → Option (Router V) → PregelGraph V → Result (PregelGraph V)
  set_conditional_edge_with_targets from targets router g = do
    guard (member from g.nodes) (unknown_source from)
    r ← require router route_required
    check_targets g targets
    ok (record g {
      conditional_edges = insert from r g.conditional_edges;
      conditional_targets = insert from targets g.conditional_targets;
    })

  unfoldable pub set_conditional_edge :
      String → Option (Router V) → PregelGraph V → Result (PregelGraph V)
  set_conditional_edge from router = set_conditional_edge_with_targets from [] router

  unfoldable pub validate_conditional_target : PregelGraph V → String → String → Option Error
  validate_conditional_target g source target =
      let declared = get_or source [] g.conditional_targets in
      let path = "pregel" ∷ source ∷ target ∷ [] in
      if is_empty declared
      then if known_or_end g target
        then none
        else some (new_node_error unknown_conditional_target path)
      else if contains declared target
      then none
      else some (new_node_error undeclared_target path)

pub record CompiledPregelGraph (V : Type 0) : Type 0 where
  pub pg : PregelGraph V
  pub entry : String
  pub max_steps : ℕ

module _ {V : Type 0} where
  unfoldable pub compile : String → Option ℤ → PregelGraph V → Result (CompiledPregelGraph V)
  compile entry max_steps g = do
    guard (member entry g.nodes) (entry_not_found entry)
    ok (record {
      pg = g;
      entry = entry;
      max_steps = elim max_steps [ none ↦ 100 | some m ↦ step_limit m ];
    })

  -- The targets of one node of a superstep: the static ones, then those of its router.
  unfoldable pub add_targets : PregelGraph V → State V → String → List String → Next
  add_targets g state name next = and_then (add_static (get_or name [] g.edges) next) λ next'.
      elim (lookup name g.conditional_edges) [
        | none ↦ active next'
        | some router ↦ add_routed (validate_conditional_target g name) (router state) next'
      ]

  unfoldable pub next_active : PregelGraph V → State V → List String → List String → Next
  next_active g state [] next = active next
  next_active g state (n ∷ ns) next = and_then (add_targets g state n next) (next_active g state ns)

  -- `for k, v := range out { state[k] = v }`
  unfoldable pub write_all : Map V → State V → State V
  write_all out state key = elim (lookup key out) [ none ↦ state key | some v ↦ some v ]

  -- The results of the nodes, each on the state as it was; an unknown node ends the run.
  unfoldable pub run_nodes : PregelGraph V → State V → List String → Result (Map (Result (Map V)))
  run_nodes g state [] = ok []
  run_nodes g state (n ∷ ns) = elim (lookup n g.nodes) [
    | none ↦ err (new_node_error node_not_found ("pregel" ∷ n ∷ []))
    | some node ↦ run_nodes g state ns >>= λ rs. ok ((n, node state) ∷ rs)
  ]

  unfoldable pub check_results : List String → Map (Result (Map V)) → Option Error
  check_results [] rs = none
  check_results (n ∷ ns) rs = elim (get_or n (ok []) rs) [
    | ok out ↦ check_results ns rs
    | err e ↦ some (wrap_node_error e (text_append "pregel:" n))
  ]

  abbrev pub output_of : Result (Map V) → Map V
  output_of (ok out) = out
  output_of (err e) = []

  unfoldable pub merge_results : List String → Map (Result (Map V)) → State V → State V
  merge_results [] rs state = state
  merge_results (n ∷ ns) rs state =
      merge_results ns rs (write_all (output_of (get_or n (ok []) rs)) state)

  abbrev pub fails : State V → Error → Ending V
  fails state e = record { state = state; error = some e }

  abbrev pub ends : State V → Ending V
  ends state = record { state = state; error = none }

  abbrev pub continue : Next → State V → (List String → Ending V) → Ending V
  continue (active ns) state rest = rest ns
  continue finished state rest = ends state
  continue (failed_target e) state rest = fails state e

  -- One superstep, and what follows on the nodes that it activates.
  unfoldable pub superstep :
      MapOrder
      → PregelGraph V
      → State V
      → List String
      → (State V → List String → Ending V)
      → Ending V
  superstep o g state names rest = elim (run_nodes g state names) [
    | err e ↦ fails state e
    | ok rs ↦ elim (check_results (o.apply names) rs) [
      | some e ↦ fails state e
      | none ↦
          let state' = merge_results (o.apply names) rs state in
          continue (next_active g state' names []) state' (rest state')
    ]
  ]

  -- The loop `for len(active) > 0`; `left` is `maxSteps - steps`.
  unfoldable pub supersteps : MapOrder → PregelGraph V → ℕ → State V → List String → Ending V
  supersteps o g left state [] = ends state
  supersteps o g zero state (n ∷ ns) =
      fails state (wrap_node_error (plain exceed_max_steps) "pregel")
  supersteps o g (suc left) state (n ∷ ns) = superstep o g state (n ∷ ns) (supersteps o g left)

  unfoldable pub run : MapOrder → CompiledPregelGraph V → State V → Ending V
  run o c initial = supersteps o c.pg c.max_steps initial (c.entry ∷ [])
