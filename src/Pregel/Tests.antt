-- ===== src/Pregel/Tests.antt =====
-- A Pregel graph with two nodes that run in one superstep, and the theorems at it.
use covonaut.Base.{
  String, [], ◌∷◌, ◌≡◌, refl, none, some, arith, eq_iff, count, subst, sym, ◌∙◌, inl, inr,
  Option-cases, Map, keys, lookup, insert, contains,
}
use covonaut.Agentcore.Errors.{Result, ok, plain, failed}
use covonaut.Graph.Topo.Orders.{as_is, rotated}
use covonaut.Pregel.{
  pregel_end, State, Node, PregelGraph, CompiledPregelGraph, new_pregel_graph, add_node, add_edge,
  active, add_static, add_routed, add_targets, next_active, write_all, run_nodes, check_results,
  merge_results, superstep, supersteps, run,
}
use covonaut.Pregel.Build.{Built, start, node, edge}
use covonaut.Pregel.Targets.{IsReady, next_active-IsReady}
use covonaut.Pregel.Checkpointed.{Saving, run_with_checkpoints, checkpointed_loop, visit_active}
use covonaut.Pregel.Merge.{WritesApart, run-order}

-- A node that writes its own name.
unfoldable pub writer : String → Node String
writer name state = ok ((name, "done") ∷ [])

abbrev pub sample : PregelGraph String
sample = record {
  nodes = ("a", writer "a") ∷ ("b", writer "b") ∷ ("c", writer "c") ∷ [];
  edges = ("a", "b" ∷ "c" ∷ []) ∷ [];
  conditional_edges = [];
  conditional_targets = [];
}

unfoldable pub program : Unit {0}
unfolding lookup insert contains new_pregel_graph add_node add_edge add_static add_routed
    add_targets next_active write_all run_nodes check_results merge_results superstep supersteps run
program = tt

abbrev nodes_only : PregelGraph String
nodes_only = record sample { edges = [] }

sample-Built : Built sample
unfolding program
sample-Built =
    edge {g = record sample { edges = ("a", "b" ∷ []) ∷ [] }} "a" "c"
      (edge "a" "b"
        (node {h = nodes_only} "c" (writer "c")
          (node "b" (writer "b") (node "a" (writer "a") (start refl) refl) refl) refl)
        refl)
      refl

abbrev pub empty_state : State String
empty_state key = none

next_active-a : next_active sample empty_state ("a" ∷ []) [] ≡ active ("b" ∷ "c" ∷ [])
unfolding program
next_active-a = refl

next_active-IsReady_example :
    IsReady sample ("b" ∷ "c" ∷ [])
    × (count pregel_end ("b" ∷ "c" ∷ []) ≡ 0)
    × ((rs : Map (Result (Map String))) × (run_nodes sample empty_state ("b" ∷ "c" ∷ []) ≡ ok rs)
        × (keys rs ≡ "b" ∷ "c" ∷ []))
next_active-IsReady_example =
    next_active-IsReady sample empty_state empty_state ("a" ∷ []) ("b" ∷ "c" ∷ []) sample-Built
      next_active-a

lookup-sample : (n : String) (f : Node String) → lookup n sample.nodes ≡ some f → f ≡ writer n
unfolding lookup
lookup-sample n f e = ground (arith, eq_iff "a" n, eq_iff "b" n, eq_iff "c" n)

written-alone :
    (n k : String) (state : State String) (a : Map String) (v : String)
    → writer n state ≡ ok a
    → lookup k a ≡ some v
    → n ≡ k
unfolding writer lookup
written-alone n k state a v e l = ground (arith, eq_iff n k)

-- Each node writes its own name.
sample-WritesApart : WritesApart sample
sample-WritesApart n m k f f' state a b v ne at_n at_m ea eb wr =
    let own : writer n state ≡ ok a =
      subst (λ (h : Node String). h state ≡ ok a) (lookup-sample n f at_n) ea in
    let other : writer m state ≡ ok b =
      subst (λ (h : Node String). h state ≡ ok b) (lookup-sample m f' at_m) eb in
    elim (Option-cases (lookup k b)) [
      | inl absent ↦ absent
      | inr (u, there) ↦
          absurd (
            ne (written-alone m k state b u other there ∙ sym (written-alone n k state a v own wr)))
    ]

abbrev pub compiled_sample : CompiledPregelGraph String
compiled_sample = record { pg = sample; entry = "a"; max_steps = 5 }

run-sample : (run as_is compiled_sample empty_state).error ≡ none
unfolding program writer
run-sample = refl

run-order_example : run rotated compiled_sample empty_state ≡ run as_is compiled_sample empty_state
run-order_example =
    run-order as_is rotated compiled_sample empty_state sample-WritesApart run-sample

-- a → b → c
abbrev chain : CompiledPregelGraph String
chain = record {
  pg = record sample { edges = ("a", "b" ∷ []) ∷ ("b", "c" ∷ []) ∷ [] };
  entry = "a";
  max_steps = 5;
}

abbrev saving_all : Saving String
saving_all = record { marshal_error = λ state. none; save_error = λ saved cp. none }

-- A state in which b has written cannot be encoded.
abbrev saving_some : Saving String
saving_some = record {
  marshal_error = λ state. elim (state "b") [ none ↦ none | some v ↦ some (failed "chan") ];
  save_error = λ saved cp. none;
}

run_with_checkpoints-unencodable :
    ((run_with_checkpoints saving_some chain empty_state "g").error ≡ some (plain (failed "chan")))
    × ((run as_is chain empty_state).error ≡ none)
unfolding program writer run_with_checkpoints checkpointed_loop visit_active
run_with_checkpoints-unencodable = (refl, refl)

-- A node that writes whether it has seen b.
watcher : Node String
watcher state = elim (state "b") [
  | none ↦ ok (("seen", "no") ∷ [])
  | some v ↦ ok (("seen", "yes") ∷ [])
]

abbrev watched : CompiledPregelGraph String
watched = record compiled_sample {
  pg = record sample { nodes = ("a", writer "a") ∷ ("b", writer "b") ∷ ("c", watcher) ∷ [] };
}

-- With checkpoints a node sees what the nodes before it in its superstep wrote; without, it does not.
run_with_checkpoints-watched :
    ((run_with_checkpoints saving_all watched empty_state "g").state "seen" ≡ some "yes")
    × ((run as_is watched empty_state).state "seen" ≡ some "no")
unfolding program writer watcher run_with_checkpoints checkpointed_loop visit_active
run_with_checkpoints-watched = (refl, refl)
