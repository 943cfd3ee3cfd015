-- ===== src/Graph/Tests.antt =====
-- A small graph, and the theorems about graphs at it.
use Prim.Native.String.{◌++◌ as text_append}
use covonaut.Base.{
  contains_iff, ◌||◌, ℕ, String, List, [], ◌∷◌, ◌≡◌, refl, ◌≢◌, true, ◌↔◌, arith, pos, count,
  concat, lookup, insert, delete, remove, contains, member, Map, Bool, false, subst, ap, none, some,
  if◌then◌else◌, ◌==◌,
}
use covonaut.Agentcore.Errors.{ok, err, plain, cycle_detected}
use covonaut.Agentcore.Step.{Step, run_step}
use covonaut.Graph.{
  Graph, ConditionalEdge, check_targets, add_conditional_edge, new_graph, node_exists, append_edges,
  add_node, add_edge,
}
use covonaut.Graph.WellFormed.{names, IsWf}
use covonaut.Graph.Built.{Built, start, node, edge, conditional_edge, Built-IsWf}
use covonaut.Graph.Topo.{
  CompileOptions, CompiledGraph, topo_sort, compiled, compile, degrees_of, ready, decrement_all,
  place, place_all, topo_rounds, zero_degrees, increment_all, in_degrees, reverse_targets,
  reverse_edges,
}
use covonaut.Graph.Topo.Orders.{as_is}
use covonaut.Graph.Topo.Layers.{IsLayered, HasCycle}
use covonaut.Graph.Topo.Acyclic.{IsRanked, compile_layers, compile_succeeds_iff, compile_cyclic_iff}
use covonaut.Graph.Run.{
  run_outputs, run, present, pick_input, join_from, join_outputs, node_input, get_node, mark_all,
  activate_successors, reached, launch, check_errors, commit, run_layer, run_layers, insert_sorted,
  sort_strings, terminal_names, find_terminal_output,
}
use covonaut.Graph.Run.Dataflow.{Solves, run_outputs-Solves}
use covonaut.Graph.Run.Progress.{CanRun, run-IsOk}

abbrev pub tag : String → Step
tag s input = ok (text_append input s)

-- The definitions that a run of the model computes with.
unfoldable pub program : Unit {0}
unfolding lookup insert delete remove contains new_graph node_exists add_node add_edge check_targets
    add_conditional_edge append_edges ready decrement_all place place_all topo_rounds topo_sort
    zero_degrees increment_all in_degrees degrees_of reverse_targets reverse_edges compiled compile
    present pick_input join_from join_outputs node_input get_node mark_all activate_successors
    reached launch check_errors commit run_layer run_layers insert_sorted sort_strings
    terminal_names find_terminal_output run_outputs run run_step
program = tt

abbrev pub sample_nodes : Map Step
sample_nodes = ("a", tag "a") ∷ ("b", tag "b") ∷ ("c", tag "c") ∷ []

abbrev pub with_edges : Map (List String) → Graph
with_edges edges = record {
  nodes = sample_nodes;
  stream_nodes = [];
  edges = edges;
  conditional_edges = [];
}

-- a → b, a → c, b → c
abbrev pub sample : Graph
sample = with_edges (("a", "b" ∷ "c" ∷ []) ∷ ("b", "c" ∷ []) ∷ [])

-- a → b → a
abbrev looped : Graph
looped = with_edges (("a", "b" ∷ []) ∷ ("b", "a" ∷ []) ∷ [])

pub nodes-Built : Built (with_edges [])
unfolding program
nodes-Built =
    node "c" (tag "c") (node "b" (tag "b") (node "a" (tag "a") (start refl) refl) refl) refl

pub sample-Built : Built sample
unfolding program
sample-Built =
    edge {g = with_edges (("a", "b" ∷ "c" ∷ []) ∷ [])} "b" "c"
      (edge {g = with_edges (("a", "b" ∷ []) ∷ [])} "a" "c" (edge "a" "b" nodes-Built refl) refl)
      refl

looped-Built : Built looped
unfolding program
looped-Built =
    edge {g = with_edges (("a", "b" ∷ []) ∷ [])} "b" "a" (edge "a" "b" nodes-Built refl) refl

Built-IsWf_example : IsWf sample
Built-IsWf_example = Built-IsWf sample-Built

abbrev pub from_a : CompileOptions
from_a = record { entry_node = "a"; max_steps = pos 0 }

abbrev pub sample_compiled : CompiledGraph
sample_compiled = compiled from_a sample (("a" ∷ []) ∷ ("b" ∷ []) ∷ ("c" ∷ []) ∷ [])

pub compile-sample : compile as_is from_a sample ≡ ok sample_compiled
unfolding program
compile-sample = refl

compile-looped : compile as_is from_a looped ≡ err (plain cycle_detected)
unfolding program
compile-looped = refl

-- The run joins the inputs of c from a and b.
run-sample : run as_is sample_compiled ">" ≡ ok ">a\n---\n>abc"
unfolding program
run-sample = refl

known-a : node_exists sample "a" ≡ true
unfolding program
known-a = refl

known-looped : node_exists looped "a" ≡ true
unfolding program
known-looped = refl

a-ne-empty : from_a.entry_node ≢ ""
a-ne-empty e = cc

compile_layers_example :
    (sample_compiled.graph ≡ sample)
    × (sample_compiled.entry ≡ "a")
    × ((k : String) → count k (concat sample_compiled.sorted_layers) ≡ count k (names sample))
    × IsLayered sample.edges (names sample) [] sample_compiled.sorted_layers
unfolding compiled
compile_layers_example =
    compile_layers as_is from_a sample sample_compiled sample-Built compile-sample

compile_succeeds_iff_example :
    ((c : CompiledGraph) × (compile as_is from_a sample ≡ ok c))
    ↔ ((rank : String → ℕ) × IsRanked rank sample)
compile_succeeds_iff_example =
    compile_succeeds_iff as_is from_a sample sample-Built a-ne-empty known-a

compile_cyclic_iff_example :
    (compile as_is from_a looped ≡ err (plain cycle_detected))
    ↔ HasCycle looped.edges (names looped)
compile_cyclic_iff_example =
    compile_cyclic_iff as_is from_a looped looped-Built a-ne-empty known-looped

abbrev sample_outputs : Map String
sample_outputs = ("a", ">a") ∷ ("b", ">ab") ∷ ("c", ">a\n---\n>abc") ∷ []

run_outputs-sample : run_outputs as_is sample_compiled ">" ≡ ok (sample_outputs, 3)
unfolding program
run_outputs-sample = refl

member-c : member "c" sample_outputs ≡ true
unfolding lookup
member-c = refl

run_outputs-Solves_example : Solves sample_compiled ">" sample_outputs "c"
run_outputs-Solves_example =
    run_outputs-Solves as_is as_is from_a sample sample_compiled ">" sample_outputs 3 "c"
      sample-Built compile-sample run_outputs-sample (omega arith) member-c

abbrev to_c : ConditionalEdge
to_c = record { route = λ output. "c"; targets = "b" ∷ "c" ∷ [] }

-- a is followed by b or c, by its router always by c.
abbrev routed : Graph
routed = record (with_edges (("a", "b" ∷ "c" ∷ []) ∷ [])) { conditional_edges = ("a", to_c) ∷ [] }

routed-Built : Built routed
unfolding program
routed-Built = conditional_edge "a" (some (λ output. "c")) ("b" ∷ "c" ∷ []) nodes-Built refl

abbrev routed_compiled : CompiledGraph
routed_compiled = compiled from_a routed (("a" ∷ []) ∷ ("b" ∷ "c" ∷ []) ∷ [])

compile-routed : compile as_is from_a routed ≡ ok routed_compiled
unfolding program
compile-routed = refl

run-routed : run as_is routed_compiled ">" ≡ ok ">ac"
unfolding program
run-routed = refl

to_c-targets : contains to_c.targets "c" ≡ true
unfolding program
to_c-targets = refl

only_to_c :
    (b : Bool) {c : ConditionalEdge} (output : String)
    → (if b then some to_c else none) ≡ some c
    → contains c.targets (c.route output) ≡ true
only_to_c true output found =
    subst (λ c. contains c.targets (c.route output) ≡ true)
      (ap (λ o. elim o [ none ↦ to_c | some c ↦ c ]) found) to_c-targets
only_to_c false output found = cc

one_succeeds :
    (a b c : Bool) (input : String)
    → (a || (b || (c || false))) ≡ true
    → (out : String) × (run_step
          (elim (if a
            then some (tag "a")
            else if b
            then some (tag "b")
            else if c
            then some (tag "c")
            else none) [ some step ↦ some step | none ↦ none ])
          input
        ≡ ok out)
unfolding run_step
one_succeeds true b c input known = (_, refl)
one_succeeds false true c input known = (_, refl)
one_succeeds false false true input known = (_, refl)
one_succeeds false false false input known = cc

routed-CanRun : CanRun routed_compiled
unfolding program
routed-CanRun = record {
  succeed = λ name known input.
      one_succeeds ("a" == name) ("b" == name) ("c" == name) input
        ((contains_iff ("a" ∷ "b" ∷ "c" ∷ []) name).1 known);
  route = λ name c output found. only_to_c ("a" == name) output found;
}

run-IsOk_example : (out : String) × (run as_is routed_compiled ">" ≡ ok out)
unfolding compiled
run-IsOk_example =
    run-IsOk as_is as_is from_a routed routed_compiled ">" routed-Built compile-routed routed-CanRun
      (omega arith)
