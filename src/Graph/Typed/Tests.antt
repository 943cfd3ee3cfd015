-- ===== src/Graph/Typed/Tests.antt =====
-- Typed graphs of numbers, a typed node, and the theorems at them.
use covonaut.Base.{
  ℕ, ◌+◌, ◌*◌, String, List, [], ◌∷◌, some, none, Option, ◌≡◌, refl, arith, pos, Map, lookup,
  insert, delete, remove, contains, get_or, false,
}
use covonaut.Agentcore.Errors.{
  node_error, failed, ok, err, plain, ◌>>=◌, no_values, merge_required, node_name_required,
  codec_required,
}
use covonaut.Graph.{is_empty, new_graph, node_exists, add_node, append_edges}
use covonaut.Graph.Topo.{
  ready, decrement_all, place, place_all, topo_rounds, topo_sort, zero_degrees, increment_all,
  in_degrees, reverse_targets, reverse_edges,
}
use covonaut.Graph.Topo.Orders.{as_is}
use covonaut.Graph.Run.{insert_sorted, sort_strings}
use covonaut.Graph.Typed.{
  Runnable, TypedMerge, TypedGraph, CompiledTypedGraph, TypedCompileOptions, reach_all,
  reachable_names, new_typed_graph, add_typed, add_typed_edge, compile_typed, merge_values,
  values_of, typed_input, invoke, launch_typed, commit_typed, run_typed_layer, run_typed_layers,
  typed_terminals, terminal_values, run_typed, typed_node_step, add_typed_node,
}
use covonaut.Graph.Typed.Built.{BuiltTyped, start, node, edge}
use covonaut.Graph.Typed.Solution.{IsSolution}
use covonaut.Graph.Typed.Solved.{run_typed-IsSolution}
use covonaut.Graph.Typed.Fed.{run_typed-fed}

unfoldable pub typed_program : Unit {0}
unfolding lookup insert delete remove contains new_graph node_exists add_node append_edges ready
    decrement_all place place_all topo_rounds topo_sort zero_degrees increment_all in_degrees
    reverse_targets reverse_edges insert_sorted sort_strings reach_all reachable_names
    new_typed_graph add_typed add_typed_edge compile_typed merge_values values_of typed_input invoke
    launch_typed commit_typed run_typed_layer run_typed_layers typed_terminals terminal_values
    run_typed typed_node_step add_typed_node
typed_program = tt

abbrev adding : ℕ → Runnable ℕ ℕ
adding k n = ok (n + k)

abbrev sum : List ℕ → ℕ
sum [] = 0
sum (n ∷ ns) = n + sum ns

abbrev summing : TypedMerge ℕ
summing ns = ok (sum ns)

-- a → b, a → c, b → d, c → d, where each node adds a number
abbrev diamond_edges : Map (List String)
diamond_edges = ("a", "b" ∷ "c" ∷ []) ∷ ("b", "d" ∷ []) ∷ ("c", "d" ∷ []) ∷ []

abbrev nodes_by : ℕ → Map (Runnable ℕ ℕ)
nodes_by k =
    ("a", adding k) ∷ ("b", adding (2 * k)) ∷ ("c", adding (3 * k)) ∷ ("d", adding (4 * k)) ∷ []

abbrev diamond : ℕ → TypedGraph ℕ
diamond k = record { nodes = nodes_by k; edges = diamond_edges }

abbrev options : Option (TypedMerge ℕ) → TypedCompileOptions ℕ
options merge = record { entry_node = "a"; max_steps = pos 0; merge = merge }

-- (10 + 1 + 2) + (10 + 1 + 3) + 4
run_typed-diamond :
    (compile_typed as_is (options (some summing)) (diamond 1) >>= λ cg. run_typed 0 cg 10) ≡ ok 31
unfolding typed_program
run_typed-diamond = refl

run_typed-no_merge :
    (compile_typed as_is (options none) (diamond 1) >>= λ cg. run_typed 0 cg 10)
    ≡ err (plain (merge_required "node d"))
unfolding typed_program
run_typed-no_merge = refl

add_typed-unnamed : add_typed "" (some (adding 1)) new_typed_graph ≡ err (plain node_name_required)
unfolding typed_program
add_typed-unnamed = refl

add_typed-built :
    (add_typed "a" (some (adding 1)) new_typed_graph
      >>= add_typed "b" (some (adding 2))
      >>= add_typed_edge "a" "b")
    ≡ ok (record { nodes = ("a", adding 1) ∷ ("b", adding 2) ∷ []; edges = ("a", "b" ∷ []) ∷ [] })
unfolding typed_program
add_typed-built = refl

add_typed_node-no_codec :
    add_typed_node {I = ℕ} {O = ℕ}
      (record { name = "n"; runnable = some (adding 1); decode = none; encode = none })
      new_graph
    ≡ err (plain (codec_required "n"))
unfolding typed_program
add_typed_node-no_codec = refl

-- The path of the error is lost.
typed_node_step-error :
    typed_node_step {I = ℕ} {O = ℕ}
      (λ s. ok 0)
      (λ n. err (node_error ("x" ∷ []) (failed "e")))
      (λ n. ok "")
      "input"
    ≡ err (plain (failed "e"))
unfolding typed_program
typed_node_step-error = refl

abbrev grown : Map (List String) → TypedGraph ℕ
grown edges = record { nodes = nodes_by 1; edges = edges }

diamond-BuiltTyped : BuiltTyped (diamond 1)
unfolding typed_program
diamond-BuiltTyped =
    edge {g = grown (("a", "b" ∷ "c" ∷ []) ∷ ("b", "d" ∷ []) ∷ [])} "c" "d"
      (edge {g = grown (("a", "b" ∷ "c" ∷ []) ∷ [])} "b" "d"
        (edge {g = grown (("a", "b" ∷ []) ∷ [])} "a" "c"
          (edge {g = grown []} "a" "b"
            (node "d" (some (adding 4))
              (node "c" (some (adding 3))
                (node "b" (some (adding 2)) (node "a" (some (adding 1)) (start refl) refl) refl)
                refl)
              refl)
            refl)
          refl)
        refl)
      refl

abbrev compiled_diamond : CompiledTypedGraph ℕ
compiled_diamond = record {
  nodes = nodes_by 1;
  edges = diamond_edges;
  rev_edges = ("b", "a" ∷ []) ∷ ("c", "a" ∷ []) ∷ ("d", "b" ∷ "c" ∷ []) ∷ [];
  layers = ("a" ∷ []) ∷ ("b" ∷ "c" ∷ []) ∷ ("d" ∷ []) ∷ [];
  entry = "a";
  max_steps = 100;
  merge = some summing;
}

compile_typed-diamond :
    compile_typed as_is (options (some summing)) (diamond 1) ≡ ok compiled_diamond
unfolding typed_program
compile_typed-diamond = refl

run-compiled_diamond : run_typed 0 compiled_diamond 10 ≡ ok 31
unfolding typed_program
run-compiled_diamond = refl

run_typed-IsSolution_example : (outputs : Map ℕ) × IsSolution 0 compiled_diamond 10 outputs 31
run_typed-IsSolution_example =
    run_typed-IsSolution 0 as_is (options (some summing)) (diamond 1) compiled_diamond 10 31
      diamond-BuiltTyped compile_typed-diamond run-compiled_diamond

-- The diamond, entered at its last node.
abbrev entered_at_d : CompiledTypedGraph ℕ
entered_at_d = record {
  nodes = nodes_by 1;
  edges = diamond_edges;
  rev_edges = ("b", "a" ∷ []) ∷ ("c", "a" ∷ []) ∷ ("d", "b" ∷ "c" ∷ []) ∷ [];
  layers = ("a" ∷ []) ∷ ("b" ∷ "c" ∷ []) ∷ ("d" ∷ []) ∷ [];
  entry = "d";
  max_steps = 100;
  merge = some summing;
}

compile_typed-entered_at_d :
    compile_typed as_is
      (record { entry_node = "d"; max_steps = pos 0; merge = some summing })
      (diamond 1)
    ≡ ok entered_at_d
unfolding typed_program
compile_typed-entered_at_d = refl

fed-d : is_empty (get_or "d" [] entered_at_d.rev_edges) ≡ false
unfolding lookup
fed-d = refl

run_typed-fed_example : run_typed 0 entered_at_d 10 ≡ err (plain (no_values "node d"))
run_typed-fed_example = run_typed-fed 0 entered_at_d 10 fed-d (omega arith) (omega arith)
