-- ===== src/Graph/Typed/Built.antt =====
-- graph/typed_graph.go: the names and edges of a typed graph are those of a graph of texts, so what
-- holds of the layers of the one holds of the other.
use mathlib.Core.List.{append-nil}
use covonaut.Base.{
  String, [], ◌∷◌, Bool, true, false, Option, none, some, ◌==◌, if◌then◌else◌, Map, keys, lookup,
  insert, member, count, concat, ◌≡◌, refl, sym, ap, ◌∙◌, arith, subst,
}
use covonaut.Agentcore.Errors.{ok, err}
use covonaut.Agentcore.Step.{Step}
use covonaut.Graph.{Graph, new_graph, node_exists, append_edges, add_node, add_edge}
use covonaut.Graph.WellFormed.{names}
use covonaut.Graph.Built.{Built, Built-IsWf}
use covonaut.Graph.Topo.{
  MapOrder, Sorting, sorted, cyclic, out_of_fuel, topo_sort, zero_degrees, in_degrees, degrees_of,
  reverse_edges,
}
use covonaut.Graph.Topo.Layers.{IsLayered, Sorts, topo_sort-Sorts}
use covonaut.Graph.Typed.{
  Runnable, TypedGraph, TypedCompileOptions, CompiledTypedGraph, new_typed_graph, add_typed,
  add_typed_edge, compile_typed, compile_layers_typed,
}

abbrev stub : Step
stub input = ok input

module _ {ℓ} {T : Type ℓ} where
  -- What the methods build.
  pub data BuiltTyped : TypedGraph T → Type ℓ where
    start : {g : TypedGraph T} → g ≡ new_typed_graph → BuiltTyped g
    node :
        {g h : TypedGraph T} (name : String) (r : Option (Runnable T T))
        → BuiltTyped g
        → add_typed name r g ≡ ok h
        → BuiltTyped h
    edge :
        {g h : TypedGraph T} (from to : String)
        → BuiltTyped g
        → add_typed_edge from to g ≡ ok h
        → BuiltTyped h

  abbrev stubs : Map (Runnable T T) → Map Step
  stubs [] = []
  stubs ((k, r) ∷ m) = (k, stub) ∷ stubs m

  -- The graph of texts with the same names and edges.
  abbrev pub shape : TypedGraph T → Graph
  shape g = record {
    nodes = stubs g.nodes;
    stream_nodes = [];
    edges = g.edges;
    conditional_edges = [];
  }

  keys-stubs : (m : Map (Runnable T T)) → keys (stubs m) ≡ keys m
  keys-stubs [] = refl
  keys-stubs ((k, r) ∷ m) = ap (λ ks. k ∷ ks) (keys-stubs m)

  pub names-shape : (g : TypedGraph T) → names (shape g) ≡ keys g.nodes
  names-shape g = append-nil (keys (stubs g.nodes)) ∙ keys-stubs g.nodes

  member-stubs : (k : String) (m : Map (Runnable T T)) → member k (stubs m) ≡ member k m
  unfolding lookup
  member-stubs k [] = refl
  member-stubs k ((j, r) ∷ m) = ground (arith, member-stubs k m)

  insert-stubs :
      (k : String) (r : Runnable T T) (m : Map (Runnable T T))
      → insert k stub (stubs m) ≡ stubs (insert k r m)
  unfolding insert
  insert-stubs k r [] = refl
  insert-stubs k r ((j, s) ∷ m) = at_key (j == k) (insert-stubs k r m)
    where
      at_key :
          (b : Bool)
          → insert k stub (stubs m) ≡ stubs (insert k r m)
          → (if b then (k, stub) ∷ stubs m else (j, stub) ∷ insert k stub (stubs m))
            ≡ stubs (if b then (k, r) ∷ m else (j, s) ∷ insert k r m)
      at_key true same = refl
      at_key false same = ap (λ l. (j, stub) ∷ l) same

  add_typed-eq-ok :
      (name : String) (r : Option (Runnable T T)) (g h : TypedGraph T)
      → add_typed name r g ≡ ok h
      → (member name g.nodes ≡ false)
        × ((s : Runnable T T) × (h ≡ record g { nodes = insert name s g.nodes }))
  unfolding add_typed
  add_typed-eq-ok name none g h e = absurd (ground arith)
  add_typed-eq-ok name (some s) g h e = (ground arith, (s, ground arith))

  add_typed_edge-eq-ok :
      (from to : String) (g h : TypedGraph T)
      → add_typed_edge from to g ≡ ok h
      → (member from g.nodes ≡ true)
        × (member to g.nodes ≡ true)
        × (h ≡ record g { edges = append_edges from (to ∷ []) g.edges })
  unfolding add_typed_edge
  add_typed_edge-eq-ok from to g h e = ground arith

  pub shape-Built : {g : TypedGraph T} → BuiltTyped g → Built (shape g)
  unfolding new_typed_graph new_graph add_node add_edge node_exists lookup
  shape-Built (start e) = Built.start (ap shape e)
  shape-Built (node {g} {h} name r b e) =
      let (fresh, (s, is_h)) = add_typed-eq-ok name r g h e in
      Built.node name stub (shape-Built b) (
        rw (member-stubs name g.nodes ∙ fresh) (
          ap (λ m. ok (record (shape g) { nodes = m })) (insert-stubs name s g.nodes)
          ∙ ap (λ k. ok (shape k)) (sym is_h)))
  shape-Built (edge {g} {h} from to b e) =
      let (known, known', is_h) = add_typed_edge-eq-ok from to g h e in
      Built.edge from to (shape-Built b) (
        rw (member-stubs from g.nodes ∙ known, member-stubs to g.nodes ∙ known')
          (ap (λ k. ok (shape k)) (sym is_h)))

  -- What `Compile` returns for a graph: the layers hold each node as often as it was added, after its
  -- predecessors.
  pub record IsCompiled (opts : TypedCompileOptions T) (g : TypedGraph T)
      (cg : CompiledTypedGraph T) : Type ℓ where
    pub same_nodes : cg.nodes ≡ g.nodes
    pub same_edges : cg.edges ≡ g.edges
    pub reversed : cg.rev_edges ≡ reverse_edges g.edges []
    pub same_entry : cg.entry ≡ opts.entry_node
    pub counts : (k : String) → count k (concat cg.layers) ≡ count k (keys g.nodes)
    pub layered : IsLayered g.edges (keys g.nodes) [] cg.layers

  compile_layers_typed-IsCompiled :
      (opts : TypedCompileOptions T) (g : TypedGraph T) (s : Sorting) (cg : CompiledTypedGraph T)
      → compile_layers_typed opts g s ≡ ok cg
      → Sorts g.edges (keys g.nodes) (keys g.nodes) [] s
      → IsCompiled opts g cg
  compile_layers_typed-IsCompiled opts g (sorted ls) cg is_cg sorts =
      subst (IsCompiled opts g) (ap (λ r. elim r [ ok x ↦ x | err e ↦ cg ]) is_cg) (record {
        same_nodes = refl;
        same_edges = refl;
        reversed = refl;
        same_entry = refl;
        counts = sorts.0;
        layered = sorts.1;
      })
  compile_layers_typed-IsCompiled opts g cyclic cg is_cg sorts = cc
  compile_layers_typed-IsCompiled opts g out_of_fuel cg is_cg sorts = cc

  sorting-Sorts :
      (o : MapOrder) (g : TypedGraph T)
      → BuiltTyped g
      → Sorts g.edges
          (keys g.nodes)
          (keys g.nodes)
          []
          (topo_sort o (keys g.nodes) g.edges (in_degrees g.edges (zero_degrees (keys g.nodes))))
  unfolding degrees_of
  sorting-Sorts o g b =
      subst
        (λ ns.
          Sorts g.edges ns ns [] (topo_sort o ns g.edges (in_degrees g.edges (zero_degrees ns))))
        (names-shape g) (topo_sort-Sorts o (shape g) (Built-IsWf (shape-Built b)))

  pub compile_typed-guards :
      (o : MapOrder) (opts : TypedCompileOptions T) (g : TypedGraph T) (cg : CompiledTypedGraph T)
      → compile_typed o opts g ≡ ok cg
      → (member opts.entry_node g.nodes ≡ true)
        × (compile_layers_typed opts g (
              topo_sort o (keys g.nodes) g.edges (in_degrees g.edges (zero_degrees (keys g.nodes))))
            ≡ ok cg)
  unfolding compile_typed
  compile_typed-guards o opts g cg e = ground arith

  pub compile_typed-IsCompiled :
      (o : MapOrder) (opts : TypedCompileOptions T) (g : TypedGraph T) (cg : CompiledTypedGraph T)
      → BuiltTyped g
      → compile_typed o opts g ≡ ok cg
      → IsCompiled opts g cg
  compile_typed-IsCompiled o opts g cg b e =
      compile_layers_typed-IsCompiled opts g
        (topo_sort o (keys g.nodes) g.edges (in_degrees g.edges (zero_degrees (keys g.nodes)))) cg
        ((compile_typed-guards o opts g cg e).1) (sorting-Sorts o g b)
