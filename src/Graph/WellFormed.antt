-- ===== src/Graph/WellFormed.antt =====
-- graph/graph.go: what is well-formed about a graph, and that adding nodes keeps it.
use covonaut.Base.{
  ◌+◌, ◌≤◌, String, List, [], ◌∷◌, ◌++◌, true, false, some, ◌≡◌, refl, ◌↔◌, arith, eq_iff, count,
  Has, count-append, Map, keys, lookup, insert, member_iff, count-keys-insert,
}
use covonaut.Agentcore.Errors.{ok}
use covonaut.Agentcore.Step.{Step, StreamStep}
use covonaut.Graph.{
  Graph, ConditionalEdge, new_graph, node_exists, add_node, add_stream_node, successors,
}

abbrev pub names : Graph → List String
names g = keys g.nodes ++ keys g.stream_nodes

-- Names are distinct, edges join known nodes, and a node with a conditional edge has exactly the
-- edges that its targets give, of which there is at least one.
pub record IsWf (g : Graph) : Type 0 where
  pub distinct : (k : String) → count k (names g) ≤ 1
  pub edges_distinct : (k : String) → count k (keys g.edges) ≤ 1
  pub sources : (k : String) → Has k (keys g.edges) → Has k (names g)
  pub targets : (u v : String) → Has v (successors g.edges u) → Has v (names g)
  pub conditional :
      (k : String) (c : ConditionalEdge)
      → lookup k g.conditional_edges ≡ some c
      → successors g.edges k ≡ c.targets

pub node_exists_iff : (g : Graph) (k : String) → (node_exists g k ≡ true) ↔ Has k (names g)
unfolding node_exists
node_exists_iff g k = ground (
  arith,
  member_iff k g.nodes,
  member_iff k g.stream_nodes,
  count-append k (keys g.nodes) (keys g.stream_nodes),
)

pub new_graph-IsWf : IsWf new_graph
unfolding new_graph lookup
new_graph-IsWf = record {
  distinct = λ k. omega arith;
  edges_distinct = λ k. omega arith;
  sources = λ k h. h;
  targets = λ u v h. h;
  conditional = λ k c h. ground arith;
}

-- The names after one insertion.
count_names-insert :
    {V : Type 0} (name k : String) (v : V) (m : Map V) (others : List String)
    → ¬ (Has name (keys m ++ others))
    → count k (keys (insert name v m) ++ others) ≡ count k (name ∷ []) + count k (keys m ++ others)
count_names-insert name k v m others fresh = ground (
  arith,
  eq_iff name k,
  count-append k (keys (insert name v m)) others,
  count-append k (keys m) others,
  count-append name (keys m) others,
  count-keys-insert name k v m,
)

fresh-insert :
    {V : Type 0} (name k : String) (v : V) (m : Map V) (others : List String)
    → ¬ (Has name (others ++ keys m))
    → count k (others ++ keys (insert name v m)) ≡ count k (name ∷ []) + count k (others ++ keys m)
fresh-insert name k v m others fresh = ground (
  arith,
  eq_iff name k,
  count-append k others (keys (insert name v m)),
  count-append k others (keys m),
  count-append name others (keys m),
  count-keys-insert name k v m,
)

-- More names, none of them twice, keep the rest.
IsWf-extend :
    (g h : Graph)
    → IsWf g
    → h.edges ≡ g.edges
    → h.conditional_edges ≡ g.conditional_edges
    → ((k : String) → count k (names h) ≤ 1)
    → ((k : String) → count k (names g) ≤ count k (names h))
    → IsWf h
IsWf-extend g h w e c d more = record {
  distinct = d;
  edges_distinct = λ k. rw e (w.edges_distinct k);
  sources = λ k p. omega (arith, w.sources k (rw e at p), more k);
  targets = λ u v p. omega (arith, w.targets u v (rw e at p), more v);
  conditional = λ k x p. rw e (w.conditional k x (rw c at p));
}

add_node-eq-ok :
    (name : String) (s : Step) (g h : Graph)
    → add_node name s g ≡ ok h
    → (node_exists g name ≡ false) × (h ≡ record g { nodes = insert name s g.nodes })
unfolding add_node
add_node-eq-ok name s g h e = ground arith

add_stream_node-eq-ok :
    (name : String) (s : StreamStep) (g h : Graph)
    → add_stream_node name s g ≡ ok h
    → (node_exists g name ≡ false) × (h ≡ record g { stream_nodes = insert name s g.stream_nodes })
unfolding add_stream_node
add_stream_node-eq-ok name s g h e = ground arith

not_named : (g : Graph) (name : String) → node_exists g name ≡ false → ¬ (Has name (names g))
not_named g name e p = ground (arith, (node_exists_iff g name).1 p)

pub add_node-IsWf :
    (name : String) (s : Step) (g h : Graph) → IsWf g → add_node name s g ≡ ok h → IsWf h
add_node-IsWf name s g h w e =
    let (new, shape) = add_node-eq-ok name s g h e in
    let fresh = not_named g name new in
    let sum = λ (k : String). count_names-insert name k s g.nodes (keys g.stream_nodes) fresh in
    rw shape (
      IsWf-extend g (record g { nodes = insert name s g.nodes }) w refl refl
        (λ k. ground (arith, sum k, eq_iff name k, w.distinct k)) (λ k. omega (arith, sum k)))

pub add_stream_node-IsWf :
    (name : String) (s : StreamStep) (g h : Graph)
    → IsWf g
    → add_stream_node name s g ≡ ok h
    → IsWf h
add_stream_node-IsWf name s g h w e =
    let (new, shape) = add_stream_node-eq-ok name s g h e in
    let fresh = not_named g name new in
    let sum = λ (k : String). fresh-insert name k s g.stream_nodes (keys g.nodes) fresh in
    rw shape (
      IsWf-extend g (record g { stream_nodes = insert name s g.stream_nodes }) w refl refl
        (λ k. ground (arith, sum k, eq_iff name k, w.distinct k)) (λ k. omega (arith, sum k)))
