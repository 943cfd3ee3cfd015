-- ===== src/Graph/Built.antt =====
-- graph/graph.go: what every graph that the methods build satisfies.
use covonaut.Base.{
  String, List, [], ◌∷◌, ◌++◌, true, Option, none, some, ◌≡◌, refl, arith, eq_iff, Has,
  count-append, Map, lookup, insert, lookup-insert, count-keys-insert, if◌then◌else◌, ◌==◌,
}
use covonaut.Agentcore.Errors.{ok}
use covonaut.Agentcore.Step.{Step, StreamStep}
use covonaut.Graph.{
  Graph, ConditionalEdge, new_graph, node_exists, add_node, add_stream_node, successors,
  append_edges, add_edge, check_targets, add_conditional_edge,
}
use covonaut.Graph.WellFormed.{
  names, IsWf, node_exists_iff, new_graph-IsWf, add_node-IsWf, add_stream_node-IsWf,
}

add_edge-eq-ok :
    (from to : String) (g h : Graph)
    → add_edge from to g ≡ ok h
    → (node_exists g from ≡ true)
      × (node_exists g to ≡ true)
      × (lookup from g.conditional_edges ≡ none)
      × (h ≡ record g { edges = append_edges from (to ∷ []) g.edges })
unfolding add_edge
add_edge-eq-ok from to g h e = ground arith

check_targets_all :
    (g : Graph) (ts : List String) (v : String)
    → check_targets g ts ≡ ok tt
    → Has v ts
    → node_exists g v ≡ true
unfolding check_targets
check_targets_all g [] v e p = absurd (omega arith)
check_targets_all g (t ∷ ts) v e p = ground (arith, eq_iff t v, check_targets_all g ts v)

add_conditional_edge-eq-ok :
    (from : String) (route : Option (String → String)) (ts : List String) (g h : Graph)
    → add_conditional_edge from route ts g ≡ ok h
    → (r : String → String) × (route ≡ some r)
      × (node_exists g from ≡ true)
      × (check_targets g ts ≡ ok tt)
      × (successors g.edges from ≡ [])
      × (lookup from g.conditional_edges ≡ none)
      × (h ≡ record g {
        conditional_edges = insert from (record { route = r; targets = ts }) g.conditional_edges;
        edges = append_edges from ts g.edges;
      })
unfolding add_conditional_edge
add_conditional_edge-eq-ok from none ts g h e = ground arith
add_conditional_edge-eq-ok from (some r) ts g h e =
    (r, refl, ground arith, ground arith, ground arith, ground arith, ground arith)

-- The edges after `append`.
pub successors-append_edges :
    (from u : String) (ts : List String) (m : Map (List String))
    → successors (append_edges from ts m) u
      ≡ (if from == u then successors m from ++ ts else successors m u)
unfolding append_edges
successors-append_edges from u ts m =
    ground (arith, lookup-insert from u (successors m from ++ ts) m)

-- Edges to known nodes from a known node that has no conditional edge, except the one that the
-- caller adds with them.
append_edges-IsWf :
    (from : String) (ts : List String) (g h : Graph)
    → IsWf g
    → Has from (names g)
    → ((v : String) → Has v ts → Has v (names g))
    → names h ≡ names g
    → h.edges ≡ append_edges from ts g.edges
    → ((k : String) (c : ConditionalEdge)
        → lookup k h.conditional_edges ≡ some c
        → successors h.edges k ≡ c.targets)
    → IsWf h
unfolding append_edges
append_edges-IsWf from ts g h w p known same e cond =
    let value = successors g.edges from ++ ts in
    let sum = λ (k : String). count-keys-insert from k value g.edges in
    record {
      distinct = λ k. rw same (w.distinct k);
      edges_distinct = λ k. rw e (ground (arith, sum k, w.edges_distinct k));
      sources =
          λ k q. let q' = rw e at q in rw same (ground (arith, sum k, eq_iff from k, w.sources k));
      targets =
          λ u v q. rw same (target u v (rw (e, successors-append_edges from u ts g.edges) at q));
      conditional = cond;
    }
  where
    target :
        (u v : String)
        → Has v (if from == u then successors g.edges from ++ ts else successors g.edges u)
        → Has v (names g)
    target u v q = ground (
      arith,
      known v,
      w.targets from v,
      w.targets u v,
      count-append v (successors g.edges from) ts,
    )

add_edge-IsWf : (from to : String) (g h : Graph) → IsWf g → add_edge from to g ≡ ok h → IsWf h
add_edge-IsWf from to g h w e =
    let (p, q, none_yet, shape) = add_edge-eq-ok from to g h e in
    let g' = record g { edges = append_edges from (to ∷ []) g.edges } in
    rw shape (
      append_edges-IsWf from (to ∷ []) g g' w ((node_exists_iff g from).0 p)
        (λ v m. ground (arith, eq_iff to v, (node_exists_iff g to).0 q)) refl refl
        (λ k c l. ground (
          arith,
          successors-append_edges from k (to ∷ []) g.edges,
          eq_iff from k,
          w.conditional k c l,
        )))

add_conditional_edge-IsWf :
    (from : String) (route : Option (String → String)) (ts : List String) (g h : Graph)
    → IsWf g
    → add_conditional_edge from route ts g ≡ ok h
    → IsWf h
add_conditional_edge-IsWf from route ts g h w e =
    let (r, _, p, all, empty, none_yet, shape) = add_conditional_edge-eq-ok from route ts g h e in
    let c' : ConditionalEdge = record { route = r; targets = ts } in
    let g' = record g {
      conditional_edges = insert from c' g.conditional_edges;
      edges = append_edges from ts g.edges;
    } in
    rw shape (
      append_edges-IsWf from ts g g' w ((node_exists_iff g from).0 p)
        (λ v m. (node_exists_iff g v).0 (check_targets_all g ts v all m)) refl refl
        (λ k c l. ground (
          arith,
          successors-append_edges from k ts g.edges,
          eq_iff from k,
          lookup-insert from k c' g.conditional_edges,
          w.conditional k c,
        )))

-- The graphs that successful calls of the four methods build.
pub data Built : Graph → Type 0 where
  start : {g : Graph} → g ≡ new_graph → Built g
  node : {g h : Graph} (name : String) (s : Step) → Built g → add_node name s g ≡ ok h → Built h
  stream_node :
      {g h : Graph} (name : String) (s : StreamStep)
      → Built g
      → add_stream_node name s g ≡ ok h
      → Built h
  edge : {g h : Graph} (from to : String) → Built g → add_edge from to g ≡ ok h → Built h
  conditional_edge :
      {g h : Graph} (from : String) (route : Option (String → String)) (ts : List String)
      → Built g
      → add_conditional_edge from route ts g ≡ ok h
      → Built h

-- In every graph that the methods build the node names are distinct, each edge joins known nodes,
-- and a node with a conditional edge has exactly the edges to that edge's targets.
pub Built-IsWf : {g : Graph} → Built g → IsWf g
Built-IsWf (start e) = rw e new_graph-IsWf
Built-IsWf (node {g} {h} name s b e) = add_node-IsWf name s g h (Built-IsWf b) e
Built-IsWf (stream_node {g} {h} name s b e) = add_stream_node-IsWf name s g h (Built-IsWf b) e
Built-IsWf (edge {g} {h} from to b e) = add_edge-IsWf from to g h (Built-IsWf b) e
Built-IsWf (conditional_edge {g} {h} from r ts b e) =
    add_conditional_edge-IsWf from r ts g h (Built-IsWf b) e
