-- ===== src/Pregel/Build.antt =====
-- What the methods keep true of a Pregel graph.
use covonaut.Base.{
  String, List, [], ◌∷◌, ◌++◌, true, false, Option, none, some, ◌≡◌, refl, arith, eq_iff, Has,
  count-append, ◌==◌, lookup, insert, get_or, member, lookup-insert, Bool-cases, inl, inr,
}
use covonaut.Agentcore.Errors.{ok}
use covonaut.Pregel.{
  pregel_end, Node, Router, PregelGraph, new_pregel_graph, add_node, known_or_end, add_edge,
  check_targets, set_conditional_edge_with_targets,
}

module _ {V : Type 0} where
  -- Static edges, and the declared targets of routers, lead to known nodes or to the end, and no
  -- node has the reserved name.
  pub record IsWf (g : PregelGraph V) : Type 0 where
    pub unreserved : member pregel_end g.nodes ≡ false
    pub targets : (u v : String) → Has v (get_or u [] g.edges) → known_or_end g v ≡ true
    pub declared :
        (u v : String) → Has v (get_or u [] g.conditional_targets) → known_or_end g v ≡ true

  new_pregel_graph-IsWf : IsWf (new_pregel_graph {V = V})
  unfolding new_pregel_graph lookup
  new_pregel_graph-IsWf = record {
    unreserved = refl;
    targets = λ u v h. absurd (omega arith);
    declared = λ u v h. absurd (omega arith);
  }

  known_or_end-insert :
      (name : String) (n : Node V) (g : PregelGraph V) (v : String)
      → known_or_end g v ≡ true
      → known_or_end (record g { nodes = insert name n g.nodes }) v ≡ true
  known_or_end-insert name n g v h = ground (arith, lookup-insert name v n g.nodes)

  add_node-eq-ok :
      (name : String) (n : Node V) (g h : PregelGraph V)
      → add_node name n g ≡ ok h
      → ((name == pregel_end) ≡ false) × (h ≡ record g { nodes = insert name n g.nodes })
  unfolding add_node
  add_node-eq-ok name n g h e = ground arith

  add_node-IsWf :
      (name : String) (n : Node V) (g h : PregelGraph V)
      → IsWf g
      → add_node name n g ≡ ok h
      → IsWf h
  add_node-IsWf name n g h w e =
      let (other, shape) = add_node-eq-ok name n g h e in
      rw shape (record {
        unreserved = ground (arith, other, lookup-insert name pregel_end n g.nodes, w.unreserved);
        targets = λ u v p. known_or_end-insert name n g v (w.targets u v p);
        declared = λ u v p. known_or_end-insert name n g v (w.declared u v p);
      })

  add_edge-eq-ok :
      (from to : String) (g h : PregelGraph V)
      → add_edge from to g ≡ ok h
      → (known_or_end g to ≡ true)
        × (h ≡ record g { edges = insert from (get_or from [] g.edges ++ to ∷ []) g.edges })
  unfolding add_edge
  add_edge-eq-ok from to g h e = ground arith

  add_edge-IsWf :
      (from to : String) (g h : PregelGraph V) → IsWf g → add_edge from to g ≡ ok h → IsWf h
  add_edge-IsWf from to g h w e =
      let (known, shape) = add_edge-eq-ok from to g h e in
      let value = get_or from [] g.edges ++ to ∷ [] in
      rw shape (record {
        unreserved = w.unreserved;
        targets = λ u v p. ground (
          arith,
          lookup-insert from u value g.edges,
          w.targets u v,
          w.targets from v,
          known,
          count-append v (get_or from [] g.edges) (to ∷ []),
          eq_iff to v,
        );
        declared = w.declared;
      })

  check_targets-known :
      (g : PregelGraph V) (ts : List String) (v : String)
      → check_targets g ts ≡ ok tt
      → Has v ts
      → known_or_end g v ≡ true
  unfolding check_targets
  check_targets-known g [] v e h = absurd (omega arith)
  check_targets-known g (t ∷ ts) v e h = elim (Bool-cases (known_or_end g t)) [
    | inl known ↦
        let rest : check_targets g ts ≡ ok tt = rw (known, check_targets) at e in
        ground (arith, eq_iff t v, known, check_targets-known g ts v rest)
    | inr unknown ↦ absurd (cc (rw (unknown, check_targets) at e))
  ]

  set_conditional-eq-ok :
      (from : String) (ts : List String) (router : Option (Router V)) (g h : PregelGraph V)
      → set_conditional_edge_with_targets from ts router g ≡ ok h
      → (r : Router V) × (router ≡ some r)
        × (check_targets g ts ≡ ok tt)
        × (h ≡ record g {
          conditional_edges = insert from r g.conditional_edges;
          conditional_targets = insert from ts g.conditional_targets;
        })
  unfolding set_conditional_edge_with_targets
  set_conditional-eq-ok from ts none g h e = ground arith
  set_conditional-eq-ok from ts (some r) g h e = (r, refl, ground arith, ground arith)

  set_conditional-IsWf :
      (from : String) (ts : List String) (router : Option (Router V)) (g h : PregelGraph V)
      → IsWf g
      → set_conditional_edge_with_targets from ts router g ≡ ok h
      → IsWf h
  set_conditional-IsWf from ts router g h w e =
      let (r, _, all, shape) = set_conditional-eq-ok from ts router g h e in
      rw shape (record {
        unreserved = w.unreserved;
        targets = w.targets;
        declared = λ u v p. ground (
          arith,
          lookup-insert from u ts g.conditional_targets,
          w.declared u v,
          check_targets-known g ts v all,
        );
      })

  -- The graphs that successful calls of the methods build.
  pub data Built : PregelGraph V → Type 0 where
    start : {g : PregelGraph V} → g ≡ new_pregel_graph → Built g
    node :
        {g h : PregelGraph V} (name : String) (n : Node V)
        → Built g
        → add_node name n g ≡ ok h
        → Built h
    edge : {g h : PregelGraph V} (from to : String) → Built g → add_edge from to g ≡ ok h → Built h
    router :
        {g h : PregelGraph V} (from : String) (ts : List String) (r : Option (Router V))
        → Built g
        → set_conditional_edge_with_targets from ts r g ≡ ok h
        → Built h

  pub Built-IsWf : {g : PregelGraph V} → Built g → IsWf g
  Built-IsWf (start e) = rw e new_pregel_graph-IsWf
  Built-IsWf (node {g} {h} name n b e) = add_node-IsWf name n g h (Built-IsWf b) e
  Built-IsWf (edge {g} {h} from to b e) = add_edge-IsWf from to g h (Built-IsWf b) e
  Built-IsWf (router {g} {h} from ts r b e) = set_conditional-IsWf from ts r g h (Built-IsWf b) e
