-- ===== src/Graph/Typed/Solved.antt =====
-- graph/typed_graph.go: what a run of a compiled typed graph that succeeds has computed.
use mathlib.Core.List.{append-nil, append_assoc}
use covonaut.Base.{
  ◌+◌, ◌≤◌, String, List, [], ◌∷◌, ◌++◌, Bool, true, false, ◌&&◌, if◌then◌else◌, Map, keys, lookup,
  get_or, member, member_iff, count, Has, count-append, concat, ◌≡◌, refl, sym, ap, ◌∙◌, inl, arith,
  eq_iff, subst,
}
use covonaut.Agentcore.Errors.{ok, err, >>=-eq-ok}
use covonaut.Graph.{successors, is_empty}
use covonaut.Graph.WellFormed.{IsWf, names}
use covonaut.Graph.Built.{Built-IsWf}
use covonaut.Graph.Topo.{MapOrder, reverse_edges}
use covonaut.Graph.Topo.Layers.{IsLayered}
use covonaut.Graph.Run.{sort_strings}
use covonaut.Graph.Typed.{
  TypedGraph, TypedCompileOptions, CompiledTypedGraph, Running, typed_terminals, terminal_values,
  merge_values, compile_typed, run_typed_layer, run_typed_layers, run_typed,
}
use covonaut.Graph.Typed.Built.{
  BuiltTyped, shape, names-shape, shape-Built, IsCompiled, compile_typed-IsCompiled,
  compile_typed-guards,
}
use covonaut.Graph.Typed.Ran.{IsReady, Ran}
use covonaut.Graph.Typed.Dataflow.{layer-Ran}
use covonaut.Graph.Typed.Solution.{ended, IsSolution, Solves-IsInput, merge_values-IsMerge}

same_tests : (a b : Bool) → (a ≡ true → b ≡ true) → (b ≡ true → a ≡ true) → a ≡ b
same_tests true b f g = sym (f refl)
same_tests false b f g = ground arith

module _ {ℓ} {T : Type ℓ} (z : T) (cg : CompiledTypedGraph T) (root : T) where
  layers-Ran :
      (seen : List String) (ls : List (List String)) (s s' : Running T)
      → IsReady cg
      → Ran z cg root seen s
      → IsLayered cg.edges (keys cg.nodes) seen ls
      → ((j : String) → count j seen + count j (concat ls) ≡ count j (keys cg.nodes))
      → run_typed_layers z cg root ls s ≡ ok s'
      → Ran z cg root (seen ++ concat ls) s'
  unfolding run_typed_layers
  layers-Ran seen [] s s' ready ran lay sum e =
      rw append-nil (subst (Ran z cg root seen) (ap (λ q. elim q [ ok x ↦ x | err f ↦ s' ]) e) ran)
  layers-Ran seen (l ∷ ls) s s' ready ran lay sum e =
      let (mid, first, later) = >>=-eq-ok (run_typed_layer z cg root l s) _ e in
      let parts = λ (j : String). count-append j l (concat ls) in
      let ran' =
        layer-Ran z cg root ready seen l s mid ran lay.0
          (λ j. omega (arith, sum j, parts j, ready.distinct j))
          (λ j h. omega (arith, sum j, parts j)) first in
      rw (← append_assoc) (
        layers-Ran (seen ++ l) ls mid s' ready ran' lay.1
          (λ j. omega (arith, sum j, parts j, count-append j seen l)) later)

  start-Ran :
      Ran z cg root [] (record { outputs = []; reachable = (cg.entry, true) ∷ []; steps = 0 })
  unfolding lookup
  start-Ran = record {
    closed = λ u v h k e. absurd (omega arith);
    only = λ n h. absurd (ground arith);
    arrived = λ n h k. absurd (omega arith);
    shown = λ n h. absurd (ground arith);
    entered = ground (arith, eq_iff cg.entry cg.entry);
    spreads = λ n u h k. absurd (ground arith);
    reached = λ u h. inl (ground (arith, eq_iff cg.entry u));
    solved = λ n h. absurd (cc h);
    counted = omega arith;
    limited = omega arith;
  }

  terminals-ended :
      (s : Running T) (ns : List String)
      → ((n : String) → Has n ns → get_or n false s.reachable ≡ member n s.outputs)
      → typed_terminals cg.edges s.reachable ns ≡ ended z cg root s.outputs ns
  unfolding typed_terminals
  terminals-ended s [] same = refl
  terminals-ended s (n ∷ ns) same =
      ap
        (λ b.
          if is_empty (successors cg.edges n) && b
          then n ∷ typed_terminals cg.edges s.reachable ns
          else typed_terminals cg.edges s.reachable ns)
        (same n (ground (arith, eq_iff n n)))
      ∙ ap (λ l. if is_empty (successors cg.edges n) && member n s.outputs then n ∷ l else l)
          (terminals-ended s ns (λ k h. same k (omega arith)))

  solves-run :
      (result : T)
      → IsReady cg
      → IsLayered cg.edges (keys cg.nodes) [] cg.layers
      → ((k : String) → count k (concat cg.layers) ≡ count k (keys cg.nodes))
      → Has cg.entry (keys cg.nodes)
      → ((u v : String) → Has v (successors cg.edges u) → Has v (keys cg.nodes))
      → run_typed z cg root ≡ ok result
      → (outputs : Map T) × IsSolution z cg root outputs result
  unfolding run_typed
  solves-run result ready lay sum known targets e =
      let (s, runs, merged) = >>=-eq-ok (run_typed_layers z cg root cg.layers _) _ e in
      let ran = layers-Ran [] cg.layers _ s ready start-Ran lay (λ j. omega (arith, sum j)) runs in
      let all = λ (n : String) (h : Has n (keys cg.nodes)). ran.arrived n (omega (arith, sum n)) in
      let terminals = terminals-ended s (keys cg.nodes) (λ n h.
        same_tests (get_or n false s.reachable) (member n s.outputs) (all n h) (ran.shown n)) in
      (
        s.outputs,
        record {
          entered = all cg.entry known ran.entered;
          spreads = λ n u h led. all u (targets n u led) (ran.spreads n u h led);
          reached = λ u h. ran.reached u (ran.shown u h);
          limited = let counted = ran.counted in let limited = ran.limited in omega arith;
          solved = λ n h. Solves-IsInput z cg root s.outputs n ready (ran.solved n h);
          merged = merge_values-IsMerge z cg root cg.merge "terminal outputs" _ result (
              ap
                (λ ns.
                  merge_values cg.merge "terminal outputs"
                    (terminal_values z s.outputs (sort_strings ns)))
                (sym terminals)
              ∙ merged);
        },
      )

module _ {ℓ} {T : Type ℓ} (o : MapOrder) (opts : TypedCompileOptions T) (g : TypedGraph T)
    (cg : CompiledTypedGraph T) (built : BuiltTyped g)
    (is_compiled : compile_typed o opts g ≡ ok cg) where
  abbrev compilation : IsCompiled opts g cg
  compilation = compile_typed-IsCompiled o opts g cg built is_compiled

  abbrev well_formed : IsWf (shape g)
  well_formed = Built-IsWf (shape-Built built)

  same_names : names (shape g) ≡ keys cg.nodes
  same_names = names-shape g ∙ ap keys (sym compilation.same_nodes)

  compilation-IsReady : IsReady cg
  compilation-IsReady = record {
    distinct = λ k. subst (λ ns. count k ns ≤ 1) same_names (well_formed.distinct k);
    edges_distinct = λ k.
        subst (λ es. count k (keys es) ≤ 1) (sym compilation.same_edges)
          (well_formed.edges_distinct k);
    sources = λ k h.
        subst (Has k) same_names
          (well_formed.sources k (subst (λ es. Has k (keys es)) compilation.same_edges h));
    reversed = compilation.reversed ∙ ap (λ es. reverse_edges es []) (sym compilation.same_edges);
  }

  compilation-IsLayered : IsLayered cg.edges (keys cg.nodes) [] cg.layers
  compilation-IsLayered =
      subst (λ es. IsLayered es (keys cg.nodes) [] cg.layers) (sym compilation.same_edges)
        (subst (λ ns. IsLayered g.edges (keys ns) [] cg.layers) (sym compilation.same_nodes)
          compilation.layered)

  entry_known : Has cg.entry (keys cg.nodes)
  entry_known =
      subst (λ k. Has k (keys cg.nodes)) (sym compilation.same_entry)
        (subst (λ ns. Has opts.entry_node (keys ns)) (sym compilation.same_nodes)
          ((member_iff opts.entry_node g.nodes).0
            ((compile_typed-guards o opts g cg is_compiled).0)))

-- Let the methods build a typed graph, `Compile` succeed on it, and a run return a result. Then there
-- are outputs, of the entry and of the nodes to which edges lead from nodes with an output, and of no
-- other, and no more than the step limit, such that each is what the runnable of its node makes of its
-- input: the input of the run if no edge leads to the node, and otherwise the only output there is of
-- its predecessors, or the merge of those. The result is such a merge of the outputs of the terminal
-- nodes, sorted by name.
pub run_typed-IsSolution {ℓ} :
    {T : Type ℓ} (z : T) (o : MapOrder) (opts : TypedCompileOptions T) (g : TypedGraph T)
    (cg : CompiledTypedGraph T) (root result : T)
    → BuiltTyped g
    → compile_typed o opts g ≡ ok cg
    → run_typed z cg root ≡ ok result
    → (outputs : Map T) × IsSolution z cg root outputs result
run_typed-IsSolution z o opts g cg root result built is_compiled runs =
    let ic = compile_typed-IsCompiled o opts g cg built is_compiled in
    let w = Built-IsWf (shape-Built built) in
    solves-run z cg root result (compilation-IsReady o opts g cg built is_compiled)
      (compilation-IsLayered o opts g cg built is_compiled)
      (λ k. ic.counts k ∙ ap (λ ns. count k (keys ns)) (sym ic.same_nodes))
      (entry_known o opts g cg built is_compiled)
      (λ u v led.
        subst (Has v) (same_names o opts g cg built is_compiled)
          (w.targets u v (subst (λ es. Has v (successors es u)) ic.same_edges led)))
      runs
