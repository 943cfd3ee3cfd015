-- ===== src/Graph/Topo/Acyclic.antt =====
-- `Compile` succeeds exactly on the graphs whose nodes can be ranked along the edges.
use covonaut.Base.{
  ℕ, suc, ◌≤◌, ◌<◌, String, List, [], ◌∷◌, ◌++◌, true, ◌≡◌, refl, ap, ◌∙◌, ◌↔◌, ◌⊎◌, inl, inr,
  arith, eq_iff, count, Has, length, concat, count-append, if◌then◌else◌, leb, Map, contains,
  contains_iff, Bool-cases, ◌≢◌,
}
use covonaut.Agentcore.Errors.{ok, err, plain, cycle_detected}
use covonaut.Graph.{Graph, successors, node_exists}
use covonaut.Graph.WellFormed.{IsWf, names}
use covonaut.Graph.Built.{Built, Built-IsWf}
use covonaut.Graph.Topo.{
  MapOrder, Sorting, sorted, cyclic, out_of_fuel, topo_sort, degrees_of, CompileOptions,
  CompiledGraph, compiled, compile_sorted, compile,
}
use covonaut.Graph.Topo.Layers.{IsLayered, HasCycle, Sorts, topo_sort-Sorts}

-- Each edge leads to a higher rank.
abbrev pub IsRanked : (String → ℕ) → Graph → Type 0
IsRanked rank g = (u v : String) → Has u (names g) → Has v (successors g.edges u) → rank u < rank v

-- The index of the first layer that holds the name.
abbrev layer_index : List (List String) → String → ℕ
layer_index [] k = 0
layer_index (l ∷ ls) k = let rest = layer_index ls k in if contains l k then 0 else suc rest

-- A node of least rank.
lowest :
    (rank : String → ℕ) (us : List String)
    → 0 < length us
    → (v : String) × Has v us × ((u : String) → Has u us → rank v ≤ rank u)
lowest rank [] h = absurd (omega arith)
lowest rank (x ∷ []) h = (x, ground (arith, eq_iff x x), λ u p. ground (arith, eq_iff x u))
lowest rank (x ∷ y ∷ us) h =
    let (v, p, least) = lowest rank (y ∷ us) (omega arith) in
    elim (Bool-cases (leb (rank x) (rank v))) [
      | inl below ↦ (x, ground (arith, eq_iff x x), λ u q. ground (arith, eq_iff x u, least u))
      | inr above ↦ (v, omega arith, λ u q. ground (arith, eq_iff x u, least u))
    ]

ranked-not-HasCycle :
    (rank : String → ℕ) (g : Graph) → IsRanked rank g → ¬ HasCycle g.edges (names g)
ranked-not-HasCycle rank g r (us, some_left, back) =
    let (v, p, least) = lowest rank us some_left in
    let (_, (u, q, e)) = back v p in absurd (omega (arith, least u q, r u v (back u q).0 e))

layered-lt :
    (edges : Map (List String)) (ns seen : List String) (ls : List (List String)) (u v : String)
    → IsLayered edges ns seen ls
    → Has v (concat ls)
    → Has u ns
    → Has v (successors edges u)
    → Has u seen ⊎ (layer_index ls u < layer_index ls v)
layered-lt edges ns seen [] u v h p q e = absurd (omega arith)
layered-lt edges ns seen (l ∷ ls) u v h p q e = elim (Bool-cases (contains l v)) [
  | inl here ↦ inl (h.0 u v ((contains_iff l v).0 here) q e)
  | inr later ↦ ground (
    arith,
    later,
    contains_iff l v,
    contains_iff l u,
    count-append v l (concat ls),
    count-append u seen l,
    layered-lt edges ns (seen ++ l) ls u v h.1,
  )
]

IsRanked-of_layers :
    (g : Graph) (ls : List (List String))
    → IsWf g
    → Sorts g.edges (names g) (names g) [] (sorted ls)
    → IsRanked (layer_index ls) g
IsRanked-of_layers g ls w h u v p e =
    ground (arith, layered-lt g.edges (names g) [] ls u v h.1, h.0 v, w.targets u v e)

compile_sorted-eq-ok :
    (opts : CompileOptions) (g : Graph) (s : Sorting) (c : CompiledGraph)
    → compile_sorted opts g s ≡ ok c
    → (ls : List (List String)) × (s ≡ sorted ls) × (c ≡ compiled opts g ls)
compile_sorted-eq-ok opts g (sorted ls) c e = (ls, refl, ground arith)
compile_sorted-eq-ok opts g cyclic c e = cc
compile_sorted-eq-ok opts g out_of_fuel c e = cc

module _ (o : MapOrder) (opts : CompileOptions) (g : Graph) where
  abbrev result : Sorting
  result = topo_sort o (names g) g.edges (degrees_of g)

  compile-known :
      opts.entry_node ≢ ""
      → node_exists g opts.entry_node ≡ true
      → compile o opts g ≡ compile_sorted opts g result
  unfolding compile
  compile-known named known = ground (arith, eq_iff opts.entry_node "")

  pub compile-eq-ok :
      (c : CompiledGraph)
      → compile o opts g ≡ ok c
      → (ls : List (List String)) × (result ≡ sorted ls) × (c ≡ compiled opts g ls)
  unfolding compile
  compile-eq-ok c e = compile_sorted-eq-ok opts g result c (ground arith)

  sorted-Sorts :
      (ls : List (List String))
      → IsWf g
      → result ≡ sorted ls
      → Sorts g.edges (names g) (names g) [] (sorted ls)
  sorted-Sorts ls w e = rw e at (topo_sort-Sorts o g w)

  cyclic-HasCycle : IsWf g → result ≡ cyclic → HasCycle g.edges (names g)
  cyclic-HasCycle w e = rw e at (topo_sort-Sorts o g w)

  fuel-absurd : IsWf g → result ≢ out_of_fuel
  fuel-absurd w e = rw e at (topo_sort-Sorts o g w)

  -- A compiled graph holds the graph and the entry node; each node of the graph stands in its
  -- layers exactly as often as it was added, and every predecessor of a node in an earlier layer
  -- than the node.
  pub compile_layers :
      (c : CompiledGraph)
      → Built g
      → compile o opts g ≡ ok c
      → (c.graph ≡ g)
        × (c.entry ≡ opts.entry_node)
        × ((k : String) → count k (concat c.sorted_layers) ≡ count k (names g))
        × IsLayered g.edges (names g) [] c.sorted_layers
  unfolding compiled
  compile_layers c b e =
      let (ls, s, shape) = compile-eq-ok c e in
      let h = sorted-Sorts ls (Built-IsWf b) s in rw shape (refl, refl, h.0, h.1)

  -- For a known entry node, `Compile` succeeds exactly if the nodes can be ranked so that every
  -- edge leads to a higher rank.
  pub compile_succeeds_iff :
      Built g
      → opts.entry_node ≢ ""
      → node_exists g opts.entry_node ≡ true
      → ((c : CompiledGraph) × (compile o opts g ≡ ok c)) ↔ ((rank : String → ℕ) × IsRanked rank g)
  compile_succeeds_iff b named known = (ranked, succeeds)
    where
      ranked :
          (c : CompiledGraph) × (compile o opts g ≡ ok c) → (rank : String → ℕ) × IsRanked rank g
      ranked (c, e) =
          let (ls, s, _) = compile-eq-ok c e in
          (
            layer_index ls,
            IsRanked-of_layers g ls (Built-IsWf b) (sorted-Sorts ls (Built-IsWf b) s),
          )

      by_result :
          (s : Sorting)
          → result ≡ s
          → (rank : String → ℕ) × IsRanked rank g
          → (c : CompiledGraph) × (compile o opts g ≡ ok c)
      by_result (sorted ls) e r = (compiled opts g ls, compile-known named known ∙ rw e)
      by_result cyclic e (rank, r) =
          absurd (ranked-not-HasCycle rank g r (cyclic-HasCycle (Built-IsWf b) e))
      by_result out_of_fuel e r = absurd (fuel-absurd (Built-IsWf b) e)

      succeeds :
          (rank : String → ℕ) × IsRanked rank g → (c : CompiledGraph) × (compile o opts g ≡ ok c)
      succeeds = by_result result refl

  -- For a known entry node, `Compile` reports a cycle exactly if there are nodes each of which has
  -- a predecessor among them.
  pub compile_cyclic_iff :
      Built g
      → opts.entry_node ≢ ""
      → node_exists g opts.entry_node ≡ true
      → (compile o opts g ≡ err (plain cycle_detected)) ↔ HasCycle g.edges (names g)
  compile_cyclic_iff b named known = (backward result refl, forward result refl)
    where
      backward :
          (s : Sorting)
          → result ≡ s
          → compile o opts g ≡ err (plain cycle_detected)
          → HasCycle g.edges (names g)
      backward (sorted ls) e h = cc (compile-known named known, ap (compile_sorted opts g) e)
      backward cyclic e h = cyclic-HasCycle (Built-IsWf b) e
      backward out_of_fuel e h = absurd (fuel-absurd (Built-IsWf b) e)

      forward :
          (s : Sorting)
          → result ≡ s
          → HasCycle g.edges (names g)
          → compile o opts g ≡ err (plain cycle_detected)
      forward (sorted ls) e h = absurd (
          ranked-not-HasCycle (layer_index ls) g
            (IsRanked-of_layers g ls (Built-IsWf b) (sorted-Sorts ls (Built-IsWf b) e)) h)
      forward cyclic e h = compile-known named known ∙ rw e
      forward out_of_fuel e h = absurd (fuel-absurd (Built-IsWf b) e)
