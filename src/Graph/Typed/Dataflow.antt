-- ===== src/Graph/Typed/Dataflow.antt =====
-- graph/typed_graph.go: a layer of a run keeps what holds between the layers.
use covonaut.Base.{
  length, ◌+◌, ◌≤◌, String, List, [], ◌++◌, true, false, none, some, keys, lookup, get_or, member,
  member_iff, contains, contains_iff, count, Has, count-append, ◌≡◌, sym, ap, ◌∙◌, ◌⊎◌, ◌↔◌, inl,
  inr, arith, Bool-cases,
}
use covonaut.Agentcore.Errors.{ok}
use covonaut.Graph.{successors}
use covonaut.Graph.Run.Reverse.{count-predecessors}
use covonaut.Graph.Typed.{
  CompiledTypedGraph, Running, reachable_names, typed_input, run_typed_layer,
}
use covonaut.Graph.Typed.Launch.{launch_typed-lookup, launch_typed-steps}
use covonaut.Graph.Typed.Commit.{
  commit_typed-other, commit_typed-taken, commit_typed-reachable, commit_typed-length,
}
use covonaut.Graph.Typed.Layer.{count-reachable_names, run_typed_layer-eq-ok}
use covonaut.Graph.Typed.Ran.{IsReady, Solves, Ran, member-some, member-same, typed_input-cong}

module _ {ℓ} {T : Type ℓ} (z : T) (cg : CompiledTypedGraph T) (root : T) where
  module _ (ready : IsReady cg) where
    -- A predecessor in the reverse edges is a known node with an edge to the node.
    predecessors :
        (p n : String)
        → Has p (get_or n [] cg.rev_edges)
        → Has p (keys cg.nodes) × Has n (successors cg.edges p)
    predecessors p n h =
        let led : Has n (successors cg.edges p) =
          omega
            (arith, count-predecessors cg.edges p n ready.edges_distinct, rw ready.reversed at h) in
        (ground (arith, led, member_iff p cg.edges, ready.sources p), led)

    module _ (seen layer : List String) (s s' : Running T) (ran : Ran z cg root seen s)
        (before : (u v : String)
          → Has v layer
          → Has u (keys cg.nodes)
          → Has v (successors cg.edges u)
          → Has u seen)
        (once : (j : String) → count j seen + count j layer ≤ 1)
        (known : (j : String) → Has j layer → Has j (keys cg.nodes))
        (does : run_typed_layer z cg root layer s ≡ ok s') where
      abbrev active : List String
      active = reachable_names s.reachable layer

      active-layer : (n : String) → Has n active → Has n layer × (get_or n false s.reachable ≡ true)
      active-layer n h = ground (arith, count-reachable_names s.reachable layer n)

      idle-lookup : (p : String) → count p active ≡ 0 → lookup p s'.outputs ≡ lookup p s.outputs
      idle-lookup p idle =
          let (x, started, taken, _) = run_typed_layer-eq-ok z cg root layer s s' does in
          commit_typed-other z cg active x.0 s.outputs s'.outputs s.reachable s'.reachable p taken
            idle

      seen-lookup : (p : String) → Has p seen → lookup p s'.outputs ≡ lookup p s.outputs
      seen-lookup p h =
          idle-lookup p (ground (arith, once p, count-reachable_names s.reachable layer p))

      input-same :
          (n : String)
          → Has n (seen ++ layer)
          → typed_input cg n root s.outputs ≡ typed_input cg n root s'.outputs
      input-same n h = typed_input-cong z cg root s.outputs s'.outputs n (λ p q.
          let (at, led) = predecessors p n q in
          sym (
            seen-lookup p
              (ground (arith, count-append n seen layer, at, led, before p n, ran.closed p n))))

      active-Solves : (n : String) → Has n active → Solves z cg root s'.outputs n
      active-Solves n h =
          let (x, started, taken, _) = run_typed_layer-eq-ok z cg root layer s s' does in
          let (v, given, result) =
            launch_typed-lookup cg root s.outputs active s.steps x n started h in
          let (w, is_w, stored) =
            commit_typed-taken z cg active x.0 s.outputs s'.outputs s.reachable s'.reachable n taken
              h in
          let (at, shown) = active-layer n h in
          (
            v,
            (
              w,
              (
                sym (input-same n (omega (arith, at, count-append n seen layer))) ∙ given,
                sym (ap (λ q. elim q [ none ↦ ok z | some a ↦ a ]) result) ∙ is_w,
                stored,
              ),
            ),
          )

      new_or_old :
          (n : String) → member n s'.outputs ≡ true → Has n active ⊎ (member n s.outputs ≡ true)
      new_or_old n there = elim (Bool-cases (contains active n)) [
        | inl new ↦ inl ((contains_iff active n).0 new)
        | inr old ↦ inr (
            member-same z cg root n s'.outputs s.outputs
              (idle-lookup n (ground (arith, old, contains_iff active n))) there)
      ]

      active-member : (n : String) → Has n active → member n s'.outputs ≡ true
      active-member n h =
          let (v, (w, (_, _, is_w))) = active-Solves n h in
          member-some z cg root n s'.outputs w is_w

      old-member : (n : String) → member n s.outputs ≡ true → member n s'.outputs ≡ true
      old-member n there =
          member-same z cg root n s.outputs s'.outputs (sym (seen-lookup n (ran.only n there)))
            there

      reachable_iff :
          (u : String)
          → (get_or u false s'.reachable ≡ true) ↔ (
              (get_or u false s.reachable ≡ true)
              ⊎ ((n : String) × Has n active × Has u (successors cg.edges n)))
      reachable_iff u =
          let (x, started, taken, _) = run_typed_layer-eq-ok z cg root layer s s' does in
          commit_typed-reachable z cg active x.0 s.outputs s'.outputs s.reachable s'.reachable u
            taken

      -- No node of the layer leads to one of the layer or of an earlier layer.
      not_led :
          (n u : String) → Has n active → Has u (seen ++ layer) → ¬ Has u (successors cg.edges n)
      not_led n u h at led =
          let (within, shown) = active-layer n h in
          ground (
            arith,
            within,
            led,
            count-append u seen layer,
            before n u,
            ran.closed n u,
            known n within,
            once n,
          )

      arrives :
          (n : String)
          → Has n (seen ++ layer)
          → get_or n false s'.reachable ≡ true
          → member n s'.outputs ≡ true
      arrives n at shown = elim ((reachable_iff n).0 shown) [
        | inl already ↦ elim (Bool-cases (contains layer n)) [
          | inl here ↦ active-member n (
              ground (
                arith,
                already,
                here,
                contains_iff layer n,
                count-reachable_names s.reachable layer n,
              ))
          | inr there ↦ old-member n (
              ran.arrived n
                (ground (arith, at, there, contains_iff layer n, count-append n seen layer))
                already)
        ]
        | inr (m, h, led) ↦ absurd (not_led m n h at led)
      ]

      counted_steps : (length (keys s'.outputs) ≤ s'.steps) × (s'.steps ≤ cg.max_steps)
      counted_steps =
          let (x, started, taken, total) = run_typed_layer-eq-ok z cg root layer s s' does in
          let (sum, within) =
            launch_typed-steps cg root s.outputs active s.steps x started ran.limited in
          let more =
            commit_typed-length z cg active x.0 s.outputs s'.outputs s.reachable s'.reachable
              taken in
          let old = ran.counted in (omega arith, omega arith)

      pub layer-Ran : Ran z cg root (seen ++ layer) s'
      layer-Ran = record {
        closed = λ u v h p e. ground (
          arith,
          count-append v seen layer,
          count-append u seen layer,
          ran.closed u v,
          before u v,
        );
        only = λ n there. elim (new_or_old n there) [
          | inl new ↦ omega (arith, count-append n seen layer, (active-layer n new).0)
          | inr old ↦ omega (arith, count-append n seen layer, ran.only n old)
        ];
        arrived = arrives;
        shown = λ n there. elim (new_or_old n there) [
          | inl new ↦ (reachable_iff n).1 (inl (active-layer n new).1)
          | inr old ↦ (reachable_iff n).1 (inl (ran.shown n old))
        ];
        entered = (reachable_iff cg.entry).1 (inl ran.entered);
        spreads = λ n u there led. elim (new_or_old n there) [
          | inl new ↦ (reachable_iff u).1 (inr (n, new, led))
          | inr old ↦ (reachable_iff u).1 (inl (ran.spreads n u old led))
        ];
        reached = λ u shown. elim ((reachable_iff u).0 shown) [
          | inl already ↦ elim (ran.reached u already) [
            | inl entry ↦ inl entry
            | inr (n, there, led) ↦ inr (n, old-member n there, led)
          ]
          | inr (n, new, led) ↦ inr (n, active-member n new, led)
        ];
        solved = λ n there. elim (new_or_old n there) [
          | inl new ↦ active-Solves n new
          | inr old ↦
              let (v, (w, (given, result, is_w))) = ran.solved n old in
              let at : Has n (seen ++ layer) =
                omega (arith, count-append n seen layer, ran.only n old) in
              (
                v,
                (w, (sym (input-same n at) ∙ given, result, seen-lookup n (ran.only n old) ∙ is_w)),
              )
        ];
        counted = counted_steps.0;
        limited = counted_steps.1;
      }
