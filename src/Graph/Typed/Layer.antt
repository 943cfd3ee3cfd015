-- ===== src/Graph/Typed/Layer.antt =====
-- graph/typed_graph.go: what one layer of a run of a typed graph leaves.
use covonaut.Base.{
  ℕ, String, List, [], ◌∷◌, Bool, false, if◌then◌else◌, Map, get_or, count, ◌≡◌, sym, ap, ◌∙◌,
  arith, eq_iff,
}
use covonaut.Agentcore.Errors.{Result, ok, err, >>=-eq-ok}
use covonaut.Graph.Typed.{
  CompiledTypedGraph, Running, reachable_names, launch_typed, commit_typed, run_typed_layer,
}

pub count-reachable_names :
    (r : Map Bool) (ns : List String) (k : String)
    → count k (reachable_names r ns) ≡ (if get_or k false r then count k ns else 0)
unfolding reachable_names
count-reachable_names r [] k = ground arith
count-reachable_names r (n ∷ ns) k = ground (arith, count-reachable_names r ns k, eq_iff n k)

module _ {ℓ} {T : Type ℓ} (z : T) (cg : CompiledTypedGraph T) (root : T) where
  -- The two passes of a layer that succeeds.
  pub run_typed_layer-eq-ok :
      (layer : List String) (s s' : Running T)
      → run_typed_layer z cg root layer s ≡ ok s'
      → (x : Map (Result T) × ℕ) × (launch_typed cg root s.outputs
            (reachable_names s.reachable layer)
            s.steps
          ≡ ok x)
        × (commit_typed z cg.edges (reachable_names s.reachable layer) x.0 (s.outputs, s.reachable)
            ≡ ok (s'.outputs, s'.reachable))
        × (s'.steps ≡ x.1)
  unfolding run_typed_layer
  run_typed_layer-eq-ok layer s s' e =
      let names = reachable_names s.reachable layer in
      let (x, started, e') = >>=-eq-ok (launch_typed cg root s.outputs names s.steps) _ e in
      let (y, taken, shape) =
        >>=-eq-ok (commit_typed z cg.edges names x.0 (s.outputs, s.reachable)) _ e' in
      (
        x,
        started,
        taken ∙ ap (λ q. ok (elim q [ ok t ↦ (t.outputs, t.reachable) | err f ↦ y ])) shape,
        ap (λ q. elim q [ ok t ↦ t.steps | err f ↦ x.1 ]) (sym shape),
      )
