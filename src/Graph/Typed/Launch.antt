-- ===== src/Graph/Typed/Launch.antt =====
-- graph/typed_graph.go: the loop that starts the nodes of a layer.
use covonaut.Base.{
  length, ◌+◌, ◌≤◌, ℕ, suc, String, List, [], ◌∷◌, Bool, some, ◌==◌, ltb, if◌then◌else◌, Map,
  lookup, Has, ◌≡◌, sym, ap, ◌∙◌, inl, inr, arith, eq_iff, Bool-cases, subst,
}
use covonaut.Agentcore.Errors.{Result, ok, err, >>=-eq-ok}
use covonaut.Graph.Typed.{CompiledTypedGraph, typed_input, invoke, launch_typed}

module _ {ℓ} {T : Type ℓ} (cg : CompiledTypedGraph T) (root : T) where
  launch_typed-step :
      (outputs : Map T) (n : String) (ns : List String) (steps : ℕ) (x : Map (Result T) × ℕ)
      → launch_typed cg root outputs (n ∷ ns) steps ≡ ok x
      → (v : T) × (typed_input cg n root outputs ≡ ok v)
        × ((more : Map (Result T) × ℕ) × (launch_typed cg root outputs ns (suc steps) ≡ ok more)
            × (x.0 ≡ (n, invoke (lookup n cg.nodes) v) ∷ more.0)
            × (x.1 ≡ more.1)
            × (suc steps ≤ cg.max_steps))
  unfolding launch_typed
  launch_typed-step outputs n ns steps x e = elim (Bool-cases (ltb cg.max_steps (suc steps))) [
    | inl over ↦ absurd (cc (rw (over, launch_typed) at e))
    | inr fits ↦
        let (v, given, e') =
          >>=-eq-ok (typed_input cg n root outputs) _ (rw (fits, launch_typed) at e) in
        let (more, started, shape) =
          >>=-eq-ok (launch_typed cg root outputs ns (suc steps))
            (λ (m : Map (Result T) × ℕ). ok ((n, invoke (lookup n cg.nodes) v) ∷ m.0, m.1)) e' in
        (
          v,
          given,
          (
            more,
            started,
            ap (λ q. elim q [ ok y ↦ y.0 | err f ↦ x.0 ]) (sym shape),
            ap (λ q. elim q [ ok y ↦ y.1 | err f ↦ x.1 ]) (sym shape),
            ground (arith, fits),
          ),
        )
  ]

  pub launch_typed-lookup :
      (outputs : Map T) (ns : List String) (steps : ℕ) (x : Map (Result T) × ℕ) (k : String)
      → launch_typed cg root outputs ns steps ≡ ok x
      → Has k ns
      → (v : T) × (typed_input cg k root outputs ≡ ok v)
        × (lookup k x.0 ≡ some (invoke (lookup k cg.nodes) v))
  unfolding lookup
  launch_typed-lookup outputs [] steps x k e h = absurd (omega arith)
  launch_typed-lookup outputs (n ∷ ns) steps x k e h =
      let (v, given, (more, started, shape, _, _)) = launch_typed-step outputs n ns steps x e in
      let at_first =
        λ (b : Bool). if b then some (invoke (lookup n cg.nodes) v) else lookup k more.0 in
      elim (Bool-cases (n == k)) [
        | inl this ↦
            let same : n ≡ k = ground (arith, this, eq_iff n k) in
            (
              v,
              subst (λ q. typed_input cg q root outputs ≡ ok v) same given,
              ap (lookup k) shape
                  ∙ ap at_first this
                  ∙ ap (λ q. some (invoke (lookup q cg.nodes) v)) same,
            )
        | inr other ↦
            let (w, given', found) =
              launch_typed-lookup outputs ns (suc steps) more k started
                (ground (arith, other, eq_iff n k)) in
            (w, given', ap (lookup k) shape ∙ ap at_first other ∙ found)
      ]

  -- Each node is a step, within the limit.
  pub launch_typed-steps :
      (outputs : Map T) (ns : List String) (steps : ℕ) (x : Map (Result T) × ℕ)
      → launch_typed cg root outputs ns steps ≡ ok x
      → steps ≤ cg.max_steps
      → (x.1 ≡ steps + length ns) × (x.1 ≤ cg.max_steps)
  unfolding launch_typed
  launch_typed-steps outputs [] steps x e room =
      let same : x.1 ≡ steps = ap (λ q. elim q [ ok y ↦ y.1 | err f ↦ x.1 ]) (sym e) in
      (omega arith, omega arith)
  launch_typed-steps outputs (n ∷ ns) steps x e room =
      let (v, given, (more, started, shape, same, fits)) =
        launch_typed-step outputs n ns steps x e in
      let (total, within) = launch_typed-steps outputs ns (suc steps) more started fits in
      (omega arith, omega arith)
