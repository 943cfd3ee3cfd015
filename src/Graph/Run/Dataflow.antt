-- ===== src/Graph/Run/Dataflow.antt =====
-- The outputs of a run solve the equations that the graph states.
use covonaut.Base.{
  ℕ, zero, suc, inl, inr, ◌⊎◌, ◌+◌, ◌≤◌, ◌<◌, String, List, [], ◌∷◌, ◌++◌, true, some, ◌≡◌, refl,
  sym, subst, ap, ◌∙◌, arith, eq_iff, count, Has, concat, count-append, contains, contains_iff,
  if◌then◌else◌, Map, lookup, insert, get_or, member, member_iff,
}
use mathlib.Core.List.{append-nil, append_assoc}
use covonaut.Agentcore.Errors.{ok, >>=-eq-ok}
use covonaut.Agentcore.Step.{run_step}
use covonaut.Graph.{Graph, successors}
use covonaut.Graph.WellFormed.{IsWf, names}
use covonaut.Graph.Built.{Built, Built-IsWf}
use covonaut.Graph.Topo.{MapOrder, CompileOptions, CompiledGraph, compiled, compile, reverse_edges}
use covonaut.Graph.Topo.Layers.{IsLayered}
use covonaut.Graph.Topo.Acyclic.{compile-eq-ok, compile_layers}
use covonaut.Graph.Run.{
  present, node_input, reached, outcome, value, run_layer, run_layers, run_outputs, get_node,
}
use covonaut.Graph.Run.Reverse.{count-predecessors}
use covonaut.Graph.Run.Layer.{
  LayerRun, run_layer-eq-ok, count-reached, launch-lookup, check_errors-ok, commit-lookup,
}

-- The input of a node depends only on the outputs of its predecessors.
present-cong :
    (a b : Map String) (ps : List String)
    → ((p : String) → Has p ps → lookup p a ≡ lookup p b)
    → present a ps ≡ present b ps
unfolding present
present-cong a b [] same = refl
present-cong a b (p ∷ ps) same =
    ground (
      arith,
      same p (ground (arith, eq_iff p p)),
      present-cong a b ps (λ q h. same q (omega arith)),
    )

node_input-cong :
    (cg : CompiledGraph) (input : String) (a b : Map String) (n : String)
    → ((p : String) → Has p (get_or n [] cg.rev_edges) → lookup p a ≡ lookup p b)
    → node_input cg input a n ≡ node_input cg input b n
unfolding node_input
node_input-cong cg input a b n same =
    ground (arith, present-cong a b (get_or n [] cg.rev_edges) same)

count-cases : (n : ℕ) → (n ≡ 0) ⊎ (0 < n)
count-cases zero = inl refl
count-cases (suc n) = inr (omega arith)

-- The output of `n` is its step's result on the outputs of its predecessors.
abbrev pub Solves : CompiledGraph → String → Map String → String → Type 0
Solves cg input outputs n =
    (out : String) × (lookup n outputs ≡ some out) × (outcome cg input outputs n ≡ ok out)

-- What holds when the layers that make up `seen` have run.
record Ran (cg : CompiledGraph) (input : String) (seen : List String) (outputs : Map String)
    : Type 0 where
  closed :
      (u v : String)
      → Has v seen
      → Has u (names cg.graph)
      → Has v (successors cg.graph.edges u)
      → Has u seen
  solved : (n : String) → Has n seen → member n outputs ≡ true → Solves cg input outputs n

module _ (o : MapOrder) (cg : CompiledGraph) (input : String) (w : IsWf cg.graph)
    (rev : cg.rev_edges ≡ reverse_edges cg.graph.edges []) where
  sources_known : (p n : String) → Has n (successors cg.graph.edges p) → Has p (names cg.graph)
  sources_known p n e = ground (arith, member_iff p cg.graph.edges, w.sources p)

  predecessors :
      (p n : String) → Has p (get_or n [] cg.rev_edges) → Has n (successors cg.graph.edges p)
  predecessors p n h =
      omega (arith, count-predecessors cg.graph.edges p n w.edges_distinct, rw rev at h)

  module _ (seen layer : List String) (outputs outputs' : Map String) (s s' : ℕ)
      (r : Ran cg input seen outputs)
      (before : (u v : String)
        → Has v layer
        → Has u (names cg.graph)
        → Has v (successors cg.graph.edges u)
        → Has u seen)
      (once : (j : String) → count j seen + count j layer ≤ 1)
      (known : (j : String) → Has j layer → Has j (names cg.graph))
      (ran : LayerRun o cg input layer outputs outputs' s s') where
    abbrev active : List String
    active = reached cg.entry outputs layer

    active-layer : (n : String) → Has n (o.apply active) → Has n layer
    active-layer n h = ground (arith, o.same n active, count-reached cg.entry outputs layer n)

    -- No node of the layer activates one of the layer or of an earlier layer.
    not_entered :
        (k n : String)
        → Has k (seen ++ layer)
        → Has n (o.apply active)
        → count k (successors cg.graph.edges n) ≡ 0
    not_entered k n h a = ground (
      arith,
      count-append k seen layer,
      active-layer n a,
      once n,
      known n,
      before n k,
      r.closed n k,
    )

    after_layer :
        (k : String)
        → Has k (seen ++ layer)
        → lookup k outputs' ≡ (
            if contains (o.apply active) k
            then some (value (get_or k (ok "") ran.results))
            else lookup k outputs)
    after_layer k h =
        commit-lookup cg.graph (o.apply active) ran.results outputs outputs' k w ran.committed
          (λ n. not_entered k n h)

    active-outcome :
        (n : String)
        → Has n active
        → (out : String) × (lookup n outputs' ≡ some out) × (outcome cg input outputs n ≡ ok out)
    active-outcome n h =
        let h' : Has n (o.apply active) = omega (arith, o.same n active) in
        let l = launch-lookup cg input outputs active s ran.results s' n ran.launched h in
        let good = check_errors-ok (o.apply active) ran.results n _ ran.checked h' l in
        (
          value (outcome cg input outputs n),
          ground (
            arith,
            after_layer n (omega (arith, count-append n seen layer, active-layer n h')),
            contains_iff (o.apply active) n,
            l,
          ),
          good,
        )

    -- Earlier outputs stay.
    seen-lookup : (p : String) → Has p seen → lookup p outputs' ≡ lookup p outputs
    seen-lookup p h = ground (
      arith,
      after_layer p (omega (arith, count-append p seen layer)),
      contains_iff (o.apply active) p,
      active-layer p,
      once p,
    )

    outcome-same :
        (n : String)
        → Has n (seen ++ layer)
        → outcome cg input outputs n ≡ outcome cg input outputs' n
    outcome-same n h = ap (run_step (get_node cg n)) (
        node_input-cong cg input outputs outputs' n
          (λ p q. sym (seen-lookup p (earlier p (predecessors p n q)))))
      where
        earlier : (p : String) → Has n (successors cg.graph.edges p) → Has p seen
        earlier p e = ground (
          arith,
          count-append n seen layer,
          before p n,
          r.closed p n,
          known p,
          sources_known p n e,
        )

    layer-Ran : Ran cg input (seen ++ layer) outputs'
    layer-Ran = record {
      closed = λ u v h p e.
          ground
            (arith, count-append v seen layer, count-append u seen layer, r.closed u v, before u v);
      solved = λ n h m. elim (count-cases (count n active)) [
        | inl idle ↦ idle_solved n h m idle
        | inr runs ↦ let (out, l, e) = active-outcome n runs in (out, l, sym (outcome-same n h) ∙ e)
      ];
    }
      where
        idle_solved :
            (n : String)
            → Has n (seen ++ layer)
            → member n outputs' ≡ true
            → count n active ≡ 0
            → Solves cg input outputs' n
        idle_solved n h m idle =
            let same : lookup n outputs' ≡ lookup n outputs =
              ground (arith, after_layer n h, contains_iff (o.apply active) n, o.same n active) in
            let old : Has n seen =
              ground
                (arith, count-append n seen layer, same, count-reached cg.entry outputs layer n) in
            let (out, l, e) = r.solved n old (ground (arith, same)) in
            (out, same ∙ l, sym (outcome-same n h) ∙ e)

  layers-Ran :
      (seen : List String) (ls : List (List String)) (outputs outputs' : Map String) (s s' : ℕ)
      → Ran cg input seen outputs
      → IsLayered cg.graph.edges (names cg.graph) seen ls
      → ((j : String) → count j seen + count j (concat ls) ≡ count j (names cg.graph))
      → run_layers o cg input ls (outputs, s) ≡ ok (outputs', s')
      → Ran cg input (seen ++ concat ls) outputs'
  unfolding run_layers
  layers-Ran seen [] outputs outputs' s s' r lay sum e =
      rw append-nil (subst (Ran cg input seen) (ground arith) r)
  layers-Ran seen (l ∷ ls) outputs outputs' s s' r lay sum e =
      let ((mid, s1), first, later) = >>=-eq-ok (run_layer o cg input l (outputs, s)) _ e in
      let parts = λ (j : String). count-append j l (concat ls) in
      let r' =
        layer-Ran seen l outputs mid s s1 r lay.0 (λ j. omega (arith, sum j, parts j, w.distinct j))
          (λ j h. omega (arith, sum j, parts j))
          (run_layer-eq-ok o cg input l outputs mid s s1 first) in
      rw (← append_assoc) (
        layers-Ran (seen ++ l) ls mid outputs' s1 s' r' lay.1
          (λ j. omega (arith, sum j, parts j, count-append j seen l)) later)

-- When a compiled graph runs without an error, under any order of ranging over the results, the
-- final output of every node that was reached is the result of its step on the input that its
-- predecessors' final outputs give it.
pub run_outputs-Solves :
    (o p : MapOrder) (opts : CompileOptions) (g : Graph) (cg : CompiledGraph) (input : String)
    (outputs : Map String) (steps : ℕ) (n : String)
    → Built g
    → compile o opts g ≡ ok cg
    → run_outputs p cg input ≡ ok (outputs, steps)
    → Has n (names g)
    → member n outputs ≡ true
    → Solves cg input outputs n
unfolding run_outputs compiled
run_outputs-Solves o p opts g cg input outputs steps n b c e h m =
    let (same, _, sum, lay) = compile_layers o opts g cg b c in
    let (ls, _, shape) = compile-eq-ok o opts g cg c in
    let start : Ran cg input [] (insert cg.entry "" []) = record {
      closed = λ u v k. absurd (omega arith);
      solved = λ k q. absurd (omega arith);
    } in
    let done =
      layers-Ran p cg input (rw same (Built-IsWf b)) (rw shape) [] cg.sorted_layers
        (insert cg.entry "" []) outputs 0 steps start (rw same lay)
        (λ j. rw same (omega (arith, sum j))) e in
    done.solved n (omega (arith, sum n)) m
