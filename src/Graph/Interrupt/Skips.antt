-- ===== src/Graph/Interrupt/Skips.antt =====
-- What a resumed run leaves alone.
use covonaut.Base.{
  ℕ, zero, suc, ◌+◌, String, List, [], ◌∷◌, ◌++◌, true, Option, some, ◌≡◌, ◌≢◌, refl, sym, ◌∙◌, ap,
  subst, arith, count, Has, concat, count-append, take, drop, take-append-drop, Map, lookup,
}
use covonaut.Agentcore.Errors.{ok}
use covonaut.Graph.{Graph, successors}
use covonaut.Graph.WellFormed.{IsWf, names}
use covonaut.Graph.Built.{Built, Built-IsWf}
use covonaut.Graph.Topo.{MapOrder, CompileOptions, CompiledGraph, compile}
use covonaut.Graph.Topo.Layers.{IsLayered}
use covonaut.Graph.Topo.Acyclic.{compile_layers}
use covonaut.Graph.Interrupt.{
  Checkpoint, InterruptResult, InterruptableGraph, Progress, Pass, after_node, going, stopped,
  broken, visit, run_from, conclude, resume, resume_from, resume_input,
}
use covonaut.Graph.Interrupt.Keeps.{
  outputs_of, visit-keeps, layers-keep, AfterStop, visit-AfterStop,
}

conclude-outputs :
    (ig : InterruptableGraph) (x : Pass) → (conclude ig x).1.node_outputs ≡ outputs_of x
unfolding conclude
conclude-outputs ig (going p) = refl
conclude-outputs ig (stopped outs cp ir) = refl
conclude-outputs ig (broken outs e) = refl

from_layers :
    (ig : InterruptableGraph) (w : IsWf ig.graph.graph) (input stamp m : String) (k : ℕ)
    (outputs : Map String)
    → ((n : String)
        → Has n (concat (drop k ig.graph.sorted_layers))
        → (n ≢ m) × (count m (successors ig.graph.graph.edges n) ≡ 0))
    → lookup m (outputs_of (run_from ig.graph ig.interrupts input stamp k true outputs))
      ≡ lookup m outputs
unfolding run_from
from_layers ig w input stamp m k outputs apart =
    layers-keep ig.graph w ig.interrupts input stamp m (drop k ig.graph.sorted_layers) k _ apart

-- Edges lead from earlier layers to later ones.
no_edge_back :
    (edges : Map (List String)) (ns seen : List String) (ls : List (List String)) (k : ℕ)
    (u v : String)
    → IsLayered edges ns seen ls
    → Has v (concat (take k ls))
    → Has u ns
    → Has v (successors edges u)
    → Has u (seen ++ concat (take k ls))
no_edge_back edges ns seen ls zero u v lay h p e = absurd (omega arith)
no_edge_back edges ns seen [] (suc k) u v lay h p e = absurd (omega arith)
no_edge_back edges ns seen (l ∷ ls) (suc k) u v lay h p e =
    let at_v = count-append v l (concat (take k ls)) in
    let at_u = count-append u l (concat (take k ls)) in
    let sum = count-append u seen (l ++ concat (take k ls)) in
    ground (
      arith,
      at_v,
      at_u,
      sum,
      lay.0 u v,
      no_edge_back edges ns (seen ++ l) ls k u v lay.1,
      count-append u (seen ++ l) (concat (take k ls)),
      count-append u seen l,
    )

edge_into_layer :
    (edges : Map (List String)) (ns seen : List String) (ls : List (List String)) (k : ℕ)
    (l : List String) (rest : List (List String)) (u v : String)
    → IsLayered edges ns seen ls
    → drop k ls ≡ l ∷ rest
    → Has v l
    → Has u ns
    → Has v (successors edges u)
    → Has u (seen ++ concat (take k ls))
edge_into_layer edges ns seen [] zero l rest u v lay at h p e = cc
edge_into_layer edges ns seen [] (suc k) l rest u v lay at h p e = cc
edge_into_layer edges ns seen (x ∷ ls) zero l rest u v lay at h p e =
    let same : x ≡ l = ground arith in
    omega (arith, count-append u seen [], lay.0 u v (rw same h) p e)
edge_into_layer edges ns seen (x ∷ ls) (suc k) l rest u v lay at h p e = omega (
  arith,
  edge_into_layer edges ns (seen ++ x) ls k l rest u v lay.1 at h p e,
  count-append u (seen ++ x) (concat (take k ls)),
  count-append u seen x,
  count-append u x (concat (take k ls)),
  count-append u seen (x ++ concat (take k ls)),
)

concat-append :
    (a b : List (List String)) (k : String)
    → count k (concat (a ++ b)) ≡ count k (concat a) + count k (concat b)
concat-append [] b k = omega arith
concat-append (l ∷ a) b k =
    omega
      (arith, count-append k l (concat (a ++ b)), concat-append a b k, count-append k l (concat a))

module _ (o : MapOrder) (opts : CompileOptions) (g : Graph) (cg : CompiledGraph) (b : Built g)
    (compiled : compile o opts g ≡ ok cg) where
  -- A node of the first `k` layers is apart from all nodes behind them.
  earlier-apart :
      (k : ℕ) (m : String)
      → Has m (concat (take k cg.sorted_layers))
      → (n : String) → Has n (concat (drop k cg.sorted_layers))
      → (n ≢ m) × (count m (successors cg.graph.edges n) ≡ 0)
  earlier-apart k m h n q =
      let (same, _, sum, lay) = compile_layers o opts g cg b compiled in
      let split =
        λ (j : String). ap (λ ls. count j (concat ls)) (take-append-drop k cg.sorted_layers) in
      let both =
        λ (j : String). concat-append (take k cg.sorted_layers) (drop k cg.sorted_layers) j in
      let w = Built-IsWf b in
      let back = no_edge_back g.edges (names g) [] cg.sorted_layers k n m lay h in
      (
        λ e. absurd (
            omega (
              arith,
              split m,
              both m,
              sum m,
              w.distinct m,
              ap (λ j. count j (concat (drop k cg.sorted_layers))) e,
            )),
        rw same (ground (arith, split n, both n, sum n, w.distinct n, back)),
      )

  -- Resuming from a checkpoint of a compiled graph never changes the output of a node in the
  -- layers before the checkpoint's step index, whatever comes of the run.
  pub resume_keeps :
      (ig : InterruptableGraph) (id input stamp m : String) (cp : Checkpoint)
      → ig.graph ≡ cg
      → lookup id ig.store ≡ some cp
      → Has m (concat (take cp.step_index cg.sorted_layers))
      → lookup m (resume id input stamp ig).1.node_outputs ≡ lookup m cp.state.outputs
  unfolding resume
  resume_keeps ig id input stamp m cp same found h =
      let k = cp.step_index in
      let w : IsWf ig.graph.graph =
        subst (λ (c : CompiledGraph). IsWf c.graph) (sym same)
          (rw (compile_layers o opts g cg b compiled).0 (Built-IsWf b)) in
      let apart =
        subst
          (λ (c : CompiledGraph).
            (n : String)
            → Has n (concat (drop k c.sorted_layers))
            → (n ≢ m) × (count m (successors c.graph.edges n) ≡ 0))
          (sym same) (earlier-apart k m h) in
      let pass =
        run_from ig.graph ig.interrupts (resume_input input cp.state) stamp k true
          cp.state.outputs in
      ap (λ (c : Option Checkpoint). lookup m (resume_from c input stamp ig).1.node_outputs) found
      ∙ ap (lookup m) (conclude-outputs ig pass)
      ∙ from_layers ig w (resume_input input cp.state) stamp m k cp.state.outputs apart

  take-drop-suc :
      (k : ℕ) (ls : List (List String)) (l : List String) (rest : List (List String)) (m : String)
      → drop k ls ≡ l ∷ rest
      → Has m l
      → Has m (concat (take (suc k) ls))
  take-drop-suc zero [] l rest m e h = cc
  take-drop-suc (suc k) [] l rest m e h = cc
  take-drop-suc zero (x ∷ ls) l rest m e h = ground (arith, count-append m x (concat (take 0 ls)))
  take-drop-suc (suc k) (x ∷ ls) l rest m e h =
      omega (arith, count-append m x (concat (take (suc k) ls)), take-drop-suc k ls l rest m e h)

  -- Nodes of one layer have no edges between them.
  same_layer-apart :
      (idx : ℕ) (n m : String) (l : List String) (rest : List (List String))
      → drop idx cg.sorted_layers ≡ l ∷ rest
      → Has n l
      → Has m l
      → count m (successors cg.graph.edges n) ≡ 0
  same_layer-apart idx n m l rest at hn hm =
      let (same, _, sum, lay) = compile_layers o opts g cg b compiled in
      let total = ap (λ ls. count n (concat ls)) (take-append-drop idx cg.sorted_layers) in
      let both = concat-append (take idx cg.sorted_layers) (drop idx cg.sorted_layers) n in
      let here = ap (λ ls. count n (concat ls)) at in
      let w = Built-IsWf b in
      rw same (
        ground (
          arith,
          edge_into_layer g.edges (names g) [] cg.sorted_layers idx l rest n m lay at hm,
          total,
          both,
          here,
          sum n,
          w.distinct n,
          count-append n l (concat rest),
        ))

  -- When a run stops after a node `n` of a layer, another node `m` of that layer which has not run
  -- yet is skipped: resuming from the checkpoint leaves the output of `m` as it was before `n` ran.
  pub after_interrupt_skips :
      (ig : InterruptableGraph) (id input stamp input' stamp' n m : String) (idx : ℕ) (p : Progress)
      (l : List String) (rest : List (List String)) (outs : Map String) (cp : Checkpoint)
      (ir : InterruptResult)
      → ig.graph ≡ cg
      → drop idx cg.sorted_layers ≡ l ∷ rest
      → Has n l
      → Has m l
      → n ≢ m
      → visit cg ig.interrupts input stamp n idx p ≡ stopped outs cp ir
      → cp.phase ≡ after_node
      → lookup id ig.store ≡ some cp
      → lookup m (resume id input' stamp' ig).1.node_outputs ≡ lookup m p.outputs
  after_interrupt_skips ig id input stamp input' stamp' n m idx p l rest outs cp ir same at hn hm ne
        stop ph found =
      let w : IsWf cg.graph = rw (compile_layers o opts g cg b compiled).0 (Built-IsWf b) in
      let saved : AfterStop idx (stopped outs cp ir) =
        subst (AfterStop idx) stop (visit-AfterStop cg ig.interrupts input stamp n idx p) in
      resume_keeps ig id input' stamp' m cp same found (
        subst (λ k. Has m (concat (take k cg.sorted_layers))) (sym (saved.1 ph))
          (take-drop-suc idx cg.sorted_layers l rest m at hm))
      ∙ ap (lookup m) saved.0
      ∙ subst (λ x. lookup m (outputs_of x) ≡ lookup m p.outputs) stop
          (visit-keeps cg w ig.interrupts input stamp m n idx p
            (ne, same_layer-apart idx n m l rest at hn hm))
