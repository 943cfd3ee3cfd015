-- ===== src/Graph/Run/Progress.antt =====
-- graph/graph.go, `Run`: a run whose nodes succeed returns a result.
use Prim.Native.String.{◌++◌ as text_append}
use covonaut.Base.{
  length-of_counts, Has, eq_iff, ℕ, suc, ◌+◌, ◌≤◌, String, List, [], ◌∷◌, ◌++◌, Bool, true, false,
  ◌||◌, Option, none, some, ◌==◌, ltb, if◌then◌else◌, contains, length, length-append, concat, Map,
  lookup, insert, get_or, member, ◌≡◌, refl, ap, ◌∙◌, arith, Bool-cases, Option-cases, inl, inr,
}
use covonaut.Agentcore.Errors.{Result, ok, err, wrap_node_error}
use covonaut.Agentcore.Step.{run_step}
use covonaut.Graph.{Graph, ConditionalEdge, successors}
use covonaut.Graph.WellFormed.{names}
use covonaut.Graph.Built.{Built}
use covonaut.Graph.Topo.{MapOrder, CompileOptions, CompiledGraph, compile}
use covonaut.Graph.Topo.Acyclic.{compile_layers}
use covonaut.Graph.Run.{
  get_node, node_input, mark_all, activate_successors, reached, outcome, launch, check_errors,
  value, commit, run_layer, run_layers, run_outputs, run, find_terminal_output, all_nodes,
}

abbrev IsOk {ℓ} : {A : Type ℓ} → Result A → Type ℓ
IsOk {A} r = (a : A) × (r ≡ ok a)

-- The nodes of the list are there and fail on no input.
abbrev Succeed : CompiledGraph → List String → Type 0
Succeed cg [] = Unit
Succeed cg (n ∷ ns) =
    ((input : String) → (out : String) × (run_step (get_node cg n) input ≡ ok out)) × Succeed cg ns

-- No node of the graph fails on any input, and every router names one of its targets.
pub record CanRun (cg : CompiledGraph) : Type 0 where
  pub succeed :
      (name : String)
      → Has name (names cg.graph)
      → (input : String) → (out : String) × (run_step (get_node cg name) input ≡ ok out)
  pub route :
      (name : String) (c : ConditionalEdge) (output : String)
      → lookup name cg.graph.conditional_edges ≡ some c
      → contains c.targets (c.route output) ≡ true

each_Succeed :
    (cg : CompiledGraph) (ns : List String)
    → ((n : String)
        → Has n ns
        → (input : String) → (out : String) × (run_step (get_node cg n) input ≡ ok out))
    → Succeed cg ns
each_Succeed cg [] each = tt
each_Succeed cg (n ∷ ns) each = (
  each n (ground (arith, eq_iff n n)),
  each_Succeed cg ns (λ k h. each k (ground (arith, h, eq_iff n k))),
)

abbrev AllOk : Map (Result String) → Type 0
AllOk [] = Unit
AllOk ((n, r) ∷ rs) = IsOk r × AllOk rs

module _ (o : MapOrder) (cg : CompiledGraph) (input : String) (can : CanRun cg) where
  launch-IsOk :
      (outputs : Map String) (ns : List String) (steps : ℕ)
      → Succeed cg ns
      → steps + length ns ≤ cg.max_steps
      → (rs : Map (Result String)) × AllOk rs
        × (launch cg input outputs ns steps ≡ ok (rs, steps + length ns))
  unfolding launch
  launch-IsOk outputs [] steps can_each room = ([], tt, ap (λ k. ok ([], k)) (omega arith))
  launch-IsOk outputs (n ∷ ns) steps can_each room =
      let (rs, good, launched) = launch-IsOk outputs ns (suc steps) can_each.1 (omega arith) in
      let within : ltb cg.max_steps (suc steps) ≡ false = ground arith in
      (
        (n, outcome cg input outputs n) ∷ rs,
        (can_each.0 (node_input cg input outputs n), good),
        rw (within, launched)
            (ap (λ k. ok ((n, outcome cg input outputs n) ∷ rs, k)) (omega arith)),
      )

  get_or-IsOk : (n : String) (rs : Map (Result String)) → AllOk rs → IsOk (get_or n (ok "") rs)
  unfolding lookup
  get_or-IsOk n [] good = ("", refl)
  get_or-IsOk n ((k, r) ∷ rs) good =
      first_or_rest (k == n) (lookup n rs) good.0 (get_or-IsOk n rs good.1)
    where
      first_or_rest :
          (b : Bool) (found : Option (Result String))
          → IsOk r
          → IsOk {A = String} (elim found [ none ↦ ok "" | some v ↦ v ])
          → IsOk {A = String} (elim (if b then some r else found) [ none ↦ ok "" | some v ↦ v ])
      first_or_rest true found first rest = first
      first_or_rest false found first rest = rest

  check_errors-IsOk :
      (ns : List String) (rs : Map (Result String)) → AllOk rs → check_errors ns rs ≡ ok tt
  unfolding check_errors
  check_errors-IsOk [] rs good = refl
  check_errors-IsOk (n ∷ ns) rs good =
      let (out, is_ok) = get_or-IsOk n rs good in
      ap
        (λ r. elim r [
          | ok out ↦ check_errors ns rs
          | err e ↦ err (wrap_node_error e (text_append "graph:" n))
        ])
        is_ok
      ∙ check_errors-IsOk ns rs good

  activate-IsOk :
      (name output : String) (outputs : Map String)
      → IsOk (activate_successors cg.graph name output outputs)
  unfolding activate_successors
  activate-IsOk name output outputs = elim (Option-cases (lookup name cg.graph.conditional_edges)) [
    | inl plain ↦ rw plain (mark_all (successors cg.graph.edges name) outputs, refl)
    | inr (c, found) ↦
        rw (found, can.route name c output found) (insert (c.route output) "" outputs, refl)
  ]

  commit-IsOk :
      (ns : List String) (rs : Map (Result String)) (outputs : Map String)
      → IsOk (commit cg.graph ns rs outputs)
  unfolding commit
  commit-IsOk [] rs outputs = (outputs, refl)
  commit-IsOk (n ∷ ns) rs outputs =
      let out = value (get_or n (ok "") rs) in
      let (next, activated) = activate-IsOk n out (insert n out outputs) in
      rw activated (commit-IsOk ns rs next)

  reached-Succeed :
      (outputs : Map String) (ns : List String)
      → Succeed cg ns
      → Succeed cg (reached cg.entry outputs ns)
  unfolding reached
  reached-Succeed outputs [] can_each = tt
  reached-Succeed outputs (n ∷ ns) can_each =
      elim (Bool-cases (member n outputs || n == cg.entry)) [
        | inl this ↦ rw this (can_each.0, reached-Succeed outputs ns can_each.1)
        | inr other ↦ rw other (reached-Succeed outputs ns can_each.1)
      ]

  append-Succeed : (xs ys : List String) → Succeed cg (xs ++ ys) → Succeed cg xs × Succeed cg ys
  append-Succeed [] ys can_each = (tt, can_each)
  append-Succeed (x ∷ xs) ys can_each =
      let (first, rest) = append-Succeed xs ys can_each.1 in ((can_each.0, first), rest)

  length-reached :
      (outputs : Map String) (ns : List String) → length (reached cg.entry outputs ns) ≤ length ns
  unfolding reached
  length-reached outputs [] = omega arith
  length-reached outputs (n ∷ ns) = ground (arith, length-reached outputs ns)

  abbrev Advances : ℕ → Result (Map String × ℕ) → Type 0
  Advances bound r = (next : Map String × ℕ) × (r ≡ ok next) × (next.1 ≤ bound)

  run_layer-Advances :
      (layer : List String) (outputs : Map String) (steps : ℕ)
      → Succeed cg layer
      → steps + length layer ≤ cg.max_steps
      → Advances (steps + length layer) (run_layer o cg input layer (outputs, steps))
  unfolding run_layer
  run_layer-Advances layer outputs steps can_each room =
      let ns = reached cg.entry outputs layer in
      let (rs, good, launched) =
        launch-IsOk outputs ns steps (reached-Succeed outputs layer can_each)
          (omega (arith, length-reached outputs layer)) in
      let (next, committed) = commit-IsOk (o.apply ns) rs outputs in
      (
        (next, steps + length ns),
        rw (launched, check_errors-IsOk (o.apply ns) rs good, committed) refl,
        omega (arith, length-reached outputs layer),
      )

  run_layers-IsOk :
      (layers : List (List String)) (s : Map String × ℕ)
      → Succeed cg (concat layers)
      → s.1 + length (concat layers) ≤ cg.max_steps
      → IsOk (run_layers o cg input layers s)
  unfolding run_layers
  run_layers-IsOk [] s can_each room = (s, refl)
  run_layers-IsOk (l ∷ ls) (outputs, steps) can_each room =
      let (first, rest) = append-Succeed l (concat ls) can_each in
      let (next, ran, bound) =
        run_layer-Advances l outputs steps first (omega (arith, length-append l (concat ls))) in
      rw ran (run_layers-IsOk ls next rest (omega (arith, length-append l (concat ls))))

-- Let the methods build a graph and `Compile` succeed on it, let no node fail on any input, let every
-- router name one of its targets, and let the step limit be at least the number of nodes. Then the
-- run returns a result, under any order of ranging over the results.
pub run-IsOk :
    (o p : MapOrder) (opts : CompileOptions) (g : Graph) (cg : CompiledGraph) (input : String)
    → Built g
    → compile o opts g ≡ ok cg
    → CanRun cg
    → length (names g) ≤ cg.max_steps
    → (out : String) × (run p cg input ≡ ok out)
unfolding run run_outputs
run-IsOk o p opts g cg input built is_compiled can room =
    let (same, _, sum, _) = compile_layers o opts g cg built is_compiled in
    let each =
      each_Succeed cg (concat cg.sorted_layers)
        (λ n h. can.succeed n (rw same (omega (arith, sum n)))) in
    let ((outputs, steps), ran) =
      run_layers-IsOk p cg input can cg.sorted_layers (insert cg.entry "" [], 0) each
        (omega (arith, length-of_counts (concat cg.sorted_layers) (names g) sum)) in
    (
      find_terminal_output (all_nodes cg.graph.nodes cg.stream_nodes) cg.graph.edges outputs,
      rw ran refl,
    )
