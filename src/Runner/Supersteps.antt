-- ===== src/Runner/Supersteps.antt =====
-- graph/runner.go, `runPregelStyle`, against `Run` of graph/pregel.go.
use Prim.Native.String.{◌++◌ as text_append}
use covonaut.Base.{
  ℕ, zero, suc, String, List, [], ◌∷◌, Option, none, some, ◌≡◌, refl, ◌∙◌, ap, subst, arith, Map,
  lookup, get_or, ◌==◌, Bool-cases, Option-cases, inl, inr,
}
use covonaut.Agentcore.Errors.{
  Error, plain, cause, Result, ok, err, new_node_error, wrap_node_error, cause-wrap_node_error,
  Result-cases,
}
use covonaut.Graph.Topo.Orders.{as_is}
use covonaut.Pregel.{
  pregel_end, State, CompiledPregelGraph, Ending, Next, active, finished, failed_target, and_then,
  add_static, add_routed, validate_conditional_target, add_targets, next_active, run_nodes,
  check_results, merge_results, run, superstep, supersteps, continue,
}
use covonaut.Runner.{
  RunnerConfig, Runner, configure, run_mode_pregel, trigger_any_predecessor, step_bound,
  new_pregel_runner,
}
use covonaut.Runner.PregelMode.{
  RunnerEnding, StepCheckpoint, validate_pregel_target, run_active, first_failure, targets_of,
  next_nodes, go_on, pregel_step, pregel_loop, run_pregel_style,
}
use covonaut.Runner.Dag.{without_path, without_path->>=}

abbrev cause_of : Option Error → Option Error
cause_of none = none
cause_of (some e) = some (plain (cause e))

abbrev next_without_path : Next → Next
next_without_path (active ns) = active ns
next_without_path finished = finished
next_without_path (failed_target e) = failed_target (plain (cause e))

next_without_path-and_then :
    (m m' : Next) (f f' : List String → Next)
    → next_without_path m ≡ next_without_path m'
    → ((ns : List String) → next_without_path (f ns) ≡ next_without_path (f' ns))
    → next_without_path (and_then m f) ≡ next_without_path (and_then m' f')
next_without_path-and_then (active a) (active b) f f' e h = cc (h a)
next_without_path-and_then (active a) finished f f' e h = cc
next_without_path-and_then (active a) (failed_target x) f f' e h = cc
next_without_path-and_then finished (active b) f f' e h = cc
next_without_path-and_then finished finished f f' e h = refl
next_without_path-and_then finished (failed_target x) f f' e h = cc
next_without_path-and_then (failed_target x) (active b) f f' e h = cc
next_without_path-and_then (failed_target x) finished f f' e h = cc
next_without_path-and_then (failed_target x) (failed_target y) f f' e h = cc

-- Routed targets are treated alike if the two validations agree up to paths.
add_routed-same :
    (v w : String → Option Error) (ts next : List String)
    → ((t : String) → cause_of (v t) ≡ cause_of (w t))
    → next_without_path (add_routed v ts next) ≡ next_without_path (add_routed w ts next)
unfolding add_routed
add_routed-same v w [] next h = refl
add_routed-same v w (t ∷ ts) next h = elim (Option-cases (v t)) [
  | inl a ↦ elim (Option-cases (w t)) [
    | inl b ↦ elim (Bool-cases (t == pregel_end)) [
      | inl end ↦ rw (a, b, end, add_routed) refl
      | inr other ↦ rw (a, b, other, add_routed) (add_routed-same v w ts _ h)
    ]
    | inr (y, b) ↦ absurd (cc (h t, a, b))
  ]
  | inr (x, a) ↦ elim (Option-cases (w t)) [
    | inl b ↦ absurd (cc (h t, a, b))
    | inr (y, b) ↦ rw (a, b, add_routed) (cc (h t, a, b))
  ]
]

-- What a run of graph/pregel.go returns, as `runPregelStyle` reports it.
abbrev pub reported : Option Error → Result String
reported none = ok "done"
reported (some e) = err (plain (cause e))

abbrev pub limited_pregel :
    {V : Type 0} → CompiledPregelGraph V → Option RunnerConfig → CompiledPregelGraph V
limited_pregel cpg opts =
    let cfg = configure run_mode_pregel trigger_any_predecessor cpg.max_steps opts in
    record cpg { max_steps = step_bound cfg.max_steps }

module _ {V : Type 0} (cpg : CompiledPregelGraph V) (start : Option (State V))
    (opts : Option RunnerConfig) where
  abbrev runner : Runner V
  runner = new_pregel_runner cpg start opts

  validate_pregel_target-same :
      (source target : String)
      → cause_of (validate_pregel_target runner source target)
        ≡ cause_of (validate_conditional_target cpg.pg source target)
  unfolding validate_pregel_target validate_conditional_target new_pregel_runner new_node_error
  validate_pregel_target-same source target = ground arith

  targets_of-same :
      (state : State V) (n : String) (next : List String)
      → next_without_path (targets_of runner state n next)
        ≡ next_without_path (add_targets cpg.pg state n next)
  unfolding targets_of add_targets new_pregel_runner
  targets_of-same state n next =
      next_without_path-and_then (add_static (get_or n [] cpg.pg.edges) next)
        (add_static (get_or n [] cpg.pg.edges) next) _ _ refl
        λ ns. elim (Option-cases (lookup n cpg.pg.conditional_edges)) [
          | inl e ↦ rw e refl
          | inr (router, e) ↦
              rw e (add_routed-same _ _ (router state) ns (validate_pregel_target-same n))
        ]

  next_nodes-same :
      (state : State V) (names next : List String)
      → next_without_path (next_nodes runner state names next)
        ≡ next_without_path (next_active cpg.pg state names next)
  unfolding next_nodes next_active
  next_nodes-same state [] next = refl
  next_nodes-same state (n ∷ ns) next =
      next_without_path-and_then _ _ _ _ (targets_of-same state n next) (next_nodes-same state ns)

  run_active-same :
      (state : State V) (names : List String)
      → without_path (run_active runner state names) ≡ without_path (run_nodes cpg.pg state names)
  unfolding run_active run_nodes new_pregel_runner new_node_error
  run_active-same state [] = refl
  run_active-same state (n ∷ ns) = elim (Option-cases (lookup n cpg.pg.nodes)) [
    | inl e ↦ rw (e, run_active, run_nodes) refl
    | inr (node, e) ↦
        rw (e, run_active, run_nodes)
          (without_path->>= _ _ _ _ (run_active-same state ns) λ rs. refl)
  ]

first_failure-same :
    {V : Type 0} (ns : List String) (rs : Map (Result (Map V)))
    → cause_of (first_failure ns rs) ≡ cause_of (check_results ns rs)
unfolding first_failure check_results
first_failure-same [] rs = refl
first_failure-same (n ∷ ns) rs = elim (Result-cases (get_or n (ok []) rs)) [
  | inl (out, e) ↦ rw (e, first_failure, check_results) (first_failure-same ns rs)
  | inr (x, e) ↦
      rw (e, first_failure, check_results)
        (cc (
          cause-wrap_node_error x (text_append "runner:pregel:" n),
          cause-wrap_node_error x (text_append "pregel:" n),
        ))
]

-- The same state is left, and the same is returned up to the path of an error.
abbrev pub Agrees : {V : Type 0} → RunnerEnding V → Ending V → Type 0
Agrees x y = (x.state ≡ y.state) × (without_path x.result ≡ reported y.error)

go_on-Agrees :
    {V : Type 0} (m m' : Next) (state : State V) (saved : List StepCheckpoint)
    (f : List String → RunnerEnding V) (f' : List String → Ending V)
    → next_without_path m ≡ next_without_path m'
    → ((ns : List String) → Agrees (f ns) (f' ns))
    → Agrees (go_on m state saved f) (continue m' state f')
go_on-Agrees (active a) (active b) state saved f f' e h =
    let same : a ≡ b = cc in subst (λ c. Agrees (f a) (f' c)) same (h a)
go_on-Agrees (active a) finished state saved f f' e h = absurd cc
go_on-Agrees (active a) (failed_target x) state saved f f' e h = absurd cc
go_on-Agrees finished (active b) state saved f f' e h = absurd cc
go_on-Agrees finished finished state saved f f' e h = (refl, refl)
go_on-Agrees finished (failed_target x) state saved f f' e h = absurd cc
go_on-Agrees (failed_target x) (active b) state saved f f' e h = absurd cc
go_on-Agrees (failed_target x) finished state saved f f' e h = absurd cc
go_on-Agrees (failed_target x) (failed_target y) state saved f f' e h = (refl, cc)

module _ {V : Type 0} (cpg : CompiledPregelGraph V) (start : Option (State V))
    (opts : Option RunnerConfig) where
  pregel_step-Agrees :
      (state : State V) (names : List String) (saved : List StepCheckpoint)
      (f : State V → List String → RunnerEnding V) (f' : State V → List String → Ending V)
      → ((s : State V) (ns : List String) → Agrees (f s ns) (f' s ns))
      → Agrees
          (pregel_step as_is (new_pregel_runner cpg start opts) state names saved f)
          (superstep as_is cpg.pg state names f')
  unfolding pregel_step superstep
  pregel_step-Agrees state names saved f f' h =
      let nodes = run_active-same cpg start opts state names in
      elim (Result-cases (run_active (new_pregel_runner cpg start opts) state names)) [
        | inr (x, a) ↦ elim (Result-cases (run_nodes cpg.pg state names)) [
          | inr (y, b) ↦ rw (a, b, pregel_step, superstep) (refl, cc (nodes, a, b))
          | inl (rs, b) ↦ absurd (cc (nodes, a, b))
        ]
        | inl (rs, a) ↦ elim (Result-cases (run_nodes cpg.pg state names)) [
          | inr (y, b) ↦ absurd (cc (nodes, a, b))
          | inl (qs, b) ↦
              let same : qs ≡ rs = cc (nodes, a, b) in
              let b' : run_nodes cpg.pg state names ≡ ok rs = b ∙ ap ok same in
              let failures = first_failure-same names rs in
              let state' = merge_results names rs state in
              elim (Option-cases (first_failure names rs)) [
                | inr (x, c) ↦ elim (Option-cases (check_results names rs)) [
                  | inr (y, d) ↦
                      rw (a, b', pregel_step, superstep, c, d) (refl, cc (failures, c, d))
                  | inl d ↦ absurd (cc (failures, c, d))
                ]
                | inl c ↦ elim (Option-cases (check_results names rs)) [
                  | inr (y, d) ↦ absurd (cc (failures, c, d))
                  | inl d ↦
                      rw (a, b', pregel_step, superstep, c, d)
                        (go_on-Agrees _ _ state' saved (f state') (f' state')
                          (next_nodes-same cpg start opts state' names []) (h state'))
                ]
              ]
        ]
      ]

  pregel_loop-Agrees :
      (left steps : ℕ) (saved : List StepCheckpoint) (state : State V) (names : List String)
      → Agrees
          (pregel_loop as_is (new_pregel_runner cpg start opts) left steps saved state names)
          (supersteps as_is cpg.pg left state names)
  unfolding pregel_loop supersteps wrap_node_error
  pregel_loop-Agrees left steps saved state [] = (refl, refl)
  pregel_loop-Agrees zero steps saved state (n ∷ ns) = (refl, refl)
  pregel_loop-Agrees (suc left) steps saved state (n ∷ ns) =
      pregel_step-Agrees state (n ∷ ns) _ _ _ (pregel_loop-Agrees left (suc steps) _)

-- Where results are ranged over in the order of the active nodes, the Pregel mode of a runner leaves
-- the state that `Run` of the graph returns for the runner's initial state and step limit, and
-- returns `done` where that run has no error, and otherwise an error with the same cause.
pub run_pregel_style-Agrees :
    {V : Type 0} (cpg : CompiledPregelGraph V) (initial : State V) (opts : Option RunnerConfig)
    → Agrees
        (run_pregel_style as_is (new_pregel_runner cpg (some initial) opts))
        (run as_is (limited_pregel cpg opts) initial)
unfolding run_pregel_style run new_pregel_runner
run_pregel_style-Agrees cpg initial opts =
    pregel_loop-Agrees cpg (some initial) opts (limited_pregel cpg opts).max_steps 0 [] initial
      (cpg.entry ∷ [])
