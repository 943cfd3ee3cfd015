-- ===== src/Runner/PregelMode.antt =====
-- graph/runner.go: `runPregelStyle` and what it calls.
use Prim.Native.String.{◌++◌ as text_append}
use covonaut.Base.{
  ℕ, zero, suc, String, List, [], ◌∷◌, ◌++◌, Option, none, some, ◌==◌, if◌then◌else◌, contains, Map,
  lookup, get_or, member,
}
use covonaut.Agentcore.Errors.{
  Error, plain, Result, ok, err, ◌>>=◌, new_node_error, wrap_node_error, node_not_found,
  unknown_conditional_target, undeclared_target, exceed_max_steps,
}
use covonaut.Graph.{is_empty}
use covonaut.Graph.Topo.{MapOrder}
use covonaut.Pregel.{
  pregel_end, State, Next, active, finished, failed_target, and_then, add_static, add_routed,
  merge_results,
}
use covonaut.Runner.{Runner, step_bound}

pub record StepCheckpoint : Type 0 where
  pub node_name : String
  pub step_index : ℕ
  pub active_nodes : List String

-- What the Pregel mode leaves: the state that the caller's pointer shows, what was saved, and what
-- is returned.
pub record RunnerEnding (V : Type 0) : Type 0 where
  pub state : State V
  pub saved : List StepCheckpoint
  pub result : Result String

abbrev pub first_of : List String → String
first_of [] = ""
first_of (n ∷ ns) = n

module _ {V : Type 0} where
  unfoldable pub validate_pregel_target : Runner V → String → String → Option Error
  validate_pregel_target r source target =
      let declared = get_or source [] r.pregel_conditional_targets in
      let path = "runner:pregel" ∷ source ∷ target ∷ [] in
      if is_empty declared
      then if target == pregel_end
        then none
        else if member target r.pregel_nodes
        then none
        else some (new_node_error unknown_conditional_target path)
      else if contains declared target
      then none
      else some (new_node_error undeclared_target path)

  unfoldable pub run_active : Runner V → State V → List String → Result (Map (Result (Map V)))
  run_active r base [] = ok []
  run_active r base (n ∷ ns) = elim (lookup n r.pregel_nodes) [
    | none ↦ err (new_node_error node_not_found ("runner:pregel" ∷ n ∷ []))
    | some node ↦ run_active r base ns >>= λ rs. ok ((n, node base) ∷ rs)
  ]

  unfoldable pub first_failure : List String → Map (Result (Map V)) → Option Error
  first_failure [] rs = none
  first_failure (n ∷ ns) rs = elim (get_or n (ok []) rs) [
    | ok out ↦ first_failure ns rs
    | err e ↦ some (wrap_node_error e (text_append "runner:pregel:" n))
  ]

  unfoldable pub targets_of : Runner V → State V → String → List String → Next
  targets_of r state name next = and_then (add_static (get_or name [] r.edges) next) λ next'.
      elim (lookup name r.pregel_conditionals) [
        | none ↦ active next'
        | some router ↦ add_routed (validate_pregel_target r name) (router state) next'
      ]

  unfoldable pub next_nodes : Runner V → State V → List String → List String → Next
  next_nodes r state [] next = active next
  next_nodes r state (n ∷ ns) next = and_then (targets_of r state n next) (next_nodes r state ns)

  unfoldable pub save_step : Runner V → List String → ℕ → List StepCheckpoint → List StepCheckpoint
  save_step r names step saved =
      let cp : StepCheckpoint = record {
        node_name = first_of names;
        step_index = step;
        active_nodes = names;
      } in
      if r.config.store then saved ++ cp ∷ [] else saved

  abbrev pub stop_with : State V → List StepCheckpoint → Result String → RunnerEnding V
  stop_with state saved result = record { state = state; saved = saved; result = result }

  abbrev pub go_on :
      Next → State V → List StepCheckpoint → (List String → RunnerEnding V) → RunnerEnding V
  go_on (active ns) state saved rest = rest ns
  go_on finished state saved rest = stop_with state saved (ok "done")
  go_on (failed_target e) state saved rest = stop_with state saved (err e)

  -- One superstep; the results are merged in the order of the active nodes.
  unfoldable pub pregel_step :
      MapOrder
      → Runner V
      → State V
      → List String
      → List StepCheckpoint
      → (State V → List String → RunnerEnding V)
      → RunnerEnding V
  pregel_step o r state names saved rest = elim (run_active r state names) [
    | err e ↦ stop_with state saved (err e)
    | ok rs ↦ elim (first_failure (o.apply names) rs) [
      | some e ↦ stop_with state saved (err e)
      | none ↦
          let state' = merge_results names rs state in
          go_on (next_nodes r state' names []) state' saved (rest state')
    ]
  ]

  -- The loop `for len(active) > 0`; `left` is `MaxSteps - steps`.
  unfoldable pub pregel_loop :
      MapOrder → Runner V → ℕ → ℕ → List StepCheckpoint → State V → List String → RunnerEnding V
  pregel_loop o r left steps saved state [] = stop_with state saved (ok "done")
  pregel_loop o r zero steps saved state (n ∷ ns) =
      stop_with state saved (err (wrap_node_error (plain exceed_max_steps) "runner:pregel"))
  pregel_loop o r (suc left) steps saved state (n ∷ ns) =
      let saved' = save_step r (n ∷ ns) (suc steps) saved in
      pregel_step o r state (n ∷ ns) saved' (pregel_loop o r left (suc steps) saved')

  unfoldable pub run_pregel_style : MapOrder → Runner V → RunnerEnding V
  run_pregel_style o r =
      pregel_loop o r (step_bound r.config.max_steps) 0 [] r.pregel_state (r.entry ∷ [])
