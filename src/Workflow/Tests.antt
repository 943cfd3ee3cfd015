-- ===== src/Workflow/Tests.antt =====
-- Workflows of small steps, and the theorems at them.
use Prim.Native.String.{◌++◌ as text_append}
use covonaut.Base.{String, [], ◌∷◌, ◌≡◌, refl, none, lookup}
use covonaut.Agentcore.Errors.{
  ok, err, plain, failed, node_error, no_step_found, new_node_error, wrap_node_error,
}
use covonaut.Agentcore.Step.{Step}
use covonaut.Workflow.{
  decimal_from, indexed, pipeline_from, run_pipeline, run_all, gather_from, join_with, run_parallel,
  run_router,
}
use covonaut.Workflow.Laws.{IsPiped, run_pipeline-IsPiped, IsOutcome, run_parallel-IsOutcome}

workflow_program : Unit {0}
unfolding lookup decimal_from indexed pipeline_from run_pipeline run_all gather_from join_with
    run_parallel run_router wrap_node_error
workflow_program = tt

abbrev add : String → Step
add s input = ok (text_append input s)

abbrev broken : Step
broken input = err (plain (failed input))

run_pipeline-two :
    run_pipeline (add "a" ∷ broken ∷ []) "" ≡ err (node_error ("pipeline[1]" ∷ []) (failed "a"))
unfolding workflow_program
run_pipeline-two = refl

run_pipeline-IsPiped_example :
    IsPiped 0 (add "a" ∷ broken ∷ []) "" (run_pipeline (add "a" ∷ broken ∷ []) "")
run_pipeline-IsPiped_example = run_pipeline-IsPiped (add "a" ∷ broken ∷ []) ""

run_parallel-two : run_parallel (add "a" ∷ add "b" ∷ []) none ">" ≡ ok ">a\n---\n>b"
unfolding workflow_program
run_parallel-two = refl

run_router-missing :
    run_router (λ s. s) (("a", add "a") ∷ []) "b"
    ≡ err (node_error ("router" ∷ "b" ∷ []) no_step_found)
unfolding workflow_program new_node_error
run_router-missing = refl

run_parallel-IsOutcome_example :
    IsOutcome
      (add "a" ∷ broken ∷ broken ∷ [])
      none
      ">"
      (run_parallel (add "a" ∷ broken ∷ broken ∷ []) none ">")
run_parallel-IsOutcome_example = run_parallel-IsOutcome (add "a" ∷ broken ∷ broken ∷ []) none ">"
