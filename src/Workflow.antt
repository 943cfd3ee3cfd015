-- ===== src/Workflow.antt =====
-- workflow/workflow.go: steps in sequence, at the same time, and by a choice. An agent step is a
-- `Step` of the caller, like a function step; tracing is left out.
pub mod Laws
mod Tests
use Prim.Native.String.{◌++◌ as text_append}
use covonaut.Base.{
  ℕ, zero, suc, ◌/◌, ◌%◌, String, List, [], ◌∷◌, Option, none, some, get_elem?, ltb, if◌then◌else◌,
  Map, lookup,
}
use covonaut.Agentcore.Errors.{
  Result, ok, err, ◌>>=◌, new_node_error, wrap_node_error, no_step_found,
}
use covonaut.Agentcore.Step.{Step}

abbrev pub digits : List String
digits = "0" ∷ "1" ∷ "2" ∷ "3" ∷ "4" ∷ "5" ∷ "6" ∷ "7" ∷ "8" ∷ "9" ∷ []

abbrev pub digit : ℕ → String
digit n = elim (get_elem? digits n) [ none ↦ "" | some d ↦ d ]

-- `%d`, with fuel for the digits but the first.
unfoldable pub decimal_from : ℕ → ℕ → String
decimal_from zero n = digit (n % 10)
decimal_from (suc fuel) n =
    let rest = decimal_from fuel (n / 10) in
    if ltb n 10 then digit n else text_append rest (digit (n % 10))

unfoldable pub indexed : String → ℕ → String
indexed name i = text_append name (text_append "[" (text_append (decimal_from i i) "]"))

-- The loop of `Pipeline.Run` from step `i` on.
unfoldable pub pipeline_from : ℕ → List Step → String → Result String
pipeline_from i [] current = ok current
pipeline_from i (step ∷ steps) current = elim (step current) [
  | err e ↦ err (wrap_node_error e (indexed "pipeline" i))
  | ok output ↦ pipeline_from (suc i) steps output
]

unfoldable pub run_pipeline : List Step → String → Result String
run_pipeline steps input = pipeline_from 0 steps input

-- The results of all steps, each of which runs on the same input.
unfoldable pub run_all : List Step → String → List (Result String)
run_all [] input = []
run_all (step ∷ steps) input = step input ∷ run_all steps input

-- The outputs, or the first error in the order of the steps.
unfoldable pub gather_from : ℕ → List (Result String) → Result (List String)
gather_from i [] = ok []
gather_from i (r ∷ rs) = elim r [
  | err e ↦ err (wrap_node_error e (indexed "parallel" i))
  | ok out ↦ gather_from (suc i) rs >>= λ outs. ok (out ∷ outs)
]

-- `strings.Join`
unfoldable pub join_with : String → List String → String
join_with sep [] = ""
join_with sep (p ∷ []) = p
join_with sep (p ∷ q ∷ ps) = text_append p (text_append sep (join_with sep (q ∷ ps)))

-- A nil `Merge` is `none`.
abbrev pub merge_by : Option (List String → String) → List String → String
merge_by none results = join_with "\n---\n" results
merge_by (some merge) results = merge results

unfoldable pub run_parallel : List Step → Option (List String → String) → String → Result String
run_parallel steps merge input =
    gather_from 0 (run_all steps input) >>= λ results. ok (merge_by merge results)

unfoldable pub run_router : (String → String) → Map Step → String → Result String
run_router route steps input = elim (lookup (route input) steps) [
  | none ↦ err (new_node_error no_step_found ("router" ∷ route input ∷ []))
  | some step ↦ elim (step input) [
    | err e ↦ err (wrap_node_error e (text_append "router:" (route input)))
    | ok output ↦ ok output
  ]
]
