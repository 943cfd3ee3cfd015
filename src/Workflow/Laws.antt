-- ===== src/Workflow/Laws.antt =====
-- workflow/workflow.go: the outcomes of steps in sequence and of steps at the same time.
use covonaut.Base.{
  ℕ, zero, suc, ◌+◌, String, List, [], ◌∷◌, ◌++◌, Option, some, ◌≡◌, refl, ◌∙◌, ap, arith, length,
  inl, inr, get_elem?, map, ◌<◌,
}
use covonaut.Agentcore.Errors.{Error, Result, ok, err, ◌>>=◌, wrap_node_error, Result-cases}
use covonaut.Agentcore.Step.{Step}
use covonaut.Workflow.{
  indexed, pipeline_from, run_pipeline, run_all, gather_from, merge_by, run_parallel,
}

-- Each step succeeds on what the step before it returned; the last returns `output`.
abbrev pub Passes : List Step → String → String → Type 0
Passes [] input output = input ≡ output
Passes (step ∷ steps) input output =
    (next : String) × ((step input ≡ ok next) × Passes steps next output)

-- The steps before `step` succeed, and `step` fails with the error, to which its index, counted from
-- `i`, is put in front.
pub record StopsAt (i : ℕ) (steps : List Step) (input : String) (e : Error) : Type 0 where
  pub done : List Step
  pub step : Step
  pub rest : List Step
  pub next : String
  pub failure : Error
  pub splits : steps ≡ done ++ step ∷ rest
  pub passed : Passes done input next
  pub fails : step next ≡ err failure
  pub located : e ≡ wrap_node_error failure (indexed "pipeline" (i + length done))

-- The outcome of a pipeline, told from its steps.
abbrev pub IsPiped : ℕ → List Step → String → Result String → Type 0
IsPiped i steps input (ok output) = Passes steps input output
IsPiped i steps input (err e) = StopsAt i steps input e

IsPiped-cons :
    (i : ℕ) (step : Step) (steps : List Step) (input next : String) (r : Result String)
    → step input ≡ ok next
    → IsPiped (suc i) steps next r
    → IsPiped i (step ∷ steps) input r
IsPiped-cons i step steps input next (ok output) runs piped = (next, (runs, piped))
IsPiped-cons i step steps input next (err e) runs piped =
    let same : suc i + length piped.done ≡ i + suc (length piped.done) = omega arith in
    record {
      done = step ∷ piped.done;
      step = piped.step;
      rest = piped.rest;
      next = piped.next;
      failure = piped.failure;
      splits = ap (λ l. step ∷ l) piped.splits;
      passed = (next, (runs, piped.passed));
      fails = piped.fails;
      located = piped.located ∙ ap (λ k. wrap_node_error piped.failure (indexed "pipeline" k)) same;
    }

pipeline_from-IsPiped :
    (i : ℕ) (steps : List Step) (input : String)
    → IsPiped i steps input (pipeline_from i steps input)
unfolding pipeline_from
pipeline_from-IsPiped i [] input = refl
pipeline_from-IsPiped i (step ∷ steps) input = elim (Result-cases (step input)) [
  | inr (e, fails) ↦
      let same : i ≡ i + 0 = omega arith in
      rw (fails, pipeline_from)
        (record {
          done = [];
          step = step;
          rest = steps;
          next = input;
          failure = e;
          splits = refl;
          passed = refl;
          fails = fails;
          located = ap (λ k. wrap_node_error e (indexed "pipeline" k)) same;
        })
  | inl (next, runs) ↦
      rw (runs, pipeline_from)
        (IsPiped-cons i step steps input next (pipeline_from (suc i) steps next) runs
          (pipeline_from-IsPiped (suc i) steps next))
]

-- If a pipeline succeeds, each step succeeded on what the step before it returned, and the output is
-- that of the last; if it fails, the steps before some step succeeded so, that step failed on what
-- they returned, and the error is its error with its index, counted from 0.
pub run_pipeline-IsPiped :
    (steps : List Step) (input : String) → IsPiped 0 steps input (run_pipeline steps input)
unfolding run_pipeline
run_pipeline-IsPiped steps input = pipeline_from-IsPiped 0 steps input

-- The first result that is an error, counted from `i`, with the segment of its step.
abbrev pub FailsAt : ℕ → List (Result String) → Error → Type 0
FailsAt i rs e =
    (k : ℕ) × (x : Error) × (get_elem? rs k ≡ some (err x))
    × (e ≡ wrap_node_error x (indexed "parallel" (i + k)))
    × ((j : ℕ) → j < k → (out : String) × (get_elem? rs j ≡ some (ok out)))

abbrev pub Gathered : ℕ → List (Result String) → Result (List String) → Type 0
Gathered i rs (ok outs) = rs ≡ map ok outs
Gathered i rs (err e) = FailsAt i rs e

Gathered-cons :
    (i : ℕ) (out : String) (rs : List (Result String)) (r : Result (List String))
    → Gathered (suc i) rs r
    → Gathered i (ok out ∷ rs) (r >>= λ outs. ok (out ∷ outs))
Gathered-cons i out rs (ok outs) h = ap (λ t. ok out ∷ t) h
Gathered-cons i out rs (err e) (k, x, at, shape, before) =
    let same : suc i + k ≡ i + suc k = omega arith in
    (suc k, x, at, shape ∙ ap (λ n. wrap_node_error x (indexed "parallel" n)) same, earlier)
  where
    earlier : (j : ℕ) → j < suc k → (o : String) × (get_elem? (ok out ∷ rs) j ≡ some (ok o))
    earlier zero h = (out, refl)
    earlier (suc j) h = before j (omega arith)

gather_from-Gathered : (i : ℕ) (rs : List (Result String)) → Gathered i rs (gather_from i rs)
unfolding gather_from
gather_from-Gathered i [] = refl
gather_from-Gathered i (err x ∷ rs) =
    let same : i ≡ i + 0 = omega arith in
    (
      zero,
      x,
      refl,
      ap (λ k. wrap_node_error x (indexed "parallel" k)) same,
      λ j h. absurd (omega arith),
    )
gather_from-Gathered i (ok out ∷ rs) =
    Gathered-cons i out rs (gather_from (suc i) rs) (gather_from-Gathered (suc i) rs)

-- The outcome of parallel steps, told from the results of the steps.
abbrev pub IsOutcome : List Step → Option (List String → String) → String → Result String → Type 0
IsOutcome steps merge input (ok r) =
    (outs : List String) × (run_all steps input ≡ map ok outs) × (r ≡ merge_by merge outs)
IsOutcome steps merge input (err e) = FailsAt 0 (run_all steps input) e

-- Parallel steps return their outputs in the order of the steps, merged, if all succeed; otherwise
-- the error of the first step that fails, with its index.
pub run_parallel-IsOutcome :
    (steps : List Step) (merge : Option (List String → String)) (input : String)
    → IsOutcome steps merge input (run_parallel steps merge input)
unfolding run_parallel
run_parallel-IsOutcome steps merge input =
    merged (gather_from 0 (run_all steps input)) (gather_from-Gathered 0 (run_all steps input))
  where
    merged :
        (r : Result (List String))
        → Gathered 0 (run_all steps input) r
        → IsOutcome steps merge input (r >>= λ results. ok (merge_by merge results))
    merged (ok outs) h = (outs, h, refl)
    merged (err e) h = h
