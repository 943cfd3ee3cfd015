-- ===== src/Graph/Interrupt/Resume.antt =====
-- Interrupts and resumptions do not change the result of a graph whose layers are single nodes.
use covonaut.Base.{
  ℕ, zero, suc, ◌+◌, ◌≤◌, ◌<◌, String, List, [], ◌∷◌, Bool, true, false, some, ◌≡◌, refl, sym, ◌∙◌,
  ap, arith, eq_iff, if◌then◌else◌, length, drop, Map, lookup, insert, lookup-insert,
}
use covonaut.Graph.Interrupt.{
  InterruptConfig, Checkpoint, CheckpointState, InterruptResult, InterruptableGraph, Progress, Pass,
  going, stopped, broken, run_from, Outcome, interrupted, conclude, run, resume, resume_from,
  resume_input,
}
use covonaut.Graph.Interrupt.Plain.{Plain, plain_layers, Saves, Passes}
use covonaut.Graph.Interrupt.Chain.{IsChain, layers-Passes}
use covonaut.Graph.Interrupt.Free.{outcome_of, layers-Free, Free-outcome}

-- Resumes with the saved input, under a new stamp each time, until the run is not interrupted.
unfoldable pub run_to_end :
    ℕ → (ℕ → String) → Outcome × InterruptableGraph → Outcome × InterruptableGraph
run_to_end zero stamp (o, ig) = (o, ig)
run_to_end (suc fuel) stamp (interrupted ir, ig) =
    run_to_end fuel stamp (resume ir.checkpoint_id "" (stamp fuel) ig)
run_to_end (suc fuel) stamp (o, ig) = (o, ig)

module _ (ig : InterruptableGraph) (input : String) (stamp : ℕ → String)
    (chain : IsChain ig.graph.sorted_layers)
    (fits : length ig.graph.sorted_layers ≤ ig.graph.max_steps) where
  abbrev all : List (List String)
  all = ig.graph.sorted_layers

  IsChain-drop : (k : ℕ) (ls : List (List String)) → IsChain ls → IsChain (drop k ls)
  IsChain-drop zero ls c = c
  IsChain-drop (suc k) [] c = c
  IsChain-drop (suc k) (l ∷ ls) c = IsChain-drop k ls c.1

  length-drop-le : (k : ℕ) (ls : List (List String)) → length (drop k ls) ≤ length ls
  length-drop-le zero ls = omega arith
  length-drop-le (suc k) [] = omega arith
  length-drop-le (suc k) (l ∷ ls) = omega (arith, length-drop-le k ls)

  abbrev at_store : Map Checkpoint → Map String → InterruptableGraph
  at_store store outputs = record ig { store = store; node_outputs = outputs }

  pass_from : String → ℕ → Map String → Pass
  pass_from s idx outputs = run_from ig.graph ig.interrupts input s idx true outputs

  -- The checkpoint that was saved last is found, and gives back the input.
  resume-saved :
      (store : Map Checkpoint) (outs : Map String) (cp : Checkpoint) (ir : InterruptResult)
      (s : String)
      → Saves ig.graph input ig.interrupts s outs cp ir
      → resume ir.checkpoint_id "" s (at_store (insert cp.id cp store) outs)
        ≡ conclude (at_store (insert cp.id cp store) outs) (pass_from s cp.step_index outs)
  unfolding resume pass_from
  resume-saved store outs cp ir s h =
      let found : lookup ir.checkpoint_id (insert cp.id cp store) ≡ some cp =
        ground
          (arith, lookup-insert cp.id ir.checkpoint_id cp store, eq_iff cp.id ir.checkpoint_id) in
      ap (λ o. resume_from o "" s (at_store (insert cp.id cp store) outs)) found
      ∙ ap
          (λ (st : CheckpointState).
            conclude (at_store (insert cp.id cp store) outs) (
              run_from ig.graph ig.interrupts (resume_input "" st) s cp.step_index true st.outputs))
          h.1

  -- From a pass over the layers from `ls` on, the end is that of the plain run.
  ends-plain :
      (fuel : ℕ) (store : Map Checkpoint) (before : Map String) (ls : List (List String))
      (skip : Bool) (r : Plain) (s : String) (x : Pass)
      → Passes ig.graph input ig.interrupts s all ls skip r x
      → length ls < fuel + (if skip then 1 else 0)
      → (run_to_end fuel stamp (conclude (at_store store before) x)).0 ≡ outcome_of ig.graph r
  unfolding run_to_end conclude pass_from run_from
  ends-plain zero store before ls skip r s (going p) h f = sym (ap (outcome_of ig.graph) h)
  ends-plain zero store before ls skip r s (broken outs e) h f = sym (ap (outcome_of ig.graph) h)
  ends-plain zero store before ls true r s (stopped outs cp ir) h f =
      absurd (omega (arith, h.3 refl))
  ends-plain zero store before ls false r s (stopped outs cp ir) h f = absurd (omega arith)
  ends-plain (suc fuel) store before ls skip r s (going p) h f = sym (ap (outcome_of ig.graph) h)
  ends-plain (suc fuel) store before ls skip r s (broken outs e) h f =
      sym (ap (outcome_of ig.graph) h)
  ends-plain (suc fuel) store before ls skip r s (stopped outs cp ir) h f =
      let left = drop cp.step_index all in
      let again : Progress = record { outputs = outs; steps = 0; skip = true } in
      let pass =
        layers-Passes ig.graph input ig.interrupts (stamp fuel) all left cp.step_index again
          (IsChain-drop cp.step_index all chain) refl
          (omega (arith, length-drop-le cp.step_index all)) in
      ap (λ (y : Outcome × InterruptableGraph). (run_to_end fuel stamp y).0)
        (resume-saved store outs cp ir (stamp fuel) h.0)
      ∙ ends-plain fuel (insert cp.id cp store) outs left true
          (plain_layers ig.graph input left outs) (stamp fuel) _ pass (shorter skip h.2 h.3 f)
      ∙ ap (outcome_of ig.graph) (sym h.1)
    where
      shorter :
          (b : Bool)
          → length (drop cp.step_index all) ≤ length ls
          → (b ≡ true → length (drop cp.step_index all) < length ls)
          → length ls < suc fuel + (if b then 1 else 0)
          → length (drop cp.step_index all) < fuel + 1
      shorter true a c d = omega (arith, c refl)
      shorter false a c d = omega arith

  -- If every layer of the graph is a single node and the step limit is at least the number of
  -- layers, then whatever interrupts are set, resuming with no new input after each of them ends,
  -- after at most as many resumptions as there are layers and one, with the outcome of the same
  -- graph without interrupts.
  pub run_to_end-same :
      (s : String)
      → (run_to_end (suc (length all)) stamp (run input s ig)).0
        ≡ (run input s (record ig { interrupts = [] })).0
  unfolding run run_from
  run_to_end-same s =
      let start : Progress = record { outputs = []; steps = 0; skip = false } in
      let pass = λ (interrupts : Map InterruptConfig).
        layers-Passes ig.graph input interrupts s all all 0 start chain refl (omega arith) in
      ends-plain (suc (length all)) ig.store ig.node_outputs all false
        (plain_layers ig.graph input all []) s _ (pass ig.interrupts) (omega arith)
      ∙ sym (
          Free-outcome (record ig { interrupts = [] }) input s all _ _ (pass [])
            (layers-Free ig.graph input s all 0 start))
