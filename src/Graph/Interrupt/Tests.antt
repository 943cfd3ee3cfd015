-- ===== src/Graph/Interrupt/Tests.antt =====
-- Interrupted runs of small graphs, and the theorems at them.
use covonaut.Base.{
  ℕ, String, [], ◌∷◌, ◌≡◌, ap, refl, ◌≢◌, true, false, some, arith, Map, lookup, ◌==◌,
}
use covonaut.Agentcore.Errors.{ok, err, plain, checkpoint_not_found}
use covonaut.Graph.Tests.{with_edges, program, nodes-Built, from_a, sample_compiled}
use covonaut.Graph.{Graph}
use covonaut.Graph.Built.{Built, edge}
use covonaut.Graph.Topo.{CompiledGraph, compile, compiled}
use covonaut.Graph.Topo.Orders.{as_is}
use covonaut.Graph.Interrupt.{
  Checkpoint, InterruptResult, InterruptableGraph, finished, interrupted, after_node, stopped,
  Progress, run, resume, visit, present_outputs, resolve_node_input, save_checkpoint, execute,
  visit_all, visit_layers, run_from, conclude,
}
use covonaut.Graph.Interrupt.Resume.{run_to_end, run_to_end-same}
use covonaut.Graph.Interrupt.Skips.{resume_keeps, after_interrupt_skips}
use covonaut.Graph.Interrupt.Store.{save, load, remove_checkpoint}

-- The definitions that an interrupted run computes with.
interrupt_program : Unit {0}
unfolding program present_outputs resolve_node_input save_checkpoint execute visit visit_all
    visit_layers run_from conclude run resume run_to_end save load remove_checkpoint
interrupt_program = tt

-- b stops before and after, c before.
abbrev stopping : InterruptableGraph
stopping = record {
  graph = sample_compiled;
  store = [];
  interrupts =
      ("b", record { before = true; after = true })
      ∷ ("c", record { before = true; after = false })
      ∷ [];
  node_outputs = [];
}

abbrev stamps : ℕ → String
stamps n = "t"

run_to_end-same_example :
    (run_to_end 4 stamps (run ">" "t" stopping)).0
    ≡ (run ">" "t" (record stopping { interrupts = [] })).0
unfolding compiled
run_to_end-same_example =
    run_to_end-same stopping ">" stamps (refl, (refl, (refl, tt))) (omega arith) "t"

run_to_end-stopping : (run_to_end 4 stamps (run ">" "t" stopping)).0 ≡ finished ">a\n---\n>abc"
unfolding interrupt_program
run_to_end-stopping = refl

-- a → b, a → c
abbrev fork : Graph
fork = with_edges (("a", "b" ∷ "c" ∷ []) ∷ [])

fork-Built : Built fork
unfolding program
fork-Built =
    edge {g = with_edges (("a", "b" ∷ []) ∷ [])} "a" "c" (edge "a" "b" nodes-Built refl) refl

abbrev fork_compiled : CompiledGraph
fork_compiled = compiled from_a fork (("a" ∷ []) ∷ ("b" ∷ "c" ∷ []) ∷ [])

compile-fork : compile as_is from_a fork ≡ ok fork_compiled
unfolding program
compile-fork = refl

abbrev started : Map String
started = ("a", ">a") ∷ ("b", "") ∷ ("c", "") ∷ []

abbrev stopped_at_b : Map String
stopped_at_b = ("a", ">a") ∷ ("b", ">ab") ∷ ("c", "") ∷ []

abbrev at_b : Checkpoint
at_b = record {
  id = "cp_b_after_t";
  graph_id = "";
  node_name = "b";
  step_index = 2;
  state = record { outputs = stopped_at_b; last_input = ">" };
  phase = after_node;
}

abbrev stop_b : InterruptResult
stop_b = record {
  checkpoint_id = "cp_b_after_t";
  node_name = "b";
  phase = after_node;
  output = ">ab";
}

abbrev fork_stopped : InterruptableGraph
fork_stopped = record {
  graph = fork_compiled;
  store = ("cp_b_after_t", at_b) ∷ [];
  interrupts = ("b", record { before = false; after = true }) ∷ [];
  node_outputs = stopped_at_b;
}

-- The run of the fork stops behind b, and c has not run.
run-fork :
    run ">" "t" (record fork_stopped { store = []; node_outputs = [] })
    ≡ (interrupted stop_b, fork_stopped)
unfolding interrupt_program
run-fork = refl

-- Resumed, it ends without the output of c.
resume-fork : (resume "cp_b_after_t" "" "u" fork_stopped).0 ≡ finished ">ab"
unfolding interrupt_program
resume-fork = refl

-- Without interrupts it ends with both.
run-fork_plain :
    (run ">" "t" (record fork_stopped { interrupts = [] })).0 ≡ finished ">ab\n---\n>ac"
unfolding interrupt_program
run-fork_plain = refl

abbrev before_b : Progress
before_b = record { outputs = started; steps = 1; skip = false }

visit-b :
    visit fork_compiled fork_stopped.interrupts ">" "t" "b" 1 before_b
    ≡ stopped stopped_at_b at_b stop_b
unfolding interrupt_program
visit-b = refl

found-b : lookup "cp_b_after_t" fork_stopped.store ≡ some at_b
unfolding lookup
found-b = refl

after_interrupt_skips_example :
    lookup "c" (resume "cp_b_after_t" "" "u" fork_stopped).1.node_outputs ≡ lookup "c" started
unfolding compiled
after_interrupt_skips_example =
    after_interrupt_skips as_is from_a fork fork_compiled fork-Built compile-fork fork_stopped
      "cp_b_after_t" ">" "t" "" "u" "b" "c" 1 before_b ("b" ∷ "c" ∷ []) [] stopped_at_b at_b stop_b
      refl refl (omega arith) (omega arith) b-ne-c visit-b refl found-b
  where
    b-ne-c : ◌≢◌ {A = String} "b" "c"
    b-ne-c e = let differ : true ≡ false = ap (λ (x : String). x == "b") e in cc

resume_keeps_example :
    lookup "b" (resume "cp_b_after_t" "" "u" fork_stopped).1.node_outputs ≡ lookup "b" stopped_at_b
unfolding compiled
resume_keeps_example =
    resume_keeps as_is from_a fork fork_compiled fork-Built compile-fork fork_stopped "cp_b_after_t"
      "" "u" "b" at_b refl found-b (omega arith)

load-saved : load "cp_b_after_t" (save at_b []) ≡ ok at_b
unfolding interrupt_program
load-saved = refl

load-removed :
    load "cp_b_after_t" (remove_checkpoint "cp_b_after_t" (save at_b []))
    ≡ err (plain checkpoint_not_found)
unfolding interrupt_program
load-removed = refl
