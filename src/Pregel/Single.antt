-- ===== src/Pregel/Single.antt =====
-- graph/pregel.go: where every node has at most one next node, the two ways to run a graph agree.
use Prim.Native.String.{◌++◌ as text_append}
use covonaut.Base.{
  ℕ, ◌+◌, ◌≤◌, String, List, [], Option, none, some, ◌≡◌, length, lookup, get_or, ◌⊎◌,
}
use covonaut.Agentcore.Errors.{Failure, Error, plain, cause}
use covonaut.Pregel.{State, Router, PregelGraph, Ending, Next, active, finished, failed_target}
use covonaut.Pregel.Checkpointed.{PregelCheckpoint, CheckpointedEnding, Saving}

abbrev pub failure_of : Option Error → Option Failure
failure_of none = none
failure_of (some e) = some (cause e)

-- At most so many next nodes.
abbrev IsShort : ℕ → Next → Type 0
IsShort k (active ns) = length ns ≤ k
IsShort k finished = Unit
IsShort k (failed_target e) = Unit

module _ {V : Type 0} where
  abbrev pub routed : Option (Router V) → State V → List String
  routed none state = []
  routed (some router) state = router state

  -- Every node has at most one static target and routed target together, in every state.
  abbrev pub IsSingle : PregelGraph V → Type 0
  IsSingle g =
      (n : String) (state : State V)
      → length (get_or n [] g.edges) + length (routed (lookup n g.conditional_edges) state) ≤ 1

  -- The same state, and an error with the same cause, or none.
  abbrev pub SameEnd : CheckpointedEnding V → Ending V → Type 0
  SameEnd x y = (x.state ≡ y.state) × (failure_of x.error ≡ failure_of y.error)

  -- The run ends with the error of a checkpoint that could not be encoded or saved.
  abbrev pub IsUnsaved : Saving V → CheckpointedEnding V → Type 0
  IsUnsaved io x =
      (f : Failure) × (x.error ≡ some (plain f))
      × ((io.marshal_error x.state ≡ some f)
          ⊎ ((cp : PregelCheckpoint V) × ((cp.saved_state ≡ x.state)
                × (io.save_error x.saved cp ≡ some f))))

  abbrev pub EndsAlike : Saving V → CheckpointedEnding V → Ending V → Type 0
  EndsAlike io x y = IsUnsaved io x ⊎ SameEnd x y
