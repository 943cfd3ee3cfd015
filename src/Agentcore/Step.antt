-- ===== src/Agentcore/Step.antt =====
-- agentcore/step.go and `CollectString` of agentcore/stream.go. A step is code of the caller: a
-- function from its input to its output or error. A stream is the list of the chunks sent on it.
use Prim.Native.String.{◌++◌ as text_append}
use covonaut.Base.{String, List, [], ◌∷◌, Option, none, some}
use covonaut.Agentcore.Errors.{Result, ok, err, plain, nil_dereference, ◌>>=◌}

abbrev pub Step : Type 0
Step = String → Result String

abbrev pub StreamStep : Type 0
StreamStep = List String → Result (List String)

-- `strings.Join(items, "")`
unfoldable pub collect_string : List String → String
collect_string [] = ""
collect_string (c ∷ cs) = text_append c (collect_string cs)

unfoldable pub stream_step_to_step : StreamStep → Step
stream_step_to_step s input = s (input ∷ []) >>= λ out. ok (collect_string out)

unfoldable pub step_to_stream_step : Step → StreamStep
step_to_stream_step s input = s (collect_string input) >>= λ out. ok (out ∷ [])

-- `step.Run` on an interface value that may be nil.
unfoldable pub run_step : Option Step → String → Result String
run_step none input = err (plain nil_dereference)
run_step (some s) input = s input
