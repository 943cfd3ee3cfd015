-- ===== src/Graph/Run.antt =====
-- graph/graph.go, lines 191 to 386: `Run` of a compiled graph. The nodes of a layer run at the same
-- time on inputs that are fixed before they start, so their results are a map; `o` is the order in
-- which Go ranges over it. Spans, contexts and the state function have no part in the result.
pub mod Reverse
pub mod Layer
pub mod Dataflow
pub mod Progress
use Prim.Native.Nat.{Ordering}
use Prim.Native.String.{◌++◌ as text_append, compare as text_compare}
use covonaut.Base.{
  ℕ, zero, suc, ◌+◌, String, List, [], ◌∷◌, ◌++◌, Bool, true, false, ◌||◌, Option, none, some, ◌==◌,
  ltb, if◌then◌else◌, contains, Map, keys, lookup, insert, get_or, member,
}
use covonaut.Agentcore.Errors.{
  Error, plain, Result, ok, err, ◌>>=◌, ◌>>◌, wrap_node_error, new_node_error, exceed_max_steps,
  no_matching_target,
}
use covonaut.Agentcore.Step.{Step, StreamStep, run_step, stream_step_to_step}
use covonaut.Graph.{Graph, ConditionalEdge, successors, is_empty}
use covonaut.Graph.WellFormed.{names}
use covonaut.Graph.Topo.{MapOrder, CompiledGraph}

-- `result += "\n---\n"` before every part but the first.
unfoldable pub join_from : String → List String → String
join_from result [] = result
join_from result (p ∷ ps) = join_from (text_append (text_append result "\n---\n") p) ps

unfoldable pub join_outputs : List String → String
join_outputs [] = ""
join_outputs (p ∷ ps) = join_from p ps

-- The outputs there are of the given nodes.
unfoldable pub present : Map String → List String → List String
present outputs [] = []
present outputs (p ∷ ps) =
    let rest = present outputs ps in elim (lookup p outputs) [ none ↦ rest | some out ↦ out ∷ rest ]

-- One part is taken as it is, several are joined, and with none the input of the graph is used.
unfoldable pub pick_input : String → List String → String
pick_input input [] = input
pick_input input (p ∷ []) = p
pick_input input (p ∷ q ∷ ps) = join_outputs (p ∷ q ∷ ps)

unfoldable pub node_input : CompiledGraph → String → Map String → String → String
node_input cg input outputs name =
    let preds = get_or name [] cg.rev_edges in
    if is_empty preds then input else pick_input input (present outputs preds)

unfoldable pub get_node : CompiledGraph → String → Option Step
get_node cg name = elim (lookup name cg.graph.nodes) [
  | some step ↦ some step
  | none ↦ elim (lookup name cg.stream_nodes) [
    | some s ↦ some (stream_step_to_step s)
    | none ↦ none
  ]
]

-- `for _, target := range targets { outputs[target] = "" }`
unfoldable pub mark_all : List String → Map String → Map String
mark_all [] outputs = outputs
mark_all (t ∷ ts) outputs = mark_all ts (insert t "" outputs)

abbrev pub route_to : String → String → List String → Map String → Result (Map String)
route_to name target targets outputs =
    if contains targets target
    then ok (insert target "" outputs)
    else err (new_node_error no_matching_target ("conditional" ∷ name ∷ target ∷ []))

abbrev pub activate_by :
    Option ConditionalEdge → List String → String → String → Map String → Result (Map String)
activate_by (some c) static name output outputs = route_to name (c.route output) c.targets outputs
activate_by none static name output outputs = ok (mark_all static outputs)

unfoldable pub activate_successors : Graph → String → String → Map String → Result (Map String)
activate_successors g name output outputs =
    activate_by (lookup name g.conditional_edges) (successors g.edges name) name output outputs

-- The nodes of a layer that are reached so far.
unfoldable pub reached : String → Map String → List String → List String
reached entry outputs [] = []
reached entry outputs (n ∷ ns) =
    let rest = reached entry outputs ns in if member n outputs || n == entry then n ∷ rest else rest

abbrev pub outcome : CompiledGraph → String → Map String → String → Result String
outcome cg input outputs name = run_step (get_node cg name) (node_input cg input outputs name)

-- The loop that counts the steps and starts the nodes; their results, and the count.
unfoldable pub launch :
    CompiledGraph → String → Map String → List String → ℕ → Result (Map (Result String) × ℕ)
launch cg input outputs [] steps = ok ([], steps)
launch cg input outputs (n ∷ ns) steps =
    let rest = launch cg input outputs ns (suc steps) in
    if ltb cg.max_steps (suc steps)
    then err (wrap_node_error (plain exceed_max_steps) "graph")
    else rest >>= λ (rs, s). ok ((n, outcome cg input outputs n) ∷ rs, s)

-- `for name, err := range errs`
unfoldable pub check_errors : List String → Map (Result String) → Result (Unit {0})
check_errors [] rs = ok tt
check_errors (n ∷ ns) rs = elim (get_or n (ok "") rs) [
  | ok out ↦ check_errors ns rs
  | err e ↦ err (wrap_node_error e (text_append "graph:" n))
]

abbrev pub value : Result String → String
value (ok out) = out
value (err e) = ""

-- `for name, out := range results`
unfoldable pub commit : Graph → List String → Map (Result String) → Map String → Result (Map String)
commit g [] rs outputs = ok outputs
commit g (n ∷ ns) rs outputs =
    let out = value (get_or n (ok "") rs) in
    activate_successors g n out (insert n out outputs) >>= commit g ns rs

unfoldable pub run_layer :
    MapOrder → CompiledGraph → String → List String → Map String × ℕ → Result (Map String × ℕ)
run_layer o cg input layer (outputs, steps) = do
  let layer_nodes = reached cg.entry outputs layer
  (rs, steps') ← launch cg input outputs layer_nodes steps
  check_errors (o.apply layer_nodes) rs
  outputs' ← commit cg.graph (o.apply layer_nodes) rs outputs
  ok (outputs', steps')

unfoldable pub run_layers :
    MapOrder
    → CompiledGraph
    → String
    → List (List String)
    → Map String × ℕ
    → Result (Map String × ℕ)
run_layers o cg input [] s = ok s
run_layers o cg input (l ∷ ls) s = run_layer o cg input l s >>= run_layers o cg input ls

-- The names of all nodes.
abbrev pub all_nodes : Map Step → Map StreamStep → List String
all_nodes nodes stream_nodes = keys nodes ++ keys stream_nodes

unfoldable pub insert_sorted : String → List String → List String
insert_sorted x [] = x ∷ []
insert_sorted x (y ∷ ys) =
    let rest = insert_sorted x ys in
    elim (text_compare x y) [ Ordering.gt ↦ y ∷ rest | _ ↦ x ∷ y ∷ ys ]

-- `sort.Strings`
unfoldable pub sort_strings : List String → List String
sort_strings [] = []
sort_strings (x ∷ xs) = insert_sorted x (sort_strings xs)

-- The terminal nodes with an output that is not empty.
unfoldable pub terminal_names : Map (List String) → Map String → List String → List String
terminal_names edges outputs [] = []
terminal_names edges outputs (n ∷ ns) =
    let rest = terminal_names edges outputs ns in
    if is_empty (successors edges n)
    then if get_or n "" outputs == "" then rest else n ∷ rest
    else rest

unfoldable pub find_terminal_output : List String → Map (List String) → Map String → String
find_terminal_output node_names edges outputs =
    pick_input "" (present outputs (sort_strings (terminal_names edges outputs node_names)))

-- The outputs of all nodes, from which `Run` takes its result.
unfoldable pub run_outputs : MapOrder → CompiledGraph → String → Result (Map String × ℕ)
run_outputs o cg input = run_layers o cg input cg.sorted_layers (insert cg.entry "" [], 0)

unfoldable pub run : MapOrder → CompiledGraph → String → Result String
run o cg input = run_outputs o cg input >>= λ (outputs, steps).
    ok (find_terminal_output (all_nodes cg.graph.nodes cg.stream_nodes) cg.graph.edges outputs)
