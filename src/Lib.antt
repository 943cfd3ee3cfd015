-- ===== src/Lib.antt =====
-- The workflow engine of covonaut, and the terminal input and session queries beside it.
--
-- The program runs agents and functions as the nodes of graphs. A graph is built node by node and
-- edge by edge (graph/graph.go), compiled into layers, and run layer by layer: the nodes of a
-- layer run at the same time, and the results are written to a map of outputs that the later
-- layers read. An interruptable graph (graph/checkpoint.go) runs the same layers one node at a
-- time, stops before or after chosen nodes, saves a checkpoint, and resumes from it. A Pregel
-- graph (graph/pregel.go) may have cycles: its nodes run in supersteps over a shared state. The
-- runner (graph/runner.go) is a second engine for both kinds of graphs. Workflows
-- (workflow/workflow.go) are sequences, parallel groups and choices of steps. Steps and errors are
-- those of agentcore. A session (session/tree.go) is a log of entries that name their parents, and
-- the terminal's bytes are split into events by a buffer (tui/terminal/stdin_buffer.go). The keys
-- among them edit a line with a kill ring (tui/component/input.go).
--
-- Base.antt holds what all parts share: texts, tests, lists, integers, and Go maps as association
-- lists. Agentcore.antt has the errors with their paths (agentcore/errors.go) and the steps
-- (agentcore/step.go, agentcore/stream.go), where a stream is the list of its chunks, and the
-- delays of retries (agentcore/retry.go). Graph.antt is the builder, Graph/Topo is `Compile` and
-- `topoSort`, Graph/Run is `Run`, Graph/Typed is graph/typed_graph.go with graph/typed.go,
-- Graph/Interrupt is graph/checkpoint.go, Pregel.antt is graph/pregel.go, Runner.antt is
-- graph/runner.go, Workflow.antt is workflow/workflow.go, Session.antt is session/tree.go, with
-- session/session.go in Session/Manager, Stdin.antt is the input buffer with `SkipAnsiSeq` of
-- tui/core/width.go, and Input.antt is the single-line editor with the word boundaries of
-- tui/core/runeutil.go (Input/Runes). The rest of Input holds the deletions, the yanks, the keys,
-- and in Input/Line the line that the editor stands for. Each operation has the name of its Go
-- function in snake case, with a prefix where two functions share a name; a method returns the new
-- receiver, and an error is a value of `Result`. The loops inside a function are definitions of
-- their own.
--
-- Goroutines of one layer or superstep work on inputs that are fixed before they start, so their
-- results are a map, and only the order in which Go ranges over that map is left open: it is a
-- `MapOrder`, any permutation, and the same one whenever it is given the same names. `Compile`
-- ranges over the edges in the order in which the first edge of each source was added, which is
-- one of the orders that Go may take. Steps, routers and Pregel nodes are functions of the caller.
-- `topoSort` recurses on the number of nodes, of which every round places one, the input buffer on
-- the number of its bytes, of which every round takes one, and `PathTo` on fuel that its caller
-- gives. The Pregel loop recurses on the steps left, which the source counts as well. Counters of
-- type int64 are natural numbers: they count nodes that have been started, or bytes in memory, and
-- stay far below 2 ^ 63.
--
-- encoding/json, files and foreign stores are the caller's: a session has a codec, which says what
-- is read of a line that json.Marshal wrote and how long the line is, and each operation is told
-- whether it succeeds; a Pregel run with checkpoints is told the errors of json.Marshal and of its
-- store. The outputs in the checkpoint of an interrupted graph are texts and come back as they
-- were.
--
-- Not modelled: contexts, tracing, the per-run graph state, the format of JSON, the clock, the
-- channels inside a stream with the streaming mode of the runner, callbacks, and the parts of the
-- repository outside these (protocols, providers, tools, servers, rendering), which call services
-- or devices.
pub mod Agentcore
pub mod Base
pub mod Graph
pub mod Input
pub mod Pregel
pub mod Runner
pub mod Session
pub mod Stdin
pub mod Workflow
