-- ===== src/Lib.antt =====
-- Verification of the core of aat, a toolkit that plans, runs and checks calls of an API from a
-- graph of its operations.
--
-- The parts that are modelled, and how they meet:
--
--   Predicate   internal/predicate/predicate.go, the language of conditions such as
--               `price >= 10 && kind in ['a', 'b']`. Token and Lexer model `tokenize`, Syntax the
--               nodes, Parser the methods of `parser`, Value and Eval the evaluation, with
--               `resolveField`, `compareMixed`, `compareString`, `decimalPair` and `Fields`.
--               Grammar states the grammar of the comments as a relation; Lexer/Fuel, Sound,
--               Shorter, Fuel and Reads hold the proofs. float64 and strconv are the record `Floats`, a parameter.
--   Graph       graph/chain.go and the part of graph/types.go that it reads. Names holds the sets
--               of names and the insertion sort, Topo models `chainTopoSort`, Model the graph and
--               `BuildSatisfierIndex`, Chain the conditions and the search of `BackwardChain`,
--               Chain/Select the choice of satisfiers, `computeReachable` and the edges, and
--               Chain/Backward puts the three phases together. The predicates of the graph's
--               conditions are evaluated by the function that the caller injects, a parameter.
--               Layer models graph/layer.go: the merge of an input's default, the layers applied
--               in order, the inputs that no node has, and the keys that a layer touches, with
--               proofs in Layer/Keys and Layer/Effective. Permute models graph/permute.go, with its
--               proof in Permute/Picks.
--   Engine      Routing models `ExecutorRouter` of engine/routing.go, over any executors and any
--               `filepath.Match`. Failure models the categories and retry rules of
--               engine/errors.go with the code table of internal/grpcstatus/grpcstatus.go and the
--               expected statuses of config/expected_status.go. Retry models the policy and the
--               loop of engine/retry.go; what sending a request gives, when the context is done,
--               and how long the server asks to wait are a parameter. State models
--               engine/run_state.go, KnownIssue plan/known_issue.go and the log of
--               engine/known_issue.go, and Steps the steps, nodes and step results. Cleanup models
--               engine/cleanup.go: the stack, and Ids the step IDs; Cleanup/Skip models
--               engine/cleanup_skip.go, and Cleanup/Chain `runCleanupChain` and
--               `runCleanupStack`. Execute models `executeStepWith`, `executeStepWithRetry`,
--               `executeStepWithTracking`, with or without `repeat`, and `sendCleanupEntry` over the
--               record `Engine`, which holds the engine's options and, as functions, what it calls: the resolution of inputs, the requests, the reading of
--               answers and their checks. Run models the main loop of `Run` in engine/engine.go,
--               whose round settles a step's result against its expectation and its known issue,
--               stores its outputs, registers its cleanup, and decides how the run goes on;
--               Run/Verify models `runVerification`, Run/Cleaning `runCleanup`, and Run/Finish `endRun`,
--               `checkpointResult` and the whole of `Run`.
--               Run/Settle, Run/Conclude, Run/Accounts, Run/Owed, Run/Kept, Run/Sequence, Run/Paired
--               and Run/Cleaned hold the proofs.
--               Scheduler models `TopologicalSort` of engine/scheduler.go over the maps of
--               Graph/Topo, with the edges' keys as texts; Scheduler/Keys, Added, Order, Stable and
--               Sorted hold its proofs.
--               Status models the reading and writing of expected statuses in
--               config/expected_status.go, with internal/httpstatus/httpstatus.go, and Pacer the
--               slots of engine/pacer.go.
--               Selection models `applySelection` of engine/selection.go, over the records of
--               draws and of field paths that it calls; Selection/Match, Extreme, Safe, Range and
--               Chosen hold its proofs. Fallback models `resolveWithFallback` of engine/resolve.go, the
--               default, the constraint and the pool of an input's value, over the expressions and
--               the shuffle that it calls; Fallback/Pool and Passing hold its proofs.
--               Repeat models `executeStepRepeated` of engine/repeat.go; Repeat/Rest,
--               Rounds and Laws hold its proofs.
--   Plan        Binding models plan/binding.go: the references of a step, `dependsOnStep`, the
--               choice of a producer and `InjectReferenceDeps`, over the steps of Plan, where the
--               expressions of a step are read as the references that plan/expr.go finds in them.
--               Reach, Acyclic, Referenced and Inject hold its proofs. Cycles models `detectDependsOnCycles` of
--               plan/validate.go, with its proofs below it.
--   Base        the shared names, lists, results and texts. A text is the list of its bytes.
--
-- Go's maps are lists without duplicates, or functions with the zero value for a missing key. Where
-- Go's order over a map is not determined, the model takes the order of insertion. Error values
-- keep what their texts report, not the wording. A status is a natural number.
--
-- Fuel. The tokenizer gets a unit for each byte. The parser gets one unit more than there are
-- tokens, each nested expression using a token. The backward search gets a unit for each name that
-- it may queue: the goals, the required nodes, and the satisfiers of the tokens of all nodes. The
-- loop over reachable nodes gets a unit for each goal, required node and edge, and the sort a unit
-- for each node. A cleanup chain gets a unit for each node of the graph and one more, the search
-- for a free step ID a unit for each ID in use, and the closure of the paired cleanup nodes a unit
-- for each node and two more. The search of `dependsOnStep` gets a round for the step it starts
-- from and one for each name among the dependencies of the plan's steps. The search for cycles among
-- them may go as deep as there are names among the steps' IDs and dependencies.
--
-- Not modelled: the adapters that send requests, the reading of YAML, OpenAPI and protobuf files,
-- archives, the servers, language models and command line, which are input and output around third-
-- party libraries; `EvalExpanding` and `ExpandText` of predicates; the closing of executors; the
-- jitter of the backoff and the parsing of Retry-After; the parsing, instantiation and other
-- validation of plans and the expressions of plan/expr.go; fuzzing, so that the queue of a run is
-- its plan's sorted steps; the rest of engine/resolve.go; the validation of a graph; the values of json.Number, and the state of
-- the random generator, of which a draw is a function of the number of choices.
pub mod Base
pub mod Predicate
pub mod Graph
pub mod Engine
pub mod Plan
