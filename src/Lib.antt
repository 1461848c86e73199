-- ===== src/Lib.antt =====
-- Krellin: a daemon that gives agents and their user a shared container, the capsule, for one
-- repository. A session takes actions into a queue (internal/queue), an executor (internal/executor)
-- works them off one by one through the session's handler (internal/session/handler.go) and sends
-- events to the subscribers (internal/session/session.go); an agent's request is a loop of prompts and
-- tool calls in the capsule (internal/session/agent_tools.go), patches go through a bookkeeper
-- (internal/patch), mounts through a policy (internal/policy), and a configuration file
-- (internal/config) names the image. The capsule is a container that internal/capsule/docker runs; the
-- user sends actions from the terminal interface of internal/client, over the daemon of
-- internal/daemon.
--
-- The files, by the code that they model:
--   Prelude, Prelude/*      shared notation; Go strings as lists of bytes (Text), the functions of
--                           package strings that the code uses, integers, results, maps with string keys
--   FilePath, FilePath/*    path.Clean, path.Join and filepath.Dir on slash paths, and what they say of the
--                           parts
--   Policy, Policy/Mounts   internal/policy/policy.go
--   Patch, Patch/*          internal/patch/patch.go: Parse (parseUnifiedDiff, parseHunkHeader,
--                           parseRange), Apply (applyHunks), Book (Bookkeeper: Apply, Revert, Diff)
--   Tools, Tools/*          internal/session/agent_tools.go: workspacePath, shellQuote, truncateOutput,
--                           pickDelimiter, extractFirstJSON
--   Queue, Queue/*          internal/queue/queue.go: Enqueue, Dequeue, Close, Len, and the goroutines
--                           that wait
--   Executor, Executor/*    internal/executor/executor.go: Run and emit
--   Protocol                internal/protocol/protocol.go: ValidateAction, ValidateEvent
--   Config, Config/*        internal/config/config.go; Files: Load, Write, defaults.go and update.go
--   Repo, Repo/*            internal/repo: FindRoot, ResolveRoot and RepoID
--   Wiring, Wiring/Safe     internal/app/wire.go: BuildSession
--   Agents, Agents/*        internal/agents/store.go, and of internal/session/handler.go the listing of
--                           providers; Handlers: those that select, toggle, add and delete one, and
--                           resolveActiveProvider; Files: the files of store.go and selection.go, and
--                           checker.go; Runner: internal/agents/runtime.go
--   Session/Context, Plan   internal/session/context.go and plan.go
--   Session/Prompts         the prompts of internal/session/agent_tools.go
--   Session/Rounds          the rounds of runAgentWithTools; the agent, the tools and the user are a record
--                           of operations (Hands), so that the theorems hold of any
--   Session/Planned         runPlanned and evaluateStep, the plans that an agent works off step by step;
--                           Whole: runAgentWithTools, which tries a plan before its rounds
--   Session/Toolbox         executeTool: the command of each tool call, and what is kept of its result
--   Session/Decoding        normalizeAgentResponse and decodeFirstJSON
--   Session/Answers         parseToolResponse, parsePlanResponse and the status that evaluateStep reads
--   Session/Messages        formatPlanSteps, formatStepResult, formatToolBlock, toolHeader, writePreview
--   Session/Agent           runAgentWithTools with executeTool, parseToolResponse and emitAgentMessage put
--                           in; what runPlanned reads and says
--   Session/Events          Subscribe, Unsubscribe and Emit of internal/session/session.go
--   Session/Streaming       Submit and streamPTY of internal/session/session.go
--   Session/Terminal        ensurePTY and resetPTY of internal/session/session.go, and run_command of
--                           internal/session/handler.go
--   Session/Actions, Handler  Handle and handleAgentPrompt of internal/session/handler.go, over a record
--                           of what a session is built from
--   Session/Start           Start of internal/session/session.go with internal/session/capsule.go, as
--                           one call, and as steps beside those of Subscribe, Unsubscribe, Emit and the
--                           readers of channels
--   Capsule, Capsule/*      internal/capsule/docker/docker.go: Arguments (buildCreateArgs and the other
--                           commands), Docker (Ensure, Reset, Exec, Commit, SetNetwork),
--                           Docker/Commands (the docker commands of Reset, as a log), Status
--   Containers, Cleanup     internal/containers/containers.go and cleanup.go; Images: internal/images
--   Daemon, Daemon/*        internal/daemon: the session table (daemon.go, ensure.go); Refines, a map that it
--                           implements; Races, calls that overlap; Router (router.go, handshake.go)
--   Client, Client/*        internal/client: Model (tuiModel), Timeline (the terminal's lines), Form (the
--                           form for a provider), Incoming (applyEvent), Commands (entered lines), Window
--                           (keys of the window on providers), Keys (Update), Lines (what is sent, and Run of
--                           input.go), Runs (runs of all that)
--   Tests, Tests/*          concrete runs
--
-- State is passed explicitly: a handler takes the stores and gives a result and the stores. Code
-- outside the repository is a parameter: the container, the HTTP client, the environment, the file
-- system, JSON, TOML, base64, hashes, the printing of unified diffs, and the change of case. Faults of
-- files, of the keychain and of the disk are values of the world that a handler runs in.
--
-- Fuel: parse_lines has the number of lines, of which each round drops one at least
-- (Patch/Parse/Enough); the printing of a number has the number itself, the writing to a terminal the
-- length of the command (Session/Terminal/Panics), the reading of an answer two rounds
-- (Session/Answers/Enough), the search for a root the number of the directories above it
-- (Repo/Resolved); the rounds of an agent are the source's own eight.
--
-- Not modelled: sockets, terminals, the keychain, the drawing of the interface, timestamps (only
-- whether one is zero), payloads as JSON, and the programs with their flags; these are input and
-- output, or calls of libraries. A decoder of JSON gives a value also where it fails; of objects only
-- the fields that the code looks at are kept. The docker program, the widgets of the interface, the
-- reading of times and the sort of the standard library are parameters; where a theorem relies on them
-- it says how. A write of a patched file that is refused changes nothing. Where Go's goroutines share
-- a state (Queue, Session/Start, Daemon/Races) the steps between two takings of the lock are atomic.
pub mod Prelude
pub mod FilePath
pub mod Policy
pub mod Repo
pub mod Patch
pub mod Tools
pub mod Queue
pub mod Agents
pub mod Capsule
pub mod Containers
pub mod Daemon
pub mod Wiring
pub mod Client
pub mod Config
pub mod Protocol
pub mod Executor
pub mod Session
pub mod Tests
