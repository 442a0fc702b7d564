-- ===== src/Lib.antt =====
-- minicloud: a verification library for the control and data plane of a small WebAssembly cloud.
--
-- Controllers place Assignments of a Function version on Workers, tell each Worker which Assignments
-- it may serve, and publish Routes to Gateways; a Gateway selects a Route target and a Worker accepts
-- the invocation only under a current permission. The library models the parts that decide this:
--
--   internal/servingauth      ServingAuth (identities and their validation), ServingAuth.Gate (state
--                             and reads), ServingAuth.Gate.Methods (the methods of Gate). Theorems:
--                             Gate.Invariant, Gate.Install, Gate.Authorize, Gate.Fencing.
--   internal/scheduler        Scheduler (types), Scheduler.Validate, Scheduler.Candidates (hard
--                             filters and scores), Scheduler.Ranking (the three-way comparisons),
--                             Scheduler.Planner (state, barrier, acknowledgement) and
--                             Scheduler.Planner.Plan (Plan). Theorems: Scheduler.Fits and, below
--                             Scheduler.Planner, Placement, Effects, Retention, Idempotence, Barrier.
--   internal/workerregistry   Registry (state and reads), Registry.Methods (CommitSession, Register,
--                             ReportInventory, Heartbeat), Registry.Control (Evaluate, SetIntent,
--                             UpdateDrain, Snapshot). Registry.Lifecycle is the life of one Worker
--                             record as a step relation; Registry.Evolution and Registry.Steps show
--                             that the methods follow it, Registry.Sessions what follows from it.
--   internal/routing and      Routing (Route targets, their validation, the hash preimage) and
--   internal/model/route.go   Routing.Bucket (bucket, target choice, SelectServing). Theorems:
--                             Routing.Weights, Routing.Selection, Routing.Order, Routing.Preimage.
--   internal/discovery        Discovery (the Endpoint and the check of its address).
--   internal/gatewayroute     Balancer (the Endpoints, Acquire, Release, Inflight and the leases).
--                             Theorems: Balancer.Leases, Balancer.Choice.
--   internal/workercache/load_gate.go
--                             LoadGate (a load, one step for each operation on a channel),
--                             LoadGate.Occupancy (all loads in any interleaving).
--                             Theorems: also LoadGate.Progress.
--   internal/workeragent/limiter.go
--                             WorkerAgent.Limiter (a call of acquire, one step for each select, and
--                             release), WorkerAgent.Limiter.Occupancy (all calls in any interleaving).
--                             Theorems: also WorkerAgent.Limiter.Progress.
--   internal/model            Model (the persisted values), Model.Validate, Model.Policy (the effective
--                             policy and its digest), Model.Route (the persisted Route and its serving
--                             projection). Routing.Select is Select on the persisted Route.
--   internal/controlplane     ControlPlane.Catalog, ControlPlane.Release, ControlPlane.Routes,
--                             ControlPlane.Assignments and ControlPlane.Ledger, each with its state and
--                             validation, and its methods there or in a child Methods;
--                             Routes.Serving is ServingStates and Ledger.Canonical the request digest.
--                             ControlPlane.State puts the stores together: one call of any of them, and
--                             histories of calls. Theorems: State.History, State.Versions,
--                             State.Placements, Ledger.Once; the other modules there say what one call
--                             writes and which invariant that keeps.
--   internal/validator/protocol/protocol.go
--                             ValidatorProtocol (the report of the validator process).
--   internal/strictjson       StrictJson (Validate), StrictJson.Fuel (its fuel is enough).
--   internal/problem, internal/digest, internal/wasmprofile/profile.go, internal/workercache/key.go
--                             Problem, Digest, WasmProfile, WorkerCache.
--
-- Base and Text carry what these share: Boolean tests, lists, signed integers, association lists,
-- comparisons and sorting, and Go strings as lists of bytes with the patterns the program matches.
-- Tests holds concrete runs and an instance of each theorem.
--
-- How the source corresponds. A struct with a mutex is a record, and since each method holds the
-- mutex from its first to its last access, a method is one function from the old record and the
-- arguments to the new record and the results; concurrent use is a list of such calls in some order,
-- `run`. The load gate and the limiter have no mutex: each operation on one of their channels is a
-- step, and an interleaving is a path of steps of any number of goroutines. A method that reads the
-- injected monotonic clock takes the reading as an argument, so nothing is assumed of the clock.
-- Names are the source's in snake case: Gate.AuthorizeSync is authorize_sync. A Go map is an
-- association list in which `insert` replaces, a Go set the list of its members, and a returned
-- `error` the Option Error or the Result of Problem, with the source's code, field and message (a
-- wrapped `errors.Join` is its first part, `fmt.Errorf` with %w is `wrapped`, a RevisionConflict
-- `mismatch`). An enumeration of strings is a data type with one constructor for each constant, and
-- one for any other text where the source checks it. Guards against nil receivers and the defensive
-- clones have no counterpart, since values are not shared; the clone of an Outcome, which sorts, is
-- kept. A `time.Time` is its instant in nanoseconds with the offset of its zone and has no monotonic
-- reading, so that Round(0) does nothing. Methods that span stores hold the mutexes of all of them
-- and are one function on these; CreateVersion reads the parent Function before it takes its mutex,
-- and what it read is an argument. The callback of CompleteAfter is a function on a state of any
-- type, and the new state is kept when it fails.
--
-- Bounds. `uint64` and `uint32` arithmetic that may wrap keeps its `% 2 ^ w`. Signed durations and
-- sizes are integers, and their differences, of two clock readings, are taken exactly. Loops are
-- recursions on the list they range over. Fuel: the twenty digits of a `uint64` in decimal, and
-- twice the bytes of a JSON text plus one, which StrictJson.Fuel shows to be enough for every decoder
-- that takes a byte for each token. The limits of the stores (100000 operations, 100000 assignments,
-- 1000 functions, 100 versions of a function) and the retention times are the source's constants.
-- Insertion sort stands for slices.SortFunc; where no two elements tie, which the comparisons in use
-- or the validations before them ensure, there is only one sorted list. A range over a Go map, whose
-- order is unspecified, goes through the association list in its order.
--
-- Parameters. json.Marshal, the JSON canonicaliser and SHA-256 are arguments of the definitions that
-- call them, and so are strings.TrimSpace, net.SplitHostPort, netip.ParseAddr, url.ParseRequestURI,
-- URL.EscapedPath and json.Decoder (PolicyEncoding, RequestEncoding and Decoder are records of such
-- functions). The choice of a
-- Route target assumes only that the hash consists of bytes.
--
-- Not modelled: the snapshots of the control plane's stores and the state digest of the Catalog,
-- which only read; the discovery builder and publisher and the Gateway's snapshot store, the Worker
-- agent but for its limiter, the module cache, the local controller that composes them, the RPC and
-- HTTP layers, the frames of the validator process, the Wasm engine, the SDK, and the commands.
pub mod Base
pub mod Text
pub mod Problem
pub mod Digest
pub mod WasmProfile
pub mod WorkerCache
pub mod Model
pub mod ValidatorProtocol
pub mod StrictJson
pub mod ControlPlane
pub mod ServingAuth
pub mod Scheduler
pub mod Registry
pub mod Routing
pub mod Discovery
pub mod Balancer
pub mod LoadGate
pub mod WorkerAgent
pub mod Tests
