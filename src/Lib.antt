-- ===== src/Lib.antt =====
-- Load Observatory: a controller that stores targets, runs and searches, agents that generate load and
-- measure it, and the rules that judge a measurement. This library models the rules, the statistics,
-- what an agent counts, the store with its database, sign-in, monitoring and the controller's handlers.
--
-- How the parts work together: the controller creates a run (internal/store/store.go: CreateRun), whose
-- shards agents claim (ClaimRun). An agent measures (internal/agent/runner.go), keeps a bounded sample
-- of the latencies and reports a result for its shard; the store merges the results of a run's shards
-- (CompleteShard). A capacity search (internal/core/search.go) asks for runs at rising loads and picks
-- the knee; the store queues the run that it asks for (AdvanceSearch). A request reaches a handler
-- (internal/controller/server.go) through a route; those of people pass the gate (internal/auth/auth.go)
-- first. A handler checks its input (internal/core/target.go), calls the store and adds a sample of the
-- servers' metrics (internal/monitor/monitor.go). PostgresStore writes the store's state after a call.
--
-- The files:
--   Prelude       numbers (the integers without a bound), lists, sorting, maps as association lists,
--                 and `Floats`, the interface of float64; Prelude/Evolution relates two states of a map
--   Core/Types    the records and enumerations of internal/core/types.go. A text id is a number, with 0
--                 for the empty text; an enumeration that Go leaves open has a constructor `other`
--   Core/Captures the records of captured traffic in internal/core/types.go. A session's id is the number
--                 of its hash, or an id with a time after it
--   Core/Server   the model server's configuration, from internal/core/provenance.go
--   Core/Ladder, Core/Verdict, Core/Search
--                 internal/core/search.go: SweepLadder; IsRunStable and InstabilityMessage; AdvanceSearch,
--                 KneeLoad and finishSearch. A message is the constructor that names its text, with the
--                 numbers that the text shows
--   Core/Validation
--                 internal/core/target.go: ValidateRunConfig and its checks, in their order;
--                 internal/core/search.go: ValidateAutoSearchConfig
--   Core/Target   internal/core/target.go: ValidateTargetWithAllowedHostSuffixes, on the URL as parsed and
--                 on code points
--   Core/Saturation
--                 internal/core/saturation.go: series, AssessSaturation, AssessRunValidity, AttributeTTFT
--   Core/Provenance
--                 internal/core/provenance.go: the merge of two server configurations and the reports
--                 over its fields
--   Stats         internal/agent/runner.go: p95, distribution, average and percentile; an index out of
--                 range, which panics in Go, is `none`. The store's copies compute the same
--   Agent/SampleSet
--                 internal/agent/runner.go: sampleSet
--   Agent/Records, Agent/Measurements, Agent/Success
--                 internal/agent/runner.go: measurements; the begin and the end of attempts, the timeline,
--                 the guardrails
--   Agent/Report  internal/agent/runner.go: result, sampleGauges and the counters of sessions
--   Agent/Workload, Agent/Backoff
--                 internal/agent/runner.go: nextWorkload and nextJourney; the circuit breaker
--   Store         internal/store/store.go: MemoryStore and its methods; Store/Claim is ClaimRun,
--                 Store/Merge the merge of results, Store/Completion CompleteShard, Store/Searches the
--                 methods on searches, Store/Records the smaller ones, Store/Zero the zero values that a
--                 missing key reads as, Store/Lifecycle what no sequence of calls does,
--                 Store/Guards what cancelling and deleting leave, Store/Views what is read
--   Store/Captures
--                 internal/store/store.go: RecordCapture, DeleteCapture and the capture settings; settings
--                 that were never configured are `none`
--   Store/Persistence
--                 internal/store/postgres.go and postgres_crypto.go, with Snapshot and Restore of store.go
--   Auth          internal/auth/auth.go: the signed cookie; Auth/Base64 is base64url as the code uses it,
--                 Auth/Gate the gate and its handlers
--   Monitor       internal/monitor/monitor.go: query, resolve and Sample; Monitor/Table is the table of
--                 metrics, Monitor/Labels the configuration that a server's labels show
--   Controller    internal/controller/server.go: the handlers for agents; Controller/Changes is those
--                 that create, cancel and delete, Controller/Defaults what they fill in,
--                 Controller/Reads those that show what is stored, Controller/Sampling the samples of
--                 each second, Controller/Routes the choice of a route by ServeHTTP and serveHumanAPI
--   Controller/Proxy
--                 internal/controller/capture.go: the settings of the capture proxy; Proxy/Events is what
--                 is read of an answer, Proxy/Completion captureCompletion and recordCapture
--   Examples      concrete inputs and the theorems applied to them
--
-- Choices: a method under the store's mutex is one function on the state, so that a concurrent execution
-- is a list of calls. The order in which `range` visits a map is an argument wherever it shows. Times
-- are arguments. int and int64 are integers without a bound; no overflow is modelled, but a
-- shift by a negative count, which is a huge one as a uint, gives 0 as in Go. A float64 is a type
-- with the operations that the program uses and no law; what a theorem needs of them is its hypothesis.
-- JSON text is taken for the values that it encodes, and a request's body for what it decodes to. HMAC,
-- the identity provider, AES-GCM, whether the database takes a row, the parsing of URLs and addresses and
-- the answers of Prometheus are parameters, and what is needed of one is a hypothesis of the theorem.
-- Metrics, cookies and errors are constructors.
-- `doublings` runs on fuel 12, the length at which the source's loop breaks. `sweep` runs on the number
-- of rungs above its load and one, which is shown to be enough.
--
-- Not modelled: the request loop of the agent with its goroutines and timers, exports, the check of a
-- target, the commands and the web page: they are input and output around what is modelled, or are left
-- for later.
pub mod Prelude
pub mod Core
pub mod Stats
pub mod Agent
pub mod Store
pub mod Auth
pub mod Monitor
pub mod Controller
pub mod Examples
