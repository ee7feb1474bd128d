-- ===== src/Lib.antt =====
-- The Seagull backend: what its core decides, and that it decides it right.
--
-- The backend takes security events from agents, decides detections on them and gives people
-- alerts to work on. Agents are registered, bound to a certificate, moved between states and told
-- to data planes by a log of admissions; detections are counted and folded into alerts; callers of
-- the control plane hold grants; releases of the agent are rolled out wave by wave. Each part is
-- pure code around which a store or a handler makes one atomic step, so a state machine here is a
-- function from a state and what is asked to a new state or an error, and a history is a list of
-- such steps.
--
-- Which file models which part:
-- Identifier models the identifier patterns of internal/agentidentity/identity.go (Valid),
-- internal/event/validate.go (ValidIdentifier) and internal/authz (ValidSubject, ValidRole).
-- Agent models internal/agent: Agent/State the table of moves (state.go), Agent/Register
-- registration (register.go), Agent/Identity what certificate identity may be bound (identity.go,
-- Bindable), Agent/Move one act on an agent (move.go, Apply and Admission, and certificate.go),
-- Agent/Roster the gateway's copy of the decisions (roster.go, Apply, Refuse, Tenant), and
-- Agent/Gateway how the gateway fills it from the agents' log (cmd/ingest-gateway/roster.go, read
-- and applying), where a record that cannot be read refuses the agent it is keyed by. Their proofs
-- are Agent/Lifecycle, Agent/Renewal, Agent/Roster/Join, and Agent/Gateway/Batches, Entries,
-- Convergence, Decisions and Refusals beside it.
-- Alert models internal/alert (state.go, move.go) in Alert/State and Alert/Move, and the store's
-- folding of detections (internal/postgres/fold.go, Record) in Alert/Fold, and the correlation key
-- (key.go, CorrelationKey; internal/detection/held.go) in Alert/Key; the proofs are Alert/Lifecycle,
-- Alert/Trail, Alert/Fold/Invariant, Alert/Fold/Replay and Alert/Key/Correlation.
-- Authz models internal/authz: Authz/Permission (permission.go, role.go), Authz/Policy (policy.go,
-- Compile and Grant), Authz/Grant (grant.go, Decide and DecideWithin); the proof against what the
-- policy document states is Authz/Compiled, on the loops' lemmas in Authz/Loading.
-- DetectionState models internal/detectionstate: Bounds (bounds.go), Observation (observation.go)
-- and Window, the observations of one key (keeper.go, the type held); the proofs are
-- DetectionState/Window/Shape, DetectionState/Window/Observe and DetectionState/Window/Order.
-- DetectionState/Key (key.go, KeyFor) and DetectionState/Partitioning (partitioning.go) say which
-- key an event is counted under and which rules one reader can hold; Written models the text that
-- names are digests of, each part with its length in front.
-- DetectionState/Keeper models the store of keys (keeper.go, fold, admit and open; tenancy.go,
-- reclaim and sweep); the proofs are DetectionState/Keeper/Ceilings, on Within, Room and Admission
-- beside it, and DetectionState/Keeper/Isolation.
-- Detection models internal/detection: Detection/Value what an operator asks of a value
-- (contradiction.go, answers; decide.go, answered), Detection/Node the compiled tree and its walk
-- (compile.go; decide.go, holds), Detection/Decide Decide and Satisfied, Detection/Contradiction
-- what a conjunction asks of one field (contradiction.go, narrowed and empty). Detection/Meaning
-- says what a tree means; the proofs are Detection/Gathered and Detection/Sufficient for the
-- evidence, and Detection/Alike, Detection/Inside, Detection/Unmet and Detection/Refused for the
-- contradictions. Detection/Identity is the name of a detection (detected.go, identify).
-- Analysis models internal/analysis on top of them: Analysis/Stages the stages of an event
-- (internal/detection/sequence.go), Analysis/Sequence the earliest story of a window (sequence.go,
-- ordered), Analysis/Completed what the engine makes of an event of an open key (sequence.go,
-- completed; count.go, reached); the proof over two events is Analysis/Story.
-- Release models versions and what a report says of a release (internal/agentupdate/version.go,
-- Compare; progress.go, Judge and Takes).
-- Rollout models internal/agentupdate/rollout.go and progress.go: Rollout/Waves (validateWaves),
-- Rollout/Change (AcceptRollout, Apply), Rollout/Names (StateName, ParseState, AcceptChange),
-- Rollout/Gate (Gate, Opened, Paused, and the end of a reading in internal/control/rollouts.go),
-- Rollout/Reach (Reaches, Offered, Wanted); the proofs over sequences are Rollout/Reach/Steps
-- and Rollout/Reach/Offers.
-- Limiter models internal/platform/ratelimit/limiter.go; the proofs are Limiter/Invariant
-- and Limiter/Budget.
-- Currency models internal/ingest/currency.go: when the gateway's roster is too old to admit by.
-- Base holds what they share, and Examples concrete inputs and runs.
--
-- How state and operations correspond: a Go struct is a record with its fields, an enumeration or
-- a string of declared values a data type with one further constructor for any other value, a map
-- an association list, a string its bytes, an instant or a duration a number of nanoseconds from
-- 0. An operation that returns an error is a function into a result, whose error is the sentinel
-- that the Go error wraps; the sentence around it is left out. Revisions and waves wrap at 64 and
-- 32 bits, as in the source. A lock or a transaction makes one step.
--
-- Bounds and fuel: recursion is on the lists that the loops range over. Two loops are on fuel:
-- the limiter's eviction, whose fuel is the number of entries (a theorem about what it leaves needs
-- that it ends at the capacity, and has it), and the decimal digits of a length in Written, whose
-- fuel is one more than the number (they are read back as that number).
--
-- Parameters are code that is not in the repository, or what the source reads of the generated
-- contract: how the value of a record of the agents' log decodes, the token bucket of a rate
-- limiter, the first bytes of a SHA-256 digest, what the agents' log answers, an identifier that
-- is drawn at random, the digests, the fields that the event contract declares and their kinds,
-- what an event holds in a field, how a value, a class or a severity is written, and the
-- contract's types of numbers, with what Go's `==` and the conversion to a float64 are relied on
-- for.
--
-- Not modelled: sessions, incidents, the validation and compilation of detection rules, the
-- ingest gateway's admission, catalogs and roots of updates, hunting queries, and everything
-- that is a database, a broker, HTTP, configuration or a process.
pub mod Agent
pub mod Alert
pub mod Analysis
pub mod Authz
pub mod Base
pub mod Currency
pub mod Detection
pub mod DetectionState
pub mod Examples
pub mod Identifier
pub mod Limiter
pub mod Release
pub mod Rollout
pub mod Written
