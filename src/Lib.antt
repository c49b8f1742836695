-- ===== src/Lib.antt =====
-- Gateline: a verification library of the pipeline's record and of the table that drives it.
--
-- A run is a directory of artifacts on a branch, with a state file. People decide about it (approve or
-- decline a gate, resolve an escalation, pause, resume, arm, close, reopen), and an orchestrator looks
-- at the branch on every tick and derives the one next action: rest, dispatch agents, write bookkeeping
-- to the state, or escalate. The parts modelled, bottom up:
--
-- * Prelude - shared names: Boolean tests on the native numbers, lists, amounts of money, texts.
-- * Record - packages/core/src/record. Record/Phases.antt and Record/State.antt are schema.ts (phases,
--   gates, profiles, the parsed state and what is derived from it: deriveResumePhase, pendingGateAt,
--   decisionPhase, gateProducer); Record/Raw.antt and Record/Ledger.antt are ledger.ts;
--   Record/Artifact.antt is artifact.ts; Record/Packet.antt is g2PacketReady. Record/Decision.antt and
--   Record/Decision/Plan.antt are actions.ts: planDecision, one function for each action. The theorems
--   on decisions stand in the other children of Record/Decision.
-- * Sources - packages/core/src/sources. Sources/Order.antt is branch-order.ts: BranchOrder and
--   resolutionCommitsOf, on the CommitInfo of git.ts and the StateCommit of source.ts. Sources/Naming.antt and its children
--   are repository-id.ts: Naming/Origin.antt is parseOriginUrl, Naming/Rules.antt is repositoryIdProblem,
--   Naming/Derived.antt is deriveRepositoryId; the other two are theorems.
-- * View - packages/core/src/view-model. View/Readiness.antt is grantedAnotherRound of readiness.ts, which
--   decides whether a card still asks about a task at the round cap.
-- * Orchestrator - packages/orchestrator/src. Orchestrator/Observation.antt is the data of observe.ts,
--   review-report.ts and verification-report.ts, and the anchors; Orchestrator/Idle.antt is
--   idleDispatchCounts, and Orchestrator/History.antt, Orchestrator/Bouncing.antt and
--   Orchestrator/Observe.antt are what observeRun derives from the history, the ledger and the tasks (its
--   loop over the history is one walk for each of the facts that it gathers). derive.ts is
--   Orchestrator/Intents.antt (the actions and the reasons), Orchestrator/Checks.antt (gatedDispatch),
--   Orchestrator/Routes.antt (latestResolution, dispositionRoute), Orchestrator/Derive.antt (the producing
--   phases), Derive/Launches.antt and Derive/Tasks.antt (implementPhase) and Derive/Table.antt
--   (deriveAction): every rule of it. Derive/Induction.antt and Derive/Loop.antt are induction principles
--   for the table and for its loop over the tasks, and the other children are theorems.
--   Orchestrator/Router.antt is router.ts (route, adapterVendor), Orchestrator/Schedule.antt is
--   deriveSweep of schedule.ts.
-- * Orchestrator/Governor - packages/orchestrator/src/governor.ts, the one object that owns the cap on
--   concurrent dispatches and the spend window. Orchestrator/Governor.antt is its state (a Map is the
--   list of its entries in the order of insertion) and what only reads it; Governor/Spend.antt is
--   spendItems, repoSpend, machineSpend and expire; Governor/Waking.antt is freed with the wakes and
--   timers that follow it; Governor/Registering.antt is register, Governor/Counting.antt and
--   Governor/Reserving.antt are reserve, Governor/Leaving.antt is unregister, Governor/Reporting.antt is
--   seed and report, Governor/Calls.antt is the constructor, subscribe, commit and release, and a step for
--   each call; Governor/Words.antt is the text of a refusal. An asynchronous part is a later call: the two halves of report, the end of a
--   wake, the end of a timer. An object that is compared by identity (a slot, an offer) has a serial
--   number. A call reads the clock once. Repository ids and keys hold no NUL, so the composite keys of the
--   source are pairs, and toLowerCase is that of ASCII. The other children are theorems.
-- * Examples - sample runs and observations on which the theorems are applied.
--
-- How the state corresponds. The source plans a decision as a mutation of the YAML document and then
-- parses the document again; here a decision gives the new parsed state or the refusal, one constructor
-- of DecisionError for each `throw`. A `doc.setIn` is an update of a field. The clock and the name that a
-- decision is signed with are a Signature. A `Map` or a record that is only looked up is a function, one
-- that is walked is a list of pairs. A function that returns an action or null returns an Option; the
-- loop of implementPhase, which continues, returns or gathers, returns a Flow.
--
-- Numbers. Amounts of dollars are integers of micro-dollars, so sums are exact. Times are natural numbers
-- of milliseconds, also where the source keeps seconds with a fraction. A time stamp carries its text and
-- what Date.parse gives for it, none where that is no number. No loop needs fuel: all are structural.
--
-- Not modelled. The figures and log lines of the governor. The texts shown to a reader (`why`, the reason of a dispatch, commit messages, summaries);
-- the YAML and zod parsing, so decisions on values outside their types are not seen; the reading of
-- files and the parsing of reports by observeRun, so an observation is any value of its type; the engine that carries an action
-- out; the command line, server, web reader, framework installer and runner agent.
pub mod Prelude
pub mod Record
pub mod Sources
pub mod View
pub mod Orchestrator
pub mod Examples
