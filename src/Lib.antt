-- ===== src/Lib.antt =====
-- Verification library of VelarixBot, a server that runs a team of assistant bots. Its core decides
-- which bot may run when, what a turn may do without its user, and what becomes of delegated work.
--
-- The parts, and how they meet:
-- * Lanes (server/services/lanes.ts): the lane scheduler. Every turn that is not started at once is
--   queued in one of four lanes, picked in turn over the lanes and dispatched to its bot, one turn a
--   bot. Opts holds the options of a turn, State the scheduler and its small helpers, Pump `pickNext`,
--   `dispatch` up to its first wait and `pump`, Calls `enqueue`, `cancel`, `noteIdle` and the rest of
--   `dispatch`. Invariant, Keeps and Safety carry the invariant that History states of every history;
--   Fairness, Drain, Exclusive, Cancelling, Cancelled and Dedupe prove what their names say.
-- * LaneKeys (server/repositories/lanes.ts): the durable idempotency keys that `enqueue` claims. The
--   table is the list of its rows in the order of insertion.
-- * Lease (server/computer/leases.ts): the lease broker of a computer that the bots share.
-- * Unattended (server/unattended.ts): the marks of bots whose turn nobody watches.
-- * Handoff (server/handoff.ts): which asks are about signing in, and what their card shows.
-- * Approvals (server/approvals.ts): the stored approval rules, their patterns, the calls that write
--   them and the decision on an ask; Decide reads Unattended and Handoff before any rule.
-- * Tasks (server/agent-tasks.ts): the tasks that a lead assigns, with the in-memory store that the
--   calls run on.
-- * Grants (server/repositories/desktop-access-grants.ts and user-workspace-bindings.ts): the grants of
--   access to a desktop, and the bindings of users to machines with their generations. History has the
--   calls in any order.
-- * Oauth (server/oauth/transactions.ts): the transactions of a sign-in, which are used once.
-- * Proactive (server/proactive.ts): the nudges of bots that wait for their user.
-- * Workflow (server/workflow.ts): the bots that a lead waits for.
-- * Ledger (server/repositories/agent-task-runs.ts, server/db/migrations.ts, server/contracts.ts): the
--   durable ledger of delegated runs and of the deliveries of their results. Contracts has what a
--   worker hands in, Canonical the bytes that are hashed, Rows the tables, Runs `createPending`,
--   `bindRunning` and `recordProgress`, Report and Finalize `finalize`, Deliveries `claim`, Receipts
--   `ack`, `failDelivery`, `retryFailed` and `markPublished`; Schema is what the triggers ask for.
--   Writes, Attempts, Retries and Effects say what each call writes, Kept, Sealed, Repeated, Stale,
--   Outcomes and Told prove what the ledger promises. It tells the tasks of Tasks how their run ended.
--   Stamps, Pump and Answers are the delivery service (server/services/delegated-results.ts): what
--   the progress messages of a run say, `deliverOne` and `pumpDue` over the ledger and the stored
--   messages, and `finalize` with what it answers; Delivered, Delivers and Pumped prove what the
--   pump promises. A progress message and a message that a delivery puts are kept apart, as the
--   report of a delivery is never one of progress.
-- * Events (server/repositories/event-log.ts, server/services/events.ts): the durable log with a
--   sequence for each stream, and the hub that sends its frames to clients and resumes them.
-- * Triggers (server/triggers/, with a filter of server/listeners/slack.ts and the event names of
--   server/listeners/github.ts): the triggers of routines, the schedules that they are stored as, and
--   the events that they match.
-- Prelude has what they share: Boolean tests, lists over native numbers, texts, and Map.
--
-- How the code is read. The JavaScript program is one thread, so a call up to its first wait is one
-- function from state to state. A wait ends in an event of its own: in Lanes a run that returns, a run
-- that throws and a bot that is noted idle are the operations `returned`, `failed` and `resumed`, and
-- a microtask that pumps is a later call of `pump`; in Lease a promise is a ticket, and a timer that
-- fires is the operation `fire`. Objects that several structures share, the items of Lanes, are
-- references into a heap. Errors that the code throws or returns are values. Settled promises, stored
-- statuses and events are a list of outputs, in their order. Times are natural numbers of
-- milliseconds, and where the source subtracts times, a difference below zero counts as zero, which
-- is compared with a positive limit only. Ids and the clock are arguments.
--
-- Texts are lists of code points. `slice` and `utf16_length` count code units; a pair that a cut would
-- divide is left out whole. The pattern of isCredentialAsk is matched by a function of this library,
-- read off the expression. The source of the expression that globMatch makes is read and matched as
-- JavaScript does: escaped and plain characters, `.` with the flag `s`, and the quantifiers.
--
-- Bounds. `pump_loop` has as fuel the number of queued items: each round takes one from its queue, and
-- Drain proves that no item is left which could be taken. `pickNext` asks four lanes. All other loops
-- run over a list.
--
-- Ledger and Events hold tables: a map from ids to rows, or the list of the rows in the order of their
-- primary key. A statement that the schema refuses is the error `aborted`, with the ledger as it was,
-- since the call throws before it has written or its transaction is rolled back. JSON.stringify and
-- SHA-256 are arguments, and so are the stored messages, new ids and new tokens. Numbers and lengths
-- of texts are in the ranges that the tables ask for. toLowerCase is an argument of Triggers.
--
-- Not modelled: isBusy and the turn service, of which Lanes takes the answers as an argument;
-- redactSecrets and sanitizeHandoffSummary, chains of replacements by regular expressions, which are
-- arguments; files, the database and its transactions, under the stores; the snapshot that the lane
-- routes show; the SQLite store of agent tasks; the reads of the ledger that only list rows; the
-- broadcasts and the boot pass of the delivery service; the parser of triggers and their
-- description; the channels, drivers, computers, routes and the user interface around these parts.
mod Prelude
pub mod Lease
pub mod LaneKeys
pub mod Lanes
pub mod Unattended
pub mod Handoff
pub mod Approvals
pub mod Tasks
pub mod Grants
pub mod Oauth
pub mod Proactive
pub mod Workflow
pub mod Ledger
pub mod Events
pub mod Triggers
