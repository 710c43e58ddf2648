-- ===== src/Ledger.antt =====
-- The ledger of delegated runs and the deliveries of their results: the repository
-- server/repositories/agent-task-runs.ts, the tables and triggers of server/db/migrations.ts that it
-- writes to, the contracts of server/contracts.ts on what a worker hands in, and the delivery
-- service of server/services/delegated-results.ts with the message it puts (putFixed of
-- server/repositories/messages.ts).
pub mod Contracts
pub mod Canonical
pub mod Rows
pub mod Runs
pub mod Report
pub mod Finalize
pub mod Deliveries
pub mod Receipts
pub mod Calls
pub mod Schema
pub mod Writes
pub mod Attempts
pub mod Retries
pub mod Kept
pub mod Effects
pub mod Sealed
pub mod Repeated
pub mod Stale
pub mod Outcomes
pub mod Blockers
pub mod Told
pub mod Stamps
pub mod Pump
pub mod Answers
pub mod Delivered
pub mod Pumped
pub mod Delivers
mod Tests
