-- ===== src/Tasks.antt =====
-- The assigned tasks of a lead, server/agent-tasks.ts: a task and its normal form in Task, the store in
-- Store, the calls in Calls.
pub mod Task
pub mod Store
pub mod Calls
mod Reconcile
mod Delegated
mod Tests
