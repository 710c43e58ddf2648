-- ===== src/Approvals.antt =====
-- Approval rules, server/approvals.ts: the stored rules and the audit log in Rules, their text patterns
-- in Glob and what they mean in Meaning, the calls that write rules in Calls, the decision on an ask in
-- Decide.
pub mod Glob
pub mod Meaning
pub mod Rules
pub mod Calls
pub mod Decide
mod Matching
mod Consent
mod Quarantine
mod Tests
