-- ===== src/Lanes.antt =====
-- The lane scheduler, server/services/lanes.ts: turns wait in four lanes, lanes are served round
-- robin, and a bot runs one turn at a time.
pub mod Opts
pub mod State
pub mod Pump
pub mod Calls
pub mod Fairness
pub mod Drain
pub mod Invariant
pub mod Keeps
pub mod Safety
pub mod History
pub mod Exclusive
pub mod Cancelling
pub mod Cancelled
pub mod Dedupe
mod Tests
