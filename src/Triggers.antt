-- ===== src/Triggers.antt =====
-- The triggers of routines (server/triggers/): what they are, how they are stored as the schedule of a
-- routine, and which events they match.
pub mod Schedule
pub mod Match
pub mod Stored
mod Tests
