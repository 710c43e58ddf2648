-- ===== src/Events.antt =====
-- Events: the durable log with its sequence for each stream (server/repositories/event-log.ts), and the
-- hub that sends frames to clients and resumes their streams (server/services/events.ts).
pub mod Log
pub mod Hub
pub mod Stream
pub mod Numbering
pub mod Resume
mod Tests
