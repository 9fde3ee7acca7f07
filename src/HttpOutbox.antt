-- ===== src/HttpOutbox.antt =====
-- The outbox of external HTTP requests (apps/worker/src/external-http/external-http-outbox.service.ts):
-- leases on a row, retries, and the outcome that resumes or pauses the execution of a scenario.
pub mod Row
pub mod Process
pub mod Moves
pub mod Leases
pub mod Retries
mod Tests
