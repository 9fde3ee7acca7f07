-- ===== src/Sessions.antt =====
-- Browser sessions of the API (apps/api/src/auth): the table of sessions with the constraints that the
-- schema declares on it, and the service that logs in, rotates refresh tokens and logs out.
pub mod Table
pub mod Active
pub mod Snapshot
pub mod Service
pub mod Rotation
pub mod Reuse
pub mod Overtaken
mod Tests
