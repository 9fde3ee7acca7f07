-- ===== src/Broadcasts.antt =====
-- Broadcasts: their preparation by the worker (apps/worker/src/broadcasts) and their control by the API
-- (apps/api/src/broadcasts/broadcasts.service.ts).
pub mod State
pub mod Preparation
pub mod Control
pub mod Stuck
mod Tests
