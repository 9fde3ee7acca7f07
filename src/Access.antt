-- ===== src/Access.antt =====
-- Access control of the API (apps/api/src/access): the permissions, what a user may do in a project, and
-- the guard of the handlers. The queries of the database are the fields of `Database`.
pub mod Permissions
pub mod Service
pub mod Guard
pub mod Laws
mod Tests
