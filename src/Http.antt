-- ===== src/Http.antt =====
-- External HTTP requests (packages/automation-http/src/index.ts): which addresses may be contacted, the
-- redirects, the headers and the body of a response.
pub mod Address
pub mod Transport
pub mod Body
pub mod Template
pub mod Payload
pub mod Heap
pub mod Mapping
pub mod Compile
mod Tests
