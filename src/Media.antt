-- ===== src/Media.antt =====
-- The checks of media files: packages/media-core/src/index.ts, from the signatures of files to
-- `validateMedia`. A file is the list of its bytes.
pub mod Bytes
pub mod Dimensions
pub mod Identity
pub mod Structure
pub mod Validate
pub mod Canvas
