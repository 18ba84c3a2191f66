-- ===== src/Core.antt =====
-- src/core: status codes, sizes, byte access, checksums and text tests.
mod Examples
pub mod Status
pub mod Bytes
pub mod Checksum
pub mod Sizes
pub mod Text
pub mod Segments
pub mod Types
