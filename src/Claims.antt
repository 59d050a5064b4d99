-- ===== src/Claims.antt =====
-- The claims of internal/state/store.go: blocked and temporarily trusted addresses, and the
-- revisions that say whether the kernel has them.
pub mod Types
pub mod Session
pub mod Writes
pub mod Replace
pub mod Publication
pub mod Retire
pub mod Ends
pub mod Revisions
pub mod Addresses
pub mod Limits
mod Tests
