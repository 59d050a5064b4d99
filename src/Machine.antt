-- ===== src/Machine.antt =====
-- What the reconcile manager works on: the generation database, the immutable files under
-- generations/, the enforcement pointer, and the kernel's owned tables (internal/state/store.go,
-- internal/state/active.go, internal/nft/backend.go). Each call to the database, the file system
-- or nft takes its answer from a tape, so that every failure, and the death of the process before
-- or after the call took effect, is an input.
pub mod Types
pub mod Effects
pub mod Logic
