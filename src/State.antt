-- ===== src/State.antt =====
-- internal/state: the immutable files and the pointer (active.go), the generations table (store.go).
pub mod Files
pub mod Store
pub mod Authority
