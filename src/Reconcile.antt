-- ===== src/Reconcile.antt =====
-- internal/reconcile: the manager that applies, commits and rolls back generations. Its own mutex
-- and the process lock are held from the first database call to the return, so that an operation
-- runs alone. A configured callback is a call whose answer is an input; that cancelled contexts
-- make calls fail is part of those answers.
pub mod Settings
pub mod Rollback
pub mod Commit
pub mod Apply
pub mod Recovery
pub mod Drift
pub mod History
mod Tests
