-- ===== src/Setup.antt =====
-- internal/setup: the transaction of the managed installation, from the plan to its last phase.
pub mod Types
pub mod Journal
pub mod Engine
pub mod Run
pub mod Recovery
mod Tests
