-- ===== src/Effects/Logic.antt =====
-- Reasoning about actions on every tape. `Follows d m K X D`: from the state `d`, whatever the
-- answers are, `m` ends with a value and a state in `K`, with an error and a state in `X`, or
-- dead with a state in `D`.
mod Rules
mod Steps
unfoldable pub use Rules.{Ends}
pub use Rules.*
pub use Steps.*
