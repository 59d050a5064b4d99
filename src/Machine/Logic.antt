-- ===== src/Machine/Logic.antt =====
-- What actions on the machine leave on every tape.
unfoldable pub use nft_firewall_v.Effects.Logic.{Ends}
pub use nft_firewall_v.Effects.Logic.{
  Follows, Keeps, Reads, follows, catches, weaken, pure_follows, fail_follows, act_follows,
  puts_follows, gets_follows, reads_then, acts_then, asks_then, gets_then, refuses_then, reads_ask,
  reads_pure, reads_fail, reads_refusal, reads_clock, if_follows, reads_last, moved, stays,
  succeeds,
}
