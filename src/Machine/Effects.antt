-- ===== src/Machine/Effects.antt =====
-- Actions on the machine.
unfoldable pub use nft_firewall_v.Effects.{
  pure, fail, continue, ◌>>=◌, handle, catch, gets, puts, act_on, act, ask, tick_on, clock,
  refuse_when, ignore, optional,
}
pub use nft_firewall_v.Effects.{
  Answer, Error, Result, World, ◌>>◌, is_no_rows, mutation_attempted, done, failed, failed_after,
  failed_with, died, died_after, no_rows, execution, io, refused, joined, ok, err, dead,
}
use nft_firewall_v.Effects.{Action}
use nft_firewall_v.Machine.Types.{Machine}

abbrev pub M {ℓ} : Type ℓ → Type ℓ
M A = Action Machine A
