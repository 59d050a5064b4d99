-- ===== src/Reconcile/History.antt =====
-- Any sequence of the manager's operations, each with its own answers and times.
use nft_firewall_v.Prelude.{ℕ, Bool, List, [], ◌∷◌}
use nft_firewall_v.Machine.Types.{Machine, Outside}
use nft_firewall_v.Machine.Effects.{Answer, World}
use nft_firewall_v.State.Authority.{Guarded, IsSafe}
use nft_firewall_v.Reconcile.Settings.{Manager}
use nft_firewall_v.Reconcile.Rollback.{rollback}
use nft_firewall_v.Reconcile.Rollback.Settled.{rollback_keeps_pointer}
use nft_firewall_v.Reconcile.Recovery.{recover_at_boot}
use nft_firewall_v.Reconcile.Recovery.Authority.{recover_at_boot_keeps_pointer}
use nft_firewall_v.Reconcile.Drift.{rollback_expired, reconcile}
use nft_firewall_v.Reconcile.Drift.Safety.{rollback_expired_keeps_pointer, reconcile_keeps_pointer}
use nft_firewall_v.Reconcile.Commit.{commit}
use nft_firewall_v.Reconcile.Commit.Safety.{Commits}
use nft_firewall_v.Reconcile.Commit.Success.{commit_publishes_only}
use nft_firewall_v.Reconcile.Apply.{Artifact, apply}
use nft_firewall_v.Reconcile.Apply.Recovery.{Applies}
use nft_firewall_v.Reconcile.Apply.Authority.{apply_moves_only}

pub data Operation : Type 0 where
  applies : Artifact → Bool → Bool → Operation
  commits : ℕ → Operation
  rolls_back : ℕ → Operation
  recovers : Operation
  expires : Operation
  reconciles : Bool → Operation

-- An operation of a process, with the answers to its calls.
pub record Call : Type 0 where
  pub operation : Operation
  pub tape : List Answer
  pub times : List ℕ

module _ (o : Outside) (mgr : Manager) where
  unfoldable pub perform : Operation → World Machine → Machine
  perform (applies a safe complete) w = ((apply o mgr a safe complete w).0).machine
  perform (commits id) w = ((commit o mgr id w).0).machine
  perform (rolls_back id) w = ((rollback o mgr id w).0).machine
  perform recovers w = ((recover_at_boot o mgr w).0).machine
  perform expires w = ((rollback_expired o mgr w).0).machine
  perform (reconciles repair) w = ((reconcile o mgr repair w).0).machine

  unfoldable pub run : List Call → Machine → Machine
  run [] m = m
  run (c ∷ calls) m =
      run calls (perform c.operation (record { machine = m; tape = c.tape; times = c.times }))

  perform-IsSafe : (c : Operation) (w : World Machine) → IsSafe w.machine → IsSafe (perform c w)
  unfolding perform Applies Commits Guarded
  perform-IsSafe (applies a safe complete) w h = (apply_moves_only o mgr a safe complete w h).0
  perform-IsSafe (commits id) w h = (commit_publishes_only o mgr id w h).0
  perform-IsSafe (rolls_back id) w h = (rollback_keeps_pointer o mgr id w h).1
  perform-IsSafe recovers w h = (recover_at_boot_keeps_pointer o mgr w h).1
  perform-IsSafe expires w h = (rollback_expired_keeps_pointer o mgr w h).1
  perform-IsSafe (reconciles repair) w h = (reconcile_keeps_pointer o mgr repair w h).1

  -- After any sequence of Apply, Commit, Rollback, RecoverAtBoot, RollbackExpired and Reconcile, where
  -- any call may have failed, failed after its effect or been the last of its process, the enforcement pointer names a generation whose
  -- row is commit_prepared or committed, if it did so before.
  pub run-IsSafe : (calls : List Call) (m : Machine) → IsSafe m → IsSafe (run calls m)
  unfolding run
  run-IsSafe [] m h = h
  run-IsSafe (c ∷ calls) m h = run-IsSafe calls _ (perform-IsSafe c.operation _ h)
