-- ===== src/Reconcile/Recovery/Authority.antt =====
-- `RecoverAtBoot` as a whole on every tape.
use nft_firewall_v.Prelude.{
  not-eq-false, true, false, not, ◌≡◌, refl, subst, ◌&&◌, Option, none, some,
}
use nft_firewall_v.Machine.Types.{Machine, Outside, Pointer, Snapshot, Generation, commit_prepared}
use nft_firewall_v.Machine.Effects.{World}
use nft_firewall_v.Machine.Logic.{Keeps, weaken, reads_then, refuses_then, if_follows, stays}
use nft_firewall_v.State.Files.{pointer_of, is_at}
use nft_firewall_v.State.Files.Reads.{IsStored, reads_pointer, reads_verified_snapshot}
use nft_firewall_v.State.Store.{is_status, pending_generation}
use nft_firewall_v.State.Store.Reads.{reads_pending}
use nft_firewall_v.State.Authority.{Guarded, IsSafe, Spares}
use nft_firewall_v.Nft.Backend.Writes.{SameStore-refl}
use nft_firewall_v.Reconcile.Settings.{Manager, pointer_matches_previous}
use nft_firewall_v.Reconcile.Settings.Steps.{reads_audit, reads_validation}
use nft_firewall_v.Reconcile.Rollback.Safety.{Guarded-SameStore}
use nft_firewall_v.Reconcile.Rollback.Settled.{Spares-recorded, reads_lock}
use nft_firewall_v.Reconcile.Apply.Safety.{Guards}
use nft_firewall_v.Reconcile.Apply.Authority.{reads_optional}
use nft_firewall_v.Reconcile.Recovery.{
  recover_prepared, recover_ordinary, recover_pending_at_boot, recover_committed_at_boot,
  recover_at_boot,
}
use nft_firewall_v.Reconcile.Recovery.Safety.{
  reads_stale, published_keeps, rolled_keeps, committed_keeps,
}

module _ (o : Outside) (mgr : Manager) (d : Machine) (safe : IsSafe d) where
  here : Guarded d d
  here = Guarded-SameStore d d safe (SameStore-refl d)

  module _ (g : Generation) (s : Snapshot) (current : Option Pointer) (stored : IsStored o d g.id s)
      (at : current ≡ d.pointer) where
    -- The candidate is not what the pointer names, where the pointer is what it recorded.
    spared : not (pointer_matches_previous s.previous current) ≡ false → Spares g.id d.pointer
    unfolding IsStored
    spared h =
        Spares-recorded o g.id s s.previous d.pointer (stored.1) (stored.2) refl
          (subst (λ p. pointer_matches_previous s.previous p ≡ true) at (not-eq-false _ h))

    prepared_keeps : Keeps d (Guarded d) (recover_prepared o mgr g s current) (λ r. Guarded d)
    unfolding recover_prepared Guards
    prepared_keeps =
        refuses_then _ _ here (λ h u. rolled_keeps o mgr d g s.previous (spared h) d here)

    ordinary_keeps : Keeps d (Guarded d) (recover_ordinary o mgr g s current) (λ r. Guarded d)
    unfolding recover_ordinary Guards
    ordinary_keeps = refuses_then _ _ here (λ h u. reads_then here (reads_stale mgr g d) (λ stale k.
        refuses_then _ _ here (λ h' v. rolled_keeps o mgr d g s.previous (spared h) d here)))

  pub pending_keeps :
      (g : Generation) (current : Option Pointer)
      → current ≡ d.pointer
      → Keeps d (Guarded d) (recover_pending_at_boot o mgr g current) (λ r. Guarded d)
  unfolding recover_pending_at_boot Guards
  pending_keeps g current at = reads_then here (reads_verified_snapshot o d g.id) (λ s stored.
      reads_then here (reads_validation o d g s _) (λ u linked.
        if_follows (is_status g.status commit_prepared && is_at (pointer_of o s) current)
          (λ t. published_keeps o mgr d g (pointer_of o s) d here)
          (λ t.
            if_follows (is_status g.status commit_prepared)
              (λ t'. prepared_keeps g s current stored at)
              (λ t'. ordinary_keeps g s current stored at))))

  found_keeps :
      (found : Option Generation) (current : Option Pointer)
      → current ≡ d.pointer
      → Keeps d
          (Guarded d)
          (elim found [
            | none ↦ recover_committed_at_boot o mgr current
            | some g ↦ recover_pending_at_boot o mgr g current
          ])
          (λ r. Guarded d)
  unfolding Guards
  found_keeps none current at = committed_keeps o mgr d current d here
  found_keeps (some g) current at = pending_keeps g current at

  recover_at_boot_keeps : Keeps d (Guarded d) (recover_at_boot o mgr) (λ r. Guarded d)
  unfolding recover_at_boot
  recover_at_boot_keeps = reads_then here (reads_lock mgr d) (λ u1 k1.
      reads_then here (reads_audit mgr d) (λ u2 k2. reads_then here (reads_pointer d) (λ current at.
        reads_then here (reads_optional d pending_generation (reads_pending d))
          (λ found k3. found_keeps found current at))))

-- From a machine whose pointer is authorized, whatever calls fail, and wherever the process dies:
-- RecoverAtBoot does not move the pointer, and
-- the pointer still names a published generation.
pub recover_at_boot_keeps_pointer :
    (o : Outside) (mgr : Manager) (w : World Machine)
    → IsSafe w.machine
    → Guarded w.machine ((recover_at_boot o mgr w).0).machine
recover_at_boot_keeps_pointer o mgr w safe =
    stays
      (weaken (recover_at_boot_keeps o mgr w.machine safe) (λ r d' k. (k, tt)) (λ e d' k. k)
        (λ d' k. k))
      w refl
