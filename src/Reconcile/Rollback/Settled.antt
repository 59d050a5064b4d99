-- ===== src/Reconcile/Rollback/Settled.antt =====
-- What `rollbackLocked` leaves on every tape, and what its success means.
use nft_firewall_v.Prelude.{
  not-eq-false, ℕ, Bool, true, false, ◌≡◌, refl, sym, subst, ◌&&◌, ◌⊎◌, inl, inr, Option, none,
  some, arith,
}
use nft_firewall_v.Machine.Types.{
  Machine, Outside, Pointer, Snapshot, Generation, pending, commit_prepared, rolled_back,
  pointer_eq,
}
use nft_firewall_v.Machine.Effects.{ok, World}
use nft_firewall_v.Machine.Logic.{
  Keeps, Reads, follows, weaken, reads_then, reads_last, refuses_then, reads_pure, reads_refusal,
  reads_ask, stays, succeeds, if_follows, pure_follows, fail_follows,
}
use nft_firewall_v.State.Files.{pointer_of, snapshot_valid, is_at}
use nft_firewall_v.State.Files.Reads.{
  IsStored, reads_verified_snapshot, reads_pointer, snapshot_valid-distinct,
}
use nft_firewall_v.State.Store.{row_with, is_status, finalized}
use nft_firewall_v.State.Store.Reads.{reads_generation}
use nft_firewall_v.State.Store.Writes.{with_rows, finalize_commit_keeps}
use nft_firewall_v.State.Authority.{Guarded, IsSafe, Spares, finalized-IsAuthorized}
use nft_firewall_v.Nft.Backend.Writes.{SameStore-refl, reads_existing}
use nft_firewall_v.Reconcile.Settings.{
  Manager, acquire_process_lock, pointer_matches_previous, is_absent,
}
use nft_firewall_v.Reconcile.Settings.Steps.{IsLinked, reads_audit, reads_validation}
use nft_firewall_v.Reconcile.Rollback.{
  rollback, to_absent, refuse_unverified, to_predecessor, rollback_unpublished, rollback_open,
  rollback_locked,
}
use nft_firewall_v.Reconcile.Rollback.Safety.{
  Guarded-SameStore, IsEmptied, IsRestored, to_absent_keeps, to_predecessor_keeps,
}

no_pointer : (p : Option Pointer) → pointer_matches_previous none p ≡ true → p ≡ none
unfolding pointer_matches_previous
no_pointer none h = refl
no_pointer (some p) h = cc

Guarded-finalized : (d : Machine) (id : ℕ) → IsSafe d → Guarded d (with_rows (finalized id) d)
unfolding Guarded IsSafe
Guarded-finalized d id safe = (refl, finalized-IsAuthorized d.pointer id d.rows safe)

reads_unverified :
    (d : Machine) (b : Bool) → Reads d (refuse_unverified b) (λ u. b ≡ true → d.kernel.tables ≡ 0)
unfolding refuse_unverified
reads_unverified d false = reads_pure tt (λ h. cc)
reads_unverified d true =
    reads_then refl (reads_existing d)
      (λ n at. reads_last refl (reads_refusal d _ _) (λ u h. (refl, λ k. ground arith)))

-- A pointer that matches what the snapshot recorded is not that of the snapshot's own generation.
pub Spares-recorded :
    (o : Outside) (id : ℕ) (s : Snapshot) (recorded current : Option Pointer)
    → snapshot_valid o s ≡ true
    → s.generation ≡ id
    → s.previous ≡ recorded
    → pointer_matches_previous recorded current ≡ true
    → Spares id current
unfolding pointer_matches_previous Spares is_at pointer_eq
Spares-recorded o id s none none valid named at h = tt
Spares-recorded o id s none (some q) valid named at h = cc
Spares-recorded o id s (some p) none valid named at h = tt
Spares-recorded o id s (some p) (some q) valid named at h =
    ground (arith, snapshot_valid-distinct o s p valid at)

-- The kernel and the rows after a rollback, by the predecessor that the snapshot recorded.
unfoldable pub Restores : Outside → ℕ → Option Pointer → Machine → Machine → Type 0
Restores o id none = IsEmptied id
Restores o id (some p) = IsRestored o id p

-- What success means: the row was rolled back before, or it is now.
unfoldable pub RolledBack : Outside → ℕ → Machine → Machine → Type 0
RolledBack o id d d' =
    (g : Generation) × (row_with id d.rows ≡ some g)
    × ((is_status g.status rolled_back ≡ true) × (d' ≡ d)
        ⊎ (is_status g.status rolled_back ≡ false)
          × ((s : Snapshot) × IsStored o d id s
              × (pointer_matches_previous s.previous d.pointer ≡ true)
              × Restores o id s.previous d d'))

module _ (o : Outside) (mgr : Manager) (id : ℕ) (d : Machine) (safe : IsSafe d) where
  branch_keeps :
      (previous : Option ℕ) (recorded : Option Pointer) (unowned : Bool)
      → IsLinked previous recorded
      → ((is_absent previous && unowned) ≡ true → d.kernel.tables ≡ 0)
      → pointer_matches_previous recorded d.pointer ≡ true
      → Spares id d.pointer
      → Keeps d
          (Guarded d)
          (elim previous [
            | none ↦ to_absent id unowned
            | some previous_id ↦ to_predecessor o mgr id previous_id recorded
          ])
          (λ u d'. Guarded d d' × Restores o id recorded d d')
  unfolding IsLinked is_absent Restores
  branch_keeps none none unowned linked owned matches spared =
      to_absent_keeps id d unowned owned (no_pointer d.pointer matches) safe
  branch_keeps none (some p) unowned linked owned matches spared = cc
  branch_keeps (some i) none unowned linked owned matches spared = cc
  branch_keeps (some i) (some p) unowned linked owned matches spared =
      weaken (to_predecessor_keeps o mgr id d safe i (some p) spared)
        (λ u d' (k, (q, at, r)). (k, subst (λ x. Restores o id x d d') (sym at) r)) (λ e d' k. k)
        (λ d' k. k)

  here : Guarded d d
  here = Guarded-SameStore d d safe (SameStore-refl d)

  unpublished_keeps :
      (g : Generation) (s : Snapshot) (current : Option Pointer)
      → IsStored o d id s
      → IsLinked g.previous_id s.previous
      → current ≡ d.pointer
      → Keeps d (Guarded d) (rollback_unpublished o mgr id g s current) (λ u d'.
        Guarded d d'
        × ((pointer_matches_previous s.previous d.pointer ≡ true) × Restores o id s.previous d d'))
  unfolding rollback_unpublished IsStored
  unpublished_keeps g s current (found, valid, named) linked at = refuses_then _ _ here (λ h u.
      let matches =
        subst (λ q. pointer_matches_previous s.previous q ≡ true) at (not-eq-false _ h) in
      reads_then here (reads_unverified d _) (λ v owned.
        weaken
          (branch_keeps g.previous_id s.previous (is_status g.status pending) linked owned matches
            (Spares-recorded o id s s.previous d.pointer valid named refl matches))
          (λ w d' (k, r). (k, (matches, r))) (λ e d' k. k) (λ d' k. k)))

  open_keeps :
      (g : Generation)
      → Keeps d (Guarded d) (rollback_open o mgr id g) (λ u d'.
        Guarded d d'
        × ((s : Snapshot) × IsStored o d id s
            × (pointer_matches_previous s.previous d.pointer ≡ true)
            × Restores o id s.previous d d'))
  unfolding rollback_open
  open_keeps g = refuses_then _ _ here (λ h u.
      reads_then here (reads_verified_snapshot o d id) (λ s stored.
        reads_then here (reads_validation o d g s _) (λ v linked.
          reads_then here (reads_pointer d) (λ current at.
            if_follows (is_status g.status commit_prepared && is_at (pointer_of o s) current)
              (λ t.
                follows
                  (finalize_commit_keeps {K = λ w. Guarded d} id here (Guarded-finalized d id safe)
                    (Guarded-finalized d id safe))
                  (λ w d' k. fail_follows _ k))
              (λ t.
                weaken (unpublished_keeps g s current stored linked at)
                  (λ w d' (k, (m, r)). (k, (s, stored, m, r))) (λ e d' k. k) (λ d' k. k))))))

  pub rollback_locked_keeps :
      Keeps d (Guarded d) (rollback_locked o mgr id) (λ u d'. Guarded d d' × RolledBack o id d d')
  unfolding rollback_locked RolledBack
  rollback_locked_keeps = reads_then here (reads_audit mgr d) (λ u h.
      reads_then here (reads_generation d id) (λ g found.
        if_follows (is_status g.status rolled_back)
          (λ t. pure_follows tt (here, (g, found, inl (t, refl))))
          (λ t.
            weaken (open_keeps g) (λ v d' (k, r). (k, (g, found, inr (t, r)))) (λ e d' k. k)
              (λ d' k. k))))

pub reads_lock : (mgr : Manager) (d : Machine) → Reads d (acquire_process_lock mgr) (λ u. Unit {0})
unfolding acquire_process_lock
reads_lock mgr d =
    if_follows mgr.mutation_lock_held (λ held. reads_pure tt tt)
      (λ free. refuses_then _ _ refl (λ h u. reads_ask d))

rollback_keeps :
    (o : Outside) (mgr : Manager) (id : ℕ) (d : Machine)
    → IsSafe d
    → Keeps d (Guarded d) (rollback o mgr id) (λ u d'. Guarded d d' × RolledBack o id d d')
unfolding rollback
rollback_keeps o mgr id d safe =
    reads_then (Guarded-SameStore d d safe (SameStore-refl d)) (reads_lock mgr d)
      (λ u k. rollback_locked_keeps o mgr id d safe)

-- From a machine whose pointer is authorized, whatever calls fail, and wherever the process dies:
-- `Rollback` does not move the pointer, and the
-- pointer still names a published generation.
pub rollback_keeps_pointer :
    (o : Outside) (mgr : Manager) (id : ℕ) (w : World Machine)
    → IsSafe w.machine
    → Guarded w.machine ((rollback o mgr id w).0).machine
unfolding rollback
rollback_keeps_pointer o mgr id w safe = stays (rollback_keeps o mgr id w.machine safe) w refl

-- If `Rollback`, from a machine whose pointer is authorized, returns without an error, then the generation was rolled back before and nothing
-- has changed, or its row is rolled back and the kernel has the rules of the snapshot that the
-- pointer names, or no owned tables where there is no predecessor.
pub rollback_success :
    (o : Outside) (mgr : Manager) (id : ℕ) (w : World Machine)
    → IsSafe w.machine
    → (rollback o mgr id w).1 ≡ ok tt
    → RolledBack o id w.machine ((rollback o mgr id w).0).machine
rollback_success o mgr id w safe h =
    (succeeds (rollback_keeps o mgr id w.machine safe) w refl tt h).1
