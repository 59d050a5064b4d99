-- ===== src/Reconcile/Drift/Safety.antt =====
-- `RollbackExpired` and `Reconcile` on every tape: neither moves the pointer.
use nft_firewall_v.Prelude.{ℕ, Bool, true, false, not, refl, ◌&&◌, Option, none, some, ◌==◌, str_eq}
use nft_firewall_v.Machine.Types.{Machine, Outside, Generation, pending, applied, commit_prepared}
use nft_firewall_v.Machine.Effects.{World}
use nft_firewall_v.Machine.Logic.{
  Keeps, Reads, follows, weaken, reads_then, reads_pure, reads_last, if_follows, pure_follows,
  stays,
}
use nft_firewall_v.State.Files.{is_at}
use nft_firewall_v.State.Files.Reads.{reads_pointer}
use nft_firewall_v.State.Store.{is_status, pending_generation}
use nft_firewall_v.State.Store.Reads.{reads_pending, reads_last_known_good}
use nft_firewall_v.State.Authority.{Guarded, IsSafe}
use nft_firewall_v.Nft.Backend.{owned_tables}
use nft_firewall_v.Nft.Backend.Writes.{
  SameStore-refl, reads_existing, reads_integrity, reads_fingerprint,
}
use nft_firewall_v.Reconcile.Settings.{Manager}
use nft_firewall_v.Reconcile.Settings.Steps.{reads_audit}
use nft_firewall_v.Reconcile.Rollback.{rollback_locked}
use nft_firewall_v.Reconcile.Rollback.Safety.{Guarded-SameStore}
use nft_firewall_v.Reconcile.Rollback.Settled.{rollback_locked_keeps, reads_lock}
use nft_firewall_v.Reconcile.Apply.{restore}
use nft_firewall_v.Reconcile.Apply.Safety.{Guarded-trans, Guards, Guards-then, Guards-ignored}
use nft_firewall_v.Reconcile.Apply.Authority.{reads_optional}
use nft_firewall_v.Reconcile.Apply.Recovery.{Guards-restore}
use nft_firewall_v.Reconcile.Recovery.Safety.{Guards-reads, Guards-pure, Guards-if, reads_stale}
use nft_firewall_v.Reconcile.Recovery.Authority.{pending_keeps}
use nft_firewall_v.Reconcile.Drift.{
  recover_stale, expire_pending, rollback_expired, published_as, expected_of, expected_generation,
  tables_missing, differs, repair_from, known_good, repair_expected, repair_drift, report, inspect,
  unfinished, reconcile_found, reconcile,
}

module _ (o : Outside) (mgr : Manager) (d : Machine) (safe : IsSafe d) where
  here : Guarded d d
  here = Guarded-SameStore d d safe (SameStore-refl d)

  stale_keeps :
      (g : Generation) (b : Bool) → Keeps d (Guarded d) (recover_stale o mgr g b) (λ r. Guarded d)
  unfolding recover_stale
  stale_keeps g false = pure_follows false here
  stale_keeps g true =
      reads_then here (reads_pointer d) (λ current at.
        follows (pending_keeps o mgr d safe g current at) (λ r d' k. pure_follows _ k))

  expire_keeps :
      (found : Option Generation)
      → Keeps d (Guarded d) (expire_pending o mgr found) (λ r. Guarded d)
  unfolding expire_pending
  expire_keeps none = pure_follows false here
  expire_keeps (some g) =
      reads_then {F = λ b. Unit {0}} here
        (if_follows (is_status g.status commit_prepared) (λ h. reads_pure true tt)
          (λ h. reads_stale mgr g d))
        (λ stale k. stale_keeps g stale)

  rollback_expired_keeps : Keeps d (Guarded d) (rollback_expired o mgr) (λ r. Guarded d)
  unfolding rollback_expired
  rollback_expired_keeps = reads_then here (reads_lock mgr d) (λ u1 k1.
      reads_then here (reads_audit mgr d) (λ u2 k2.
        reads_then here (reads_optional d pending_generation (reads_pending d))
          (λ found k3. expire_keeps found)))

reads_expected :
    (d : Machine) (found : Option Generation) → Reads d (expected_of found) (λ g. Unit {0})
unfolding expected_of
reads_expected d none = reads_last refl (reads_last_known_good d) (λ g k. (refl, tt))
reads_expected d (some g) =
    if_follows (is_status g.status applied) (λ h. reads_pure g tt)
      (λ h.
        if_follows (is_status g.status commit_prepared)
          (λ h'. reads_then refl (reads_pointer d) (λ p at.
            if_follows (is_at (published_as g) p) (λ k. reads_pure g tt)
              (λ k. reads_last refl (reads_last_known_good d) (λ g' k'. (refl, tt)))))
          (λ h'. reads_last refl (reads_last_known_good d) (λ g' k. (refl, tt))))

reads_expected_generation : (d : Machine) → Reads d expected_generation (λ g. Unit {0})
unfolding expected_generation
reads_expected_generation d =
    reads_then refl (reads_optional d pending_generation (reads_pending d))
      (λ found k. reads_expected d found)

reads_tables : (o : Outside) (n : ℕ) (d : Machine) → Reads d (tables_missing o n) (λ b. Unit {0})
unfolding tables_missing
reads_tables o n d =
    if_follows (not (n == owned_tables)) (λ h. reads_pure true tt)
      (λ h. reads_then refl (reads_integrity o d) (λ b k. reads_pure _ tt))

reads_differs :
    (o : Outside) (g : Option Generation) (d : Machine) → Reads d (differs o g) (λ b. Unit {0})
unfolding differs
reads_differs o none d = reads_pure false tt
reads_differs o (some g) d =
    if_follows (str_eq g.observed_hash "") (λ h. reads_pure true tt)
      (λ h. reads_then refl (reads_fingerprint o d) (λ b k. reads_pure _ tt))

module _ (o : Outside) (mgr : Manager) (d : Machine) where
  Guards-rollback_locked : (id : ℕ) → Guards d (rollback_locked o mgr id)
  unfolding Guards Guarded
  Guards-rollback_locked id d' (same, safe) =
      weaken (rollback_locked_keeps o mgr id d' safe)
        (λ u d'' (k, r). Guarded-trans d d' d'' (same, safe) k)
        (λ e d'' k. Guarded-trans d d' d'' (same, safe) k)
        (λ d'' k. Guarded-trans d d' d'' (same, safe) k)

  Guards-known_good : (expected : Option Generation) → Guards d (known_good o mgr expected)
  unfolding known_good
  Guards-known_good none = Guards-reads d _ reads_last_known_good
  Guards-known_good (some g) = Guards-pure d g

  Guards-repair_from : (g : Generation) → Guards d (repair_from o mgr g)
  unfolding repair_from restore
  Guards-repair_from g = Guards-restore o mgr d (some g)

  Guards-repair_expected :
      (n : ℕ) (expected : Option Generation) → Guards d (repair_expected o mgr n expected)
  unfolding repair_expected
  Guards-repair_expected n expected = Guards-then d _ _ (Guards-known_good expected) (λ g.
      Guards-then d _ _ (Guards-repair_from g)
        (λ u. Guards-then d _ _ (Guards-ignored d) (λ v. Guards-pure d _)))

  Guards-repair_drift :
      (n : ℕ) (found expected : Option Generation) → Guards d (repair_drift o mgr n found expected)
  unfolding repair_drift
  Guards-repair_drift n none expected = Guards-repair_expected n expected
  Guards-repair_drift n (some g) expected =
      Guards-if d (is_status g.status applied) _ _
        (Guards-then d _ _ (Guards-rollback_locked g.id) (λ u. Guards-pure d _))
        (Guards-repair_expected n expected)

  Guards-report :
      (repair missing : Bool) (n : ℕ) (found expected : Option Generation)
      → Guards d (report o mgr repair missing n found expected)
  unfolding report
  Guards-report repair missing n found expected =
      Guards-if d (missing && repair) _ _
        (Guards-then d _ _ (Guards-ignored d) (λ u. Guards-repair_drift n found expected))
        (Guards-if d missing _ _ (Guards-then d _ _ (Guards-ignored d) (λ u. Guards-pure d _))
          (Guards-pure d _))

  Guards-inspect :
      (repair : Bool) (found : Option Generation) → Guards d (inspect o mgr repair found)
  unfolding inspect
  Guards-inspect repair found = Guards-then d _ _ (Guards-reads d _ reads_existing) (λ n.
      Guards-then d _ _ (Guards-reads d _ (reads_tables o n)) (λ broken.
        Guards-then d _ _
          (Guards-reads d _
            (λ d'. reads_optional d' expected_generation (reads_expected_generation d')))
          (λ expected.
            Guards-then d _ _
              (Guards-if d broken _ _ (Guards-pure d true)
                (Guards-reads d _ (reads_differs o expected)))
              (λ missing. Guards-report repair missing n found expected))))

  Guards-reconcile_found :
      (repair : Bool) (found : Option Generation) → Guards d (reconcile_found o mgr repair found)
  unfolding reconcile_found unfinished
  Guards-reconcile_found repair none = Guards-inspect repair none
  Guards-reconcile_found repair (some g) =
      Guards-if d (is_status g.status pending) _ _
        (Guards-if d repair _ _
          (Guards-then d _ _ (Guards-rollback_locked g.id) (λ u. Guards-pure d _))
          (Guards-pure d _))
        (Guards-inspect repair (some g))

  Guards-reconcile : (repair : Bool) → Guards d (reconcile o mgr repair)
  unfolding reconcile
  Guards-reconcile repair = Guards-then d _ _ (Guards-reads d _ (reads_lock mgr)) (λ u.
      Guards-then d _ _
        (Guards-reads d _ (λ d'. reads_optional d' pending_generation (reads_pending d')))
        (λ found. Guards-reconcile_found repair found))

pub rollback_expired_keeps_pointer :
    (o : Outside) (mgr : Manager) (w : World Machine)
    → IsSafe w.machine
    → Guarded w.machine ((rollback_expired o mgr w).0).machine
rollback_expired_keeps_pointer o mgr w safe =
    stays
      (weaken (rollback_expired_keeps o mgr w.machine safe) (λ r d' k. (k, tt)) (λ e d' k. k)
        (λ d' k. k))
      w refl

-- From a machine whose pointer is authorized, whatever calls fail, and wherever the process dies:
-- Reconcile, with or without repair, does not move the pointer, and the pointer still names a
-- published generation.
pub reconcile_keeps_pointer :
    (o : Outside) (mgr : Manager) (repair : Bool) (w : World Machine)
    → IsSafe w.machine
    → Guarded w.machine ((reconcile o mgr repair w).0).machine
unfolding Guards
reconcile_keeps_pointer o mgr repair w safe =
    stays
      (weaken (Guards-reconcile o mgr w.machine repair w.machine (here o mgr w.machine safe))
        (λ r d' k. (k, tt)) (λ e d' k. k) (λ d' k. k))
      w refl
