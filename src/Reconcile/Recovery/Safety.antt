-- ===== src/Reconcile/Recovery/Safety.antt =====
-- `RecoverAtBoot` on every tape.
use nft_firewall_v.Prelude.{
  ℕ, String, Bool, true, false, not, ◌≡◌, refl, sym, subst, Option, none, some, if◌then◌else◌, ◌==◌,
  ltb, str_eq,
}
use nft_firewall_v.Machine.Types.{Machine, Outside, Pointer, Snapshot, Generation}
use nft_firewall_v.Machine.Effects.{M, Error, no_rows, pure, fail, refuse_when}
use nft_firewall_v.Machine.Logic.{
  Reads, reads_then, reads_last, asks_then, gets_then, refuses_then, acts_then, reads_ask,
  reads_pure, reads_refusal, if_follows, pure_follows, fail_follows, catches,
}
use nft_firewall_v.State.Files.Reads.{reads_pointer, reads-IsPublished}
use nft_firewall_v.State.Store.{finalize_commit, finalize_recovery_rollback}
use nft_firewall_v.State.Store.Reads.{reads_generation, reads_last_known_good}
use nft_firewall_v.State.Store.Writes.{finalize_commit_keeps, if_ready, last_ask}
use nft_firewall_v.State.Authority.{
  Guarded, IsSafe, Spares, finalized-IsAuthorized, recovered-IsAuthorized,
}
use nft_firewall_v.Nft.Backend.{fingerprint, destroy_owned}
use nft_firewall_v.Nft.Backend.Writes.{
  reads_existing, reads_integrity, reads_fingerprint, destroy_owned_keeps,
}
use nft_firewall_v.Reconcile.Settings.{Manager}
use nft_firewall_v.Reconcile.Settings.Steps.{
  reads_past, reads_audit, reads_validation, install_keeps,
}
use nft_firewall_v.Reconcile.Apply.Safety.{Guards, Guards-then, Guards-kernel}
use nft_firewall_v.Reconcile.Apply.Recovery.{Guards-runtime}
use nft_firewall_v.Reconcile.Recovery.{
  require_pointer, pending_is_stale, already_established, verify_established, remove_verified,
  rollback_first_generation_at_boot, establish_and_verify, restore_predecessor,
  restore_predecessor_and_rollback, finish_published, recover_committed_at_boot,
}

-- A step that only reads.
pub Guards-reads :
    {A : Type 0} (d : Machine) (m : M A) {F : Machine → A → Type 0}
    → ((d' : Machine) → Reads d' m (F d'))
    → Guards d m
unfolding Guards
Guards-reads d m all d' h = reads_last h (all d') (λ a f. h)

pub Guards-pure : {A : Type 0} (d : Machine) (a : A) → Guards d (pure a)
unfolding Guards
Guards-pure d a d' h = pure_follows a h

Guards-fail : (A : Type 0) (d : Machine) (e : Error) → Guards {A = A} d (fail e)
unfolding Guards
Guards-fail A d e d' h = fail_follows e h

Guards-refusal : (d : Machine) (b : Bool) (text : String) → Guards d (refuse_when b text)
Guards-refusal d b text = Guards-reads d _ (λ d'. reads_refusal d' b text)

pub Guards-if :
    {A : Type 0} (d : Machine) (b : Bool) (m n : M A)
    → Guards d m
    → Guards d n
    → Guards d (if b then m else n)
unfolding Guards
Guards-if d b m n first second d' h = if_follows b (λ t. first d' h) (λ t. second d' h)

reads_require : (p : Pointer) (d : Machine) → Reads d (require_pointer p) (λ u. Unit {0})
unfolding require_pointer
reads_require p d =
    reads_then refl (reads_pointer d)
      (λ q at. reads_last refl (reads_refusal d _ _) (λ u h. (refl, tt)))

pub reads_stale :
    (mgr : Manager) (g : Generation) (d : Machine)
    → Reads d (pending_is_stale mgr g) (λ b. Unit {0})
unfolding pending_is_stale
reads_stale mgr g d = asks_then refl (λ u. refuses_then _ _ refl (λ h v.
    if_follows (not (str_eq g.boot_id mgr.boot_id)) (λ t. reads_pure true tt)
      (λ t. reads_past d g.rollback_deadline)))

module _ (d : Machine) (id : ℕ) where
  finalized_keeps : Guards d (finalize_commit id)
  unfolding Guards Guarded IsSafe
  finalized_keeps d' (same, h) =
      let after = finalized-IsAuthorized d'.pointer id d'.rows h in
      finalize_commit_keeps id (same, h) (same, after) (same, after)

  recovered_keeps : Spares id d.pointer → Guards d (finalize_recovery_rollback id)
  unfolding Guards Guarded IsSafe finalize_recovery_rollback
  recovered_keeps spared d' (same, h) =
      let after =
        recovered-IsAuthorized d'.pointer id d'.rows (subst (Spares id) (sym same) spared) h in
      asks_then (same, h)
        (λ u1.
          asks_then (same, h)
            (λ u2. gets_then _ (λ n at.
              reads_then (same, h) (if_ready d' (n == 1) no_rows)
                (λ u3 k3.
                  asks_then (same, h)
                    (λ u4.
                      acts_then _ (same, h) (same, after)
                        (λ u5. last_ask (same, after) (same, after)))))))

module _ (o : Outside) (d : Machine) where
  live_hash :
      (intact : Bool) (d' : Machine)
      → Reads d' (if intact then fingerprint o else pure "") (λ h. Unit {0})
  live_hash intact d' =
      if_follows intact (λ t. reads_last refl (reads_fingerprint o d') (λ h k. (refl, tt)))
        (λ t. reads_pure "" tt)

  reads_established :
      (hash : String) (d' : Machine) → Reads d' (already_established o hash) (λ b. Unit {0})
  unfolding already_established
  reads_established hash d' =
      catches {Y = λ e d''. d'' ≡ d'}
        (reads_then refl (reads_integrity o d')
          (λ intact k. reads_then refl (live_hash intact d') (λ live k'. reads_pure _ tt)))
        (λ e d'' at. pure_follows false (at, tt))

  reads_verified :
      (hash broken different : String) (d' : Machine)
      → Reads d' (verify_established o hash broken different) (λ u. Unit {0})
  unfolding verify_established
  reads_verified hash broken different d' = reads_then refl (reads_integrity o d') (λ intact k.
      refuses_then _ _ refl (λ h u.
        reads_then refl (reads_fingerprint o d')
          (λ live k'. reads_last refl (reads_refusal d' _ _) (λ v h'. (refl, tt)))))

  removed_keeps : (g : Generation) (n : ℕ) → Guards d (remove_verified o g n)
  unfolding remove_verified
  removed_keeps g n = Guards-then d _ _ (Guards-refusal d _ _) (λ u1.
      Guards-then d _ _ (Guards-reads d _ (reads_verified g.observed_hash _ _)) (λ u2.
        Guards-then d _ _ (Guards-kernel d destroy_owned destroy_owned_keeps)
          (λ u3. Guards-then d _ _ (Guards-reads d _ reads_existing) (λ n'. Guards-refusal d _ _))))

  first_keeps :
      (g : Generation) → Spares g.id d.pointer → Guards d (rollback_first_generation_at_boot o g)
  unfolding rollback_first_generation_at_boot
  first_keeps g spared = Guards-then d _ _ (Guards-reads d _ reads_existing) (λ n.
      Guards-then d _ _ (Guards-if d (ltb 0 n) _ _ (removed_keeps g n) (Guards-pure d tt))
        (λ u. Guards-then d _ _ (recovered_keeps d g.id spared) (λ v. Guards-fail _ d _)))

module _ (o : Outside) (mgr : Manager) (d : Machine) where
  established_keeps : (g : Generation) (s : Snapshot) → Guards d (establish_and_verify o mgr g s)
  unfolding establish_and_verify
  established_keeps g s = Guards-then d _ _ (Guards-reads d _ (reads_audit mgr)) (λ u1.
      Guards-then d _ _ (Guards-refusal d _ _) (λ u2.
        Guards-then d _ _ (Guards-reads d _ (reads_established o d g.observed_hash)) (λ done.
          Guards-if d done _ _ (Guards-pure d tt) (
            Guards-then d _ _ (Guards-kernel d _ (λ q. install_keeps o mgr q s.script))
              (λ u3. Guards-reads d _ (reads_verified o d g.observed_hash _ _))))))

  -- Reading the snapshot of a pointer, installing it, and finding the pointer as it was.
  pub published_keeps : (g : Generation) (p : Pointer) → Guards d (finish_published o mgr g p)
  unfolding finish_published
  published_keeps g p = Guards-then d _ _ (Guards-reads d _ (λ d'. reads-IsPublished o d' p)) (λ s.
      Guards-then d _ _ (established_keeps g s) (λ u1.
        Guards-then d _ _ (Guards-reads d _ (reads_require p))
          (λ u2. Guards-then d _ _ (finalized_keeps d g.id) (λ u3. Guards-pure d _))))

  predecessor_keeps :
      (g : Generation) (p : Pointer)
      → Spares g.id d.pointer
      → Guards d (restore_predecessor o mgr g p)
  unfolding restore_predecessor
  predecessor_keeps g p spared =
      Guards-then d _ _ (Guards-reads d _ (λ d'. reads_generation d' p.generation)) (λ previous.
        Guards-then d _ _ (Guards-refusal d _ _) (λ u1.
          Guards-then d _ _ (Guards-reads d _ (λ d'. reads-IsPublished o d' p)) (λ s.
            Guards-then d _ _ (Guards-reads d _ (λ d'. reads_validation o d' previous s false))
              (λ u2. Guards-then d _ _ (established_keeps previous s) (λ u3.
                Guards-then d _ _ (Guards-runtime o mgr d) (λ u4.
                  Guards-then d _ _ (Guards-reads d _ (reads_require p)) (λ u5.
                    Guards-then d _ _ (recovered_keeps d g.id spared) (λ u6. Guards-pure d _))))))))

  pub rolled_keeps :
      (g : Generation) (p : Option Pointer)
      → Spares g.id d.pointer
      → Guards d (restore_predecessor_and_rollback o mgr g p)
  unfolding restore_predecessor_and_rollback
  rolled_keeps g none spared = first_keeps o d g spared
  rolled_keeps g (some p) spared = predecessor_keeps g p spared

  pub committed_keeps : (p : Option Pointer) → Guards d (recover_committed_at_boot o mgr p)
  unfolding recover_committed_at_boot
  committed_keeps none = Guards-fail _ d _
  committed_keeps (some p) =
      Guards-then d _ _ (Guards-reads d _ (λ d'. reads_generation d' p.generation)) (λ g.
        Guards-then d _ _ (Guards-refusal d _ _) (λ u1.
          Guards-then d _ _ (Guards-reads d _ reads_last_known_good) (λ latest.
            Guards-then d _ _ (Guards-refusal d _ _) (λ u2.
              Guards-then d _ _ (Guards-reads d _ (λ d'. reads-IsPublished o d' p)) (λ s.
                Guards-then d _ _ (Guards-reads d _ (λ d'. reads_validation o d' g s false)) (λ u3.
                  Guards-then d _ _ (established_keeps g s) (λ u4.
                    Guards-then d _ _ (Guards-reads d _ (reads_require p)) (λ u5.
                      Guards-then d _ _ (Guards-reads d _ reads_ask) (λ u6. Guards-pure d _)))))))))
