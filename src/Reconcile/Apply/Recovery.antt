-- ===== src/Reconcile/Apply/Recovery.antt =====
-- The recoveries of `Apply` on every tape. The generation that they roll back is not the one that
-- the pointer names.
use nft_firewall_v.Prelude.{
  ℕ, Bool, ◌≡◌, refl, sym, subst, ◌∙◌, ◌⊎◌, inl, inr, Option, none, some, if◌then◌else◌,
}
use nft_firewall_v.Machine.Types.{Machine, Outside, Pointer, Generation}
use nft_firewall_v.Machine.Effects.{M, Error, mutation_attempted, pure, catch, ask, ignore}
use nft_firewall_v.Machine.Logic.{
  Keeps, Follows, follows, weaken, reads_then, refuses_then, reads_ask, if_follows, pure_follows,
  fail_follows, catches,
}
use nft_firewall_v.State.Files.{pointer_of}
use nft_firewall_v.State.Files.Reads.{IsStored}
use nft_firewall_v.State.Store.{mark_rolled_back}
use nft_firewall_v.State.Store.Reads.{reads_script}
use nft_firewall_v.State.Store.Writes.{mark_rolled_back_keeps}
use nft_firewall_v.State.Authority.{Guarded, IsSafe, Spares}
use nft_firewall_v.Nft.Backend.{destroy_owned}
use nft_firewall_v.Nft.Backend.Writes.{reads_existing, destroy_owned_keeps}
use nft_firewall_v.Reconcile.Settings.{Manager, restore_runtime_or_deny}
use nft_firewall_v.Reconcile.Settings.Steps.{install_keeps, restore_runtime_keeps}
use nft_firewall_v.Reconcile.Rollback.Safety.{Guarded-SameStore, Guarded-rolled}
use nft_firewall_v.Reconcile.Rollback.Settled.{rollback_locked_keeps}
use nft_firewall_v.Reconcile.Commit.{commit_locked}
use nft_firewall_v.Reconcile.Commit.Safety.{Commits, IsMoved, commit_locked_keeps}
use nft_firewall_v.Reconcile.Apply.{
  Artifact, recover_first_apply_execution_failure, restore, recover_post_apply_failure,
  recover_execution, apply_failed, health_failed, install_candidate,
}
use nft_firewall_v.Reconcile.Apply.Safety.{
  Guards, Guards-then, Guards-kernel, Guards-ignored, Guards-fail_after, Guards-mark_applied,
  Guards-record_fingerprint, Guarded-trans,
}

module _ (o : Outside) (mgr : Manager) (d : Machine) where
  pub Guards-runtime : Guards d (restore_runtime_or_deny o mgr)
  unfolding Guards Guarded
  Guards-runtime d' (same, safe) =
      weaken (restore_runtime_keeps o mgr d') (λ u d'' at. subst (Guarded d) (sym at) (same, safe))
        (λ e d'' k. Guarded-trans d d' d'' (same, safe) (Guarded-SameStore d' d'' safe k))
        (λ d'' k. Guarded-trans d d' d'' (same, safe) (Guarded-SameStore d' d'' safe k))

  pub Guards-restore : (previous : Option Generation) → Guards d (restore o mgr previous)
  unfolding restore Guards
  Guards-restore none d' h = Guards-kernel d destroy_owned destroy_owned_keeps d' h
  Guards-restore (some g) d' h = reads_then h (reads_script o d' g) (λ script k.
      Guards-then d _ _ (Guards-kernel d _ (λ q. install_keeps o mgr q script))
        (λ u. Guards-then d _ _ (Guards-record_fingerprint d o g.id) (λ v. Guards-runtime)) d' h)

  module _ (id : ℕ) (spared : Spares id d.pointer) where
    Guards-mark_rolled_back : Guards d (mark_rolled_back id)
    unfolding Guards
    Guards-mark_rolled_back d' h =
        mark_rolled_back_keeps id h (Guarded-rolled id d d' spared h)
          (Guarded-rolled id d d' spared h)

    Guards-post_apply :
        (previous : Option Generation) → Guards d (recover_post_apply_failure o mgr id previous)
    unfolding recover_post_apply_failure
    Guards-post_apply previous =
        Guards-then d _ _ (Guards-restore previous) (λ u. Guards-mark_rolled_back)

    Guards-first_execution : Guards d (recover_first_apply_execution_failure id)
    unfolding Guards recover_first_apply_execution_failure
    Guards-first_execution d' h =
        reads_then h (reads_existing d')
          (λ n at. refuses_then _ _ h (λ k u. Guards-mark_rolled_back d' h))

    Guards-execution :
        (previous : Option Generation) → Guards d (recover_execution o mgr id previous)
    unfolding recover_execution
    Guards-execution none = Guards-first_execution
    Guards-execution (some g) = Guards-post_apply (some g)

    Guards-apply_failed :
        (previous : Option Generation) (e : Error) → Guards d (apply_failed o mgr id previous e)
    unfolding apply_failed Guards
    Guards-apply_failed previous e = Guards-then d _ _ (Guards-ignored d) (λ u d' h.
        if_follows (mutation_attempted e)
          (λ t. Guards-fail_after d e _ (Guards-execution previous) d' h)
          (λ t. Guards-fail_after d e _ Guards-mark_rolled_back d' h))

    Guards-health_failed : (e : Error) → Guards d (health_failed o mgr id e)
    unfolding health_failed Guards Guarded
    Guards-health_failed e d' (same, safe) =
        follows
          (catches {K = λ u. Guarded d} {Y = λ f. Guarded d}
            (weaken (rollback_locked_keeps o mgr id d' safe)
              (λ u d'' (k, r). Guarded-trans d d' d'' (same, safe) k)
              (λ f d'' k. Guarded-trans d d' d'' (same, safe) k)
              (λ d'' k. Guarded-trans d d' d'' (same, safe) k))
            (λ f d'' k. follows (Guards-ignored d d'' k) (λ u d3 k'. fail_follows _ k')))
          (λ u d'' k. follows (Guards-ignored d d'' k) (λ u d3 k'. fail_follows _ k'))

-- The pointer is authorized, and either has not moved or names the generation.
unfoldable pub Applies : ℕ → Machine → Machine → Type 0
Applies id d d' =
    IsSafe d'
    × ((d'.pointer ≡ d.pointer) ⊎ ((p : Pointer) × (d'.pointer ≡ some p) × (p.generation ≡ id)))

pub Applies-Guarded : (id : ℕ) (d d' : Machine) → Guarded d d' → Applies id d d'
unfolding Applies Guarded
Applies-Guarded id d d' (same, safe) = (safe, inl same)

Applies-Commits :
    (o : Outside) (id : ℕ) (d d' d'' : Machine)
    → Guarded d d'
    → Commits o id d' d''
    → Applies id d d''
unfolding Applies Guarded Commits IsMoved IsStored
Applies-Commits o id d d' d'' (same, safe) (safe', inl at) = (safe', inl (at ∙ same))
Applies-Commits o id d d' d'' (same, safe) (safe', inr (s, stored, matches, at, kernel)) =
    (safe', inr (pointer_of o s, at, stored.2))

module _ (o : Outside) (mgr : Manager) (d : Machine) (id : ℕ) (spared : Spares id d.pointer) where
  -- A step with its recovery, before the rest of `Apply`.
  Guards-caught :
      (m : M (Unit {0})) (h : Error → M (Unit {0}))
      → Guards d m
      → ((e : Error) → Guards d (h e))
      → Guards d (catch m h)
  unfolding Guards
  Guards-caught m h first second d' k =
      catches {Y = λ e. Guarded d} (first d' k) (λ e d'' k'. second e d'' k')

  weaken-Guards :
      (m : M (Unit {0}))
      → Guards d m
      → (d' : Machine) → Guarded d d'
      → Follows d' m (λ u. Guarded d) (λ e. Applies id d) (Applies id d)
  unfolding Guards
  weaken-Guards m all d' h =
      weaken (all d' h) (λ u d'' k. k) (λ e d'' k. Applies-Guarded id d d'' k)
        (λ d'' k. Applies-Guarded id d d'' k)

  commit_step :
      (safe : Bool) (d' : Machine)
      → Guarded d d'
      → Keeps d'
          (Applies id d)
          (if safe then pure tt else commit_locked o mgr id)
          (λ u. Applies id d)
  unfolding Guarded
  commit_step safe d' (same, h) =
      if_follows safe (λ t. pure_follows tt (Applies-Guarded id d d' (same, h)))
        (λ t.
          weaken (commit_locked_keeps o mgr id d' h)
            (λ u d'' (k, c). Applies-Commits o id d d' d'' (same, h) k)
            (λ e d'' k. Applies-Commits o id d d' d'' (same, h) k)
            (λ d'' k. Applies-Commits o id d d' d'' (same, h) k))

  ignored_last :
      (d' : Machine) → Applies id d d' → Keeps d' (Applies id d) (ignore ask) (λ u. Applies id d)
  unfolding ignore
  ignored_last d' h =
      catches {Y = λ e d''. d'' ≡ d'}
        (weaken (reads_ask d') (λ u d'' k. subst (Applies id d) (sym (k.0)) h) (λ e d'' k. k)
          (λ d'' k. subst (Applies id d) (sym k) h))
        (λ e d'' at. pure_follows tt (subst (Applies id d) (sym at) h))

  Guards-ask : Guards d ask
  unfolding Guards
  Guards-ask d' h =
      weaken (reads_ask d') (λ u d'' k. subst (Guarded d) (sym (k.0)) h)
        (λ e d'' k. subst (Guarded d) (sym k) h) (λ d'' k. subst (Guarded d) (sym k) h)

  -- The health check, where one is configured.
  checked_keeps :
      Guards d (if mgr.has_health_check then catch ask (health_failed o mgr id) else pure tt)
  unfolding Guards
  checked_keeps d' h =
      if_follows mgr.has_health_check
        (λ t. Guards-caught _ _ Guards-ask (Guards-health_failed o mgr d id spared) d' h)
        (λ t. pure_follows tt h)

pub install_candidate_keeps :
    (o : Outside) (mgr : Manager) (d : Machine) (a : Artifact) (previous : Option Generation)
    (safe : Bool)
    → IsSafe d
    → Spares a.generation d.pointer
    → Keeps d
        (Applies a.generation d)
        (install_candidate o mgr a previous safe)
        (λ u. Applies a.generation d)
unfolding install_candidate Guarded Guards
install_candidate_keeps o mgr d a previous safe h spared =
    let id = a.generation in
    let recovered =
      λ (e : Error). Guards-fail_after d e _ (Guards-post_apply o mgr d id spared previous) in
    let step = weaken-Guards o mgr d id spared in
    let caught = Guards-caught o mgr d id spared in
    follows
      (step _
        (caught _ _ (Guards-kernel d _ (λ q. install_keeps o mgr q a.script))
          (Guards-apply_failed o mgr d id spared previous))
        d (refl, h))
      (λ u1 d1 k1.
        follows (step _ (caught _ _ (Guards-mark_applied d id) recovered) d1 k1) (λ u2 d2 k2.
          follows (step _ (caught _ _ (Guards-record_fingerprint d o id) recovered) d2 k2)
            (λ u3 d3 k3. follows (step _ (checked_keeps o mgr d id spared) d3 k3) (λ u4 d4 k4.
              follows (commit_step o mgr d id spared safe d4 k4)
                (λ u5 d5 k5. ignored_last o mgr d id spared d5 k5)))))
