-- ===== src/Reconcile/Apply/Authority.antt =====
-- `Apply` as a whole on every tape.
use nft_firewall_v.Prelude.{
  ℕ, Bool, true, false, not, ◌≡◌, refl, ◌∙◌, ◌&&◌, inl, inr, Option, none, some, if◌then◌else◌,
}
use nft_firewall_v.Machine.Types.{Machine, Outside, Generation}
use nft_firewall_v.Machine.Effects.{M, World, Error, is_no_rows, pure, fail, ◌>>=◌, ask, optional}
use nft_firewall_v.Machine.Logic.{
  Keeps, Reads, follows, weaken, reads_then, asks_then, refuses_then, reads_ask, reads_pure,
  reads_fail, reads_clock, if_follows, pure_follows, moved, catches, stays,
}
use nft_firewall_v.State.Store.{last_known_good, pending_generation}
use nft_firewall_v.State.Store.Reads.{reads_last_known_good, reads_pending}
use nft_firewall_v.State.Store.Saves.{save_generation_keeps}
use nft_firewall_v.State.Authority.{Guarded, IsSafe, Spares}
use nft_firewall_v.Nft.Backend.Writes.{SameStore, SameStore-refl, protect_first_use_keeps}
use nft_firewall_v.Reconcile.Settings.{Manager, require_no_pending}
use nft_firewall_v.Reconcile.Settings.Steps.{reads_audit}
use nft_firewall_v.Reconcile.Rollback.Safety.{Guarded-SameStore}
use nft_firewall_v.Reconcile.Rollback.Settled.{reads_lock}
use nft_firewall_v.Reconcile.Apply.{
  Artifact, Applied, preflight_safe_apply, check_guards, deadline_of, refuse_first_collision,
  install_candidate, apply,
}
use nft_firewall_v.Reconcile.Apply.Safety.{Guarded-trans}
use nft_firewall_v.Reconcile.Apply.Recovery.{Applies, Applies-Guarded, install_candidate_keeps}

pub reads_optional :
    {A : Type 0} (d : Machine) {F : A → Type 0} (m : M A)
    → Reads d m F
    → Reads d (optional m) (λ a. Unit {0})
unfolding optional
reads_optional d m first =
    catches {Y = λ e d'. d' ≡ d} (reads_then refl first (λ a k. reads_pure (some a) tt)) (λ e d' at.
      moved at (if_follows (is_no_rows e) (λ h. reads_pure none tt) (λ h. reads_fail e)))

refuses_some :
    (d : Machine) (g : Option Generation) (e : Error)
    → Reads {A = Unit {0}} d (elim g [ none ↦ pure tt | some h ↦ fail e ]) (λ u. Unit {0})
refuses_some d none e = reads_pure tt tt
refuses_some d (some g) e = reads_fail e

reads_no_pending : (d : Machine) → Reads d require_no_pending (λ u. Unit {0})
unfolding require_no_pending
reads_no_pending d =
    reads_then refl (reads_optional d pending_generation (reads_pending d))
      (λ g k. refuses_some d g _)

reads_preflight : (mgr : Manager) (d : Machine) → Reads d (preflight_safe_apply mgr) (λ u. Unit {0})
unfolding preflight_safe_apply
reads_preflight mgr d = refuses_then _ _ refl (λ h u. reads_ask d)

reads_when :
    (d : Machine) (b : Bool) (m : M (Unit {0}))
    → Reads d m (λ u. Unit {0})
    → Reads d (if b then m else pure tt) (λ u. Unit {0})
reads_when d b m first = if_follows b (λ h. first) (λ h. reads_pure tt tt)

reads_guards :
    (mgr : Manager) (d : Machine) (safe complete : Bool)
    → Reads d (check_guards mgr safe complete) (λ u. Unit {0})
unfolding check_guards
reads_guards mgr d safe complete = reads_then refl (reads_no_pending d) (λ u1 k1.
    reads_then refl (reads_when d (safe && not complete) _ (reads_preflight mgr d)) (λ u2 k2.
      reads_then refl (reads_lock mgr d) (λ u3 k3. reads_then refl (reads_no_pending d) (λ u4 k4.
        refuses_then _ _ refl (λ h u5.
          reads_then refl (reads_when d safe ask (reads_ask d)) (λ u6 k6. reads_audit mgr d))))))

reads_deadline_of :
    (mgr : Manager) (d : Machine) (safe : Bool) → Reads d (deadline_of mgr safe) (λ t. Unit {0})
unfolding deadline_of
reads_deadline_of mgr d false = reads_pure none tt
reads_deadline_of mgr d true = reads_then refl (reads_clock d) (λ now k. reads_pure _ tt)

collision_keeps :
    (d : Machine) (previous : Option Generation)
    → Keeps d (SameStore d) (refuse_first_collision previous) (λ u. SameStore d)
unfolding refuse_first_collision
collision_keeps d none = protect_first_use_keeps d
collision_keeps d (some g) = pure_follows tt (SameStore-refl d)

Guarded-IsSafe : (d d' : Machine) → Guarded d d' → IsSafe d'
unfolding Guarded
Guarded-IsSafe d d' (same, h) = h

Applies-trans : (id : ℕ) (d d' d'' : Machine) → Guarded d d' → Applies id d' d'' → Applies id d d''
unfolding Applies Guarded
Applies-trans id d d' d'' (same, h) (h', inl at) = (h', inl (at ∙ same))
Applies-trans id d d' d'' (same, h) (h', inr named) = (h', inr named)

module _ (o : Outside) (mgr : Manager) (a : Artifact) (safe complete : Bool) (d : Machine)
    (h : IsSafe d) where
  installed_keeps :
      (previous : Option Generation) (r : Applied) (d' : Machine)
      → Guarded d d'
      → Spares a.generation d'.pointer
      → Keeps d'
          (Applies a.generation d)
          (install_candidate o mgr a previous safe >>= λ u. pure r)
          (λ v. Applies a.generation d)
  installed_keeps previous r d' guarded spared =
      follows
        (weaken
          (install_candidate_keeps o mgr d' a previous safe (Guarded-IsSafe d d' guarded) spared)
          (λ u d'' k. Applies-trans a.generation d d' d'' guarded k)
          (λ e d'' k. Applies-trans a.generation d d' d'' guarded k)
          (λ d'' k. Applies-trans a.generation d d' d'' guarded k))
        (λ u d'' k. pure_follows r k)

  apply_keeps :
      Keeps d (Applies a.generation d) (apply o mgr a safe complete) (λ r. Applies a.generation d)
  unfolding apply
  apply_keeps =
      let id = a.generation in
      let here = Applies-Guarded id d d (Guarded-SameStore d d h (SameStore-refl d)) in
      reads_then here (reads_guards mgr d safe complete) (λ u1 k1.
        reads_then here (reads_optional d last_known_good (reads_last_known_good d)) (λ previous k2.
          follows
            (weaken (collision_keeps d previous) (λ u d' k. Guarded-SameStore d d' h k)
              (λ e d' k. Applies-Guarded id d d' (Guarded-SameStore d d' h k))
              (λ d' k. Applies-Guarded id d d' (Guarded-SameStore d d' h k)))
            (λ u2 d1 k3.
              let there = Applies-Guarded id d d1 k3 in
              reads_then there (reads_deadline_of mgr d1 safe) (λ deadline k4.
                asks_then there (λ u3.
                  follows {J = λ u d'. Guarded d d' × Spares id d'.pointer}
                    (weaken
                      (save_generation_keeps o d1 (Guarded-IsSafe d d1 k3) id a.checksum a.script _
                        deadline mgr.boot_id a.provenance)
                      (λ u d' (k, s). (Guarded-trans d d1 d' k3 k, s))
                      (λ e d' k. Applies-Guarded id d d' (Guarded-trans d d1 d' k3 k))
                      (λ d' k. Applies-Guarded id d d' (Guarded-trans d d1 d' k3 k)))
                    (λ u4 d2 (k5, spared). installed_keeps previous _ d2 k5 spared))))))

-- From a machine whose pointer is authorized, whatever calls fail, and wherever the process dies:
-- the pointer names a published generation,
-- and it has not moved, except to the generation that was applied.
pub apply_moves_only :
    (o : Outside) (mgr : Manager) (a : Artifact) (safe complete : Bool) (w : World Machine)
    → IsSafe w.machine
    → Applies a.generation w.machine ((apply o mgr a safe complete w).0).machine
apply_moves_only o mgr a safe complete w h =
    stays
      (weaken (apply_keeps o mgr a safe complete w.machine h) (λ r d' k. (k, tt)) (λ e d' k. k)
        (λ d' k. k))
      w refl
