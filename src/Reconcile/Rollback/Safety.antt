-- ===== src/Reconcile/Rollback/Safety.antt =====
-- `rollbackLocked` on every tape: the pointer is not moved, and it stays authorized.
use nft_firewall_v.Prelude.{
  ℕ, Bool, true, false, ◌≡◌, refl, sym, subst, ap, ◌&&◌, ◌||◌, Option, none, some, List,
  if◌then◌else◌, ◌==◌,
}
use nft_firewall_v.Machine.Types.{
  Machine, Outside, Pointer, Snapshot, Generation, committed, rolled_back,
}
use nft_firewall_v.Machine.Effects.{pure, ◌>>=◌, ask}
use nft_firewall_v.Machine.Logic.{
  Keeps, Reads, follows, weaken, reads_then, refuses_then, acts_then, reads_pure, reads_fail,
  if_follows, pure_follows, act_follows, moved,
}
use nft_firewall_v.State.Files.{clear_active}
use nft_firewall_v.State.Files.Reads.{IsPublished, reads-IsPublished}
use nft_firewall_v.State.Store.{mark_rolled_back, update_rows, is_status, is_open}
use nft_firewall_v.State.Store.Reads.{reads_generation}
use nft_firewall_v.State.Store.Writes.{with_rows, mark_rolled_back_keeps}
use nft_firewall_v.State.Authority.{Guarded, IsAuthorized, IsSafe, Spares, rolled_back-IsAuthorized}
use nft_firewall_v.Nft.Backend.{destroy_owned, loaded}
use nft_firewall_v.Nft.Backend.Writes.{
  SameStore, SameStore-refl, SameStore-trans, destroy_owned_keeps,
}
use nft_firewall_v.Reconcile.Settings.{Manager, restore_runtime_or_deny}
use nft_firewall_v.Reconcile.Settings.Steps.{reads_validation, install_keeps, restore_runtime_keeps}
use nft_firewall_v.Reconcile.Rollback.{to_absent, durable_predecessor, to_predecessor}

pub Guarded-SameStore : (d d' : Machine) → IsSafe d → SameStore d d' → Guarded d d'
unfolding Guarded IsSafe SameStore
Guarded-SameStore d d' safe h =
    (ap (λ m. m.pointer) h, subst (λ m. IsAuthorized m.pointer m.rows) (sym h) safe)

-- `UPDATE generations SET status='rolled_back' …`
abbrev pub rolled : ℕ → List Generation → List Generation
rolled id rows =
    update_rows (λ g. g.id == id && (is_open g.status || is_status g.status committed))
      (λ g. record g { status = rolled_back }) rows

pub Guarded-rolled :
    (id : ℕ) (d d' : Machine)
    → Spares id d.pointer
    → Guarded d d'
    → Guarded d (with_rows (rolled id) d')
unfolding Guarded IsSafe
Guarded-rolled id d d' spared (same, safe) = (
  same,
  rolled_back-IsAuthorized d'.pointer id d'.rows (subst (Spares id) (sym same) spared) safe,
)

-- A successful rollback of a generation that has no predecessor.
unfoldable pub IsEmptied : ℕ → Machine → Machine → Type 0
IsEmptied id d d' = (d'.kernel.tables ≡ 0) × (d'.rows ≡ rolled id d.rows)

none-Spares : (id : ℕ) (p : Option Pointer) → p ≡ none → Spares id p
unfolding Spares
none-Spares id none h = tt
none-Spares id (some p) h = cc

-- The last steps for a first generation, from a machine whose owned tables are gone.
absent_last :
    (id : ℕ) (d d' : Machine)
    → d.pointer ≡ none
    → IsSafe d
    → SameStore d d'
    → d'.kernel.tables ≡ 0
    → Keeps d'
        (Guarded d)
        (mark_rolled_back id >>= λ u. clear_active >>= λ v. ask)
        (λ u d''. Guarded d d'' × IsEmptied id d d'')
unfolding clear_active ask Guarded IsSafe IsAuthorized IsEmptied SameStore
absent_last id d d' h safe same empty =
    let before = Guarded-SameStore d d' safe same in
    let after = Guarded-rolled id d d' (none-Spares id d.pointer h) before in
    let rows = ap (λ m. rolled id m.rows) same in
    follows
      (mark_rolled_back_keeps {K = λ u d''. d'' ≡ with_rows (rolled id) d'} id before after refl)
      (λ u d'' at. moved at (
        acts_then _ after (sym h, tt)
          (λ v. act_follows _ (sym h, tt) (sym h, tt) ((sym h, tt), (empty, rows)))))

destroy_last :
    (d : Machine) (unowned : Bool)
    → (unowned ≡ true → d.kernel.tables ≡ 0)
    → Keeps d
        (SameStore d)
        (if unowned then pure tt else destroy_owned)
        (λ u d'. SameStore d d' × (d'.kernel.tables ≡ 0))
destroy_last d unowned h =
    if_follows unowned (λ t. pure_follows tt (SameStore-refl d, h t)) (λ t. destroy_owned_keeps d)

pub to_absent_keeps :
    (id : ℕ) (d : Machine) (unowned : Bool)
    → (unowned ≡ true → d.kernel.tables ≡ 0)
    → d.pointer ≡ none
    → IsSafe d
    → Keeps d (Guarded d) (to_absent id unowned) (λ u d'. Guarded d d' × IsEmptied id d d')
unfolding to_absent
to_absent_keeps id d unowned owned h safe =
    follows
      (weaken (destroy_last d unowned owned) (λ u d' k. k) (λ e d' k. Guarded-SameStore d d' safe k)
        (λ d' k. Guarded-SameStore d d' safe k))
      (λ u d' (same, empty). absent_last id d d' h safe same empty)

-- A successful rollback to the recorded predecessor.
unfoldable pub IsRestored : Outside → ℕ → Pointer → Machine → Machine → Type 0
IsRestored o id p d d' =
    (t : Snapshot) × IsPublished o d p t
    × (d'.kernel ≡ loaded o t.script)
    × (d'.rows ≡ rolled id d.rows)

module _ (o : Outside) (mgr : Manager) (id : ℕ) (d : Machine) (safe : IsSafe d) where
  restore_last :
      (p : Pointer) (t : Snapshot) (d' : Machine)
      → Spares id d.pointer
      → IsPublished o d p t
      → SameStore d d'
      → d'.kernel ≡ loaded o t.script
      → Keeps d'
          (Guarded d)
          (restore_runtime_or_deny o mgr >>= λ u. mark_rolled_back id >>= λ v. ask)
          (λ u d''. Guarded d d'' × IsRestored o id p d d'')
  unfolding SameStore IsRestored ask
  restore_last p t d' spared durable same kernel =
      let before = Guarded-SameStore d d' safe same in
      let after = Guarded-rolled id d d' spared before in
      let rows = ap (λ m. rolled id m.rows) same in
      follows
        (weaken (restore_runtime_keeps o mgr d') (λ u d'' k. k)
          (λ e d'' k. Guarded-SameStore d d'' safe (SameStore-trans d d' d'' same k))
          (λ d'' k. Guarded-SameStore d d'' safe (SameStore-trans d d' d'' same k)))
        (λ u d'' at. moved at (
          follows
            (mark_rolled_back_keeps {K = λ u d''. d'' ≡ with_rows (rolled id) d'} id before after
              refl)
            (λ v d3 at'.
              moved at' (act_follows _ after after (after, (t, durable, kernel, rows))))))

  durable_keeps :
      (g : Generation) (recorded : Option Pointer)
      → Reads d
          (durable_predecessor o mgr g recorded)
          (λ t. (p : Pointer) × (recorded ≡ some p) × IsPublished o d p t)
  unfolding durable_predecessor
  durable_keeps g none = reads_fail _
  durable_keeps g (some p) = refuses_then _ _ refl (λ h u.
      reads_then refl (reads-IsPublished o d p) (λ t durable.
        reads_then refl (reads_validation o d g t false)
          (λ v linked. reads_pure t (p, refl, durable))))

  pub to_predecessor_keeps :
      (previous_id : ℕ) (recorded : Option Pointer)
      → Spares id d.pointer
      → Keeps d
          (Guarded d)
          (to_predecessor o mgr id previous_id recorded)
          (λ u d'. Guarded d d' × ((p : Pointer) × (recorded ≡ some p) × IsRestored o id p d d'))
  unfolding to_predecessor
  to_predecessor_keeps previous_id recorded spared =
      reads_then (Guarded-SameStore d d safe (SameStore-refl d)) (reads_generation d previous_id)
        (λ g found.
          reads_then (Guarded-SameStore d d safe (SameStore-refl d)) (durable_keeps g recorded)
            (λ t (p, at, durable).
              follows
                (weaken (install_keeps o mgr d t.script) (λ u d' k. k)
                  (λ e d' k. Guarded-SameStore d d' safe k) (λ d' k. Guarded-SameStore d d' safe k))
                (λ u d' (same, kernel).
                  weaken (restore_last p t d' spared durable same kernel)
                    (λ v d'' (k, r). (k, (p, at, r))) (λ e d'' k. k) (λ d'' k. k))))
