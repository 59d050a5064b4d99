-- ===== src/Reconcile/Rollback.antt =====
-- internal/reconcile/manager.go: `rollbackLocked` and `Rollback`.
pub mod Safety
pub mod Settled
use nft_firewall_v.Prelude.{ℕ, Bool, true, false, not, ◌&&◌, Option, none, some, if◌then◌else◌, ltb}
use nft_firewall_v.Machine.Types.{
  Outside, Pointer, Snapshot, Generation, pending, commit_prepared, committed, rolled_back,
}
use nft_firewall_v.Machine.Effects.{M, refused, pure, fail, ◌>>=◌, ◌>>◌, ask, refuse_when}
use nft_firewall_v.State.Files.{
  pointer_of, load_verified_snapshot, read_pointer, is_at, ensure_published, clear_active,
}
use nft_firewall_v.State.Store.{generation, is_status, finalize_commit, mark_rolled_back}
use nft_firewall_v.Nft.Backend.{existing_owned, destroy_owned}
use nft_firewall_v.Reconcile.Settings.{
  Manager, pointer_matches_previous, is_absent, validate_generation_snapshot,
  audit_foreign_mark_ownership, install_owned_generation, acquire_process_lock,
  restore_runtime_or_deny,
}

-- A first generation that was never applied owns no tables.
unfoldable pub to_absent : ℕ → Bool → M (Unit {0})
to_absent id unowned = do
  if unowned then pure tt else destroy_owned
  mark_rolled_back id
  clear_active
  ask

unfoldable pub refuse_unverified : Bool → M (Unit {0})
refuse_unverified false = pure tt
refuse_unverified true = do
  n ← existing_owned
  refuse_when (ltb 0 n)
      "first-generation pending state has unverified product-named nft tables; refusing automatic deletion"

module _ (o : Outside) (mgr : Manager) where
  unfoldable pub durable_predecessor : Generation → Option Pointer → M Snapshot
  durable_predecessor previous none =
      fail (refused "rollback predecessor is not the exact committed generation")
  durable_predecessor previous (some p) = do
    refuse_when (not (is_status previous.status committed))
        "rollback predecessor is not the exact committed generation"
    s ← ensure_published o p
    validate_generation_snapshot o previous s false
    pure s

  unfoldable pub to_predecessor : ℕ → ℕ → Option Pointer → M (Unit {0})
  to_predecessor id previous_id recorded = do
    previous ← generation previous_id
    s ← durable_predecessor previous recorded
    install_owned_generation o mgr s.script
    restore_runtime_or_deny o mgr
    mark_rolled_back id
    ask

  unfoldable pub rollback_unpublished : ℕ → Generation → Snapshot → Option Pointer → M (Unit {0})
  rollback_unpublished id g s current = do
    refuse_when (not (pointer_matches_previous s.previous current))
        "pending generation predecessor pointer is ambiguous"
    refuse_unverified (is_absent g.previous_id && is_status g.status pending)
    elim g.previous_id [
      | none ↦ to_absent id (is_status g.status pending)
      | some previous_id ↦ to_predecessor id previous_id s.previous
    ]

  unfoldable pub rollback_open : ℕ → Generation → M (Unit {0})
  rollback_open id g = do
    refuse_when (is_status g.status committed)
        "generation is committed; rollback is restricted to pending safe-apply generations"
    s ← load_verified_snapshot o id
    validate_generation_snapshot o g s (is_status g.status commit_prepared)
    current ← read_pointer
    if is_status g.status commit_prepared && is_at (pointer_of o s) current
        then (finalize_commit id
            >> fail (refused "generation commit pointer was already published"))
        else rollback_unpublished id g s current

  unfoldable pub rollback_locked : ℕ → M (Unit {0})
  rollback_locked id = do
    audit_foreign_mark_ownership mgr
    g ← generation id
    if is_status g.status rolled_back then pure tt else rollback_open id g

  unfoldable pub rollback : ℕ → M (Unit {0})
  rollback id = do acquire_process_lock mgr; rollback_locked id
