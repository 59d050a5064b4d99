-- ===== src/Reconcile/Commit.antt =====
-- internal/reconcile/manager.go: `commitLocked` and `Commit`.
pub mod Safety
pub mod Success
use nft_firewall_v.Prelude.{
  ℕ, String, Bool, true, false, not, ◌||◌, Option, none, some, if◌then◌else◌, ◌==◌, str_eq,
}
use nft_firewall_v.Machine.Types.{Outside, Pointer, Generation, applied}
use nft_firewall_v.Machine.Effects.{
  M, Error, refused, pure, fail, ◌>>=◌, ◌>>◌, catch, ask, refuse_when,
}
use nft_firewall_v.State.Files.{
  pointer_of, load_snapshot, read_pointer, prepare_pointer, publish_pointer,
}
use nft_firewall_v.State.Store.{
  generation, pending_generation, is_status, finalize_commit, prepare_commit, prepared_deadline,
}
use nft_firewall_v.Nft.Backend.{fingerprint}
use nft_firewall_v.Reconcile.Settings.{
  Manager, pointer_matches_previous, past, audit_foreign_mark_ownership, acquire_process_lock,
}
use nft_firewall_v.Reconcile.Rollback.{rollback_locked}

-- The rename publishes; what follows it never takes it back.
unfoldable pub publish : ℕ → Pointer → M (Unit {0})
publish id p = do publish_pointer p; finalize_commit id

-- What `Commit` requires of the hash that it observes.
unfoldable pub observed_as : String → Option String → Bool
observed_as expected none = false
observed_as expected (some hash) = not (str_eq expected "" || not (str_eq hash expected))

module _ (o : Outside) (mgr : Manager) where
  unfoldable pub expire : ℕ → M (Unit {0})
  expire id = do
    ask
    rollback_locked o mgr id
    fail (refused "generation expired and was rolled back")

  unfoldable pub commit_locked : ℕ → M (Unit {0})
  commit_locked id = do
    g ← generation id
    refuse_when (not (is_status g.status applied)) "generation status cannot be committed"
    s ← load_snapshot o id
    current ← read_pointer
    refuse_when (not (pointer_matches_previous s.previous current))
        "current enforcement pointer does not match generation's recorded predecessor"
    audit_foreign_mark_ownership mgr
    row ← prepare_commit o id
    p ← prepare_pointer (pointer_of o s)
    deadline ← prepared_deadline id
    expired ← past deadline
    if expired then expire id else publish id p

  -- The rollback that a failed check of `Commit` demands. A rollback error becomes text.
  unfoldable pub rollback_rejected : ℕ → M (Unit {0})
  rollback_rejected id = do
    catch (rollback_locked o mgr id)
        (λ e. fail (refused "generation integrity verification failed and rollback failed"))
    fail (refused "generation integrity verification failed and was rolled back")

  -- The observed hash, or none where reading it failed.
  unfoldable pub observed : M (Option String)
  observed = catch (fingerprint o >>= λ h. pure (some h)) (λ e. pure none)

  unfoldable pub commit_pending : ℕ → Generation → M (Unit {0})
  unfolding observed rollback_rejected
  commit_pending id g = do
    refuse_when (not (g.id == id)) "generation is not pending"
    refuse_when (not (is_status g.status applied))
        "generation was persisted but not applied and cannot be committed"
    expired ← past g.rollback_deadline
    if expired
        then (rollback_locked o mgr id >> fail (refused "generation expired and was rolled back"))
        else (observed >>= λ hash.
            if observed_as g.observed_hash hash then commit_locked id else rollback_rejected id)

  unfoldable pub commit : ℕ → M (Unit {0})
  commit id = do acquire_process_lock mgr; g ← pending_generation; commit_pending id g
