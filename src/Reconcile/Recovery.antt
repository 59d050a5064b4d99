-- ===== src/Reconcile/Recovery.antt =====
-- internal/reconcile/recovery.go: what the daemon does with a pending generation when it starts.
pub mod Safety
pub mod Authority
use nft_firewall_v.Prelude.{
  ℕ, String, Bool, true, false, not, ◌&&◌, ◌||◌, Option, none, some, if◌then◌else◌, ◌==◌, ltb,
  str_eq,
}
use nft_firewall_v.Machine.Types.{
  Outside, Pointer, Snapshot, Generation, commit_prepared, committed, pending, applied,
}
use nft_firewall_v.Machine.Effects.{
  M, Error, refused, pure, fail, ◌>>=◌, ◌>>◌, catch, ask, refuse_when, optional,
}
use nft_firewall_v.State.Files.{
  pointer_of, load_verified_snapshot, read_pointer, is_at, ensure_published,
}
use nft_firewall_v.State.Store.{
  generation, is_status, pending_generation, last_known_good, finalize_commit,
  finalize_recovery_rollback,
}
use nft_firewall_v.Nft.Backend.{existing_owned, destroy_owned, integrity, fingerprint, owned_tables}
use nft_firewall_v.Reconcile.Settings.{
  Manager, past, pointer_matches_previous, validate_generation_snapshot,
  audit_foreign_mark_ownership, install_owned_generation, acquire_process_lock,
  restore_runtime_or_deny,
}

pub data Action : Type 0 where
  restored_committed finalized_prepared_commit rolled_back_to_predecessor : Action

-- `RecoveryResult`, which is ready whenever it comes without an error.
pub record Recovered : Type 0 where
  pub generation : ℕ
  pub action : Action

-- `requirePointer`
unfoldable pub require_pointer : Pointer → M (Unit {0})
require_pointer expected = do
  p ← read_pointer
  refuse_when (not (is_at expected p)) "authoritative enforcement pointer changed during recovery"

module _ (mgr : Manager) where
  -- `pendingIsStale`
  unfoldable pub pending_is_stale : Generation → M Bool
  pending_is_stale g = do
    ask
    refuse_when (str_eq g.boot_id "") "pending generation has no creating boot id"
    if not (str_eq g.boot_id mgr.boot_id) then pure true else past g.rollback_deadline

module _ (o : Outside) where
  -- The live tables are intact with the hash; a failure to tell counts as no.
  unfoldable pub already_established : String → M Bool
  already_established hash =
      catch
        (integrity o >>= λ intact.
          (if intact then fingerprint o else pure "") >>= λ live. pure (intact && str_eq live hash))
        (λ e. pure false)

  -- The two refusals of a check of the live tables.
  unfoldable pub verify_established : String → String → String → M (Unit {0})
  verify_established hash broken different = do
    intact ← integrity o
    refuse_when (not intact) broken
    live ← fingerprint o
    refuse_when (not (str_eq live hash)) different

  -- The checks of `rollbackFirstGenerationAtBoot` before it removes the tables.
  unfoldable pub remove_verified : Generation → ℕ → M (Unit {0})
  remove_verified candidate n = do
    refuse_when (not (n == owned_tables) || str_eq candidate.observed_hash "")
        "first pending generation left ambiguous product-named nftables state"
    verify_established candidate.observed_hash "first pending generation cannot be safely removed"
        "first pending generation fingerprint is ambiguous"
    destroy_owned
    remaining ← existing_owned
    refuse_when (not (remaining == 0)) "verified first pending generation remained after removal"

  -- It always ends with an error.
  unfoldable pub rollback_first_generation_at_boot : Generation → M Recovered
  rollback_first_generation_at_boot candidate = do
    n ← existing_owned
    if ltb 0 n then remove_verified candidate n else pure tt
    finalize_recovery_rollback candidate.id
    fail (refused "first pending generation was rolled back without a committed predecessor")

module _ (o : Outside) (mgr : Manager) where
  -- `establishAndVerify`
  unfoldable pub establish_and_verify : Generation → Snapshot → M (Unit {0})
  establish_and_verify g s = do
    audit_foreign_mark_ownership mgr
    refuse_when (str_eq g.observed_hash "") "generation has no persisted observed-state fingerprint"
    established ← already_established o g.observed_hash
    if established
        then pure tt
        else (install_owned_generation o mgr s.script
            >> verify_established o g.observed_hash "owned nftables integrity failed"
                "restored nftables fingerprint does not match durable generation")

  unfoldable pub restore_predecessor : Generation → Pointer → M Recovered
  restore_predecessor candidate p = do
    previous ← generation p.generation
    refuse_when
        (not (
          is_status previous.status committed
          && (str_eq previous.checksum p.policy_checksum
              && str_eq previous.snapshot_checksum p.snapshot_checksum)))
        "pending predecessor is not the exact committed generation"
    s ← ensure_published o p
    validate_generation_snapshot o previous s false
    establish_and_verify previous s
    restore_runtime_or_deny o mgr
    require_pointer p
    finalize_recovery_rollback candidate.id
    pure (record { generation = previous.id; action = rolled_back_to_predecessor })

  unfoldable pub restore_predecessor_and_rollback : Generation → Option Pointer → M Recovered
  restore_predecessor_and_rollback candidate none = rollback_first_generation_at_boot o candidate
  restore_predecessor_and_rollback candidate (some p) = restore_predecessor candidate p

  -- The pointer of a prepared generation was renamed before the process died.
  unfoldable pub finish_published : Generation → Pointer → M Recovered
  finish_published g p = do
    s ← ensure_published o p
    establish_and_verify g s
    require_pointer p
    finalize_commit g.id
    pure (record { generation = g.id; action = finalized_prepared_commit })

  unfoldable pub recover_prepared : Generation → Snapshot → Option Pointer → M Recovered
  recover_prepared g s current = do
    refuse_when (not (pointer_matches_previous s.previous current))
        "prepared generation observed an ambiguous third pointer state"
    restore_predecessor_and_rollback g s.previous

  unfoldable pub recover_ordinary : Generation → Snapshot → Option Pointer → M Recovered
  recover_ordinary g s current = do
    refuse_when (not (pointer_matches_previous s.previous current))
        "ordinary pending generation does not match its exact predecessor pointer"
    stale ← pending_is_stale mgr g
    refuse_when (not stale) "generation is still live on its creating boot and before its deadline"
    restore_predecessor_and_rollback g s.previous

  -- `recoverPendingAtBoot`
  unfoldable pub recover_pending_at_boot : Generation → Option Pointer → M Recovered
  recover_pending_at_boot g current = do
    s ← load_verified_snapshot o g.id
    validate_generation_snapshot o g s (is_status g.status commit_prepared)
    if is_status g.status commit_prepared && is_at (pointer_of o s) current
        then finish_published g (pointer_of o s)
        else if is_status g.status commit_prepared
        then recover_prepared g s current
        else recover_ordinary g s current

  unfoldable pub recover_committed_at_boot : Option Pointer → M Recovered
  recover_committed_at_boot none = fail (refused "no committed enforcement pointer exists")
  recover_committed_at_boot (some p) = do
    g ← generation p.generation
    refuse_when (not (is_status g.status committed))
        "enforcement pointer references an uncommitted generation"
    latest ← last_known_good
    refuse_when (not (latest.id == g.id))
        "enforcement pointer is not the latest committed generation"
    s ← ensure_published o p
    validate_generation_snapshot o g s false
    establish_and_verify g s
    require_pointer p
    ask
    pure (record { generation = g.id; action = restored_committed })

  -- `recoverAtBootLocked`
  unfoldable pub recover_at_boot : M Recovered
  recover_at_boot = do
    acquire_process_lock mgr
    audit_foreign_mark_ownership mgr
    current ← read_pointer
    found ← optional pending_generation
    elim found [
      | none ↦ recover_committed_at_boot current
      | some g ↦ recover_pending_at_boot g current
    ]
