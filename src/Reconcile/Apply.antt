-- ===== src/Reconcile/Apply.antt =====
-- internal/reconcile/manager.go: `Apply` and the recovery from its failures.
pub mod Safety
pub mod Recovery
pub mod Authority
use nft_firewall_v.Prelude.{
  ℕ, String, Bool, true, false, not, ◌&&◌, Option, none, some, List, if◌then◌else◌, ltb, ◌+◌,
}
use nft_firewall_v.Provenance.Assignment.{Assignment}
use nft_firewall_v.Machine.Types.{Outside, Generation}
use nft_firewall_v.Machine.Effects.{
  M, Error, joined, refused, mutation_attempted, pure, fail, ◌>>=◌, ◌>>◌, catch, ask, clock,
  refuse_when, ignore, optional,
}
use nft_firewall_v.State.Store.{
  last_known_good, save_generation, read_script, mark_applied, mark_rolled_back,
}
use nft_firewall_v.Nft.Backend.{existing_owned, protect_first_use, destroy_owned}
use nft_firewall_v.Reconcile.Settings.{
  Manager, require_no_pending, audit_foreign_mark_ownership, install_owned_generation,
  acquire_process_lock, record_fingerprint, restore_runtime_or_deny,
}
use nft_firewall_v.Reconcile.Rollback.{rollback_locked}
use nft_firewall_v.Reconcile.Commit.{commit_locked}

-- `compiler.Artifact`
pub record Artifact : Type 0 where
  pub generation : ℕ
  pub script : String
  pub checksum : String
  pub provenance : List Assignment

-- `Result`
pub record Applied : Type 0 where
  pub generation : ℕ
  pub checksum : String
  pub deadline : Option ℕ
  pub committed : Bool

unfoldable pub id_of : Option Generation → Option ℕ
id_of none = none
id_of (some g) = some g.id

-- The cause is returned, joined with the error of a recovery that failed.
unfoldable pub fail_after {ℓ} : {A : Type ℓ} → Error → M (Unit {0}) → M A
fail_after cause recovery = do catch recovery (λ e. fail (joined cause e)); fail cause

unfoldable pub refuse_first_collision : Option Generation → M (Unit {0})
refuse_first_collision none = protect_first_use
refuse_first_collision (some g) = pure tt

-- `recoverFirstApplyExecutionFailure`
unfoldable pub recover_first_apply_execution_failure : ℕ → M (Unit {0})
recover_first_apply_execution_failure id = do
  n ← existing_owned
  refuse_when (ltb 0 n)
      "first apply left unverified product-named nft tables; refusing automatic deletion"
  mark_rolled_back id

module _ (mgr : Manager) where
  unfoldable pub preflight_safe_apply : M (Unit {0})
  preflight_safe_apply = do
    refuse_when (not (mgr.has_safe_guard && mgr.has_safe_guard_locked))
        "safe apply requires preflight and locked rollback-guard verification"
    ask

  unfoldable pub check_guards : Bool → Bool → M (Unit {0})
  check_guards safe preflight_complete = do
    require_no_pending
    if safe && not preflight_complete then preflight_safe_apply else pure tt
    acquire_process_lock mgr
    require_no_pending
    refuse_when (safe && not mgr.has_safe_guard_locked)
        "safe apply requires locked rollback-guard verification"
    if safe then ask else pure tt
    audit_foreign_mark_ownership mgr

  unfoldable pub deadline_of : Bool → M (Option ℕ)
  deadline_of false = pure none
  deadline_of true = do now ← clock; pure (some (now + mgr.safe_ttl))

module _ (o : Outside) (mgr : Manager) where
  unfoldable pub restore : Option Generation → M (Unit {0})
  restore none = destroy_owned
  restore (some g) = do
    script ← read_script o g
    install_owned_generation o mgr script
    record_fingerprint o g.id
    restore_runtime_or_deny o mgr

  -- `recoverPostApplyFailure`
  unfoldable pub recover_post_apply_failure : ℕ → Option Generation → M (Unit {0})
  recover_post_apply_failure id previous = do restore previous; mark_rolled_back id

  unfoldable pub recover_execution : ℕ → Option Generation → M (Unit {0})
  recover_execution id none = recover_first_apply_execution_failure id
  recover_execution id (some g) = recover_post_apply_failure id (some g)

  -- The failure of `installOwnedGeneration` in `Apply`.
  unfoldable pub apply_failed : ℕ → Option Generation → Error → M (Unit {0})
  apply_failed id previous e = do
    ignore ask
    if mutation_attempted e
        then fail_after e (recover_execution id previous)
        else fail_after e (mark_rolled_back id)

  unfoldable pub health_failed : ℕ → Error → M (Unit {0})
  health_failed id e = do
    catch (rollback_locked o mgr id) (λ f. ignore ask >> fail e)
    ignore ask
    fail e

  -- From the installation on.
  unfoldable pub install_candidate : Artifact → Option Generation → Bool → M (Unit {0})
  install_candidate a previous safe = do
    catch (install_owned_generation o mgr a.script) (apply_failed a.generation previous)
    catch (mark_applied a.generation)
        (λ e. fail_after e (recover_post_apply_failure a.generation previous))
    catch (record_fingerprint o a.generation)
        (λ e. fail_after e (recover_post_apply_failure a.generation previous))
    if mgr.has_health_check then catch ask (health_failed a.generation) else pure tt
    if safe then pure tt else commit_locked o mgr a.generation
    ignore ask

  unfoldable pub apply : Artifact → Bool → Bool → M Applied
  apply a safe preflight_complete = do
    check_guards mgr safe preflight_complete
    previous ← optional last_known_good
    refuse_first_collision previous
    deadline ← deadline_of mgr safe
    ask
    save_generation o a.generation a.checksum a.script (id_of previous) deadline mgr.boot_id
        a.provenance
    install_candidate a previous safe
    pure (record {
      generation = a.generation;
      checksum = a.checksum;
      deadline = deadline;
      committed = not safe;
    })
