-- ===== src/Reconcile/Settings.antt =====
-- internal/reconcile/manager.go: the manager's settings and the steps that its operations share.
-- internal/reconcile/recovery.go: `validateGenerationSnapshot`, `pointerMatchesPrevious`.
pub mod Steps
use nft_firewall_v.Prelude.{
  ℕ, String, Bool, true, false, not, ◌&&◌, ◌||◌, Option, none, some, if◌then◌else◌, ◌==◌, ltb,
  str_eq,
}
use nft_firewall_v.Machine.Types.{
  Machine, Outside, Pointer, Snapshot, Generation, Status, commit_prepared, pointer_eq,
}
use nft_firewall_v.Machine.Effects.{
  M, Error, refused, pure, fail, ◌>>=◌, ◌>>◌, catch, ask, clock, refuse_when, ignore, optional,
}
use nft_firewall_v.State.Files.{pointer_of, is_at}
use nft_firewall_v.State.Store.{generation, read_script, pending_generation, set_observed_hash}
use nft_firewall_v.Nft.Backend.{backend_apply, fingerprint, emergency_deny_script}

-- Which of the callbacks are set. The safe time to live is in the clock's unit and positive.
pub record Manager : Type 0 where
  pub safe_ttl : ℕ
  pub has_health_check : Bool
  pub has_safe_guard : Bool
  pub has_safe_guard_locked : Bool
  pub has_foreign_mark_guard : Bool
  pub has_post_restore : Bool
  -- `state.MutationLockHeld` of the context of the call
  pub mutation_lock_held : Bool
  pub has_mutation_lock_dir : Bool
  -- `state.CurrentBootID`
  pub boot_id : String

unfoldable pub pointer_matches_previous : Option Pointer → Option Pointer → Bool
pointer_matches_previous none none = true
pointer_matches_previous none (some q) = false
pointer_matches_previous (some p) current = is_at p current

unfoldable pub names : ℕ → Option ℕ → Bool
names n none = false
names n (some i) = i == n

-- `deadline != nil && !now().UTC().Before(*deadline)`
unfoldable pub past : Option ℕ → M Bool
past none = pure false
past (some deadline) = do now ← clock; pure (not (ltb now deadline))

unfoldable pub require_no_pending : M (Unit {0})
require_no_pending = do
  found ← optional pending_generation
  elim found [ none ↦ pure tt | some g ↦ fail (refused "generation is still pending") ]

unfoldable pub prepared_clear : Generation → Bool
prepared_clear g = elim g.prepared_prior_id [
  | none ↦ str_eq g.prepared_prior_sum "" && str_eq g.prepared_prior_snapshot_sum ""
  | some id ↦ false
]

unfoldable pub prepared_as : Pointer → Generation → Bool
prepared_as p g =
    names p.generation g.prepared_prior_id
    && (str_eq g.prepared_prior_sum p.policy_checksum
        && str_eq g.prepared_prior_snapshot_sum p.snapshot_checksum)

unfoldable pub is_absent : Option ℕ → Bool
is_absent none = true
is_absent (some id) = false

unfoldable pub validate_previous : Generation → Option Pointer → Bool → M (Unit {0})
validate_previous g none prepared =
    refuse_when (not (is_absent g.previous_id) || (prepared && not (prepared_clear g)))
      "first generation contains an unexpected predecessor"
validate_previous g (some p) prepared = do
  refuse_when (not (names p.generation g.previous_id))
      "generation predecessor id disagrees with immutable snapshot"
  previous ← generation p.generation
  refuse_when
      (not (
        str_eq previous.checksum p.policy_checksum
        && str_eq previous.snapshot_checksum p.snapshot_checksum))
      "generation predecessor checksum disagrees with immutable snapshot"
  refuse_when (prepared && not (prepared_as p g))
      "prepared predecessor tuple disagrees with immutable snapshot"

module _ (mgr : Manager) where
  unfoldable pub audit_foreign_mark_ownership : M (Unit {0})
  audit_foreign_mark_ownership = do
    refuse_when (not mgr.has_foreign_mark_guard)
        "foreign conntrack-mark ownership guard is unavailable"
    ask

  unfoldable pub acquire_process_lock : M (Unit {0})
  acquire_process_lock = if mgr.mutation_lock_held then pure tt else do
    refuse_when (not mgr.has_mutation_lock_dir)
        "cross-process mutation lock directory is not configured"
    ask

module _ (o : Outside) where
  unfoldable pub record_fingerprint : ℕ → M (Unit {0})
  record_fingerprint id = do hash ← fingerprint o; set_observed_hash id hash

  -- The row against the snapshot that stands under its id.
  unfoldable pub row_matches : Generation → Snapshot → Bool
  row_matches g s =
      g.id == s.generation
      && (str_eq g.checksum s.checksum
          && (str_eq g.snapshot_checksum (pointer_of o s).snapshot_checksum
              && str_eq g.boot_id s.boot_id))

  unfoldable pub validate_generation_snapshot : Generation → Snapshot → Bool → M (Unit {0})
  validate_generation_snapshot g s prepared = do
    refuse_when (not (row_matches g s))
        "generation database row does not match its immutable snapshot"
    refuse_when (not (g.script_path == g.id && g.snapshot_path == g.id))
        "generation database paths do not name the immutable generation files"
    script ← read_script o g
    refuse_when (not (str_eq script s.script)) "generation script and immutable snapshot disagree"
    validate_previous g s.previous prepared

module _ (o : Outside) (mgr : Manager) where
  unfoldable pub install_owned_generation : String → M (Unit {0})
  install_owned_generation script = do audit_foreign_mark_ownership mgr; backend_apply o script

  -- A failed restoration stays an error when the emergency policy was installed.
  unfoldable pub restore_runtime_or_deny : M (Unit {0})
  restore_runtime_or_deny =
      if mgr.has_post_restore
      then catch ask (λ e. ignore ask >> (ignore (backend_apply o emergency_deny_script) >> fail e))
      else pure tt
