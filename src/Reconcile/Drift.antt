-- ===== src/Reconcile/Drift.antt =====
-- internal/reconcile/manager.go: `RollbackExpired` and `Reconcile`, and `ExpectedGeneration` of
-- internal/state/store.go. The Bool and the Drift that come with an error are not kept.
pub mod Safety
use nft_firewall_v.Prelude.{
  ℕ, String, Bool, true, false, not, ◌&&◌, Option, none, some, if◌then◌else◌, ◌==◌, str_eq,
}
use nft_firewall_v.Machine.Types.{
  Machine, Outside, Pointer, Generation, pending, applied, commit_prepared,
}
use nft_firewall_v.Machine.Effects.{M, no_rows, pure, fail, ◌>>=◌, ◌>>◌, ask, ignore, optional}
use nft_firewall_v.State.Files.{read_pointer, is_at}
use nft_firewall_v.State.Store.{is_status, pending_generation, last_known_good, read_script}
use nft_firewall_v.Nft.Backend.{existing_owned, integrity, fingerprint, owned_tables}
use nft_firewall_v.Reconcile.Settings.{
  Manager, audit_foreign_mark_ownership, acquire_process_lock, install_owned_generation,
  record_fingerprint, restore_runtime_or_deny,
}
use nft_firewall_v.Reconcile.Rollback.{rollback_locked}
use nft_firewall_v.Reconcile.Recovery.{
  Action, restored_committed, finalized_prepared_commit, rolled_back_to_predecessor, Recovered,
  pending_is_stale, recover_pending_at_boot,
}

-- `Drift`; the tables are counted, and the detail is not kept.
pub record Drift : Type 0 where
  pub owned : ℕ
  pub missing : Bool
  pub repaired : Bool

is_rolled_back_action : Action → Bool
is_rolled_back_action restored_committed = false
is_rolled_back_action finalized_prepared_commit = false
is_rolled_back_action rolled_back_to_predecessor = true

module _ (o : Outside) (mgr : Manager) where
  unfoldable pub recover_stale : Generation → Bool → M Bool
  unfolding is_rolled_back_action
  recover_stale g false = pure false
  recover_stale g true = do
    current ← read_pointer
    r ← recover_pending_at_boot o mgr g current
    pure (is_rolled_back_action r.action)

  unfoldable pub expire_pending : Option Generation → M Bool
  expire_pending none = pure false
  expire_pending (some g) = do
    stale ← if is_status g.status commit_prepared then pure true else pending_is_stale mgr g
    recover_stale g stale

  -- `RollbackExpired`
  unfoldable pub rollback_expired : M Bool
  rollback_expired = do
    acquire_process_lock mgr
    audit_foreign_mark_ownership mgr
    found ← optional pending_generation
    expire_pending found

-- The pointer that a generation would be published by.
unfoldable pub published_as : Generation → Pointer
published_as g = record {
  generation = g.id;
  snapshot_checksum = g.snapshot_checksum;
  policy_checksum = g.checksum;
}

unfoldable pub expected_of : Option Generation → M Generation
unfolding published_as
expected_of none = last_known_good
expected_of (some g) =
    if is_status g.status applied
    then pure g
    else if is_status g.status commit_prepared
    then (read_pointer >>= λ p. if is_at (published_as g) p then pure g else last_known_good)
    else last_known_good

-- `ExpectedGeneration`
unfoldable pub expected_generation : M Generation
expected_generation = do found ← optional pending_generation; expected_of found

module _ (o : Outside) where
  -- Whether the owned tables are all there and intact.
  unfoldable pub tables_missing : ℕ → M Bool
  tables_missing n =
      if not (n == owned_tables) then pure true else (integrity o >>= λ intact. pure (not intact))

  -- Whether the live tables differ from the generation that is expected.
  unfoldable pub differs : Option Generation → M Bool
  differs none = pure false
  differs (some g) =
      if str_eq g.observed_hash ""
      then pure true
      else (fingerprint o >>= λ live. pure (not (str_eq live g.observed_hash)))

module _ (o : Outside) (mgr : Manager) where
  unfoldable pub repair_from : Generation → M (Unit {0})
  repair_from g = do
    script ← read_script o g
    install_owned_generation o mgr script
    record_fingerprint o g.id
    restore_runtime_or_deny o mgr

  unfoldable pub known_good : Option Generation → M Generation
  known_good none = last_known_good
  known_good (some g) = pure g

  unfoldable pub repair_expected : ℕ → Option Generation → M Drift
  repair_expected n expected = do
    g ← known_good expected
    repair_from g
    ignore ask
    pure (record { owned = n; missing = true; repaired = true })

  unfoldable pub repair_drift : ℕ → Option Generation → Option Generation → M Drift
  repair_drift n none expected = repair_expected n expected
  repair_drift n (some g) expected =
      if is_status g.status applied
      then (rollback_locked o mgr g.id
          >> pure (record { owned = n; missing = true; repaired = true }))
      else repair_expected n expected

  unfoldable pub report : Bool → Bool → ℕ → Option Generation → Option Generation → M Drift
  report repair missing n found expected =
      if missing && repair
      then (ignore ask >> repair_drift n found expected)
      else if missing
      then (ignore ask >> pure (record { owned = n; missing = true; repaired = false }))
      else pure (record { owned = n; missing = false; repaired = false })

  -- The branch for a generation that is applied, prepared or published.
  unfoldable pub inspect : Bool → Option Generation → M Drift
  inspect repair found = do
    n ← existing_owned
    broken ← tables_missing o n
    expected ← optional expected_generation
    missing ← if broken then pure true else differs o expected
    report repair missing n found expected

  -- The branch for a generation that was not applied.
  unfoldable pub unfinished : Bool → Generation → M Drift
  unfinished repair g =
      if repair
      then (rollback_locked o mgr g.id
          >> pure (record { owned = 0; missing = true; repaired = true }))
      else pure (record { owned = 0; missing = true; repaired = false })

  unfoldable pub reconcile_found : Bool → Option Generation → M Drift
  reconcile_found repair none = inspect repair none
  reconcile_found repair (some g) =
      if is_status g.status pending then unfinished repair g else inspect repair (some g)

  -- `Reconcile`
  unfoldable pub reconcile : Bool → M Drift
  reconcile repair = do
    acquire_process_lock mgr
    found ← optional pending_generation
    reconcile_found repair found
