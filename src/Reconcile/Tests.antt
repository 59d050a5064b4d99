-- ===== src/Reconcile/Tests.antt =====
-- The theorems on the manager at a small machine: generation 1 is committed and published,
-- generation 2 was applied over it.
use nft_firewall_v.Machine.Effects.{
  pure, fail, continue, ◌>>=◌, handle, catch, gets, puts, act_on, act, ask, tick_on, clock,
  refuse_when, ignore,
}
use nft_firewall_v.Machine.Types.{pointer_eq}
use nft_firewall_v.State.Files.{
  is_hex, valid_checksum, lower_hex, same_hex, pointer_valid, manifest_valid, previous_valid, is_at,
  check_pointer, read_pointer, prepare_pointer, publish_pointer, valid_script_checksum,
  snapshot_valid, check_snapshot, load_snapshot, accepts_manifest, load_verified_snapshot,
  ensure_published,
}
use nft_firewall_v.State.Store.{
  is_open, is_status, update_rows, count_rows, newest, scan, pending_generation, generation,
  update_one, mark_rolled_back, prior_id, prior_sum, prior_snapshot_sum, prepared_from, finalized,
  finalize_commit, prepared_deadline, prepare_commit, read_script,
}
use nft_firewall_v.Nft.Backend.{existing_owned, backend_apply, fingerprint}
use nft_firewall_v.Reconcile.Settings.{
  pointer_matches_previous, names, past, is_absent, validate_previous, audit_foreign_mark_ownership,
  acquire_process_lock, row_matches, validate_generation_snapshot, install_owned_generation,
  restore_runtime_or_deny,
}
use nft_firewall_v.Reconcile.Rollback.{
  refuse_unverified, durable_predecessor, to_predecessor, rollback_unpublished, rollback_open,
  rollback_locked,
}
use nft_firewall_v.Reconcile.Commit.{publish, observed_as, commit_locked, observed, commit_pending}
use nft_firewall_v.Provenance.Ledger.{validate_required_each, validate_required}
use nft_firewall_v.Provenance.Assignment.{
  identity_pattern, contains_name, owner_of, validate_each, validate_active,
}
use nft_firewall_v.Provenance.Table.{row_of, has_id, has_name}
use nft_firewall_v.Prelude.{all_in}
use nft_firewall_v.Prelude.{
  String, ◌≡◌, refl, true, false, some, none, List, [], ◌∷◌, ◌==◌, if◌then◌else◌,
}
use nft_firewall_v.Provenance.Assignment.{Assignment}
use nft_firewall_v.Machine.Types.{
  Machine, Outside, Pointer, Snapshot, Generation, applied, committed,
}
use nft_firewall_v.Machine.Effects.{World, ok, failed, died_after, done}
use nft_firewall_v.State.Authority.{IsSafe, IsAuthorized, Guarded, is_published}
use nft_firewall_v.State.Store.{row_with}
use nft_firewall_v.Reconcile.Settings.{Manager}
use nft_firewall_v.Reconcile.Rollback.{rollback}
use nft_firewall_v.Reconcile.Rollback.Settled.{RolledBack, rollback_keeps_pointer, rollback_success}
use nft_firewall_v.Reconcile.Commit.{commit}
use nft_firewall_v.Reconcile.Commit.Safety.{Commits, IsCommitted}
use nft_firewall_v.Reconcile.Commit.Success.{IsIntact, commit_publishes_only, commit_success}
use nft_firewall_v.Reconcile.Apply.{Artifact, apply}
use nft_firewall_v.Reconcile.Apply.Recovery.{Applies}
use nft_firewall_v.Reconcile.Apply.Authority.{apply_moves_only}
use nft_firewall_v.Reconcile.Recovery.{recover_at_boot}
use nft_firewall_v.Reconcile.Recovery.Authority.{recover_at_boot_keeps_pointer}
use nft_firewall_v.Reconcile.Drift.{reconcile}
use nft_firewall_v.Reconcile.Drift.Safety.{reconcile_keeps_pointer}
use nft_firewall_v.Reconcile.History.{
  expires, reconciles, Call, applies, commits, rolls_back, recovers, run, run-IsSafe,
}

abbrev sum : String
sum = "0123456789abcdef0123456789abcdef0123456789abcdef0123456789abcdef"

-- Stand-ins for SHA-256 and nft: all texts have one sum, and a script is listed as it is.
abbrev outside : Outside
outside = record {
  sha256_hex = λ text. sum;
  snapshot_text = λ s. s.script;
  script_valid = λ script. true;
  tables_of = λ script. 3;
  listing = λ script. script;
  intact = λ rules. true;
  digest = λ rules. sum;
}

abbrev manager : Manager
manager = record {
  safe_ttl = 90;
  has_health_check = true;
  has_safe_guard = true;
  has_safe_guard_locked = true;
  has_foreign_mark_guard = true;
  has_post_restore = true;
  mutation_lock_held = false;
  has_mutation_lock_dir = true;
  boot_id = "boot";
}

abbrev lan : Assignment
lan = record { name = "lan0"; id = 1; retired = false; created_at = 5; retired_at = none }

abbrev at_one : Pointer
at_one = record { generation = 1; snapshot_checksum = sum; policy_checksum = sum }

abbrev snapshot_one : Snapshot
snapshot_one = record {
  generation = 1;
  checksum = sum;
  script = "one";
  provenance = lan ∷ [];
  previous = none;
  boot_id = "boot";
}

abbrev snapshot_two : Snapshot
snapshot_two = record {
  generation = 2;
  checksum = sum;
  script = "two";
  provenance = lan ∷ [];
  previous = some at_one;
  boot_id = "boot";
}

abbrev row_one : Generation
row_one = record {
  id = 1;
  checksum = sum;
  snapshot_checksum = sum;
  observed_hash = sum;
  script_path = 1;
  snapshot_path = 1;
  status = committed;
  rollback_deadline = none;
  previous_id = none;
  boot_id = "boot";
  prepared_prior_id = none;
  prepared_prior_sum = "";
  prepared_prior_snapshot_sum = "";
}

abbrev row_two : Generation
row_two = record {
  id = 2;
  checksum = sum;
  snapshot_checksum = sum;
  observed_hash = sum;
  script_path = 2;
  snapshot_path = 2;
  status = applied;
  rollback_deadline = some 100;
  previous_id = some 1;
  boot_id = "boot";
  prepared_prior_id = none;
  prepared_prior_sum = "";
  prepared_prior_snapshot_sum = "";
}

abbrev machine : Machine
machine = record {
  rows = row_one ∷ row_two ∷ [];
  scripts = λ i. if i == 1 then some "one" else if i == 2 then some "two" else none;
  snapshots = λ i. if i == 1 then some snapshot_one else if i == 2 then some snapshot_two else none;
  pointer = some at_one;
  ledger = record { opened = true; read_only = false; rows = lan ∷ [] };
  kernel = record { tables = 3; rules = "two" };
  protect_first_use = false;
}

-- Every call succeeds, before the deadline.
abbrev calm : World Machine
calm = record { machine = machine; tape = []; times = 50 ∷ 50 ∷ [] }

-- The third call fails after others succeeded.
abbrev failing : World Machine
failing = record { machine = machine; tape = done ∷ done ∷ failed ∷ []; times = [] }

machine-IsSafe : IsSafe machine
unfolding IsSafe IsAuthorized row_with is_published
machine-IsSafe = (row_one, refl, refl)

abbrev candidate : Artifact
candidate = record { generation = 3; script = "three"; checksum = sum; provenance = lan ∷ [] }

rollback_keeps_pointer_example : Guarded machine ((rollback outside manager 2 failing).0).machine
rollback_keeps_pointer_example = rollback_keeps_pointer outside manager 2 failing machine-IsSafe

commit_publishes_only_example :
    Commits outside 2 machine ((commit outside manager 2 failing).0).machine
commit_publishes_only_example = commit_publishes_only outside manager 2 failing machine-IsSafe

apply_moves_only_example :
    Applies 3 machine ((apply outside manager candidate true false failing).0).machine
apply_moves_only_example =
    apply_moves_only outside manager candidate true false failing machine-IsSafe

recover_at_boot_keeps_pointer_example :
    Guarded machine ((recover_at_boot outside manager failing).0).machine
recover_at_boot_keeps_pointer_example =
    recover_at_boot_keeps_pointer outside manager failing machine-IsSafe

reconcile_keeps_pointer_example :
    Guarded machine ((reconcile outside manager true failing).0).machine
reconcile_keeps_pointer_example =
    reconcile_keeps_pointer outside manager true failing machine-IsSafe

abbrev calls : List Call
calls =
    record { operation = commits 2; tape = done ∷ done ∷ died_after ∷ []; times = [] }
    ∷ record { operation = rolls_back 2; tape = []; times = [] }
    ∷ record { operation = recovers; tape = []; times = [] }
    ∷ record { operation = expires; tape = []; times = [] }
    ∷ record { operation = reconciles true; tape = done ∷ done ∷ failed ∷ []; times = [] }
    ∷ record { operation = applies candidate false false; tape = []; times = [] }
    ∷ []

run-IsSafe_example : IsSafe (run outside manager calls machine)
run-IsSafe_example = run-IsSafe outside manager calls machine machine-IsSafe

commits_calmly : (commit outside manager 2 calm).1 ≡ ok tt
unfolding continue ◌>>=◌ pure fail refuse_when ask act act_on gets catch handle clock tick_on
    pointer_eq is_hex valid_checksum lower_hex same_hex pointer_valid manifest_valid previous_valid
    is_at check_pointer read_pointer prepare_pointer publish_pointer valid_script_checksum
    snapshot_valid check_snapshot load_snapshot is_open is_status update_rows count_rows newest
    row_with scan update_one pending_generation generation prior_id prior_sum prior_snapshot_sum
    prepared_from finalized finalize_commit prepared_deadline prepare_commit fingerprint
    pointer_matches_previous past audit_foreign_mark_ownership acquire_process_lock publish
    commit_locked observed observed_as commit_pending commit all_in has_name has_id
commits_calmly = refl

rolls_back_calmly : (rollback outside manager 2 calm).1 ≡ ok tt
unfolding continue ◌>>=◌ pure fail refuse_when ask act act_on gets puts catch handle ignore
    pointer_eq is_hex valid_checksum lower_hex same_hex pointer_valid manifest_valid previous_valid
    is_at check_pointer read_pointer valid_script_checksum snapshot_valid check_snapshot
    load_snapshot accepts_manifest load_verified_snapshot ensure_published is_open is_status
    update_rows count_rows newest row_with scan update_one generation read_script mark_rolled_back
    existing_owned backend_apply names row_matches is_absent validate_previous
    validate_generation_snapshot pointer_matches_previous audit_foreign_mark_ownership
    install_owned_generation acquire_process_lock restore_runtime_or_deny refuse_unverified
    durable_predecessor to_predecessor rollback_unpublished rollback_open rollback_locked rollback
    validate_required_each validate_required identity_pattern contains_name owner_of validate_each
    validate_active row_of has_id has_name all_in
rolls_back_calmly = refl

commit_success_example :
    IsCommitted outside 2 machine ((commit outside manager 2 calm).0).machine
    × IsIntact outside 2 machine
commit_success_example = commit_success outside manager 2 calm machine-IsSafe commits_calmly

rollback_success_example :
    RolledBack outside 2 machine ((rollback outside manager 2 calm).0).machine
rollback_success_example = rollback_success outside manager 2 calm machine-IsSafe rolls_back_calmly
