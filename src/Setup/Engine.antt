-- ===== src/Setup/Engine.antt =====
-- internal/setup/engine.go. The plan that `Prepare` makes is an input, and so are the directory
-- and the generation that the executor answers with. The executor's calls change the host in ways
-- that are not modelled, but for the commit of the generation.
pub mod Safety
pub mod Failure
use nft_firewall_v.Prelude.{
  ℕ, ◌+◌, String, Bool, true, false, not, ◌&&◌, ◌||◌, Option, none, some, List, [], ◌∷◌,
  if◌then◌else◌, ◌==◌, ltb, str_eq,
}
use nft_firewall_v.Effects.{
  Action, Error, refused, joined, pure, fail, ◌>>=◌, ◌>>◌, catch, gets, puts, act, ask, clock,
  refuse_when,
}
use nft_firewall_v.Setup.Types.{
  Phase, Status, Summary, Journal, Step, Event, Host, Library, error_code, error_text,
  journal_needs_recovery, journal_before_protected_mutation, summary_eq, valid_summary,
  reboot_required_journal,
}
use nft_firewall_v.Setup.Journal.{write, read, begin}

-- `Plan`
pub record Plan : Type 0 where
  pub summary : Summary
  pub prior_journal_sha256 : String
  pub resume_journal : Option Journal
  pub resume_ready : Bool

-- What an installation is run with: the plan, the answers of the executor, whether it prepares a
-- boot transaction, the new id, and the timeout, which is positive.
pub record Setup : Type 0 where
  pub plan : Plan
  pub backup_dir : String
  pub generation : ℕ
  pub boot_required : Bool
  pub new_id : String
  pub timeout : ℕ

unfoldable pub record_call : Step → Host → Host
record_call s h = record h {
  log = record { step = s; journal = h.journal; committed = h.committed } ∷ h.log;
}

-- A call of the executor.
unfoldable pub attempt : Step → Action Host (Unit {0})
attempt s = do puts (record_call s); ask

-- `GenerationCommitted`
unfoldable pub generation_committed : Action Host Bool
generation_committed = do attempt Step.inspect_commit; gets (λ h. h.committed)

-- `Commit` of the executor: the generation may be committed when the call fails.
unfoldable pub commit_generation : Action Host (Unit {0})
commit_generation = do puts (record_call Step.commit); act (λ h. record h { committed = true })

-- A write of the journal, or the error of a write that failed.
unfoldable pub write_or : String → Journal → Action Host (Unit {0})
write_or text j = catch (write j) (λ e. fail (refused text))

unfoldable pub give_up {ℓ} : {A : Type ℓ} → Journal → Error → Action Host A
give_up j cause = do
  now ← clock
  write_or "SETUP_RECOVERY_RESULT_WRITE_FAILED" (record j {
    phase = Phase.failed;
    status = Status.rolled_back;
    error_code = error_code cause;
    updated_at = now;
  })
  fail (refused (error_code cause))

unfoldable pub commit_unknown {ℓ} : {A : Type ℓ} → Journal → Action Host A
commit_unknown j = do
  now ← clock
  write_or "SETUP_RECOVERY_RESULT_WRITE_FAILED" (record j {
    status = Status.commit_state_unknown;
    error_code = "SETUP_COMMIT_STATE_UNKNOWN";
    updated_at = now;
  })
  fail (refused "SETUP_COMMIT_STATE_UNKNOWN")

unfoldable pub committed_recovery_failed {ℓ} :
    {A : Type ℓ} → Journal → Error → Error → Action Host A
committed_recovery_failed j cause e = do
  now ← clock
  write_or "SETUP_RECOVERY_RESULT_WRITE_FAILED" (record j {
    status = Status.committed_recovery_failed;
    error_code = error_code e;
    updated_at = now;
  })
  fail (joined (refused (error_code cause)) (refused "SETUP_COMMITTED_RECOVERY_FAILED"))

-- The branch of `fail` for a committed generation.
unfoldable pub recover_committed {ℓ} : {A : Type ℓ} → Journal → Error → Action Host A
recover_committed j cause = do
  now ← clock
  let j' : Journal = record j {
    status = Status.recovering_committed;
    error_code = error_code cause;
    updated_at = now;
  }
  write_or "SETUP_RECOVERY_TRANSITION_WRITE_FAILED" j'
  catch (attempt Step.recover_committed) (committed_recovery_failed j' cause)
  now' ← clock
  write_or "SETUP_RECOVERY_RESULT_WRITE_FAILED" (record j' {
    phase = Phase.complete;
    status = Status.completed;
    updated_at = now';
    error_code = "";
  })
  fail (refused "SETUP_COMMITTED_RECOVERED")

-- `errors.Is(err, ErrRollbackRebootRequired)`
unfoldable pub is_reboot_required : Error → Bool
is_reboot_required e = str_eq (error_text e) "SETUP_ROLLBACK_REBOOT_REQUIRED"

unfoldable pub rollback_failed {ℓ} : {A : Type ℓ} → Journal → Error → Error → Action Host A
rollback_failed j cause e = do
  now ← clock
  if is_reboot_required e
      then (write_or "SETUP_RECOVERY_RESULT_WRITE_FAILED" (record j {
        phase = Phase.failed;
        status = Status.rollback_reboot_required;
        error_code = "";
        updated_at = now;
      })
          >>= λ u. fail (refused "SETUP_ROLLBACK_REBOOT_REQUIRED"))
      else (write_or "SETUP_RECOVERY_RESULT_WRITE_FAILED" (record j {
        status = Status.rollback_failed;
        error_code = error_code e;
        updated_at = now;
      })
          >>= λ u. fail (joined (refused (error_code cause)) (refused "SETUP_ROLLBACK_FAILED")))

-- The branch of `fail` for a generation that is not committed.
unfoldable pub roll_back {ℓ} : {A : Type ℓ} → Journal → Error → Action Host A
roll_back j cause = do
  now ← clock
  let j' : Journal = record j {
    status = Status.rolling_back;
    error_code = error_code cause;
    updated_at = now;
  }
  write_or "SETUP_RECOVERY_TRANSITION_WRITE_FAILED" j'
  catch (attempt Step.roll_back) (rollback_failed j' cause)
  now' ← clock
  write_or "SETUP_RECOVERY_RESULT_WRITE_FAILED"
      (record j' { phase = Phase.failed; status = Status.rolled_back; updated_at = now' })
  fail (refused (error_code cause))

unfoldable pub settle {ℓ} : {A : Type ℓ} → Journal → Error → Bool → Action Host A
settle j cause committed =
    let j' : Journal = record j { committed = committed } in
    if committed then recover_committed j' cause else roll_back j' cause

unfoldable pub uncommitted_known : Status → Bool
uncommitted_known Status.rolling_back = true
uncommitted_known Status.rollback_failed = true
uncommitted_known _ = false

-- What the inspection gives: nothing where it failed.
unfoldable pub inspected : Action Host (Option Bool)
inspected = catch (generation_committed >>= λ c. pure (some c)) (λ e. pure none)

unfoldable pub settle_inspected {ℓ} : {A : Type ℓ} → Journal → Error → Option Bool → Action Host A
settle_inspected j cause none = commit_unknown j
settle_inspected j cause (some c) = settle j cause c

-- `fail`
unfoldable pub fail_setup {ℓ} : {A : Type ℓ} → Journal → Error → Action Host A
fail_setup j cause =
    if journal_before_protected_mutation j
    then give_up j cause
    else if not j.committed && (not (uncommitted_known j.status) && not (j.generation == 0))
    then (inspected >>= settle_inspected j cause)
    else settle j cause j.committed

-- `RollbackExpired`: whether it acted on the journal.
unfoldable pub rollback_expired : Action Host Bool
rollback_expired = do
  j ← read
  if not (journal_needs_recovery j.status)
      then pure false
      else (clock >>= λ now.
          if ltb now j.deadline
          then pure false
          else fail_setup j (refused "SETUP_DEADLINE_EXPIRED"))
