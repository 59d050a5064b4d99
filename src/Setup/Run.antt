-- ===== src/Setup/Run.antt =====
-- internal/setup/engine.go: `Run`, from the plan to the last phase.
pub mod Phases
pub mod Perform
pub mod Loop
pub mod Safety
use nft_firewall_v.Prelude.{
  ℕ, ◌+◌, String, Bool, true, false, not, ◌&&◌, ◌||◌, Option, none, some, List, [], ◌∷◌,
  if◌then◌else◌, ◌==◌, ltb, str_eq,
}
use nft_firewall_v.Effects.{
  Action, Error, refused, pure, fail, ◌>>=◌, ◌>>◌, catch, clock, refuse_when,
}
use nft_firewall_v.Setup.Types.{
  Phase, Status, Journal, Step, Host, Library, error_code, summary_eq, valid_summary,
  reboot_required_journal,
}
use nft_firewall_v.Setup.Journal.{write, begin}
use nft_firewall_v.Setup.Engine.{Plan, Setup, attempt, commit_generation, fail_setup, write_or}

-- The phases of `steps`, in their order.
abbrev pub phases : List Phase
phases =
    Phase.guard ∷ Phase.install ∷ Phase.docker ∷ Phase.runtime ∷ Phase.apply ∷ Phase.tunnel
    ∷ Phase.validate ∷ Phase.commit ∷ Phase.handoff ∷ Phase.boot ∷ Phase.finalize ∷ []

-- The call of a phase; the phases outside the loop make none there.
unfoldable pub step_of : Phase → Option Step
step_of Phase.guard = some Step.start_guard
step_of Phase.install = some Step.install
step_of Phase.docker = some Step.configure_docker
step_of Phase.runtime = some Step.start_runtime
step_of Phase.apply = some Step.apply_safe
step_of Phase.tunnel = some Step.start_tunnel
step_of Phase.validate = some Step.validate
step_of Phase.commit = some Step.commit
step_of Phase.handoff = some Step.publish_dependencies
step_of Phase.boot = some Step.enable_boot
step_of Phase.finalize = some Step.finalize
step_of Phase.inspect = none
step_of Phase.backup = none
step_of Phase.boot_prepare = none
step_of Phase.complete = none
step_of Phase.rollback = none
step_of Phase.failed = none

-- A write of the journal, or the recovery where it failed.
unfoldable pub write_or_fail : Journal → Action Host (Unit {0})
write_or_fail j = catch (write j) (λ e. fail_setup j (refused "SETUP_JOURNAL_WRITE_FAILED"))

-- `step.run()`, with the journal that it changes.
unfoldable pub perform : ℕ → Phase → Journal → Action Host Journal
perform generation Phase.apply j = do
  attempt Step.apply_safe
  pure (record j { generation = generation })
perform generation Phase.commit j = do commit_generation; pure (record j { committed = true })
perform generation p j = elim (step_of p) [ none ↦ pure j | some s ↦ attempt s >>= λ u. pure j ]

unfoldable pub check_deadline : Journal → Action Host (Unit {0})
check_deadline j = do
  now ← clock
  if ltb now j.deadline then pure tt else fail_setup j (refused "SETUP_DEADLINE_EXPIRED")

-- The body of the loop.
unfoldable pub run_phase : ℕ → Phase → Journal → Action Host Journal
run_phase generation p j = do
  check_deadline j
  now ← clock
  let j1 : Journal = record j { phase = p; updated_at = now }
  write_or_fail j1
  j2 ← catch (perform generation p j1) (fail_setup j1)
  now' ← clock
  let j3 : Journal = record j2 { updated_at = now' }
  write_or_fail j3
  pure j3

unfoldable pub run_phases : ℕ → List Phase → Journal → Action Host Journal
run_phases generation [] j = pure j
run_phases generation (p ∷ rest) j = do j' ← run_phase generation p j; run_phases generation rest j'

-- A call before the loop, and the journal that is written after it.
unfoldable pub backed_up : String → Journal → Action Host Journal
backed_up dir j = do
  now ← clock
  let j1 : Journal = record j { phase = Phase.backup; updated_at = now }
  write_or_fail j1
  catch (attempt Step.backup) (fail_setup j1)
  now' ← clock
  let j2 : Journal = record j1 { backup_dir = dir; updated_at = now' }
  write_or_fail j2
  pure j2

-- The boot transaction ends this run: the machine is to be restarted.
unfoldable pub prepare_boot : Journal → Action Host Journal
prepare_boot j = do
  now ← clock
  let j1 : Journal = record j { phase = Phase.boot_prepare; updated_at = now }
  write_or_fail j1
  catch (attempt Step.prepare_boot) (fail_setup j1)
  now' ← clock
  write_or_fail (record j1 { status = Status.reboot_required; error_code = ""; updated_at = now' })
  fail (refused "SETUP_REBOOT_REQUIRED")

module _ (l : Library) (x : Setup) where
  unfoldable pub initial : ℕ → Journal
  initial started = record {
    transaction = x.new_id;
    phase = Phase.inspect;
    status = Status.running;
    started_at = started;
    updated_at = started;
    deadline = started + x.timeout;
    backup_dir = "";
    generation = 0;
    committed = false;
    summary = x.plan.summary;
    error_code = "";
  }

  -- Nothing has run where the first journal cannot be published.
  unfoldable pub begin_setup : ℕ → Action Host Journal
  unfolding initial
  begin_setup started = do
    catch (begin l (initial started) x.plan.prior_journal_sha256)
        (λ e. fail (refused "SETUP_JOURNAL_WRITE_FAILED"))
    j ← backed_up x.backup_dir (initial started)
    if x.boot_required then prepare_boot j else pure j

  unfoldable pub resume_setup : ℕ → Journal → Action Host Journal
  resume_setup started j = do
    refuse_when
        (not x.boot_required
          || (not (reboot_required_journal l j) || not (summary_eq j.summary x.plan.summary)))
        "SETUP_RESUME_STATE_INVALID"
    refuse_when (not x.plan.resume_ready) "SETUP_REBOOT_REQUIRED"
    let j1 : Journal = record j {
      status = Status.resume_ready;
      error_code = "";
      updated_at = started;
      deadline = started + x.timeout;
    }
    write_or "SETUP_JOURNAL_WRITE_FAILED" j1
    catch (attempt Step.verify_boot) (fail_setup j1)
    now ← clock
    let j2 : Journal = record j1 { status = Status.running; updated_at = now }
    write_or_fail j2
    pure j2

  unfoldable pub first_journal : ℕ → Option Journal → Action Host Journal
  first_journal started none = begin_setup started
  first_journal started (some j) = resume_setup started j

  -- `Run`, once `Prepare` has made the plan.
  unfoldable pub run_setup : Action Host (Unit {0})
  unfolding first_journal
  run_setup = do
    refuse_when (not (valid_summary l x.plan.summary)) "SETUP_PLAN_INVALID"
    started ← clock
    j ← first_journal started x.plan.resume_journal
    j' ← run_phases x.generation phases j
    now ← clock
    write_or "SETUP_FINAL_JOURNAL_WRITE_FAILED" (record j' {
      phase = Phase.complete;
      status = Status.completed;
      updated_at = now;
      error_code = "";
    })
