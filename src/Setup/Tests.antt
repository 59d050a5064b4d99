-- ===== src/Setup/Tests.antt =====
-- The theorems on the setup at a host that has no journal.
use nft_firewall_v.Prelude.{
  ℕ, zero, suc, true, false, ◌≡◌, ◌≢◌, refl, none, List, [], ◌∷◌, str_lt, all_in, matches,
}
use nft_firewall_v.Effects.{
  done, died_after, ok, World, pure, fail, continue, ◌>>=◌, handle, catch, gets, puts, act_on, act,
  ask, tick_on, clock, refuse_when,
}
use nft_firewall_v.Setup.Types.{
  Step, Event, Host, Library, error_text, code_of, error_code, journal_needs_recovery,
  journal_before_protected_mutation, phase_number, is_phase, journal_identity_pattern, is_code_char,
  is_code, contains, validate_each, validate_units, is_initial_status, valid_summary,
  initial_setup_journal,
}
use nft_firewall_v.Setup.Journal.{write, found, read, is_some, create, replace, begin}
use nft_firewall_v.Setup.Journal.Begin.{Unbegun, Begun}
use nft_firewall_v.Setup.Engine.{
  Setup, record_call, attempt, commit_generation, write_or, rollback_expired, fail_setup, settle,
  settle_inspected, inspected, generation_committed, recover_committed, uncommitted_known,
}
use nft_firewall_v.Setup.Engine.Safety.{FileAgrees, IsSound}
use nft_firewall_v.Setup.Run.{
  step_of, write_or_fail, perform, check_deadline, run_phase, run_phases, backed_up, initial,
  begin_setup, first_journal, run_setup,
}
use nft_firewall_v.Setup.Run.Safety.{Completed}
use nft_firewall_v.Setup.Recovery.{
  Luck, start, expire_each, install_and_expire, install_and_expire-IsSound, run_setup_success,
  begin_outcome,
}

abbrev library : Library
library = record { clean_path = λ s. true; sha256 = λ j. "digest" }

abbrev fresh : Host
fresh = record { journal = none; history = []; committed = false; log = [] }

abbrev setup : Setup
setup = record {
  plan = record {
    summary = record {
      schema = "nftfw.setup-plan.v1";
      network_producers = "networking.service" ∷ [];
      others = "";
    };
    prior_journal_sha256 = "";
    resume_journal = none;
    resume_ready = false;
  };
  backup_dir = "/var/lib/nftfw/backup";
  generation = 4;
  boot_required = false;
  new_id = "setup-1";
  timeout = 100;
}

take_steps : ℕ → List Event → List Step
take_steps zero es = []
take_steps (suc n) [] = []
take_steps (suc n) (e ∷ es) = e.step ∷ take_steps n es

fresh-IsSound : IsSound fresh
unfolding FileAgrees
fresh-IsSound = record { agrees = refl; justified = tt }

generation_is_some : setup.generation ≢ 0
generation_is_some h = cc

-- The installation dies after the commit took effect; the timer finds the journal uncommitted.
abbrev dies : Luck
dies = record {
  tape =
      done ∷ done ∷ done ∷ done ∷ done ∷ done ∷ done ∷ done ∷ done ∷ done ∷ done ∷ done ∷ done
      ∷ done ∷ done ∷ done ∷ done ∷ done ∷ done ∷ done ∷ done ∷ done ∷ done ∷ done ∷ done ∷ done
      ∷ done ∷ died_after ∷ [];
  times = 1 ∷ [];
}

abbrev expires : Luck
expires = record { tape = []; times = 500 ∷ [] }

install_and_expire-IsSound_example :
    IsSound (install_and_expire library setup dies (expires ∷ []) fresh)
install_and_expire-IsSound_example =
    install_and_expire-IsSound library setup dies (expires ∷ []) fresh fresh-IsSound refl
      generation_is_some

abbrev after : Host
after = install_and_expire library setup dies (expires ∷ []) fresh

-- The timer inspects the generation, and finishes what was committed.
after_committed :
    (after.committed ≡ true)
    × (take_steps 3 after.log ≡ Step.recover_committed ∷ Step.inspect_commit ∷ Step.commit ∷ [])
unfolding take_steps install_and_expire expire_each start rollback_expired fail_setup settle
    settle_inspected inspected generation_committed recover_committed uncommitted_known
    journal_needs_recovery journal_before_protected_mutation error_code code_of error_text is_code
    is_code_char run_setup first_journal begin_setup initial begin create replace is_some found read
    write backed_up write_or_fail write_or attempt record_call commit_generation perform
    check_deadline run_phase run_phases step_of valid_summary validate_units validate_each contains
    is_phase phase_number journal_identity_pattern is_initial_status initial_setup_journal pure fail
    continue ◌>>=◌ handle catch gets puts act_on act ask tick_on clock refuse_when str_lt matches
    all_in
after_committed = (refl, refl)

abbrev world : World Host
world = record { machine = fresh; tape = []; times = 1 ∷ [] }

world_ok : (run_setup library setup world).1 ≡ ok tt
unfolding run_setup first_journal begin_setup initial begin create replace is_some found read write
    backed_up write_or_fail write_or attempt record_call commit_generation perform check_deadline
    run_phase run_phases step_of valid_summary validate_units validate_each contains is_phase
    phase_number journal_identity_pattern is_initial_status initial_setup_journal pure fail continue
    ◌>>=◌ handle catch gets puts act_on act ask tick_on clock refuse_when str_lt matches all_in
world_ok = refl

run_setup_success_example : Completed setup fresh ((run_setup library setup world).0).machine
run_setup_success_example =
    run_setup_success library setup world fresh-IsSound refl generation_is_some world_ok

begin_outcome_example :
    Unbegun library
      (initial library setup 1)
      ""
      fresh
      ((begin library (initial library setup 1) "" world).0).machine
    × ((begin library (initial library setup 1) "" world).1 ≡ ok tt
        → Begun library
            (initial library setup 1)
            ""
            fresh
            ((begin library (initial library setup 1) "" world).0).machine)
begin_outcome_example = begin_outcome library (initial library setup 1) "" world
