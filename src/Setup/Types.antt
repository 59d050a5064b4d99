-- ===== src/Setup/Types.antt =====
-- The journal of a setup (internal/setup/engine.go), its checks (internal/setup/journal.go), and
-- the host that a setup changes.
use nft_firewall_v.Prelude.{
  ℕ, String, Bool, true, false, not, ◌&&◌, ◌||◌, Option, List, [], ◌∷◌, ◌==◌, ltb, leb, str_eq,
  str_lt, codes, all_in, matches, is_alnum, length, if◌then◌else◌,
}
use Prim.Native.String.{len}
use nft_firewall_v.Effects.{Error, no_rows, execution, io, refused, joined}

pub data Phase : Type 0 where
  inspect backup boot_prepare guard install docker runtime apply tunnel : Phase
  validate commit handoff boot finalize complete rollback failed : Phase

-- `Journal.Status`
pub data Status : Type 0 where
  running reboot_required resume_ready rolling_back rolled_back rollback_failed : Status
  rollback_reboot_required recovering_committed committed_recovery_failed : Status
  commit_state_unknown completed : Status

-- `Summary`. The fields that no check of the engine reads are one text.
pub record Summary : Type 0 where
  pub schema : String
  pub network_producers : List String
  pub others : String

-- A time is a number of nanoseconds, 0 the zero time. The schema is the constant that is required.
pub record Journal : Type 0 where
  pub transaction : String
  pub phase : Phase
  pub status : Status
  pub started_at : ℕ
  pub updated_at : ℕ
  pub deadline : ℕ
  pub backup_dir : String
  pub generation : ℕ
  pub committed : Bool
  pub summary : Summary
  pub error_code : String

-- The methods of the executor that are called after the plan was made.
pub data Step : Type 0 where
  backup prepare_boot verify_boot : Step
  start_guard install configure_docker start_runtime apply_safe start_tunnel validate : Step
  commit publish_dependencies enable_boot finalize : Step
  inspect_commit roll_back recover_committed : Step

-- A call of the executor, with what the journal file held then, and whether the generation of the
-- setup was committed.
pub record Event : Type 0 where
  pub step : Step
  pub journal : Option Journal
  pub committed : Bool

-- `committed` is the live state of the generation that the setup applied. Newest first.
pub record Host : Type 0 where
  pub journal : Option Journal
  pub history : List Journal
  pub committed : Bool
  pub log : List Event

-- What is not modelled: `filepath.Clean` with `filepath.IsAbs`, and the digest of a journal's text.
pub record Library : Type 0 where
  pub clean_path : String → Bool
  pub sha256 : Journal → String

unfoldable pub phase_number : Phase → ℕ
phase_number inspect = 0
phase_number Phase.backup = 1
phase_number boot_prepare = 2
phase_number guard = 3
phase_number Phase.install = 4
phase_number docker = 5
phase_number runtime = 6
phase_number apply = 7
phase_number tunnel = 8
phase_number Phase.validate = 9
phase_number Phase.commit = 10
phase_number handoff = 11
phase_number boot = 12
phase_number Phase.finalize = 13
phase_number complete = 14
phase_number rollback = 15
phase_number failed = 16

unfoldable pub is_phase : Phase → Phase → Bool
unfolding phase_number
is_phase p q = phase_number p == phase_number q

-- `^[A-Za-z0-9][A-Za-z0-9_.-]{0,127}$`
unfoldable pub journal_identity_pattern : String → Bool
unfolding matches
journal_identity_pattern =
    matches is_alnum (λ c. is_alnum c || c == b'_' || c == b'.' || c == b'-') 127

unfoldable pub is_code_char : ℕ → Bool
is_code_char c = c == b'_' || (leb b'A' c && leb c b'Z') || (leb b'0' c && leb c b'9')

-- The test of `errorCode`.
unfoldable pub is_code : String → Bool
unfolding is_code_char all_in
is_code s = ltb 0 (len s) && (leb (len s) 96 && all_in is_code_char (codes s))

-- What `err.Error()` gives. The texts of the other errors are not codes.
unfoldable pub error_text : Error → String
error_text no_rows = "sql: no rows in result set"
error_text execution = "execution failed"
error_text io = "input/output error"
error_text (refused text) = text
error_text (joined a b) = "joined errors"

unfoldable pub code_of : String → String
code_of text = if is_code text then text else "SETUP_FAILED"

unfoldable pub error_code : Error → String
error_code e = code_of (error_text e)

unfoldable pub journal_needs_recovery : Status → Bool
journal_needs_recovery running = true
journal_needs_recovery resume_ready = true
journal_needs_recovery rolling_back = true
journal_needs_recovery recovering_committed = true
journal_needs_recovery rollback_failed = true
journal_needs_recovery commit_state_unknown = true
journal_needs_recovery committed_recovery_failed = true
journal_needs_recovery reboot_required = false
journal_needs_recovery rolled_back = false
journal_needs_recovery rollback_reboot_required = false
journal_needs_recovery completed = false

unfoldable pub journal_before_protected_mutation : Journal → Bool
unfolding is_phase
journal_before_protected_mutation j =
    not (j.committed || (not (j.generation == 0) || not (str_eq j.backup_dir "")))
    && (is_phase j.phase inspect || is_phase j.phase Phase.backup)

unfoldable pub contains : String → List String → Bool
contains s [] = false
contains s (t ∷ ts) = str_eq t s || contains s ts

-- The units of internal/netgate.
abbrev pub supported_units : List String
supported_units =
    "NetworkManager.service" ∷ "dhcpcd.service" ∷ "dhcpcd@.service" ∷ "ifup@.service"
    ∷ "networking.service" ∷ "systemd-networkd.service" ∷ []

-- The loop of `netgate.ValidateUnits`.
unfoldable pub validate_each : List String → String → List String → Bool
unfolding contains
validate_each supported previous [] = true
validate_each supported previous (u ∷ us) =
    contains u supported
    && ((str_eq previous "" || str_lt previous u) && validate_each supported u us)

-- `netgate.ValidateUnits`
unfoldable pub validate_units : List String → List String → Bool
unfolding validate_each
validate_units supported units =
    ltb 0 (length units)
    && (leb (length units) (length supported) && validate_each supported "" units)

unfoldable pub units_eq : List String → List String → Bool
units_eq [] [] = true
units_eq (a ∷ as') (b ∷ bs) = str_eq a b && units_eq as' bs
units_eq _ _ = false

-- `reflect.DeepEqual`
unfoldable pub summary_eq : Summary → Summary → Bool
unfolding units_eq
summary_eq a b =
    str_eq a.schema b.schema
    && (units_eq a.network_producers b.network_producers && str_eq a.others b.others)

unfoldable pub is_reboot_status : Status → Bool
is_reboot_status reboot_required = true
is_reboot_status resume_ready = true
is_reboot_status _ = false

unfoldable pub is_initial_status : Status → Bool
is_initial_status running = true
is_initial_status _ = false

unfoldable pub is_rolled_back : Status → Bool
is_rolled_back rolled_back = true
is_rolled_back _ = false

module _ (l : Library) where
  unfoldable pub valid_summary : Summary → Bool
  valid_summary s =
      str_eq s.schema "nftfw.setup-plan.v1" && validate_units supported_units s.network_producers

  unfoldable pub reboot_required_journal : Journal → Bool
  unfolding is_reboot_status is_phase
  reboot_required_journal j =
      journal_identity_pattern j.transaction
      && (is_phase j.phase boot_prepare
          && (is_reboot_status j.status
              && (not j.committed
                  && (j.generation == 0
                      && (not (str_eq j.backup_dir "")
                          && (l.clean_path j.backup_dir
                              && (valid_summary j.summary && str_eq j.error_code "")))))))

  unfoldable pub terminal_rolled_back_journal : Journal → Bool
  unfolding is_rolled_back is_phase is_code_char all_in
  terminal_rolled_back_journal j =
      is_rolled_back j.status
      && (is_phase j.phase failed
          && (not j.committed
              && (journal_identity_pattern j.transaction
                  && ((str_eq j.backup_dir "" || l.clean_path j.backup_dir)
                      && (str_eq j.error_code ""
                          || (leb (len j.error_code) 96
                              && all_in is_code_char (codes j.error_code)))))))

unfoldable pub initial_setup_journal : Journal → Bool
unfolding is_initial_status is_phase
initial_setup_journal j =
    journal_identity_pattern j.transaction
    && (is_phase j.phase inspect
        && (is_initial_status j.status
            && (not j.committed
                && (j.generation == 0
                    && (str_eq j.backup_dir ""
                        && (str_eq j.error_code ""
                            && (str_eq j.summary.schema "nftfw.setup-plan.v1"
                                && (ltb 0 j.started_at
                                    && (leb j.started_at j.updated_at
                                        && leb j.started_at j.deadline)))))))))
