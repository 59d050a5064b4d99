-- ===== src/Setup/Journal.antt =====
-- internal/setup/journal.go: the journal file. A write replaces the file by a rename; the checks
-- of its directory and owner, and the encoding, are part of the call. What stands in the file was
-- read back through the decoder, so that it is a journal with consistent times.
pub mod Begin
use nft_firewall_v.Prelude.{
  ℕ, String, Bool, true, false, not, ◌&&◌, ◌||◌, Option, none, some, List, [], ◌∷◌, if◌then◌else◌,
  ◌==◌, leb, str_eq, codes, all_in, length,
}
use nft_firewall_v.Effects.{
  Action, Error, io, refused, pure, fail, ◌>>=◌, ◌>>◌, catch, gets, act, ask, refuse_when,
}
use nft_firewall_v.Setup.Types.{
  Journal, Host, Library, initial_setup_journal, terminal_rolled_back_journal,
}

-- `FileJournal.Write`
unfoldable pub write : Journal → Action Host (Unit {0})
write j = act (λ h. record h { journal = some j })

unfoldable pub found : Option Journal → Action Host Journal
found none = fail (refused "SETUP_JOURNAL_READ_FAILED")
found (some j) = pure j

-- `FileJournal.Read`
unfoldable pub read : Action Host Journal
unfolding found
read = do ask; j ← gets (λ h. h.journal); found j

unfoldable pub is_lower_hex : ℕ → Bool
is_lower_hex c = (leb b'0' c && leb c b'9') || (leb b'a' c && leb c b'f')

unfoldable pub valid_sha256 : String → Bool
unfolding is_lower_hex all_in
valid_sha256 s = length (codes s) == 64 && all_in is_lower_hex (codes s)

unfoldable pub is_some : Option Journal → Bool
is_some none = false
is_some (some j) = true

module _ (l : Library) where
  -- `archiveTerminalJournal`. The history lists what was archived, in order, and the files are those
  -- that it names: an archive that stands already is named again, and its file stays as it is. A
  -- file of that name with another content is a failure of the call.
  unfoldable pub archive_terminal_journal : Journal → Action Host (Unit {0})
  archive_terminal_journal prior = act (λ h. record h { history = prior ∷ h.history })

  unfoldable pub replace : Journal → String → Action Host (Unit {0})
  replace j prior_sha = do
    refuse_when (not (valid_sha256 prior_sha)) "SETUP_JOURNAL_LINEAGE_INVALID"
    prior ← catch read (λ e. fail (refused "SETUP_JOURNAL_LINEAGE_CHANGED"))
    refuse_when
        (not (str_eq (l.sha256 prior) prior_sha)
          || (not (terminal_rolled_back_journal l prior) || str_eq prior.transaction j.transaction))
        "SETUP_JOURNAL_LINEAGE_CHANGED"
    archive_terminal_journal prior
    write j

  unfoldable pub create : Journal → Action Host (Unit {0})
  unfolding is_some
  create j = do
    ask
    exists ← gets (λ h. is_some h.journal)
    refuse_when exists "SETUP_JOURNAL_LINEAGE_UNEXPECTED"
    write j

  -- `FileJournal.Begin`
  unfoldable pub begin : Journal → String → Action Host (Unit {0})
  unfolding replace create
  begin j prior_sha = do
    refuse_when (not (initial_setup_journal j)) "SETUP_JOURNAL_INITIAL_INVALID"
    if str_eq prior_sha "" then create j else replace j prior_sha
