-- ===== src/Setup/Recovery.antt =====
-- An installation, and the expiry timer that runs after it (internal/setup/engine.go).
use nft_firewall_v.Prelude.{
  ℕ, String, true, false, ◌≡◌, ◌≢◌, inl, inr, refl, List, [], ◌∷◌, if◌then◌else◌, all_in,
  Bool-cases, subst, sym,
}
use nft_firewall_v.Effects.{Answer, ok, World}
use nft_firewall_v.Effects.Logic.{weaken, stays, succeeds}
use nft_firewall_v.Setup.Types.{Journal, Host, Library, is_code, is_code_char, code_of}
use nft_firewall_v.Setup.Journal.{begin}
use nft_firewall_v.Setup.Journal.Begin.{Begun, Unbegun, cut, begin_follows}
use nft_firewall_v.Setup.Engine.{Setup, rollback_expired}
use nft_firewall_v.Setup.Engine.Safety.{IsSound}
use nft_firewall_v.Setup.Engine.Failure.{rollback_expired_keeps}
use nft_firewall_v.Setup.Run.{run_setup}
use nft_firewall_v.Setup.Run.Safety.{Completed, run_setup_keeps}

-- What a process meets: the answers of its calls, and its clock. A process may die on the way.
pub record Luck : Type 0 where
  pub tape : List Answer
  pub times : List ℕ

unfoldable pub start : Luck → Host → World Host
start luck h = record { machine = h; tape = luck.tape; times = luck.times }

-- One run of the expiry service after another.
unfoldable pub expire_each : List Luck → Host → Host
unfolding start
expire_each [] h = h
expire_each (luck ∷ rest) h = expire_each rest ((rollback_expired (start luck h)).0).machine

unfoldable pub install_and_expire : Library → Setup → Luck → List Luck → Host → Host
unfolding start
install_and_expire l x luck timers h = expire_each timers ((run_setup l x (start luck h)).0).machine

expire_each-IsSound : (timers : List Luck) (h : Host) → IsSound h → IsSound (expire_each timers h)
unfolding expire_each start
expire_each-IsSound [] h sound = sound
expire_each-IsSound (luck ∷ rest) h sound =
    expire_each-IsSound rest _ (stays (rollback_expired_keeps h sound) (start luck h) refl)

-- From a host on which the journal agrees with the generation's state and every call so far was
-- justified, with no generation committed, and with a generation number other than 0: whatever
-- fails, and wherever a process dies, in an installation and in any number of runs of the expiry
-- service after it, the journal goes on to agree with the generation's state, and every call of
-- the executor, but the inspection of the commit, is made under the journal that announces it. The
-- rollback is only called while the generation is not committed, under a journal that says so, and
-- the recovery of a committed generation only while it is committed.
pub install_and_expire-IsSound :
    (l : Library) (x : Setup) (luck : Luck) (timers : List Luck) (h : Host)
    → IsSound h
    → h.committed ≡ false
    → x.generation ≢ 0
    → IsSound (install_and_expire l x luck timers h)
unfolding install_and_expire start
install_and_expire-IsSound l x luck timers h sound fresh new = expire_each-IsSound timers _ (
    stays (weaken (run_setup_keeps l x h sound fresh new) (λ u d' k. k) (λ e d' k. k) (λ d' k. k))
      (start luck h) refl)

-- From a host on which the journal agrees with the generation's state and every call so far was
-- justified, with no generation committed, and with a generation number other than 0: an
-- installation that returns no error has called every phase, once and in the order of the phases,
-- after the backup or the check of the prepared boot, and nothing else; it leaves the generation
-- committed, and a journal that says that it is complete, that it is committed, and which
-- generation it made.
pub run_setup_success :
    (l : Library) (x : Setup) (w : World Host)
    → IsSound w.machine
    → w.machine.committed ≡ false
    → x.generation ≢ 0
    → (run_setup l x w).1 ≡ ok tt
    → Completed x w.machine ((run_setup l x w).0).machine
run_setup_success l x w sound fresh new h =
    (succeeds (run_setup_keeps l x w.machine sound fresh new) w refl tt h).1

-- `Begin` on every tape: the journal file is left as it was, or takes the new journal where there
-- was none, or where the journal there is rolled back, has the digest that was asked for and
-- another transaction, and then that journal is in the history; when it succeeds, one of the last
-- two happened.
pub begin_outcome :
    (l : Library) (j : Journal) (sha : String) (w : World Host)
    → Unbegun l j sha w.machine ((begin l j sha w).0).machine
      × ((begin l j sha w).1 ≡ ok tt → Begun l j sha w.machine ((begin l j sha w).0).machine)
begin_outcome l j sha w = (
  stays (weaken (begin_follows l j sha w.machine) (λ u d' h. (cut h, tt)) (λ e d' h. h) (λ d' h. h))
      w refl,
  succeeds (begin_follows l j sha w.machine) w refl tt,
)

code_of-is_code : (text : String) → is_code (code_of text) ≡ true
unfolding code_of is_code is_code_char all_in
code_of-is_code text = elim (Bool-cases (is_code text)) [
  | inl h ↦ subst (λ b. is_code (if b then text else "SETUP_FAILED") ≡ true) (sym h) h
  | inr h ↦ subst (λ b. is_code (if b then text else "SETUP_FAILED") ≡ true) (sym h) refl
]

code_of_code : (text : String) → is_code text ≡ true → code_of text ≡ text
unfolding code_of
code_of_code text h = subst (λ b. (if b then text else "SETUP_FAILED") ≡ text) (sym h) refl
