-- ===== src/Setup/Run/Safety.antt =====
-- `Run` from the first journal to the last, on every tape.
use nft_firewall_v.Prelude.{
  ℕ, String, Bool, true, false, not, ◌||◌, ◌≡◌, ◌≢◌, ◌∙◌, refl, sym, Option, none, some, List, ◌∷◌,
  arith,
}
use nft_firewall_v.Effects.{Action, ◌>>=◌, catch}
use nft_firewall_v.Effects.Logic.{
  Keeps, follows, weaken, catches, if_follows, pure_follows, fail_follows, refuses_then,
}
use nft_firewall_v.Setup.Types.{
  Phase, Status, Journal, Step, Host, Library, summary_eq, reboot_required_journal,
}
use nft_firewall_v.Setup.Journal.Begin.{
  Begun, created, replaced, Unbegun, same, kept, cut, begin_follows,
}
use nft_firewall_v.Setup.Engine.{Setup, attempt, record_call, fail_setup, uncommitted_known}
use nft_firewall_v.Setup.Engine.Safety.{
  FileAgrees, Justified, Announced, Stands, IsSound, with_journal-IsSound, record_call-IsSound,
  uncommitted_Agrees, committed_Agrees, attempt_caught, clock_then, write_or_then, write_or_last,
}
use nft_firewall_v.Setup.Engine.Failure.{fail_setup_keeps}
use nft_firewall_v.Setup.Run.{
  backed_up, prepare_boot, initial, begin_setup, resume_setup, first_journal, run_setup,
}
use nft_firewall_v.Setup.Run.Phases.{calls, At, At-Agrees, write_or_fail_then}
use nft_firewall_v.Setup.Run.Perform.{performed}
use nft_firewall_v.Setup.Run.Loop.{write_on, with_phases, all_phases_keep}

-- A call from a place, and the recovery where it fails.
attempt_on {ℓ} :
    {A : Type ℓ} {K : A → Host → Type 0} (s : Step) (cs : List Step) (g : ℕ) (live : Bool)
    (j : Journal) (d : Host)
    → At cs g live j d
    → Justified s d.journal d.committed
    → {k : Unit {0} → Action Host A}
    → (At (s ∷ cs) g live j (record_call s d)
        → (u : Unit {0}) → Keeps (record_call s d) IsSound (k u) K)
    → Keeps d IsSound (catch (attempt s) (fail_setup j) >>= k) K
unfolding record_call
attempt_on s cs g live j d at h rest =
    attempt_caught d at.sound s _ h
      (λ e.
        fail_setup_keeps _ (record_call-IsSound d at.sound s h) j e (At-Agrees cs g live j d at))
      (rest (performed s cs g live j d at h))

backed_up_keeps :
    (dir : String) (cs : List Step) (g : ℕ) (live : Bool) (j : Journal) (d : Host)
    → At cs g live j d
    → Keeps d IsSound (backed_up dir j) (λ j' d'. At (Step.backup ∷ cs) g live j' d')
unfolding backed_up Justified Announced
backed_up_keeps dir cs g live j d at = clock_then d at.sound (λ now.
    write_on cs g live j d at _ refl refl refl (λ at1 u.
      attempt_on Step.backup cs g live _ _ at1 (refl, at1.running)
        (λ at2 u2.
          clock_then _ at2.sound
            (λ now'. write_on _ _ _ _ _ at2 _ refl refl refl (λ at3 u3. pure_follows _ at3)))))

prepare_boot_keeps :
    {K : Journal → Host → Type 0} (cs : List Step) (j : Journal) (d : Host)
    → At cs 0 false j d
    → Keeps d IsSound (prepare_boot j) K
unfolding prepare_boot Justified Announced record_call
prepare_boot_keeps cs j d at = clock_then d at.sound (λ now.
    write_on cs 0 false j d at _ refl refl refl (λ at1 u.
      attempt_on Step.prepare_boot cs 0 false _ _ at1 (refl, at1.running)
        (λ at2 u2. clock_then _ at2.sound (λ now'.
          let agrees = uncommitted_Agrees _ _ at2.recorded at2.lives in
          write_or_fail_then _ _ at2.sound agrees
            (λ u3. fail_follows _ (with_journal-IsSound _ at2.sound _ agrees))))))

Begun-At :
    (l : Library) (j : Journal) (sha : String) (d d' : Host)
    → IsSound d
    → d.committed ≡ false
    → j.status ≡ Status.running
    → j.committed ≡ false
    → j.generation ≡ 0
    → Begun l j sha d d'
    → At (calls d) 0 false j d'
unfolding calls FileAgrees
Begun-At l j sha d d' sound lives r c n (created absent) = record {
  sound = with_journal-IsSound d sound j (uncommitted_Agrees j _ c lives);
  running = r;
  recorded = c;
  lives = lives;
  numbered = n;
  called = refl;
  known = λ k. cc;
}
Begun-At l j sha d d' sound lives r c n (replaced prior there fine) = record {
  sound = record { agrees = uncommitted_Agrees j _ c lives; justified = sound.justified };
  running = r;
  recorded = c;
  lives = lives;
  numbered = n;
  called = refl;
  known = λ k. cc;
}

Unbegun-IsSound :
    (l : Library) (j : Journal) (sha : String) (d d' : Host)
    → IsSound d
    → d.committed ≡ false
    → j.status ≡ Status.running
    → j.committed ≡ false
    → j.generation ≡ 0
    → Unbegun l j sha d d'
    → IsSound d'
Unbegun-IsSound l j sha d d' sound lives r c n same = sound
Unbegun-IsSound l j sha d d' sound lives r c n (kept prior there fine) = record {
  agrees = sound.agrees;
  justified = sound.justified;
}
Unbegun-IsSound l j sha d d' sound lives r c n (cut begun) =
    (Begun-At l j sha d _ sound lives r c n begun).sound

resumable :
    (l : Library) (j : Journal) (x : Setup)
    → (not x.boot_required
        || (not (reboot_required_journal l j) || not (summary_eq j.summary x.plan.summary)))
      ≡ false
    → (j.committed ≡ false) × (j.generation ≡ 0)
unfolding reboot_required_journal
resumable l j x h = ground arith

-- The first call of a run: a backup, or a check of the boot that was prepared.
unfoldable pub first_call : Option Journal → Step
first_call none = Step.backup
first_call (some j) = Step.verify_boot

module _ (l : Library) (x : Setup) (d : Host) (sound : IsSound d)
    (lives : d.committed ≡ false) where
  begin_setup_keeps :
      (started : ℕ)
      → Keeps d IsSound (begin_setup l x started) (λ j d'. At (Step.backup ∷ calls d) 0 false j d')
  unfolding begin_setup initial
  begin_setup_keeps started =
      follows
        (catches {Y = λ e. IsSound}
          (weaken (begin_follows l _ x.plan.prior_journal_sha256 d)
            (λ u d' h. Begun-At l _ _ d d' sound lives refl refl refl h)
            (λ e d' h. Unbegun-IsSound l _ _ d d' sound lives refl refl refl h)
            (λ d' h. Unbegun-IsSound l _ _ d d' sound lives refl refl refl h))
          (λ e d' s. fail_follows _ s))
        (λ u d' at. follows (backed_up_keeps x.backup_dir _ _ _ _ d' at) (λ j d2 at2.
          if_follows x.boot_required (λ k. prepare_boot_keeps _ j d2 at2)
            (λ k. pure_follows j at2)))

  resume_setup_keeps :
      (started : ℕ) (j : Journal)
      → Keeps d IsSound
          (resume_setup l x started j)
          (λ j d'. At (Step.verify_boot ∷ calls d) 0 false j d')
  unfolding resume_setup Justified Stands record_call calls
  resume_setup_keeps started j = refuses_then _ _ sound (λ good u.
      let fresh = resumable l j x good in
      refuses_then _ _ sound (λ ready u1.
        let agrees = uncommitted_Agrees _ _ fresh.0 lives in
        let after = with_journal-IsSound d sound _ agrees in
        write_or_then d sound _ _ agrees (λ u2.
          attempt_caught _ after Step.verify_boot _ refl
            (λ e. fail_setup_keeps _ (record_call-IsSound _ after Step.verify_boot refl) _ e agrees)
            (λ u3. clock_then _ (record_call-IsSound _ after Step.verify_boot refl) (λ now.
              let again = uncommitted_Agrees _ _ fresh.0 lives in
              write_or_fail_then _ _ (record_call-IsSound _ after Step.verify_boot refl) again
                (λ u4. pure_follows _ record {
                  sound =
                      with_journal-IsSound _ (record_call-IsSound _ after Step.verify_boot refl) _
                        again;
                  running = refl;
                  recorded = fresh.0;
                  lives = lives;
                  numbered = fresh.1;
                  called = refl;
                  known = λ k. cc;
                }))))))

  first_journal_keeps :
      (started : ℕ) (o : Option Journal)
      → Keeps d IsSound
          (first_journal l x started o)
          (λ j d'. At (first_call o ∷ calls d) 0 false j d')
  unfolding first_journal first_call
  first_journal_keeps started none = begin_setup_keeps started
  first_journal_keeps started (some j) = resume_setup_keeps started j

-- What a setup that succeeded leaves.
pub record Completed (x : Setup) (d d' : Host) : Type 0 where
  pub committed : d'.committed ≡ true
  pub journal : Journal
  pub written : d'.journal ≡ some journal
  pub finished : (journal.phase ≡ Phase.complete) × (journal.status ≡ Status.completed)
  pub recorded : (journal.committed ≡ true) × (journal.generation ≡ x.generation)
  pub called : calls d' ≡ with_phases (first_call x.plan.resume_journal ∷ calls d)

pub run_setup_keeps :
    (l : Library) (x : Setup) (d : Host)
    → IsSound d
    → d.committed ≡ false
    → x.generation ≢ 0
    → Keeps d IsSound (run_setup l x) (λ u d'. IsSound d' × Completed x d d')
unfolding run_setup calls uncommitted_known
run_setup_keeps l x d sound lives new = refuses_then _ _ sound (λ valid u.
    clock_then d sound (λ started.
      follows (first_journal_keeps l x d sound lives started x.plan.resume_journal) (λ j d1 at1.
        follows (all_phases_keep x.generation new _ j d1 at1) (λ j2 d2 at2.
          clock_then d2 at2.sound (λ now.
            let agrees = committed_Agrees _ _ at2.lives (λ h. new (sym at2.numbered ∙ h)) refl in
            write_or_last d2 at2.sound _ _ agrees (λ u2. (
              with_journal-IsSound d2 at2.sound _ agrees,
              record {
                committed = at2.lives;
                journal = _;
                written = refl;
                finished = (refl, refl);
                recorded = (at2.recorded, at2.numbered);
                called = at2.called;
              },
            )))))))
