-- ===== src/Setup/Run/Loop.antt =====
-- `Run`, from the plan to the last journal, on every tape.
use nft_firewall_v.Prelude.{ℕ, Bool, true, false, ◌≡◌, ◌≢◌, ◌∙◌, refl, List, [], ◌∷◌}
use nft_firewall_v.Effects.{Action, ◌>>=◌}
use nft_firewall_v.Effects.Logic.{Keeps, follows, weaken, catches, pure_follows}
use nft_firewall_v.Setup.Types.{Phase, Journal, Step, Host}
use nft_firewall_v.Setup.Engine.Safety.{IsSound, with_journal, with_journal-IsSound, clock_then}
use nft_firewall_v.Setup.Engine.Failure.{fail_setup_keeps}
use nft_firewall_v.Setup.Run.{phases, step_of, run_phase, run_phases, write_or_fail}
use nft_firewall_v.Setup.Run.Phases.{
  calls, At, At-Agrees, write_or_fail_then, check_deadline_then, generation_after, live_after,
  Needs,
}
use nft_firewall_v.Setup.Run.Perform.{calls_after, Performs, perform_keeps}

-- The same place, with another journal of the same status, generation and commit.
pub renewed :
    (cs : List Step) (g : ℕ) (live : Bool) (j j' : Journal) (d : Host)
    → At cs g live j d
    → j'.status ≡ j.status
    → j'.committed ≡ j.committed
    → j'.generation ≡ j.generation
    → At cs g live j' d
renewed cs g live j j' d at s c n = record {
  sound = at.sound;
  running = s ∙ at.running;
  recorded = c ∙ at.recorded;
  lives = at.lives;
  numbered = n ∙ at.numbered;
  called = at.called;
  known = at.known;
}

-- The same place, with the journal in the file.
pub journalled :
    (cs : List Step) (g : ℕ) (live : Bool) (j : Journal) (d : Host)
    → At cs g live j d
    → At cs g live j (with_journal j d)
unfolding calls
journalled cs g live j d at = record {
  sound = with_journal-IsSound d at.sound j (At-Agrees cs g live j d at);
  running = at.running;
  recorded = at.recorded;
  lives = at.lives;
  numbered = at.numbered;
  called = at.called;
  known = at.known;
}

-- A journal with the place of the last is written, and the rest goes on from there.
module _ {ℓ} {A : Type ℓ} {K : A → Host → Type 0} (cs : List Step) (g : ℕ) (live : Bool)
    (j : Journal) (d : Host) (at : At cs g live j d) where
  pub write_on :
      (j' : Journal) {k : Unit {0} → Action Host A}
      → j'.status ≡ j.status
      → j'.committed ≡ j.committed
      → j'.generation ≡ j.generation
      → (At cs g live j' (with_journal j' d)
          → (u : Unit {0}) → Keeps (with_journal j' d) IsSound (k u) K)
      → Keeps d IsSound (write_or_fail j' >>= k) K
  write_on j' s c n rest =
      let at' = renewed cs g live j j' d at s c n in
      write_or_fail_then d j' at.sound (At-Agrees _ _ _ j' d at')
        (rest (journalled cs g live j' d at'))

module _ (new : ℕ) (some_new : new ≢ 0) where
  run_phase_keeps :
      (p : Phase) (cs : List Step) (g : ℕ) (live : Bool) (j : Journal) (d : Host)
      → At cs g live j d
      → Needs p g
      → Keeps d IsSound
          (run_phase new p j)
          (λ j' d'. At (calls_after p cs) (generation_after new p g) (live_after p live) j' d')
  unfolding run_phase Performs
  run_phase_keeps p cs g live j d at need =
      check_deadline_then d j at.sound (At-Agrees _ _ _ j d at) (λ u. clock_then d at.sound (λ now.
        write_on cs g live j d at _ refl refl refl (λ at1 u1.
          follows
            (catches
              (weaken (perform_keeps new some_new cs g live _ _ at1 refl p refl need) (λ j' d' h. h)
                (λ e d' h. h) (λ d' h. h.0))
              (λ e d' h. fail_setup_keeps d' h.0 _ e h.1))
            (λ j2 d2 at2.
              clock_then d2 at2.sound (λ now'.
                write_on _ _ _ j2 d2 at2 _ refl refl refl (λ at3 u3. pure_follows _ at3))))))

calls_through : List Phase → List Step → List Step
calls_through [] cs = cs
calls_through (p ∷ ps) cs = calls_through ps (calls_after p cs)

live_through : List Phase → Bool → Bool
live_through [] live = live
live_through (p ∷ ps) live = live_through ps (live_after p live)

generation_through : ℕ → List Phase → ℕ → ℕ
generation_through new [] g = g
generation_through new (p ∷ ps) g = generation_through new ps (generation_after new p g)

NeedsAll : ℕ → List Phase → ℕ → Type 0
NeedsAll new [] g = Unit
NeedsAll new (p ∷ ps) g = Needs p g × NeedsAll new ps (generation_after new p g)

run_phases_keeps :
    (new : ℕ)
    → new ≢ 0
    → (ps : List Phase) (cs : List Step) (g : ℕ) (live : Bool) (j : Journal) (d : Host)
    → At cs g live j d
    → NeedsAll new ps g
    → Keeps d IsSound (run_phases new ps j) (λ j' d'.
      At (calls_through ps cs) (generation_through new ps g) (live_through ps live) j' d')
unfolding run_phases NeedsAll calls_through live_through generation_through
run_phases_keeps new some_new [] cs g live j d at need = pure_follows j at
run_phases_keeps new some_new (p ∷ ps) cs g live j d at (need, needs) =
    follows (run_phase_keeps new some_new p cs g live j d at need)
      (λ j' d' at'. run_phases_keeps new some_new ps _ _ _ j' d' at' needs)

-- The calls of the phases, the last first, after others.
abbrev pub with_phases : List Step → List Step
with_phases cs =
    Step.finalize ∷ Step.enable_boot ∷ Step.publish_dependencies ∷ Step.commit ∷ Step.validate
    ∷ Step.start_tunnel ∷ Step.apply_safe ∷ Step.start_runtime ∷ Step.configure_docker
    ∷ Step.install ∷ Step.start_guard ∷ cs

pub all_phases_keep :
    (new : ℕ)
    → new ≢ 0
    → (cs : List Step) (j : Journal) (d : Host) → At cs 0 false j d
    → Keeps d IsSound (run_phases new phases j) (λ j' d'. At (with_phases cs) new true j' d')
unfolding NeedsAll calls_through live_through generation_through calls_after step_of
    generation_after live_after Needs
all_phases_keep new some_new cs j d at =
    run_phases_keeps new some_new phases cs 0 false j d at
      (tt, (tt, (tt, (tt, (tt, (tt, (tt, (some_new, (tt, (tt, (tt, tt)))))))))))
