-- ===== src/Setup/Run/Perform.antt =====
-- The call of a phase on every tape: what it leaves when it returns, and when it fails.
use nft_firewall_v.Prelude.{ℕ, Bool, true, ◌≡◌, ◌≢◌, ◌∙◌, refl, sym, subst, none, some, List, ◌∷◌}
use nft_firewall_v.Effects.{pure, ◌>>=◌}
use nft_firewall_v.Effects.Logic.{
  Keeps, follows, weaken, pure_follows, act_follows, puts_follows, moved,
}
use nft_firewall_v.Setup.Types.{Phase, Journal, Step, Host}
use nft_firewall_v.Setup.Engine.{attempt, record_call, commit_generation, uncommitted_known}
use nft_firewall_v.Setup.Engine.Safety.{
  Agrees, FileAgrees, Announced, Justified, IsSound, record_call-IsSound, attempted,
}
use nft_firewall_v.Setup.Run.{step_of, perform}
use nft_firewall_v.Setup.Run.Phases.{
  calls, At, At-Agrees, stopped, generation_after, live_after, Needs,
}

-- The state when a phase has returned, before its second write.
pub performed :
    (s : Step) (cs : List Step) (g : ℕ) (live : Bool) (j : Journal) (d : Host)
    → At cs g live j d
    → Justified s d.journal d.committed
    → At (s ∷ cs) g live j (record_call s d)
unfolding record_call calls
performed s cs g live j d at h = record {
  sound = record_call-IsSound d at.sound s h;
  running = at.running;
  recorded = at.recorded;
  lives = at.lives;
  numbered = at.numbered;
  called = λ i. s ∷ at.called i;
  known = at.known;
}

module _ (new : ℕ) where
  attempt_performs :
      (s : Step) (p : Phase) (cs : List Step) (g : ℕ) (live : Bool) (j : Journal) (d : Host)
      → At cs g live j d
      → Justified s d.journal d.committed
      → generation_after new p g ≡ g
      → live_after p live ≡ live
      → Keeps d
          (λ d'. IsSound d' × Agrees j d'.committed)
          (attempt s >>= λ u. pure j)
          (λ j' d'. At (s ∷ cs) (generation_after new p g) (live_after p live) j' d')
  attempt_performs s p cs g live j d at h same_g same_live =
      let after = performed s cs g live j d at h in
      follows {J = λ u d'. d' ≡ record_call s d}
        (weaken (attempted d s) (λ u d' k. k) (λ e d' k. stopped _ _ _ _ _ d' k after)
          (λ d' k. stopped _ _ _ _ _ d' k after))
        (λ u d' k. moved k (
          pure_follows j (
            subst (λ g'. At (s ∷ cs) g' (live_after p live) j (record_call s d)) (sym same_g)
              (subst (λ l. At (s ∷ cs) g l j (record_call s d)) (sym same_live) after))))

module _ (new : ℕ) (some_new : new ≢ 0) where
  perform_apply :
      (cs : List Step) (g : ℕ) (live : Bool) (j : Journal) (d : Host)
      → At cs g live j d
      → Justified Step.apply_safe d.journal d.committed
      → Keeps d
          (λ d'. IsSound d' × Agrees j d'.committed)
          (attempt Step.apply_safe >>= λ u. pure (record j { generation = new }))
          (λ j' d'. At (Step.apply_safe ∷ cs) new live j' d')
  perform_apply cs g live j d at h =
      let after = performed Step.apply_safe cs g live j d at h in
      follows {J = λ u d'. d' ≡ record_call Step.apply_safe d}
        (weaken (attempted d Step.apply_safe) (λ u d' k. k) (λ e d' k. stopped _ _ _ _ _ d' k after)
          (λ d' k. stopped _ _ _ _ _ d' k after))
        (λ u d' k. moved k (
          pure_follows _ record {
            sound = after.sound;
            running = after.running;
            recorded = after.recorded;
            lives = after.lives;
            numbered = refl;
            called = after.called;
            known = λ l. some_new;
          }))

abbrev commit_live : Host → Host
commit_live h = record h { committed = true }

-- A journal that was written before the commit does not claim it.
committed-IsSound :
    (cs : List Step) (g : ℕ) (live : Bool) (j : Journal) (d : Host)
    → At cs g live j d
    → d.journal ≡ some j
    → g ≢ 0
    → IsSound (commit_live d) × Agrees j true
unfolding uncommitted_known FileAgrees
committed-IsSound cs g live j d at file h =
    let agrees : Agrees j true = record {
      claims = λ k. refl;
      known = λ k n. h (sym at.numbered ∙ n);
      rolling = λ k. cc;
    } in
    (
      record {
        agrees = subst (λ o. FileAgrees o true) (sym file) agrees;
        justified = at.sound.justified;
      },
      agrees,
    )

perform_commit :
    (cs : List Step) (g : ℕ) (live : Bool) (j : Journal) (d : Host)
    → At cs g live j d
    → d.journal ≡ some j
    → j.phase ≡ Phase.commit
    → g ≢ 0
    → Keeps d
        (λ d'. IsSound d' × Agrees j d'.committed)
        (commit_generation >>= λ u. pure (record j { committed = true }))
        (λ j' d'. At (Step.commit ∷ cs) g true j' d')
unfolding commit_generation record_call Justified Announced calls
perform_commit cs g live j d at file p h =
    let announced = subst (λ o. Justified Step.commit o d.committed) (sym file) (p, at.running) in
    let after = performed Step.commit cs g live j d at announced in
    let done = committed-IsSound _ g live j _ after file h in
    follows {J = λ u d'. d' ≡ commit_live (record_call Step.commit d)}
      (follows {J = λ u d'. d' ≡ record_call Step.commit d} (puts_follows _ refl) (λ u d' k.
        moved k (act_follows commit_live (after.sound, At-Agrees _ _ _ _ _ after) done refl)))
      (λ u d' k. moved k (
        pure_follows _ record {
          sound = done.0;
          running = at.running;
          recorded = refl;
          lives = refl;
          numbered = at.numbered;
          called = after.called;
          known = λ l. h;
        }))

unfoldable pub calls_after : Phase → List Step → List Step
unfolding step_of
calls_after p cs = elim (step_of p) [ none ↦ cs | some s ↦ s ∷ cs ]

module _ (new : ℕ) (some_new : new ≢ 0) (cs : List Step) (g : ℕ) (live : Bool) (j : Journal)
    (d : Host) (at : At cs g live j d) (file : d.journal ≡ some j) where
  unfoldable pub Performs : Phase → Type 0
  Performs p =
      Keeps d (λ d'. IsSound d' × Agrees j d'.committed) (perform new p j)
        (λ j' d'. At (calls_after p cs) (generation_after new p g) (live_after p live) j' d')

  announced : (p : Phase) → j.phase ≡ p → Announced p d.journal
  unfolding Announced
  announced p h = subst (Announced p) (sym file) (h, at.running)

  idle : Keeps d (λ d'. IsSound d' × Agrees j d'.committed) (pure j) (λ j' d'. At cs g live j' d')
  idle = pure_follows j at

  pub perform_keeps : (p : Phase) → j.phase ≡ p → Needs p g → Performs p
  unfolding perform Performs calls_after step_of generation_after live_after Needs Justified
  perform_keeps Phase.inspect h n = idle
  perform_keeps Phase.backup h n = idle
  perform_keeps Phase.boot_prepare h n = idle
  perform_keeps Phase.complete h n = idle
  perform_keeps Phase.rollback h n = idle
  perform_keeps Phase.failed h n = idle
  perform_keeps Phase.apply h n = perform_apply new some_new cs g live j d at (announced _ h)
  perform_keeps Phase.commit h n = perform_commit cs g live j d at file h n
  perform_keeps Phase.guard h n =
      attempt_performs new Step.start_guard Phase.guard cs g live j d at (announced _ h) refl refl
  perform_keeps Phase.install h n =
      attempt_performs new Step.install Phase.install cs g live j d at (announced _ h) refl refl
  perform_keeps Phase.docker h n =
      attempt_performs new Step.configure_docker Phase.docker cs g live j d at (announced _ h) refl
        refl
  perform_keeps Phase.runtime h n =
      attempt_performs new Step.start_runtime Phase.runtime cs g live j d at (announced _ h) refl
        refl
  perform_keeps Phase.tunnel h n =
      attempt_performs new Step.start_tunnel Phase.tunnel cs g live j d at (announced _ h) refl refl
  perform_keeps Phase.validate h n =
      attempt_performs new Step.validate Phase.validate cs g live j d at (announced _ h) refl refl
  perform_keeps Phase.handoff h n =
      attempt_performs new Step.publish_dependencies Phase.handoff cs g live j d at (announced _ h)
        refl refl
  perform_keeps Phase.boot h n =
      attempt_performs new Step.enable_boot Phase.boot cs g live j d at (announced _ h) refl refl
  perform_keeps Phase.finalize h n =
      attempt_performs new Step.finalize Phase.finalize cs g live j d at (announced _ h) refl refl
