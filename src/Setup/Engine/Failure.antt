-- ===== src/Setup/Engine/Failure.antt =====
-- `fail` and `RollbackExpired` on every tape.
use nft_firewall_v.Prelude.{
  ℕ, String, Bool, true, false, not, ◌≡◌, ◌≢◌, ◌∙◌, refl, sym, subst, ◌&&◌, Option, none, some,
  ◌==◌, ltb, arith, not-eq-false, ==_iff,
}
use nft_firewall_v.Effects.{Error, fail, ◌>>=◌}
use nft_firewall_v.Effects.Logic.{
  Keeps, Reads, reads_fail, follows, weaken, reads_then, reads_last, asks_then, gets_then,
  reads_ask, reads_pure, if_follows, pure_follows, fail_follows, puts_follows, gets_follows,
  catches, moved,
}
use nft_firewall_v.Setup.Types.{
  Journal, Step, Host, journal_needs_recovery, journal_before_protected_mutation,
}
use nft_firewall_v.Setup.Journal.{read, found}
use nft_firewall_v.Setup.Engine.{
  attempt, record_call, generation_committed, write_or, give_up, commit_unknown,
  committed_recovery_failed, recover_committed, is_reboot_required, rollback_failed, roll_back,
  settle, settle_inspected, uncommitted_known, inspected, fail_setup, rollback_expired,
}
use nft_firewall_v.Setup.Engine.Safety.{
  Agrees, FileAgrees, Stands, Justified, IsSound, uncommitted_Agrees, committed_Agrees,
  with_journal-IsSound, record_call-IsSound, SoundAs, SoundAs-IsSound, write_or_then,
  attempt_caught, clock_then,
}

module _ {ℓ} {A : Type ℓ} {K : A → Host → Type 0} (d : Host) (sound : IsSound d) where
  -- The last write, and the error that is returned.
  ended :
      (text : String) (j : Journal) (e : Error)
      → Agrees j d.committed
      → Keeps d IsSound (write_or text j >>= λ u. fail e) K
  ended text j e agrees =
      write_or_then d sound text j agrees
        (λ u. fail_follows e (with_journal-IsSound d sound j agrees))

  give_up_keeps :
      (j : Journal) (cause : Error)
      → j.committed ≡ false
      → d.committed ≡ false
      → Keeps d IsSound (give_up j cause) K
  unfolding give_up
  give_up_keeps j cause c h = clock_then d sound (λ now. ended _ _ _ (uncommitted_Agrees _ _ c h))

  commit_unknown_keeps : (j : Journal) → Agrees j d.committed → Keeps d IsSound (commit_unknown j) K
  unfolding commit_unknown uncommitted_known
  commit_unknown_keeps j agrees = clock_then d sound (λ now.
      ended _ _ _ record { claims = agrees.claims; known = agrees.known; rolling = λ k. cc })

  committed_recovery_failed_keeps :
      (j : Journal) (cause e : Error)
      → d.committed ≡ true
      → j.generation ≢ 0
      → Keeps d IsSound (committed_recovery_failed j cause e) K
  unfolding committed_recovery_failed uncommitted_known
  committed_recovery_failed_keeps j cause e h g =
      clock_then d sound (λ now. ended _ _ _ (committed_Agrees _ _ h g refl))

  rollback_failed_keeps :
      (j : Journal) (cause e : Error)
      → j.committed ≡ false
      → d.committed ≡ false
      → Keeps d IsSound (rollback_failed j cause e) K
  unfolding rollback_failed
  rollback_failed_keeps j cause e c h = clock_then d sound (λ now.
      if_follows (is_reboot_required e) (λ k. ended _ _ _ (uncommitted_Agrees _ _ c h))
        (λ k. ended _ _ _ (uncommitted_Agrees _ _ c h)))

module _ {ℓ} {A : Type ℓ} {K : A → Host → Type 0} (d : Host) (sound : IsSound d) where
  recover_committed_keeps :
      (j : Journal) (cause : Error)
      → d.committed ≡ true
      → j.generation ≢ 0
      → Keeps d IsSound (recover_committed j cause) K
  unfolding recover_committed uncommitted_known record_call Justified Stands
  recover_committed_keeps j cause h g = clock_then d sound (λ now.
      let recovering = committed_Agrees _ _ h g refl in
      let d1-sound = with_journal-IsSound d sound _ recovering in
      write_or_then d sound _ _ recovering (λ u.
        attempt_caught _ d1-sound Step.recover_committed _ (refl, h)
          (λ e.
            committed_recovery_failed_keeps _
              (record_call-IsSound _ d1-sound Step.recover_committed (refl, h)) _ cause e h g)
          (λ v.
            clock_then _ (record_call-IsSound _ d1-sound Step.recover_committed (refl, h)) (λ now'.
              ended _ (record_call-IsSound _ d1-sound Step.recover_committed (refl, h)) _ _ _
                (committed_Agrees _ _ h g refl)))))

  roll_back_keeps :
      (j : Journal) (cause : Error)
      → j.committed ≡ false
      → d.committed ≡ false
      → Keeps d IsSound (roll_back j cause) K
  unfolding roll_back record_call Justified Stands
  roll_back_keeps j cause c h = clock_then d sound (λ now.
      let rolling = uncommitted_Agrees _ _ c h in
      let d1-sound = with_journal-IsSound d sound _ rolling in
      write_or_then d sound _ _ rolling (λ u.
        attempt_caught _ d1-sound Step.roll_back _ (refl, h)
          (λ e.
            rollback_failed_keeps _ (record_call-IsSound _ d1-sound Step.roll_back (refl, h)) _
              cause e c h)
          (λ v. clock_then _ (record_call-IsSound _ d1-sound Step.roll_back (refl, h)) (λ now'.
            ended _ (record_call-IsSound _ d1-sound Step.roll_back (refl, h)) _ _ _
              (uncommitted_Agrees _ _ c h)))))

  settle_keeps :
      (j : Journal) (cause : Error) (c : Bool)
      → c ≡ d.committed
      → (c ≡ true → j.generation ≢ 0)
      → Keeps d IsSound (settle j cause c) K
  unfolding settle
  settle_keeps j cause c at known =
      if_follows c (λ k. recover_committed_keeps _ cause (sym at ∙ k) (known k))
        (λ k. roll_back_keeps _ cause k (sym at ∙ k))

-- What an inspection leaves, and what it answers.
unfoldable Inspected : Bool → Option Bool → Host → Type 0
Inspected live o h = SoundAs live h × ((c : Bool) → o ≡ some c → c ≡ live)

some_values : (a b : Bool) → some a ≡ some b → a ≡ b
some_values a b h = cc

inspected_keeps :
    (d : Host) → IsSound d → Keeps d (SoundAs d.committed) inspected (Inspected d.committed)
unfolding inspected generation_committed attempt record_call Justified Inspected SoundAs
inspected_keeps d sound =
    let called = record_call-IsSound d sound Step.inspect_commit tt in
    catches {Y = λ e. SoundAs d.committed}
      (follows {J = λ c d'. SoundAs d.committed d' × (c ≡ d.committed)}
        (follows {J = λ u d'. d' ≡ record_call Step.inspect_commit d}
          (follows {J = λ u d'. d' ≡ record_call Step.inspect_commit d} (puts_follows _ refl)
            (λ u d' at.
              moved at
                (reads_last {I = SoundAs d.committed} (called, refl) (reads_ask _) (λ v k. refl))))
          (λ u d' at. moved at (gets_follows _ ((called, refl), refl))))
        (λ c d' (s, at). pure_follows _ (s, λ c' k. sym (some_values c c' k) ∙ at)))
      (λ e d' s. pure_follows _ (s, λ c k. cc))

uncommitted_before :
    (j : Journal)
    → journal_before_protected_mutation j ≡ true
    → (j.committed ≡ false) × (j.generation ≡ 0)
unfolding journal_before_protected_mutation
uncommitted_before j h = ground arith

-- Where the inspection is skipped, the journal knows the live state.
known_live :
    (c u live : Bool) (g : ℕ)
    → (c ≡ true → live ≡ true)
    → (live ≡ true → g ≢ 0)
    → (u ≡ true → live ≡ false)
    → (not c && (not u && not (g == 0))) ≡ false
    → c ≡ live
known_live true u live g claims known rolling h = sym (claims refl)
known_live false true live g claims known rolling h = sym (rolling refl)
known_live false false false g claims known rolling h = refl
known_live false false true g claims known rolling h =
    elim (known refl ((==_iff g 0).0 (not-eq-false _ h))) [ ]

live_of_none : (j : Journal) (live : Bool) → Agrees j live → j.generation ≡ 0 → live ≡ false
live_of_none j true agrees h = elim (agrees.known refl h) [ ]
live_of_none j false agrees h = refl

module _ {ℓ} {A : Type ℓ} {K : A → Host → Type 0} where
  settle_inspected_keeps :
      (live : Bool) (d : Host) (j : Journal) (cause : Error) (o : Option Bool)
      → Inspected live o d
      → Agrees j live
      → Keeps d IsSound (settle_inspected j cause o) K
  unfolding settle_inspected Inspected SoundAs
  settle_inspected_keeps live d j cause none ((sound, same), answer) agrees =
      commit_unknown_keeps d sound j (subst (Agrees j) (sym same) agrees)
  settle_inspected_keeps live d j cause (some c) ((sound, same), answer) agrees =
      settle_keeps d sound j cause c (answer c refl ∙ sym same)
        (λ k. agrees.known (sym (answer c refl) ∙ k))

  -- Whatever the journal in memory says, if it agrees with the host the recovery is safe.
  pub fail_setup_keeps :
      (d : Host)
      → IsSound d
      → (j : Journal) (cause : Error) → Agrees j d.committed
      → Keeps d IsSound (fail_setup j cause) K
  unfolding fail_setup
  fail_setup_keeps d sound j cause agrees =
      if_follows (journal_before_protected_mutation j)
        (λ early.
          give_up_keeps d sound j cause (uncommitted_before j early).0
            (live_of_none j _ agrees (uncommitted_before j early).1))
        (λ late.
          if_follows
            (not j.committed && (not (uncommitted_known j.status) && not (j.generation == 0)))
            (λ unsure.
              follows {J = Inspected d.committed}
                (weaken (inspected_keeps d sound) (λ o d' h. h) (λ e d' h. SoundAs-IsSound _ h)
                  (λ d' h. SoundAs-IsSound _ h))
                (λ o d' h. settle_inspected_keeps d.committed d' j cause o h agrees))
            (λ sure.
              settle_keeps d sound j cause j.committed
                (known_live _ _ _ _ agrees.claims agrees.known agrees.rolling sure)
                (λ k. agrees.known (agrees.claims k))))

found_keeps :
    (d : Host) (o : Option Journal) → o ≡ d.journal → Reads d (found o) (λ j. d.journal ≡ some j)
unfolding found
found_keeps d none at = reads_fail _
found_keeps d (some j) at = reads_pure j (sym at)

pub reads_journal : (d : Host) → Reads d read (λ j. d.journal ≡ some j)
unfolding read
reads_journal d = asks_then refl (λ u. gets_then (λ h. h.journal) (λ o at. found_keeps d o at))

journal-Agrees : (d : Host) → IsSound d → (j : Journal) → d.journal ≡ some j → Agrees j d.committed
unfolding FileAgrees
journal-Agrees d sound j at = subst (λ o. FileAgrees o d.committed) at sound.agrees

pub rollback_expired_keeps :
    (d : Host) → IsSound d → Keeps d IsSound rollback_expired (λ b d'. IsSound d' × Unit {0})
unfolding rollback_expired
rollback_expired_keeps d sound = reads_then sound (reads_journal d) (λ j at.
    if_follows (not (journal_needs_recovery j.status)) (λ k. pure_follows false (sound, tt))
      (λ k. clock_then d sound (λ now.
        if_follows (ltb now j.deadline) (λ early. pure_follows false (sound, tt))
          (λ late. fail_setup_keeps d sound j _ (journal-Agrees d sound j at)))))
