-- ===== src/Setup/Engine/Safety.antt =====
-- The failure path of the setup on every tape: what the journal says when the executor is called.
use nft_firewall_v.Prelude.{
  ℕ, String, Bool, true, false, ◌≡◌, ◌≢◌, refl, sym, subst, Option, none, some, All,
}
use nft_firewall_v.Effects.{Action, Error, ◌>>=◌, catch, clock}
use nft_firewall_v.Effects.Logic.{
  Keeps, follows, weaken, reads_then, reads_ask, reads_clock, fail_follows, act_follows,
  puts_follows, catches, moved,
}
use nft_firewall_v.Setup.Types.{Phase, Status, Journal, Step, Event, Host}
use nft_firewall_v.Setup.Journal.{write}
use nft_firewall_v.Setup.Engine.{attempt, record_call, write_or, uncommitted_known}

-- A journal that does not mislead about the live state of the generation.
pub record Agrees (j : Journal) (live : Bool) : Type 0 where
  pub claims : j.committed ≡ true → live ≡ true
  pub known : live ≡ true → j.generation ≢ 0
  pub rolling : uncommitted_known j.status ≡ true → live ≡ false

unfoldable pub FileAgrees : Option Journal → Bool → Type 0
FileAgrees none live = live ≡ false
FileAgrees (some j) live = Agrees j live

-- The call of a step that changes the host, under a journal with the step's phase.
unfoldable pub Announced : Phase → Option Journal → Type 0
Announced p none = ⊥
Announced p (some j) = (j.phase ≡ p) × (j.status ≡ Status.running)

unfoldable pub Stands : Status → Option Journal → Type 0
Stands s none = ⊥
Stands s (some j) = j.status ≡ s

-- What held when a step was called.
unfoldable pub Justified : Step → Option Journal → Bool → Type 0
Justified Step.backup file live = Announced Phase.backup file
Justified Step.prepare_boot file live = Announced Phase.boot_prepare file
Justified Step.verify_boot file live = Stands Status.resume_ready file
Justified Step.start_guard file live = Announced Phase.guard file
Justified Step.install file live = Announced Phase.install file
Justified Step.configure_docker file live = Announced Phase.docker file
Justified Step.start_runtime file live = Announced Phase.runtime file
Justified Step.apply_safe file live = Announced Phase.apply file
Justified Step.start_tunnel file live = Announced Phase.tunnel file
Justified Step.validate file live = Announced Phase.validate file
Justified Step.commit file live = Announced Phase.commit file
Justified Step.publish_dependencies file live = Announced Phase.handoff file
Justified Step.enable_boot file live = Announced Phase.boot file
Justified Step.finalize file live = Announced Phase.finalize file
Justified Step.inspect_commit file live = Unit
Justified Step.roll_back file live = Stands Status.rolling_back file × (live ≡ false)
Justified Step.recover_committed file live = Stands Status.recovering_committed file × (live ≡ true)

unfoldable pub IsJustified : Event → Type 0
IsJustified e = Justified e.step e.journal e.committed

-- The journal file agrees with the host, and every call was justified.
pub record IsSound (h : Host) : Type 0 where
  pub agrees : FileAgrees h.journal h.committed
  pub justified : All IsJustified h.log

abbrev pub with_journal : Journal → Host → Host
with_journal j h = record h { journal = some j }

pub uncommitted_Agrees :
    (j : Journal) (live : Bool) → j.committed ≡ false → live ≡ false → Agrees j live
uncommitted_Agrees j live c h = record { claims = λ k. cc; known = λ k. cc; rolling = λ k. h }

pub committed_Agrees :
    (j : Journal) (live : Bool)
    → live ≡ true
    → j.generation ≢ 0
    → uncommitted_known j.status ≡ false
    → Agrees j live
committed_Agrees j live h g s = record { claims = λ k. h; known = λ k. g; rolling = λ k. cc }

module _ (d : Host) (sound : IsSound d) where
  pub with_journal-IsSound : (j : Journal) → Agrees j d.committed → IsSound (with_journal j d)
  unfolding FileAgrees
  with_journal-IsSound j h = record { agrees = h; justified = sound.justified }

  pub record_call-IsSound :
      (s : Step) → Justified s d.journal d.committed → IsSound (record_call s d)
  unfolding record_call IsJustified
  record_call-IsSound s h = record { agrees = sound.agrees; justified = (h, sound.justified) }

-- Sound, and the generation is as it was.
unfoldable pub SoundAs : Bool → Host → Type 0
SoundAs live h = IsSound h × (h.committed ≡ live)

pub SoundAs-IsSound : (live : Bool) {h : Host} → SoundAs live h → IsSound h
unfolding SoundAs
SoundAs-IsSound live s = s.0

-- A write of the journal with what follows its failure, before the rest.
written :
    (d : Host)
    → IsSound d
    → (j : Journal) → Agrees j d.committed
    → Keeps d (SoundAs d.committed) (write j) (λ u d'. d' ≡ with_journal j d)
unfolding write SoundAs
written d sound j agrees =
    act_follows _ (sound, refl) (with_journal-IsSound d sound j agrees, refl) refl

pub write_or_last :
    (d : Host)
    → IsSound d
    → (text : String) (j : Journal) {K : Unit {0} → Host → Type 0} → Agrees j d.committed
    → ((u : Unit {0}) → K u (with_journal j d))
    → Keeps d IsSound (write_or text j) K
unfolding write_or
write_or_last d sound text j {K = K} agrees k =
    catches {Y = λ e. SoundAs d.committed}
      (weaken (written d sound j agrees) (λ u d' at. subst (K u) (sym at) (k u)) (λ e d' s. s)
        (λ d' s. SoundAs-IsSound _ s))
      (λ e d' s. fail_follows _ (SoundAs-IsSound _ s))

pub attempted :
    (d : Host) (s : Step)
    → Keeps d (λ d'. d' ≡ record_call s d) (attempt s) (λ u d'. d' ≡ record_call s d)
unfolding attempt
attempted d s =
    follows {J = λ u d'. d' ≡ record_call s d} (puts_follows (record_call s) refl) (λ u d' at.
      moved at (weaken (reads_ask (record_call s d)) (λ v d'' k. k.0) (λ e d'' k. k) (λ d'' k. k)))

module _ {ℓ} {A : Type ℓ} {K : A → Host → Type 0} (d : Host) (sound : IsSound d) where
  pub write_caught :
      (j : Journal) (h : Error → Action Host (Unit {0})) {k : Unit {0} → Action Host A}
      → Agrees j d.committed
      → ((e : Error) (d' : Host)
          → IsSound d'
          → d'.committed ≡ d.committed
          → Keeps d' IsSound (h e) (λ u d''. ⊥))
      → ((u : Unit {0}) → Keeps (with_journal j d) IsSound (k u) K)
      → Keeps d IsSound (catch (write j) h >>= k) K
  unfolding SoundAs
  write_caught j h agrees handler rest =
      follows {J = λ u d'. d' ≡ with_journal j d}
        (catches {Y = λ e. SoundAs d.committed}
          (weaken (written d sound j agrees) (λ u d' k. k) (λ e d' k. k) (λ d' (s, same). s))
          (λ e d' (s, same).
            weaken (handler e d' s same) (λ u d''. elim [ ]) (λ f d'' k. k) (λ d'' k. k)))
        (λ u d' at. moved at (rest u))

  pub write_or_then :
      (text : String) (j : Journal) {k : Unit {0} → Action Host A}
      → Agrees j d.committed
      → ((u : Unit {0}) → Keeps (with_journal j d) IsSound (k u) K)
      → Keeps d IsSound (write_or text j >>= k) K
  unfolding write_or
  write_or_then text j agrees rest = write_caught j _ agrees (λ e d' s same. fail_follows _ s) rest

  -- A call of the executor with the handler of its failure.
  pub attempt_caught :
      (s : Step) (h : Error → Action Host (Unit {0})) {k : Unit {0} → Action Host A}
      → Justified s d.journal d.committed
      → ((e : Error) → Keeps (record_call s d) IsSound (h e) (λ u d''. ⊥))
      → ((u : Unit {0}) → Keeps (record_call s d) IsSound (k u) K)
      → Keeps d IsSound (catch (attempt s) h >>= k) K
  attempt_caught s h justified handler rest =
      let after = record_call-IsSound d sound s justified in
      follows {J = λ u d'. d' ≡ record_call s d}
        (catches {Y = λ e d'. d' ≡ record_call s d}
          (weaken (attempted d s) (λ u d' k. k) (λ e d' k. k) (λ d' k. subst IsSound (sym k) after))
          (λ e d' at.
            moved at (weaken (handler e) (λ u d''. elim [ ]) (λ f d'' k. k) (λ d'' k. k))))
        (λ u d' at. moved at (rest u))

module _ {ℓ} {A : Type ℓ} {K : A → Host → Type 0} (d : Host) (sound : IsSound d) where
  pub clock_then :
      {k : ℕ → Action Host A}
      → ((now : ℕ) → Keeps d IsSound (k now) K)
      → Keeps d IsSound (clock >>= k) K
  clock_then rest = reads_then sound (reads_clock d) (λ now h. rest now)
