-- ===== src/Setup/Run/Phases.antt =====
-- The loop of `Run` over the phases, on every tape.
use nft_firewall_v.Prelude.{ℕ, Bool, true, ◌≡◌, ◌≢◌, ◌∙◌, refl, sym, subst, List, [], ◌∷◌, ltb}
use nft_firewall_v.Effects.{Action, ◌>>=◌}
use nft_firewall_v.Effects.Logic.{Keeps, follows, if_follows, pure_follows, moved}
use nft_firewall_v.Setup.Types.{Phase, Status, Journal, Step, Event, Host}
use nft_firewall_v.Setup.Engine.{uncommitted_known}
use nft_firewall_v.Setup.Engine.Safety.{Agrees, IsSound, with_journal, write_caught, clock_then}
use nft_firewall_v.Setup.Engine.Failure.{fail_setup_keeps}
use nft_firewall_v.Setup.Run.{write_or_fail, check_deadline}

unfoldable pub calls_of : List Event → List Step
calls_of [] = []
calls_of (e ∷ es) = e.step ∷ calls_of es

-- The calls of the executor, newest first.
unfoldable pub calls : Host → List Step
unfolding calls_of
calls h = calls_of h.log

-- Where a run stands: the calls so far, the generation, and whether it is committed.
pub record At (cs : List Step) (generation : ℕ) (live : Bool) (j : Journal) (d : Host)
    : Type 0 where
  pub sound : IsSound d
  pub running : j.status ≡ Status.running
  pub recorded : j.committed ≡ live
  pub lives : d.committed ≡ live
  pub numbered : j.generation ≡ generation
  pub called : calls d ≡ cs
  pub known : live ≡ true → generation ≢ 0

pub At-Agrees :
    (cs : List Step) (g : ℕ) (live : Bool) (j : Journal) (d : Host)
    → At cs g live j d
    → Agrees j d.committed
unfolding uncommitted_known
At-Agrees cs g live j d at = record {
  claims = λ k. at.lives ∙ sym at.recorded ∙ k;
  known = λ k h. at.known (sym at.lives ∙ k) (sym at.numbered ∙ h);
  rolling = λ k. cc;
}

pub stopped :
    (cs : List Step) (g : ℕ) (live : Bool) (j : Journal) (d d' : Host)
    → d' ≡ d
    → At cs g live j d
    → IsSound d' × Agrees j d'.committed
stopped cs g live j d d' k at =
    subst (λ q. IsSound q × Agrees j q.committed) (sym k) (at.sound, At-Agrees cs g live j d at)

module _ {ℓ} {A : Type ℓ} {K : A → Host → Type 0} (d : Host) where
  pub write_or_fail_then :
      (j : Journal) {k : Unit {0} → Action Host A}
      → IsSound d
      → Agrees j d.committed
      → ((u : Unit {0}) → Keeps (with_journal j d) IsSound (k u) K)
      → Keeps d IsSound (write_or_fail j >>= k) K
  unfolding write_or_fail
  write_or_fail_then j sound agrees rest =
      write_caught d sound j _ agrees
        (λ e d' s same. fail_setup_keeps d' s j _ (subst (Agrees j) (sym same) agrees)) rest

  pub check_deadline_then :
      (j : Journal) {k : Unit {0} → Action Host A}
      → IsSound d
      → Agrees j d.committed
      → ((u : Unit {0}) → Keeps d IsSound (k u) K)
      → Keeps d IsSound (check_deadline j >>= k) K
  unfolding check_deadline
  check_deadline_then j sound agrees rest =
      follows {J = λ u d'. d' ≡ d}
        (clock_then d sound (λ now.
          if_follows (ltb now j.deadline) (λ k. pure_follows tt refl)
            (λ k. fail_setup_keeps d sound j _ agrees)))
        (λ u d' at. moved at (rest u))

unfoldable pub generation_after : ℕ → Phase → ℕ → ℕ
generation_after new Phase.apply g = new
generation_after new _ g = g

unfoldable pub live_after : Phase → Bool → Bool
live_after Phase.commit live = true
live_after _ live = live

-- What a phase needs: a commit needs a generation.
unfoldable pub Needs : Phase → ℕ → Type 0
Needs Phase.commit g = g ≢ 0
Needs _ g = Unit
