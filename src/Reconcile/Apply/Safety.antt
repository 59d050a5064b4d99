-- ===== src/Reconcile/Apply/Safety.antt =====
-- `Apply` on every tape: neither an installation that failed, nor its recovery, moves the pointer
-- or takes the authority of the generation that it names.
use nft_firewall_v.Prelude.{ℕ, String, true, ◌≡◌, refl, sym, subst, ◌∙◌, ◌&&◌, ◌==◌, &&-eq-true}
use nft_firewall_v.Machine.Types.{
  Machine, Outside, Status, pending, applied, commit_prepared, committed, rolled_back,
}
use nft_firewall_v.Machine.Effects.{M, Error, ◌>>=◌, ask, ignore}
use nft_firewall_v.Machine.Logic.{
  Keeps, follows, weaken, reads_then, refuses_then, reads_ask, pure_follows, fail_follows, catches,
}
use nft_firewall_v.State.Store.{update_rows, is_status, mark_applied, set_observed_hash}
use nft_firewall_v.State.Store.Writes.{with_rows, update_one_keeps}
use nft_firewall_v.State.Authority.{is_published, Guarded, IsSafe, IsAuthorized-update_rows}
use nft_firewall_v.Nft.Backend.Writes.{SameStore, reads_fingerprint}
use nft_firewall_v.Reconcile.Settings.{record_fingerprint}
use nft_firewall_v.Reconcile.Rollback.Safety.{Guarded-SameStore}
use nft_firewall_v.Reconcile.Apply.{fail_after}

pub Guarded-trans : (d d' d'' : Machine) → Guarded d d' → Guarded d' d'' → Guarded d d''
unfolding Guarded
Guarded-trans d d' d'' (a, h) (b, k) = (b ∙ a, k)

-- An action that leaves what `Apply` relies on, from each machine that has it.
unfoldable pub Guards : {A : Type 0} → Machine → M A → Type 0
Guards d m = (d' : Machine) → Guarded d d' → Keeps d' (Guarded d) m (λ a. Guarded d)

pub Guards-then :
    {A B : Type 0} (d : Machine) (m : M A) (k : A → M B)
    → Guards d m
    → ((a : A) → Guards d (k a))
    → Guards d (m >>= k)
unfolding Guards
Guards-then d m k first rest d' h = follows (first d' h) (λ a d'' h'. rest a d'' h')

-- A step on the kernel.
pub Guards-kernel :
    (d : Machine) (m : M (Unit {0})) {Q : Machine → Machine → Type 0}
    → ((d' : Machine) → Keeps d' (SameStore d') m (λ u d''. SameStore d' d'' × Q d' d''))
    → Guards d m
unfolding Guards Guarded
Guards-kernel d m all d' (same, safe) =
    weaken (all d')
      (λ u d'' (k, q). Guarded-trans d d' d'' (same, safe) (Guarded-SameStore d' d'' safe k))
      (λ e d'' k. Guarded-trans d d' d'' (same, safe) (Guarded-SameStore d' d'' safe k))
      (λ d'' k. Guarded-trans d d' d'' (same, safe) (Guarded-SameStore d' d'' safe k))

pub Guards-ignored : (d : Machine) → Guards d (ignore ask)
unfolding Guards ignore
Guards-ignored d d' h =
    catches {Y = λ e d''. d'' ≡ d'}
      (weaken (reads_ask d') (λ u d'' k. subst (Guarded d) (sym (k.0)) h) (λ e d'' k. k)
        (λ d'' k. subst (Guarded d) (sym k) h))
      (λ e d'' at. pure_follows tt (subst (Guarded d) (sym at) h))

-- The error that is returned after a recovery.
pub Guards-fail_after :
    (d : Machine) (cause : Error) (recovery : M (Unit {0}))
    → Guards d recovery
    → Guards {A = Unit {0}} d (fail_after cause recovery)
unfolding Guards fail_after
Guards-fail_after d cause recovery all d' h =
    follows (catches {Y = λ e. Guarded d} (all d' h) (λ e d'' k. fail_follows _ k))
      (λ u d'' k. fail_follows _ k)

published_pending : (s : Status) → is_published s ≡ true → is_status s pending ≡ true → ⊥
unfolding is_published is_status
published_pending pending h k = cc
published_pending applied h k = cc
published_pending commit_prepared h k = cc
published_pending committed h k = cc
published_pending rolled_back h k = cc

module _ (d : Machine) where
  applied-Guarded :
      (id : ℕ) (d' : Machine)
      → Guarded d d'
      → Guarded d (
          with_rows
            (update_rows
              (λ g. g.id == id && is_status g.status pending)
              (λ g. record g { status = applied }))
            d')
  unfolding Guarded IsSafe
  applied-Guarded id d' (same, safe) = (
    same,
    IsAuthorized-update_rows _ _ (λ g. refl) d'.pointer d'.rows
        (λ g named published t. absurd (published_pending g.status published (&&-eq-true _ _ t).1))
        safe,
  )

  pub Guards-mark_applied : (id : ℕ) → Guards d (mark_applied id)
  unfolding Guards mark_applied
  Guards-mark_applied id d' h =
      update_one_keeps _ _ h (applied-Guarded id d' h) (applied-Guarded id d' h)

  hashed-Guarded :
      (id : ℕ) (hash : String) (d' : Machine)
      → Guarded d d'
      → Guarded d
          (with_rows (update_rows (λ g. g.id == id) (λ g. record g { observed_hash = hash })) d')
  unfolding Guarded IsSafe
  hashed-Guarded id hash d' (same, safe) = (
    same,
    IsAuthorized-update_rows _ _ (λ g. refl) d'.pointer d'.rows (λ g named published t. published)
        safe,
  )

  pub Guards-record_fingerprint : (o : Outside) (id : ℕ) → Guards d (record_fingerprint o id)
  unfolding Guards record_fingerprint set_observed_hash
  Guards-record_fingerprint o id d' h = reads_then h (reads_fingerprint o d') (λ hash k.
      refuses_then _ _ h (λ valid u.
        update_one_keeps _ _ h (hashed-Guarded id hash d' h) (hashed-Guarded id hash d' h)))
