-- ===== src/Nft/Backend/Writes.antt =====
-- The transactions of internal/nft/backend.go as steps: they leave the database, the files and the
-- pointer as they are, and a success leaves the kernel with the script's rules.
use nft_firewall_v.Prelude.{String, false, ◌≡◌, refl, sym, subst, ◌∙◌, ==_iff, ◌==◌}
use nft_firewall_v.Machine.Types.{Machine, Outside}
use nft_firewall_v.Machine.Effects.{execution}
use nft_firewall_v.Machine.Logic.{
  reads_pure, Keeps, Reads, follows, gets_follows, reads_then, asks_then, gets_then, refuses_then,
  reads_fail, if_follows, pure_follows, fail_follows, act_follows, puts_follows, catches,
}
use nft_firewall_v.Nft.Backend.{
  integrity, fingerprint, owned_tables, existing_owned, destroy_owned, backend_apply, loaded,
  protect_first_use,
}

-- Only the kernel and the backend's own flag may differ.
unfoldable pub SameStore : Machine → Machine → Type 0
SameStore d d' = d' ≡ record d { kernel = d'.kernel; protect_first_use = d'.protect_first_use }

pub SameStore-refl : (d : Machine) → SameStore d d
unfolding SameStore
SameStore-refl d = refl

pub SameStore-trans : (d d' d'' : Machine) → SameStore d d' → SameStore d' d'' → SameStore d d''
unfolding SameStore
SameStore-trans d d' d'' h k =
    subst (λ q. d'' ≡ record q { kernel = d''.kernel; protect_first_use = d''.protect_first_use }) h
      k

pub reads_existing : (d : Machine) → Reads d existing_owned (λ n. n ≡ d.kernel.tables)
unfolding existing_owned
reads_existing d = asks_then refl (λ u. gets_follows _ (refl, refl))

pub destroy_owned_keeps :
    (d : Machine)
    → Keeps d (SameStore d) destroy_owned (λ u d'. SameStore d d' × (d'.kernel.tables ≡ 0))
unfolding destroy_owned SameStore
destroy_owned_keeps d = reads_then refl (reads_existing d) (λ n at.
    if_follows (n == 0) (λ h. pure_follows tt (refl, sym at ∙ (==_iff n 0).0 h))
      (λ h. asks_then refl (λ u. act_follows _ refl refl (refl, refl))))

pub backend_apply_keeps :
    (o : Outside) (d : Machine) (script : String)
    → Keeps d
        (SameStore d)
        (backend_apply o script)
        (λ u d'. SameStore d d' × (d'.kernel ≡ loaded o script))
unfolding backend_apply SameStore
backend_apply_keeps o d script = refuses_then _ _ refl (λ h u.
    reads_then refl (reads_existing d) (λ n at.
      gets_then (λ m. m.protect_first_use)
        (λ protected at'. refuses_then _ _ refl (λ h' v. asks_then refl (λ w. asks_then refl (λ x.
          follows {J = λ y d'. d' ≡ record d { kernel = loaded o script }}
            (catches {Y = λ e. SameStore d} (act_follows _ refl refl refl)
              (λ e d' h''. fail_follows execution h''))
            (λ y d' at''. puts_follows _ (
              subst
                (λ q.
                  SameStore d (record q { protect_first_use = false })
                  × (q.kernel ≡ loaded o script))
                (sym at'') (refl, refl)))))))))

pub protect_first_use_keeps :
    (d : Machine) → Keeps d (SameStore d) protect_first_use (λ u. SameStore d)
unfolding protect_first_use SameStore
protect_first_use_keeps d =
    reads_then refl (reads_existing d) (λ n at. refuses_then _ _ refl (λ h u. puts_follows _ refl))

-- A fingerprint is the digest of three owned tables.
pub reads_fingerprint :
    (o : Outside) (d : Machine)
    → Reads d
        (fingerprint o)
        (λ h. (d.kernel.tables ≡ owned_tables) × (h ≡ o.digest d.kernel.rules))
unfolding fingerprint
reads_fingerprint o d = asks_then refl (λ u.
    gets_then (λ m. m.kernel.tables)
      (λ n at.
        if_follows (n == owned_tables)
          (λ h. gets_follows _ (refl, (sym at ∙ (==_iff n owned_tables).0 h, refl)))
          (λ h. reads_fail _)))

pub reads_integrity : (o : Outside) (d : Machine) → Reads d (integrity o) (λ b. Unit {0})
unfolding integrity
reads_integrity o d = reads_then refl (reads_existing d) (λ n at.
    if_follows (n == owned_tables) (λ h. asks_then refl (λ u. gets_follows _ (refl, tt)))
      (λ h. reads_pure false tt))
