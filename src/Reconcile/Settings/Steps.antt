-- ===== src/Reconcile/Settings/Steps.antt =====
-- The shared steps of the manager: what they read, and what they leave.
use nft_firewall_v.Prelude.{
  ℕ, String, Bool, false, not, ◌≡◌, refl, sym, subst, ◌||◌, Option, none, some, arith,
}
use nft_firewall_v.Machine.Types.{Machine, Outside, Pointer, Snapshot, Generation}
use nft_firewall_v.Machine.Effects.{Error, fail, ◌>>=◌, ask, ignore}
use nft_firewall_v.Machine.Logic.{
  Keeps, Reads, follows, weaken, reads_then, reads_last, refuses_then, reads_ask, reads_pure,
  reads_refusal, reads_clock, if_follows, pure_follows, fail_follows, catches, moved,
}
use nft_firewall_v.State.Store.Reads.{reads_generation, reads_script}
use nft_firewall_v.Nft.Backend.{backend_apply, loaded, emergency_deny_script}
use nft_firewall_v.Nft.Backend.Writes.{SameStore, SameStore-refl, backend_apply_keeps}
use nft_firewall_v.Reconcile.Settings.{
  Manager, past, names, is_absent, validate_previous, validate_generation_snapshot,
  audit_foreign_mark_ownership, install_owned_generation, restore_runtime_or_deny,
}

pub reads_past : (d : Machine) (t : Option ℕ) → Reads d (past t) (λ b. Unit {0})
unfolding past
reads_past d none = reads_pure false tt
reads_past d (some t) = reads_then refl (reads_clock d) (λ now h. reads_pure _ tt)

pub reads_audit :
    (mgr : Manager) (d : Machine) → Reads d (audit_foreign_mark_ownership mgr) (λ u. Unit {0})
unfolding audit_foreign_mark_ownership
reads_audit mgr d = refuses_then _ _ refl (λ h u. reads_ask d)

-- The id in the row's `previous_generation` is that of the snapshot's predecessor.
unfoldable pub IsLinked : Option ℕ → Option Pointer → Type 0
IsLinked id none = id ≡ none
IsLinked id (some p) = id ≡ some p.generation

absent_linked : (id : Option ℕ) (b : Bool) → (not (is_absent id) || b) ≡ false → id ≡ none
unfolding is_absent
absent_linked none b h = refl
absent_linked (some i) b h = cc

names_linked : (n : ℕ) (id : Option ℕ) → not (names n id) ≡ false → id ≡ some n
unfolding names
names_linked n none h = cc
names_linked n (some i) h = ground arith

reads_previous :
    (d : Machine) (g : Generation) (p : Option Pointer) (prepared : Bool)
    → Reads d (validate_previous g p prepared) (λ u. IsLinked g.previous_id p)
unfolding validate_previous IsLinked
reads_previous d g none prepared =
    reads_last refl (reads_refusal d _ _) (λ u h. (refl, absent_linked g.previous_id _ h))
reads_previous d g (some p) prepared = refuses_then _ _ refl (λ h u.
    reads_then refl (reads_generation d p.generation) (λ previous found.
      refuses_then _ _ refl
        (λ h' v. reads_last refl (reads_refusal d _ _) (λ w h''. (refl, names_linked _ _ h)))))

pub reads_validation :
    (o : Outside) (d : Machine) (g : Generation) (s : Snapshot) (prepared : Bool)
    → Reads d (validate_generation_snapshot o g s prepared) (λ u. IsLinked g.previous_id s.previous)
unfolding validate_generation_snapshot
reads_validation o d g s prepared = refuses_then _ _ refl (λ h u. refuses_then _ _ refl (λ h' v.
    reads_then refl (reads_script o d g)
      (λ text found. refuses_then _ _ refl (λ h'' w. reads_previous d g s.previous prepared))))

module _ (o : Outside) (mgr : Manager) (d : Machine) where
  pub install_keeps :
      (script : String)
      → Keeps d
          (SameStore d)
          (install_owned_generation o mgr script)
          (λ u d'. SameStore d d' × (d'.kernel ≡ loaded o script))
  unfolding install_owned_generation
  install_keeps script =
      reads_then (SameStore-refl d) (reads_audit mgr d) (λ u h. backend_apply_keeps o d script)

  ignored : Reads d (ignore ask) (λ u. Unit {0})
  unfolding ignore
  ignored = catches {Y = λ e d'. d' ≡ d} (reads_ask d) (λ e d' at. pure_follows tt (at, tt))

  deny_keeps :
      (e : Error)
      → Keeps d
          (SameStore d)
          (ignore (backend_apply o emergency_deny_script) >>= λ u. fail {A = Unit {0}} e)
          (λ u d'. d' ≡ d)
  unfolding ignore
  deny_keeps e =
      follows
        (catches {K = λ u. SameStore d} {Y = λ f. SameStore d}
          (weaken (backend_apply_keeps o d emergency_deny_script) (λ u d' h. h.0) (λ f d' h. h)
            (λ d' h. h))
          (λ f d' h. pure_follows tt h))
        (λ u d' h. fail_follows e h)

  -- A success means that nothing was changed: the emergency policy comes with an error.
  pub restore_runtime_keeps : Keeps d (SameStore d) (restore_runtime_or_deny o mgr) (λ u d'. d' ≡ d)
  unfolding restore_runtime_or_deny
  restore_runtime_keeps =
      if_follows mgr.has_post_restore
        (λ h.
          catches {Y = λ e d'. d' ≡ d}
            (weaken (reads_ask d) (λ u d' h. h.0) (λ e d' h. h)
              (λ d' h. subst (SameStore d) (sym h) (SameStore-refl d)))
            (λ e d' at. moved at (reads_then (SameStore-refl d) ignored (λ u h. deny_keeps e))))
        (λ h. pure_follows tt refl)
