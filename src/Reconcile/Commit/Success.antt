-- ===== src/Reconcile/Commit/Success.antt =====
-- `Commit` on every tape, and what its success means.
use nft_firewall_v.Prelude.{
  not-eq-false, ℕ, String, Bool, true, not, ◌≡◌, refl, subst, ap, ◌||◌, ◌⊎◌, inl, inr, Option, none,
  some, arith, str_eq, ==_iff,
}
use nft_firewall_v.Machine.Types.{Machine, Outside, Generation, applied}
use nft_firewall_v.Machine.Effects.{World, ok}
use nft_firewall_v.Machine.Logic.{
  Keeps, Reads, follows, weaken, reads_then, refuses_then, reads_pure, if_follows, pure_follows,
  fail_follows, catches, stays, succeeds,
}
use nft_firewall_v.State.Store.{newest, is_open, is_status}
use nft_firewall_v.State.Store.Reads.{reads_pending}
use nft_firewall_v.State.Authority.{Guarded, IsSafe}
use nft_firewall_v.Nft.Backend.{owned_tables}
use nft_firewall_v.Nft.Backend.Writes.{reads_fingerprint}
use nft_firewall_v.Reconcile.Settings.{Manager}
use nft_firewall_v.Reconcile.Settings.Steps.{reads_past}
use nft_firewall_v.Reconcile.Rollback.{rollback_locked}
use nft_firewall_v.Reconcile.Rollback.Settled.{rollback_locked_keeps, reads_lock}
use nft_firewall_v.Reconcile.Commit
use nft_firewall_v.Reconcile.Commit.{commit_locked, commit_pending, commit, observed_as}
use nft_firewall_v.Reconcile.Commit.Safety.{Commits, IsCommitted, commit_locked_keeps}

-- The live tables have the fingerprint that the pending row of the id was applied with.
unfoldable pub IsIntact : Outside → ℕ → Machine → Type 0
IsIntact o id d =
    (g : Generation) × (newest (λ h. is_open h.status) d.rows ≡ some g)
    × (g.id ≡ id)
    × (is_status g.status applied ≡ true)
    × (d.kernel.tables ≡ owned_tables)
    × (str_eq (o.digest d.kernel.rules) g.observed_hash ≡ true)

second_passed : (a b : Bool) → not (a || not b) ≡ true → b ≡ true
second_passed a b h = ground arith

some_texts : (s t : String) → some s ≡ some t → s ≡ t
some_texts s t h = cc

module _ (o : Outside) (d : Machine) where
  abbrev Observed : Option String → Type 0
  Observed hash =
      (hash ≡ none) ⊎ (hash ≡ some (o.digest d.kernel.rules)) × (d.kernel.tables ≡ owned_tables)

  reads_observed : (mgr : Manager) → Reads d (Commit.observed o mgr) Observed
  unfolding Commit.observed
  reads_observed mgr =
      catches {Y = λ e d'. d' ≡ d}
        (reads_then refl (reads_fingerprint o d)
          (λ h (tables, at). reads_pure (some h) (inr (ap some at, tables))))
        (λ e d' at. pure_follows none (at, inl refl))

  matching_hash :
      (expected : String) (hash : Option String)
      → Observed hash
      → observed_as expected hash ≡ true
      → (str_eq (o.digest d.kernel.rules) expected ≡ true) × (d.kernel.tables ≡ owned_tables)
  unfolding observed_as
  matching_hash expected none seen h = cc
  matching_hash expected (some hash) (inl at) h = cc
  matching_hash expected (some hash) (inr (at, tables)) h =
      (subst (λ x. str_eq x expected ≡ true) (some_texts _ _ at) (second_passed _ _ h), tables)

module _ (o : Outside) (mgr : Manager) (id : ℕ) (d : Machine) (safe : IsSafe d) where
  rolled_back_keeps : Keeps d (Commits o id d) (rollback_locked o mgr id) (λ u. Commits o id d)
  unfolding Guarded Commits
  rolled_back_keeps =
      weaken (rollback_locked_keeps o mgr id d safe) (λ v d' ((same, h), r). (h, inl same))
        (λ e d' (same, h). (h, inl same)) (λ d' (same, h). (h, inl same))

  rejected_keeps :
      Keeps d
        (Commits o id d)
        (Commit.rollback_rejected o mgr id)
        (λ u d'. Commits o id d d' × (IsCommitted o id d d' × IsIntact o id d))
  unfolding Commit.rollback_rejected
  rejected_keeps =
      follows (catches {Y = λ e. Commits o id d} rolled_back_keeps (λ e d' h. fail_follows _ h))
        (λ u d' h. fail_follows _ h)

  pub commit_keeps :
      Keeps d
        (Commits o id d)
        (commit o mgr id)
        (λ u d'. Commits o id d d' × (IsCommitted o id d d' × IsIntact o id d))
  unfolding commit commit_pending IsIntact Commits
  commit_keeps =
      let here : Commits o id d d = (safe, inl refl) in
      reads_then here (reads_lock mgr d) (λ u k. reads_then here (reads_pending d) (λ g found.
        refuses_then _ _ here (λ named v. refuses_then _ _ here (λ status w.
          reads_then here (reads_past d g.rollback_deadline) (λ expired k'.
            if_follows expired (λ t. follows rolled_back_keeps (λ x d' h. fail_follows _ h))
              (λ t. reads_then here (reads_observed o d mgr) (λ hash seen.
                if_follows (observed_as g.observed_hash hash)
                  (λ h.
                    let (same, tables) = matching_hash o d g.observed_hash hash seen h in
                    weaken (commit_locked_keeps o mgr id d safe)
                      (λ x d' (k, c). (
                        k,
                        (
                          c,
                          (
                            g,
                            found,
                            (==_iff g.id id).0 (not-eq-false _ named),
                            not-eq-false _ status,
                            tables,
                            same,
                          ),
                        ),
                      ))
                      (λ e d' k. k) (λ d' k. k))
                  (λ h. rejected_keeps))))))))

-- From a machine whose pointer is authorized, whatever calls fail, and wherever the process dies:
-- the pointer names a published generation,
-- and has moved to no other snapshot than the one that `Commit` was asked for.
pub commit_publishes_only :
    (o : Outside) (mgr : Manager) (id : ℕ) (w : World Machine)
    → IsSafe w.machine
    → Commits o id w.machine ((commit o mgr id w).0).machine
commit_publishes_only o mgr id w safe = stays (commit_keeps o mgr id w.machine safe) w refl

-- If `Commit`, from a machine whose pointer is authorized, returns without an error, then the live tables had the fingerprint of the applied
-- generation, the pointer was moved to it from its recorded predecessor, and its row is committed.
pub commit_success :
    (o : Outside) (mgr : Manager) (id : ℕ) (w : World Machine)
    → IsSafe w.machine
    → (commit o mgr id w).1 ≡ ok tt
    → IsCommitted o id w.machine ((commit o mgr id w).0).machine × IsIntact o id w.machine
commit_success o mgr id w safe h = (succeeds (commit_keeps o mgr id w.machine safe) w refl tt h).1
