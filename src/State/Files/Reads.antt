-- ===== src/State/Files/Reads.antt =====
-- What internal/state/active.go reads: each function leaves the machine as it is, whatever fails.
use nft_firewall_v.Prelude.{
  not-eq-false, ℕ, true, not, ◌≡◌, ◌≢◌, refl, sym, subst, ◌&&◌, Option, none, some, ◌==◌, arith,
  ==_iff, &&-eq-true,
}
use nft_firewall_v.Machine.Types.{Machine, Outside, Pointer, Snapshot}
use nft_firewall_v.Machine.Effects.{io}
use nft_firewall_v.Machine.Logic.{
  Reads, reads_then, asks_then, gets_then, refuses_then, reads_pure, reads_fail, if_follows,
}
use nft_firewall_v.State.Files
use nft_firewall_v.State.Files.{
  pointer_of, pointer_valid, snapshot_valid, load_snapshot, load_verified_snapshot, read_pointer,
  is_at, ensure_published, prepare_pointer,
}

reads_checked_pointer :
    (d : Machine) (p : Option Pointer) → Reads d (Files.check_pointer p) (λ q. q ≡ p)
unfolding Files.check_pointer
reads_checked_pointer d none = reads_pure none refl
reads_checked_pointer d (some p) =
    if_follows (pointer_valid p) (λ h. reads_pure (some p) refl) (λ h. reads_fail _)

pub reads_pointer : (d : Machine) → Reads d read_pointer (λ p. p ≡ d.pointer)
unfolding read_pointer
reads_pointer d = asks_then refl (λ u.
    gets_then (λ m. m.pointer)
      (λ p at.
        subst (λ q. Reads d (Files.check_pointer p) (λ r. r ≡ q)) at (reads_checked_pointer d p)))

pub reads_prepared_pointer : (d : Machine) (p : Pointer) → Reads d (prepare_pointer p) (λ q. q ≡ p)
unfolding prepare_pointer
reads_prepared_pointer d p =
    refuses_then (not (pointer_valid p)) _ refl (λ valid u. asks_then refl (λ v. reads_pure p refl))

distinct_previous :
    (id : ℕ) (p : Pointer) → Files.previous_valid id (some p) ≡ true → p.generation ≢ id
unfolding Files.previous_valid
distinct_previous id p h = ground arith

module _ (o : Outside) where
  -- The snapshot that stands under an id, after it was checked.
  unfoldable pub IsStored : Machine → ℕ → Snapshot → Type 0
  IsStored d id s = (d.snapshots id ≡ some s) × (snapshot_valid o s ≡ true) × (s.generation ≡ id)

  reads_checked_snapshot :
      (d : Machine) (id : ℕ) (file : Option Snapshot)
      → file ≡ d.snapshots id
      → Reads d (Files.check_snapshot o id file) (IsStored d id)
  unfolding Files.check_snapshot IsStored
  reads_checked_snapshot d id none at = reads_fail io
  reads_checked_snapshot d id (some s) at =
      if_follows (snapshot_valid o s && s.generation == id)
        (λ h.
          let (valid, named) = &&-eq-true (snapshot_valid o s) (s.generation == id) h in
          reads_pure s (sym at, valid, (==_iff s.generation id).0 named))
        (λ h. reads_fail _)

  pub reads_snapshot : (d : Machine) (id : ℕ) → Reads d (load_snapshot o id) (IsStored d id)
  unfolding load_snapshot
  reads_snapshot d id =
      refuses_then (id == 0) _ refl
        (λ h u. asks_then refl (λ v. gets_then (λ m. m.snapshots id) (reads_checked_snapshot d id)))

  pub reads_verified_snapshot :
      (d : Machine) (id : ℕ) → Reads d (load_verified_snapshot o id) (IsStored d id)
  unfolding load_verified_snapshot
  reads_verified_snapshot d id = reads_then refl (reads_snapshot d id) (λ s stored.
      asks_then refl (λ u.
        gets_then (Files.accepts_manifest o s)
          (λ accepted at. refuses_then (not accepted) _ refl (λ h v. reads_pure s stored))))

  -- The durable snapshot of a published pointer is the one that the pointer names.
  unfoldable pub IsPublished : Machine → Pointer → Snapshot → Type 0
  IsPublished d p s =
      (is_at p d.pointer ≡ true)
      × (is_at (pointer_of o s) d.pointer ≡ true)
      × IsStored d p.generation s

  pub reads-IsPublished :
      (d : Machine) (p : Pointer) → Reads d (ensure_published o p) (IsPublished d p)
  unfolding ensure_published IsPublished
  reads-IsPublished d p = reads_then refl (reads_pointer d) (λ current at.
      refuses_then (not (is_at p current)) _ refl (λ h u.
        reads_then refl (reads_verified_snapshot d p.generation) (λ s stored.
          refuses_then (not (is_at (pointer_of o s) current)) _ refl (λ h' v. asks_then refl (λ w.
            reads_pure s (
              subst (λ q. is_at p q ≡ true) at (not-eq-false _ h),
              subst (λ q. is_at (pointer_of o s) q ≡ true) at (not-eq-false _ h'),
              stored,
            ))))))

  -- A valid snapshot does not name its own generation as the predecessor.
  pub snapshot_valid-distinct :
      (s : Snapshot) (p : Pointer)
      → snapshot_valid o s ≡ true
      → s.previous ≡ some p
      → p.generation ≢ s.generation
  unfolding snapshot_valid
  snapshot_valid-distinct s p valid at =
      let previous = (&&-eq-true _ _ ((&&-eq-true _ _ ((&&-eq-true _ _ valid).1)).1)).0 in
      distinct_previous s.generation p
        (subst (λ q. Files.previous_valid s.generation q ≡ true) at previous)
