-- ===== src/Reconcile/Commit/Safety.antt =====
-- `commitLocked` and `Commit` on every tape: the pointer is moved once, by a publication that was
-- prepared, and success means that it was.
use nft_firewall_v.Prelude.{
  not-eq-false, ℕ, Bool, true, ◌≡◌, refl, sym, subst, ap, ◌∙◌, ◌&&◌, ◌⊎◌, inl, inr, some,
  if◌then◌else◌, ◌==◌,
}
use nft_firewall_v.Machine.Types.{
  Machine, Outside, Pointer, Snapshot, Generation, applied, committed,
}
use nft_firewall_v.Machine.Effects.{◌>>=◌}
use nft_firewall_v.Machine.Logic.{
  Keeps, follows, weaken, reads_then, asks_then, refuses_then, acts_then, if_follows, fail_follows,
  moved,
}
use nft_firewall_v.State.Files.{prepare_pointer, pointer_of, publish_pointer}
use nft_firewall_v.State.Files.Reads.{
  IsStored, reads_snapshot, reads_pointer, reads_prepared_pointer,
}
use nft_firewall_v.State.Store.{
  prepared_deadline, row_with, update_rows, is_status, finalized, prepared_from,
}
use nft_firewall_v.State.Store.Reads.{reads_generation, reads_deadline}
use nft_firewall_v.State.Store.Rows.{row_with-prepared, row_with-finalized}
use nft_firewall_v.State.Store.Writes.{
  with_rows, Prepares, prepare_commit_keeps, finalize_commit_keeps,
}
use nft_firewall_v.State.Authority.{
  Guarded, IsAuthorized, IsSafe, is_published, finalized-IsAuthorized, prepared-IsAuthorized,
}
use nft_firewall_v.Reconcile.Settings.{Manager, past, pointer_matches_previous}
use nft_firewall_v.Reconcile.Settings.Steps.{reads_audit, reads_past}
use nft_firewall_v.Reconcile.Rollback.Settled.{rollback_locked_keeps}
use nft_firewall_v.Reconcile.Commit.{publish, expire, commit_locked}

some_values : (s t : Snapshot) → some s ≡ some t → s ≡ t
some_values s t h = cc

-- The pointer was moved from the recorded predecessor to the generation's own snapshot. The kernel
-- is as it was.
unfoldable pub IsMoved : Outside → ℕ → Machine → Machine → Type 0
IsMoved o id d d' =
    (s : Snapshot) × IsStored o d id s
    × (pointer_matches_previous s.previous d.pointer ≡ true)
    × (d'.pointer ≡ some (pointer_of o s))
    × (d'.kernel ≡ d.kernel)

-- The pointer is authorized, and either has not moved or was published.
unfoldable pub Commits : Outside → ℕ → Machine → Machine → Type 0
Commits o id d d' = IsSafe d' × ((d'.pointer ≡ d.pointer) ⊎ IsMoved o id d d')

-- After a success the row is committed as well.
unfoldable pub IsCommitted : Outside → ℕ → Machine → Machine → Type 0
IsCommitted o id d d' =
    IsMoved o id d d' × ((g : Generation) × (row_with id d'.rows ≡ some g) × (g.status ≡ committed))

module _ (o : Outside) (mgr : Manager) (id : ℕ) (d : Machine) (safe : IsSafe d) where
  -- The rows after `PrepareCommit`.
  abbrev ready : Snapshot → Machine
  ready s =
      with_rows
        (update_rows (λ g. g.id == id && is_status g.status applied) (prepared_from s.previous)) d

  ready-IsSafe : (s : Snapshot) → IsSafe (ready s)
  unfolding IsSafe
  ready-IsSafe s = prepared-IsAuthorized d.pointer s.previous id d.rows safe

  unmoved : (d' : Machine) → IsSafe d' → d'.pointer ≡ d.pointer → Commits o id d d'
  unfolding Commits
  unmoved d' h same = (h, inl same)

  -- The machine after the rename.
  abbrev renamed : Snapshot → Machine
  renamed s = record (ready s) { pointer = some (pointer_of o s) }

  module _ (s : Snapshot) (g : Generation) (stored : IsStored o d id s)
      (matches : pointer_matches_previous s.previous d.pointer ≡ true)
      (found : row_with id d.rows ≡ some g) (status : is_status g.status applied ≡ true) where
    abbrev row : row_with id (ready s).rows ≡ some (prepared_from s.previous g)
    row = row_with-prepared id s.previous d.rows g found status

    authorized : IsAuthorized (some (pointer_of o s)) (ready s).rows
    unfolding IsAuthorized IsStored is_published prepared_from
    authorized = (
      prepared_from s.previous g,
      subst (λ n. row_with n (ready s).rows ≡ some (prepared_from s.previous g)) (sym (stored.2))
          row,
      refl,
    )

    move : IsMoved o id d (renamed s)
    unfolding IsMoved
    move = (s, stored, matches, refl, refl)

    finish : IsMoved o id d (with_rows (finalized id) (renamed s))
    unfolding IsMoved
    finish = (s, stored, matches, refl, refl)

    publish_keeps :
        Keeps
          (ready s)
          (Commits o id d)
          (publish id (pointer_of o s))
          (λ u d'. Commits o id d d' × IsCommitted o id d d')
    unfolding publish publish_pointer Commits IsSafe IsCommitted prepared_from
    publish_keeps =
        let finished =
          finalized-IsAuthorized (some (pointer_of o s)) id (ready s).rows authorized in
        acts_then _ (ready-IsSafe s, inl refl) (authorized, inr move)
          (λ u.
            finalize_commit_keeps id (authorized, inr move) (finished, inr finish)
              (
                (finished, inr finish),
                (finish, (_, row_with-finalized id (ready s).rows _ row refl, refl)),
              ))

    expire_keeps :
        Keeps
          (ready s)
          (Commits o id d)
          (expire o mgr id)
          (λ u d'. Commits o id d d' × IsCommitted o id d d')
    unfolding expire Guarded
    expire_keeps = asks_then (unmoved _ (ready-IsSafe s) refl) (λ u.
        follows
          (weaken {K = λ v. Commits o id d}
            (rollback_locked_keeps o mgr id (ready s) (ready-IsSafe s))
            (λ v d' ((same, h), r). unmoved d' h same) (λ e d' (same, h). unmoved d' h same)
            (λ d' (same, h). unmoved d' h same))
          (λ v d' h. fail_follows _ h))

  -- From the prepared row on, whatever the clock says.
  decide_keeps :
      (s : Snapshot) (g : Generation) (p : Pointer) (expired : Bool)
      → IsStored o d id s
      → pointer_matches_previous s.previous d.pointer ≡ true
      → row_with id d.rows ≡ some g
      → is_status g.status applied ≡ true
      → p ≡ pointer_of o s
      → Keeps
          (ready s)
          (Commits o id d)
          (if expired then expire o mgr id else publish id p)
          (λ u d'. Commits o id d d' × IsCommitted o id d d')
  decide_keeps s g p expired stored matches found status at =
      if_follows expired (λ h. expire_keeps s g stored matches found status)
        (λ h.
          subst
            (λ q.
              Keeps (ready s) (Commits o id d) (publish id q)
                (λ u d'. Commits o id d d' × IsCommitted o id d d'))
            (sym at) (publish_keeps s g stored matches found status))

  same_snapshot : (s t : Snapshot) → IsStored o d id s → IsStored o d id t → t ≡ s
  unfolding IsStored
  same_snapshot s t a b = some_values t s (sym (b.0) ∙ a.0)

  prepared_last :
      (s : Snapshot) (g : Generation)
      → IsStored o d id s
      → pointer_matches_previous s.previous d.pointer ≡ true
      → row_with id d.rows ≡ some g
      → is_status g.status applied ≡ true
      → (d' : Machine) → Prepares o id d d'
      → Keeps d'
          (Commits o id d)
          (prepare_pointer (pointer_of o s) >>= λ p. prepared_deadline id >>= λ deadline.
            past deadline >>= λ expired. if expired then expire o mgr id else publish id p)
          (λ u d''. Commits o id d d'' × IsCommitted o id d d'')
  unfolding Prepares
  prepared_last s g stored matches found status d' (t, stored', at) =
      let still = unmoved (ready s) (ready-IsSafe s) refl in
      moved (at ∙ ap ready (same_snapshot s t stored stored')) (
        reads_then still (reads_prepared_pointer (ready s) (pointer_of o s)) (λ p named.
          reads_then still (reads_deadline (ready s) id) (λ deadline k.
            reads_then still (reads_past (ready s) deadline)
              (λ expired k'. decide_keeps s g p expired stored matches found status named))))

  pub commit_locked_keeps :
      Keeps d
        (Commits o id d)
        (commit_locked o mgr id)
        (λ u d'. Commits o id d d' × IsCommitted o id d d')
  unfolding commit_locked Prepares
  commit_locked_keeps =
      let here = unmoved d safe refl in
      reads_then here (reads_generation d id) (λ g found. refuses_then _ _ here (λ h u.
        reads_then here (reads_snapshot o d id) (λ s stored.
          reads_then here (reads_pointer d) (λ current at. refuses_then _ _ here (λ h' v.
            reads_then here (reads_audit mgr d) (λ w k.
              follows
                (prepare_commit_keeps o id here (λ t k'. unmoved (ready t) (ready-IsSafe t) refl))
                (λ row d' (prepared, k').
                  prepared_last s g stored
                    (subst (λ q. pointer_matches_previous s.previous q ≡ true) at
                      (not-eq-false _ h'))
                    found (not-eq-false _ h) d' prepared)))))))
