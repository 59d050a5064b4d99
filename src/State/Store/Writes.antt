-- ===== src/State/Store/Writes.antt =====
-- The statements of internal/state/store.go as steps: an invariant that the machine has before and
-- after the update holds wherever the call ends, and a success means that the update took effect.
use nft_firewall_v.Prelude.{
  ℕ, Bool, ◌≡◌, refl, sym, subst, ◌&&◌, ◌||◌, some, List, if◌then◌else◌, ◌==◌,
}
use nft_firewall_v.Machine.Types.{
  Machine, Outside, Generation, applied, committed, rolled_back, Snapshot,
}
use nft_firewall_v.Machine.Effects.{Error, no_rows, pure, fail, ask}
use nft_firewall_v.Machine.Logic.{
  Keeps, Reads, follows, reads_then, reads_last, asks_then, gets_then, refuses_then, acts_then,
  reads_pure, reads_fail, if_follows, act_follows,
}
use nft_firewall_v.State.Files.Reads.{IsStored, reads_snapshot}
use nft_firewall_v.State.Store.{
  update_rows, update_one, row_with, is_open, is_status, mark_rolled_back, finalized,
  finalize_commit, prepared_from, prepare_commit,
}
use nft_firewall_v.State.Store.Reads.{reads_generation}

-- `update_rows` on the machine.
abbrev pub with_rows : (List Generation → List Generation) → Machine → Machine
with_rows f m = record m { rows = f m.rows }

pub if_ready :
    (d : Machine) (b : Bool) (e : Error)
    → Reads {A = Unit {0}} d (if b then pure tt else fail e) (λ u. Unit {0})
if_ready d b e = if_follows b (λ h. reads_pure tt tt) (λ h. reads_fail e)

pub last_ask :
    {d : Machine} {I : Machine → Type 0} {K : Unit {0} → Machine → Type 0}
    → I d
    → K tt d
    → Keeps d I ask K
unfolding ask
last_ask i k = act_follows (λ m. m) i i k

module _ {d : Machine} {I : Machine → Type 0} {K : Unit {0} → Machine → Type 0} where
  pub update_one_keeps :
      (test : Generation → Bool) (f : Generation → Generation)
      → I d
      → I (with_rows (update_rows test f) d)
      → K tt (with_rows (update_rows test f) d)
      → Keeps d I (update_one test f) K
  unfolding update_one
  update_one_keeps test f before after k = gets_then _ (λ n at.
      acts_then _ before after
        (λ u. reads_then after (if_ready _ (n == 1) no_rows) (λ v h. last_ask after k)))

  pub mark_rolled_back_keeps :
      (id : ℕ)
      → I d
      → I (
          with_rows
            (update_rows
              (λ g. g.id == id && (is_open g.status || is_status g.status committed))
              (λ g. record g { status = rolled_back }))
            d)
      → K tt (
          with_rows
            (update_rows
              (λ g. g.id == id && (is_open g.status || is_status g.status committed))
              (λ g. record g { status = rolled_back }))
            d)
      → Keeps d I (mark_rolled_back id) K
  unfolding mark_rolled_back
  mark_rolled_back_keeps id = update_one_keeps _ _

  pub finalize_commit_keeps :
      (id : ℕ)
      → I d
      → I (with_rows (finalized id) d)
      → K tt (with_rows (finalized id) d)
      → Keeps d I (finalize_commit id) K
  unfolding finalize_commit
  finalize_commit_keeps id before after k = asks_then before (λ u. asks_then before (λ v.
      gets_then _ (λ n at. asks_then before (λ w.
        reads_then before (if_ready _ (n == 1) no_rows) (λ x h.
          asks_then before
            (λ y. acts_then (with_rows (finalized id)) before after (λ z. last_ask after k)))))))

-- What a successful `PrepareCommit` has established.
unfoldable pub Prepares : Outside → ℕ → Machine → Machine → Type 0
Prepares o id d d' =
    (s : Snapshot) × IsStored o d id s
    × (d'
        ≡ with_rows
            (update_rows (λ g. g.id == id && is_status g.status applied) (prepared_from s.previous))
            d)

module _ {d : Machine} {I : Machine → Type 0} (o : Outside) where
  pub prepare_commit_keeps :
      (id : ℕ)
      → I d
      → ((s : Snapshot)
          → IsStored o d id s
          → I (
              with_rows
                (update_rows
                  (λ g. g.id == id && is_status g.status applied)
                  (prepared_from s.previous))
                d))
      → Keeps d I
          (prepare_commit o id)
          (λ g d'. Prepares o id d d' × (row_with id d'.rows ≡ some g))
  unfolding prepare_commit Prepares
  prepare_commit_keeps id before after = reads_then before (reads_generation d id) (λ g found.
      refuses_then _ _ before (λ h u. reads_then before (reads_snapshot o d id) (λ s stored.
        refuses_then _ _ before (λ h' v.
          follows
            {J = λ x d'.
              d'
              ≡ with_rows
                  (update_rows (λ g. g.id == id && is_status g.status applied)
                    (prepared_from s.previous))
                  d}
            (update_one_keeps _ _ before (after s stored) refl)
            (λ x d' at.
              reads_last (subst I (sym at) (after s stored)) (reads_generation d' id)
                (λ y found'. ((s, stored, at), found')))))))
