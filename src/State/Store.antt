-- ===== src/State/Store.antt =====
-- internal/state/store.go: the generations table. A statement is one call; its WHERE clause is a
-- test on each row. A malformed time or reference cannot stand in a row of the model.
pub mod Reads
pub mod Rows
pub mod Writes
pub mod Saves
use nft_firewall_v.Prelude.{
  ℕ, suc, ◌*◌, ◌^◌, String, Bool, true, false, not, ◌&&◌, ◌||◌, Option, none, some, List, [], ◌∷◌,
  ◌++◌, if◌then◌else◌, ◌==◌, ltb, str_eq, Outcome, length,
}
use Prim.Native.String.{len}
use nft_firewall_v.Provenance.Assignment.{Assignment, validate_active}
use nft_firewall_v.Machine.Types.{
  Machine, Outside, Pointer, Snapshot, Generation, Status, pending, applied, commit_prepared,
  committed, rolled_back, pointer_eq,
}
use nft_firewall_v.Machine.Effects.{
  M, Error, no_rows, refused, io, pure, fail, ◌>>=◌, ◌>>◌, gets, act, ask, refuse_when, optional,
}
use nft_firewall_v.State.Files.{
  valid_checksum, valid_script_checksum, load_snapshot, pointer_of, read_pointer, write_snapshot,
  is_at,
}

-- `status IN ('pending','applied','commit_prepared')`
unfoldable pub is_open : Status → Bool
is_open pending = true
is_open applied = true
is_open commit_prepared = true
is_open committed = false
is_open rolled_back = false

unfoldable pub is_status : Status → Status → Bool
is_status pending pending = true
is_status applied applied = true
is_status commit_prepared commit_prepared = true
is_status committed committed = true
is_status rolled_back rolled_back = true
is_status _ _ = false

-- `UPDATE generations SET … WHERE …`
unfoldable pub update_rows :
    (Generation → Bool) → (Generation → Generation) → List Generation → List Generation
update_rows test f [] = []
update_rows test f (g ∷ rows) = (if test g then f g else g) ∷ update_rows test f rows

-- How many rows the statement changes.
unfoldable pub count_rows : (Generation → Bool) → List Generation → ℕ
count_rows test [] = 0
count_rows test (g ∷ rows) = let n = count_rows test rows in if test g then suc n else n

-- `WHERE … ORDER BY id DESC LIMIT 1`
unfoldable pub newest : (Generation → Bool) → List Generation → Option Generation
newest test [] = none
newest test (g ∷ rows) =
    let rest = newest test rows in
    if test g
    then elim rest [ none ↦ some g | some h ↦ if ltb h.id g.id then some g else some h ]
    else rest

unfoldable pub row_with : ℕ → List Generation → Option Generation
row_with id [] = none
row_with id (g ∷ rows) = if g.id == id then some g else row_with id rows

-- `scanGeneration`, after the query.
unfoldable pub scan : Option Generation → M Generation
scan none = fail no_rows
scan (some g) = pure g

unfoldable pub pending_generation : M Generation
unfolding scan
pending_generation = do ask; g ← gets (λ m. newest (λ g. is_open g.status) m.rows); scan g

unfoldable pub last_known_good : M Generation
unfolding scan
last_known_good = do ask; g ← gets (λ m. newest (λ g. is_status g.status committed) m.rows); scan g

unfoldable pub generation : ℕ → M Generation
unfolding scan
generation id = do ask; g ← gets (λ m. row_with id m.rows); scan g

-- A statement that must change exactly one row, and the sync of the database.
unfoldable pub update_one : (Generation → Bool) → (Generation → Generation) → M (Unit {0})
update_one test f = do
  n ← gets (λ m. count_rows test m.rows)
  act (λ m. record m { rows = update_rows test f m.rows })
  if n == 1 then pure tt else fail no_rows
  ask

unfoldable pub mark_applied : ℕ → M (Unit {0})
unfolding update_one
mark_applied id =
    update_one (λ g. g.id == id && is_status g.status pending) (λ g. record g { status = applied })

unfoldable pub set_observed_hash : ℕ → String → M (Unit {0})
unfolding update_one
set_observed_hash id hash = do
  refuse_when (not (valid_checksum hash)) "observed nftables hash is malformed"
  update_one (λ g. g.id == id) (λ g. record g { observed_hash = hash })

unfoldable pub mark_rolled_back : ℕ → M (Unit {0})
unfolding update_one
mark_rolled_back id =
    update_one (λ g. g.id == id && (is_open g.status || is_status g.status committed))
      (λ g. record g { status = rolled_back })

unfoldable pub prior_id : Option Pointer → Option ℕ
prior_id none = none
prior_id (some p) = some p.generation

unfoldable pub prior_sum : Option Pointer → String
prior_sum none = ""
prior_sum (some p) = p.policy_checksum

unfoldable pub prior_snapshot_sum : Option Pointer → String
prior_snapshot_sum none = ""
prior_snapshot_sum (some p) = p.snapshot_checksum

unfoldable pub prepared_from : Option Pointer → Generation → Generation
unfolding prior_id prior_sum prior_snapshot_sum
prepared_from previous g = record g {
  status = commit_prepared;
  prepared_prior_id = prior_id previous;
  prepared_prior_sum = prior_sum previous;
  prepared_prior_snapshot_sum = prior_snapshot_sum previous;
}

-- The two updates of `FinalizeCommit`, which one transaction commits.
unfoldable pub finalized : ℕ → List Generation → List Generation
finalized id rows =
    update_rows (λ g. g.id == id && is_status g.status commit_prepared)
      (λ g. record g { status = committed; rollback_deadline = none })
      (update_rows
        (λ g. (is_status g.status pending || is_status g.status applied) && not (g.id == id))
        (λ g. record g { status = rolled_back }) rows)

unfoldable pub finalize_commit : ℕ → M (Unit {0})
finalize_commit id = do
  ask
  ask
  n ← gets (λ m. count_rows (λ g. g.id == id && is_status g.status commit_prepared) m.rows)
  ask
  if n == 1 then pure tt else fail no_rows
  ask
  act (λ m. record m { rows = finalized id m.rows })
  ask

-- The deadline of a prepared row.
unfoldable pub prepared_deadline : ℕ → M (Option ℕ)
prepared_deadline id = do
  ask
  g ← gets (λ m. newest (λ g. g.id == id && is_status g.status commit_prepared) m.rows)
  elim g [ none ↦ fail no_rows | some g ↦ pure g.rollback_deadline ]

-- One transaction; the update must change one row.
unfoldable pub finalize_recovery_rollback : ℕ → M (Unit {0})
finalize_recovery_rollback id = do
  ask
  ask
  n ← gets (λ m. count_rows (λ g. g.id == id && is_open g.status) m.rows)
  if n == 1 then pure tt else fail no_rows
  ask
  act (λ m. record m {
    rows =
        update_rows (λ g. g.id == id && is_open g.status) (λ g. record g { status = rolled_back })
          m.rows;
  })
  ask

module _ (o : Outside) where
  unfoldable pub prepare_commit : ℕ → M Generation
  unfolding update_one
  prepare_commit id = do
    g ← generation id
    refuse_when (not (is_status g.status applied)) "generation cannot enter commit_prepared"
    s ← load_snapshot o id
    refuse_when
        (not (
          str_eq g.checksum s.checksum
          && str_eq g.snapshot_checksum (pointer_of o s).snapshot_checksum))
        "generation database checksums disagree with immutable snapshot"
    update_one (λ h. h.id == id && is_status h.status applied) (prepared_from s.previous)
    generation id

  unfoldable pub store_script : ℕ → String → Option String → M (Unit {0})
  store_script id script none =
      act (λ m. record m { scripts = λ i. if i == id then some script else m.scripts i })
  store_script id script (some old) =
      if str_eq old script
      then pure tt
      else fail (refused "immutable generation script already exists with different content")

  -- The pointer to the committed predecessor, if there is one.
  unfoldable pub prior_pointer : Option ℕ → M (Option Pointer)
  prior_pointer none = pure none
  prior_pointer (some id) = do
    ask
    g ← gets (λ m. newest (λ g. g.id == id && is_status g.status committed) m.rows)
    elim g [
      | none ↦ fail no_rows
      | some g ↦ pure (
          some (record {
            generation = id;
            snapshot_checksum = g.snapshot_checksum;
            policy_checksum = g.checksum;
          }))
    ]

  unfoldable pub manifest_ok : List Assignment → Bool
  manifest_ok p = elim (validate_active p) [ Outcome.ok u ↦ true | Outcome.err e ↦ false ]

  unfoldable pub new_row : ℕ → String → Snapshot → Option ℕ → Option ℕ → String → Generation
  new_row id checksum s previous deadline boot_id = record {
    id = id;
    checksum = checksum;
    snapshot_checksum = (pointer_of o s).snapshot_checksum;
    observed_hash = "";
    script_path = id;
    snapshot_path = id;
    status = pending;
    rollback_deadline = deadline;
    previous_id = previous;
    boot_id = boot_id;
    prepared_prior_id = none;
    prepared_prior_sum = "";
    prepared_prior_snapshot_sum = "";
  }

  unfoldable pub save_generation :
      ℕ → String → String → Option ℕ → Option ℕ → String → List Assignment → M (Unit {0})
  unfolding store_script prior_pointer manifest_ok new_row
  save_generation id checksum script previous deadline boot_id provenance = do
    refuse_when (id == 0) "generation id must be positive"
    refuse_when (ltb (32 * 2 ^ 20) (len script)) "generation script exceeds 32 MiB"
    refuse_when (not (valid_script_checksum o script checksum))
        "generation script checksum is invalid"
    refuse_when (str_eq boot_id "") "generation boot id is required"
    refuse_when (length provenance == 0) "generation provenance manifest is required"
    refuse_when (not (manifest_ok provenance)) "generation provenance manifest"
    ask
    file ← gets (λ m. m.scripts id)
    store_script id script file
    prior ← prior_pointer previous
    let s : Snapshot = record {
      generation = id;
      checksum = checksum;
      script = script;
      provenance = provenance;
      previous = prior;
      boot_id = boot_id;
    }
    write_snapshot o s
    taken ← gets (λ m. count_rows (λ g. g.id == id) m.rows)
    refuse_when (not (taken == 0)) "UNIQUE constraint failed: generations.id"
    act (λ m. record m { rows = m.rows ++ new_row id checksum s previous deadline boot_id ∷ [] })
    ask

  -- `ReadScript`: the file that the row names, with the row's checksum.
  unfoldable pub read_script : Generation → M String
  read_script g = do
    refuse_when (not (g.script_path == g.id)) "generation script path escapes the state directory"
    ask
    file ← gets (λ m. m.scripts g.id)
    elim file [
      | none ↦ fail io
      | some text ↦
          if valid_script_checksum o text g.checksum
          then pure text
          else fail (refused "generation script checksum mismatch")
    ]
