-- ===== src/State/Store/Reads.antt =====
-- What internal/state/store.go reads: each query leaves the machine as it is, whatever fails.
use nft_firewall_v.Prelude.{
  ℕ, String, true, ◌≡◌, refl, sym, subst, ◌&&◌, Option, none, some, List, if◌then◌else◌, ◌==◌,
}
use nft_firewall_v.Machine.Types.{Machine, Outside, Generation, committed, commit_prepared}
use nft_firewall_v.Machine.Effects.{M, Error, no_rows, io, pure, fail}
use nft_firewall_v.Machine.Logic.{
  Reads, asks_then, gets_then, refuses_then, reads_pure, reads_fail, if_follows,
}
use nft_firewall_v.State.Files.{valid_script_checksum}
use nft_firewall_v.State.Store
use nft_firewall_v.State.Store.{
  row_with, newest, is_open, is_status, pending_generation, last_known_good, generation,
  prepared_deadline, read_script,
}

reads_scan : (d : Machine) (g : Option Generation) → Reads d (Store.scan g) (λ h. g ≡ some h)
unfolding Store.scan
reads_scan d none = reads_fail no_rows
reads_scan d (some g) = reads_pure g refl

-- A query of one row.
module _ (d : Machine) (query : List Generation → Option Generation) where
  reads_query :
      (g : Option Generation)
      → g ≡ query d.rows
      → Reads d (Store.scan g) (λ h. query d.rows ≡ some h)
  reads_query g at = subst (λ q. Reads d (Store.scan g) (λ h. q ≡ some h)) at (reads_scan d g)

pub reads_generation :
    (d : Machine) (id : ℕ) → Reads d (generation id) (λ g. row_with id d.rows ≡ some g)
unfolding generation
reads_generation d id =
    asks_then refl (λ u. gets_then (λ m. row_with id m.rows) (reads_query d (row_with id)))

pub reads_pending :
    (d : Machine) → Reads d pending_generation (λ g. newest (λ h. is_open h.status) d.rows ≡ some g)
unfolding pending_generation
reads_pending d = asks_then refl (λ u.
    gets_then (λ m. newest (λ g. is_open g.status) m.rows)
      (reads_query d (newest (λ g. is_open g.status))))

pub reads_last_known_good :
    (d : Machine)
    → Reads d last_known_good (λ g. newest (λ h. is_status h.status committed) d.rows ≡ some g)
unfolding last_known_good
reads_last_known_good d = asks_then refl (λ u.
    gets_then (λ m. newest (λ g. is_status g.status committed) m.rows)
      (reads_query d (newest (λ g. is_status g.status committed))))

-- The deadline is that of a prepared row with the id.
unfoldable pub IsPrepared : Machine → ℕ → Option ℕ → Type 0
IsPrepared d id t =
    (g : Generation) × (newest (λ h. h.id == id && is_status h.status commit_prepared) d.rows
      ≡ some g)
    × (t ≡ g.rollback_deadline)

deadline_at :
    (d : Machine) (id : ℕ) (g : Option Generation)
    → g ≡ newest (λ h. h.id == id && is_status h.status commit_prepared) d.rows
    → Reads d (elim g [ none ↦ fail no_rows | some g ↦ pure g.rollback_deadline ]) (IsPrepared d id)
unfolding IsPrepared
deadline_at d id none at = reads_fail no_rows
deadline_at d id (some g) at = reads_pure g.rollback_deadline (g, sym at, refl)

pub reads_deadline : (d : Machine) (id : ℕ) → Reads d (prepared_deadline id) (IsPrepared d id)
unfolding prepared_deadline
reads_deadline d id = asks_then refl (λ u. gets_then _ (deadline_at d id))

IsScript : Outside → Generation → Option String → String → Type 0
IsScript o g file text = (file ≡ some text) × (valid_script_checksum o text g.checksum ≡ true)

-- What `ReadScript` does with the file.
module _ (o : Outside) (d : Machine) (g : Generation) where
  abbrev checked : Option String → M String
  checked file = elim file [
    | none ↦ fail io
    | some text ↦
        if valid_script_checksum o text g.checksum
        then pure text
        else fail (Error.refused "generation script checksum mismatch")
  ]

  IsScript-at : (file : Option String) → Reads d (checked file) (IsScript o g file)
  unfolding IsScript
  IsScript-at none = reads_fail io
  IsScript-at (some text) =
      if_follows (valid_script_checksum o text g.checksum) (λ h. reads_pure text (refl, h))
        (λ h. reads_fail _)

  -- The text of a row's script is that of its file, and has the row's checksum.
  pub reads_script :
      Reads d
        (read_script o g)
        (λ text. (d.scripts g.id ≡ some text) × (valid_script_checksum o text g.checksum ≡ true))
  unfolding read_script IsScript
  reads_script = refuses_then _ _ refl (λ h u. asks_then refl (λ v.
      gets_then (λ m. m.scripts g.id)
        (λ file at. subst (λ q. Reads d (checked file) (IsScript o g q)) at (IsScript-at file))))
