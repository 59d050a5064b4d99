-- ===== src/State/Files.antt =====
-- internal/state/active.go: snapshots and the enforcement pointer. Directory and ownership checks
-- are part of the call that they guard; the JSON text of a file is its record.
pub mod Reads
use nft_firewall_v.Prelude.{
  ℕ, String, Bool, true, false, not, ◌&&◌, ◌||◌, Option, none, some, List, [], ◌∷◌, Outcome,
  if◌then◌else◌, ◌==◌, ltb, leb, str_eq, codes, all_in, length, ◌+◌,
}
use nft_firewall_v.Prelude
use nft_firewall_v.Provenance.Assignment.{Assignment, contains_name, min_id, max_id}
use nft_firewall_v.Provenance.Table.{has_id, has_name}
use nft_firewall_v.Provenance.Ledger.{validate_required, no_faults}
use nft_firewall_v.Machine.Types.{Machine, Outside, Pointer, Snapshot, pointer_eq}
use nft_firewall_v.Machine.Effects.{
  M, Error, refused, io, pure, fail, ◌>>=◌, ◌>>◌, gets, act, ask, refuse_when,
}

unfoldable pub is_hex : ℕ → Bool
is_hex c = (leb b'0' c && leb c b'9') || (leb b'a' c && leb c b'f') || (leb b'A' c && leb c b'F')

-- `validChecksum`: 64 hexadecimal digits.
unfoldable pub valid_checksum : String → Bool
unfolding is_hex all_in
valid_checksum s = length (codes s) == 64 && all_in is_hex (codes s)

unfoldable pub lower_hex : ℕ → ℕ
lower_hex c = if leb b'A' c && leb c b'F' then c + 32 else c

-- Two hexadecimal texts of the same bytes.
unfoldable pub same_hex : List ℕ → List ℕ → Bool
unfolding lower_hex
same_hex [] [] = true
same_hex (c ∷ cs) (d ∷ ds) = lower_hex c == lower_hex d && same_hex cs ds
same_hex _ _ = false

unfoldable pub pointer_valid : Pointer → Bool
pointer_valid p =
    ltb 0 p.generation && (valid_checksum p.snapshot_checksum && valid_checksum p.policy_checksum)

-- The manifest loop of `validateSnapshot`, over the names and ids that it has seen.
unfoldable pub manifest_valid : List Assignment → List Assignment → Bool
manifest_valid seen [] = true
manifest_valid seen (a ∷ rest) =
    not (
      str_eq a.name ""
      || ltb a.id min_id
      || ltb max_id a.id
      || has_name a.name seen
      || has_id a.id seen)
    && manifest_valid (a ∷ seen) rest

unfoldable pub previous_valid : ℕ → Option Pointer → Bool
previous_valid id none = true
previous_valid id (some p) = pointer_valid p && not (p.generation == id)

-- `Equal` on the pointer that was read, which is nil where none exists.
unfoldable pub is_at : Pointer → Option Pointer → Bool
is_at p none = false
is_at p (some q) = pointer_eq p q

unfoldable pub check_pointer : Option Pointer → M (Option Pointer)
check_pointer none = pure none
check_pointer (some p) =
    if pointer_valid p then pure (some p) else fail (refused "enforcement pointer is invalid")

-- `ReadEnforcementPointer`: `none` where no pointer exists.
unfoldable pub read_pointer : M (Option Pointer)
unfolding check_pointer
read_pointer = do ask; p ← gets (λ m. m.pointer); check_pointer p

-- The temporary file is written and synced; only its rename publishes it.
unfoldable pub prepare_pointer : Pointer → M Pointer
prepare_pointer p = do
  refuse_when (not (pointer_valid p)) "enforcement pointer is invalid"
  ask
  pure p

unfoldable pub publish_pointer : Pointer → M (Unit {0})
publish_pointer p = act (λ m. record m { pointer = some p })

unfoldable pub clear_active : M (Unit {0})
clear_active = act (λ m. record m { pointer = none })

module _ (o : Outside) where
  unfoldable pub valid_script_checksum : String → String → Bool
  valid_script_checksum script checksum =
      valid_checksum checksum && same_hex (codes (o.sha256_hex script)) (codes checksum)

  unfoldable pub snapshot_valid : Snapshot → Bool
  unfolding manifest_valid previous_valid valid_script_checksum
  snapshot_valid s =
      not (s.generation == 0)
      && (valid_script_checksum s.script s.checksum
          && (previous_valid s.generation s.previous
              && (not (str_eq s.boot_id "")
                  && (not (length s.provenance == 0) && manifest_valid [] s.provenance))))

  -- `Pointer()`
  abbrev pub pointer_of : Snapshot → Pointer
  pointer_of s = record {
    generation = s.generation;
    snapshot_checksum = o.sha256_hex (o.snapshot_text s);
    policy_checksum = s.checksum;
  }

  -- What a snapshot file yields, once it is read.
  unfoldable pub check_snapshot : ℕ → Option Snapshot → M Snapshot
  check_snapshot id none = fail io
  check_snapshot id (some s) =
      if snapshot_valid s && s.generation == id
      then pure s
      else fail (refused "generation snapshot")

  unfoldable pub load_snapshot : ℕ → M Snapshot
  unfolding check_snapshot
  load_snapshot id = do
    refuse_when (id == 0) "generation snapshot id must be positive"
    ask
    file ← gets (λ m. m.snapshots id)
    check_snapshot id file

  unfoldable pub accepts_manifest : Snapshot → Machine → Bool
  accepts_manifest s m = elim (validate_required no_faults m.ledger s.provenance) [
    | Outcome.ok u ↦ true
    | Outcome.err e ↦ false
  ]

  unfoldable pub load_verified_snapshot : ℕ → M Snapshot
  unfolding accepts_manifest
  load_verified_snapshot id = do
    s ← load_snapshot id
    ask
    accepted ← gets (accepts_manifest s)
    refuse_when (not accepted) "validate generation provenance"
    pure s

  -- The repeated syncs of `EnsurePublishedGenerationDurable` are one call.
  unfoldable pub ensure_published : Pointer → M Snapshot
  ensure_published expected = do
    current ← read_pointer
    refuse_when (not (is_at expected current))
        "published enforcement pointer changed during recovery"
    s ← load_verified_snapshot expected.generation
    refuse_when (not (is_at (pointer_of s) current))
        "published enforcement pointer does not match immutable snapshot"
    ask
    pure s

  unfoldable pub store_snapshot : Snapshot → Option Snapshot → M (Unit {0})
  store_snapshot s none =
      act (λ m. record m { snapshots = λ i. if i == s.generation then some s else m.snapshots i })
  store_snapshot s (some old) =
      if str_eq (o.snapshot_text old) (o.snapshot_text s)
      then pure tt
      else fail (refused "immutable generation snapshot already exists with different content")

  -- `WriteGenerationSnapshot`, which compares the encoded texts.
  unfoldable pub write_snapshot : Snapshot → M (Unit {0})
  unfolding store_snapshot
  write_snapshot s = do
    ask
    refuse_when (not (snapshot_valid s)) "generation snapshot is invalid"
    file ← gets (λ m. m.snapshots s.generation)
    store_snapshot s file
