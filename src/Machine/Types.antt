-- ===== src/Machine/Types.antt =====
-- The records of internal/state, and the parameters that stand for hashes and for nft.
use nft_firewall_v.Prelude.{ℕ, String, Bool, ◌&&◌, Option, List, str_eq, ◌==◌}
use nft_firewall_v.Provenance.Assignment.{Assignment}
use nft_firewall_v.Provenance.Ledger.{Ledger}

pub data Status : Type 0 where
  pending applied commit_prepared committed rolled_back : Status

-- `EnforcementPointer`; its schema is the constant that `valid` requires.
pub record Pointer : Type 0 where
  pub generation : ℕ
  pub snapshot_checksum : String
  pub policy_checksum : String

-- `Pointer.Equal`, with a schema on both sides that is `pointerSchema`.
unfoldable pub pointer_eq : Pointer → Pointer → Bool
pointer_eq p q =
    p.generation == q.generation
    && (str_eq p.snapshot_checksum q.snapshot_checksum
        && str_eq p.policy_checksum q.policy_checksum)

-- `GenerationSnapshot`, with the schema that is written.
pub record Snapshot : Type 0 where
  pub generation : ℕ
  pub checksum : String
  pub script : String
  pub provenance : List Assignment
  pub previous : Option Pointer
  pub boot_id : String

-- A row of the `generations` table. A path under generations/ is the number in its name, an empty
-- hash is the empty text.
pub record Generation : Type 0 where
  pub id : ℕ
  pub checksum : String
  pub snapshot_checksum : String
  pub observed_hash : String
  pub script_path : ℕ
  pub snapshot_path : ℕ
  pub status : Status
  pub rollback_deadline : Option ℕ
  pub previous_id : Option ℕ
  pub boot_id : String
  pub prepared_prior_id : Option ℕ
  pub prepared_prior_sum : String
  pub prepared_prior_snapshot_sum : String

-- The owned tables as nft lists them: how many of the three exist, and their rules without
-- handles, counters and the elements of runtime sets.
pub record Kernel : Type 0 where
  pub tables : ℕ
  pub rules : String

pub record Machine : Type 0 where
  pub rows : List Generation
  pub scripts : ℕ → Option String
  pub snapshots : ℕ → Option Snapshot
  pub pointer : Option Pointer
  pub ledger : Ledger
  pub kernel : Kernel
  -- `protectFirstUse` of the backend.
  pub protect_first_use : Bool

-- What is not part of the repository: SHA-256 in hexadecimal, the JSON text of a snapshot, the
-- script parser's verdict, what nft lists after a script was loaded into the owned tables, whether
-- listed rules have their markers, and their digest.
pub record Outside : Type 0 where
  pub sha256_hex : String → String
  pub snapshot_text : Snapshot → String
  pub script_valid : String → Bool
  pub tables_of : String → ℕ
  pub listing : String → String
  pub intact : String → Bool
  pub digest : String → String
