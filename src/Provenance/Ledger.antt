-- ===== src/Provenance/Ledger.antt =====
-- The operations of internal/provenance/ledger.go on an open ledger.
pub mod Maps
pub mod Reserve
pub mod Retire
pub mod Accepts
pub mod Settled
pub mod Permanence
pub mod Success
pub mod Required
pub mod Merge
pub mod Merged
pub mod Linked
pub mod History
use nft_firewall_v.Prelude.{
  ℕ, String, Bool, true, false, not, ◌&&◌, ◌||◌, Option, none, some, List, [], ◌∷◌, Outcome, ok,
  err, ◌>>=◌, ◌>>◌, refuse_if, ltb, ◌==◌, if◌then◌else◌, str_eq,
}
use nft_firewall_v.Provenance.Assignment.{
  Assignment, Error, min_id, max_id, identity_pattern, contains_name, owner_of, validate_active,
}
use nft_firewall_v.Provenance.Table.{row_of, insert_row, retire_row, assignments_from}

-- `opened` is false for a nil ledger or one without a database.
pub record Ledger : Type 0 where
  pub opened : Bool
  pub read_only : Bool
  pub rows : List Assignment

-- What the database and the file system answer during a call: which steps fail.
pub record Faults : Type 0 where
  pub begin : Bool
  pub query : Bool
  pub saved_query : Bool
  pub insert : String → Bool
  pub update : String → Bool
  pub commit : Bool
  pub sync : Bool

-- The maps `byName` and `byID`, filled by a loop over the rows: the latest write wins.
unfoldable pub by_name : List Assignment → (String → Option Assignment) → String → Option Assignment
by_name [] m = m
by_name (a ∷ rows) m = by_name rows (λ n. if str_eq a.name n then some a else m n)

unfoldable pub by_id : List Assignment → (ℕ → Option Assignment) → ℕ → Option Assignment
by_id [] m = m
by_id (a ∷ rows) m = by_id rows (λ i. if a.id == i then some a else m i)

pub writable : Ledger → Outcome Error (Unit {0})
writable l = refuse_if (not l.opened || l.read_only) Error.writable_required

read_rows : Bool → List Assignment → Outcome Error (List Assignment)
read_rows fault rows = if fault then err Error.query_failed else ok (assignments_from rows)

-- One round of the first loop of `Reserve`.
unfoldable pub reserve_one :
    Faults → ℕ → List Assignment → Assignment → List Assignment → Outcome Error (List Assignment)
reserve_one faults now existing a rows = elim (by_name existing (λ _. none) a.name) [
  | some prior ↦
      if prior.id == a.id
      then if prior.retired then err (Error.permanently_retired a.name) else ok rows
      else err (Error.permanent_id a.name prior.id a.id)
  | none ↦ elim (by_id existing (λ _. none) a.id) [
    | some prior ↦ err (Error.permanently_allocated a.id prior.name)
    | none ↦
        insert_row (faults.insert a.name)
          (record {
            name = a.name;
            id = a.id;
            retired = false;
            created_at = now;
            retired_at = none;
          })
          rows
  ]
]

unfoldable pub reserve_all :
    Faults
    → ℕ
    → List Assignment
    → List Assignment
    → List Assignment
    → Outcome Error (List Assignment)
reserve_all faults now existing [] rows = ok rows
reserve_all faults now existing (a ∷ active) rows =
    reserve_one faults now existing a rows >>= reserve_all faults now existing active

-- The second loop: what the new active set leaves out is retired.
unfoldable pub retire_omitted :
    Faults → ℕ → List String → List Assignment → List Assignment → Outcome Error (List Assignment)
retire_omitted faults now active_names [] rows = ok rows
retire_omitted faults now active_names (a ∷ existing) rows =
    if a.retired || contains_name a.name active_names
    then retire_omitted faults now active_names existing rows
    else if faults.update a.name
    then err (Error.update_failed a.name)
    else retire_omitted faults now active_names existing (retire_row now a.name rows)

abbrev pub names_of : List Assignment → List String
names_of [] = []
names_of (a ∷ rest) = a.name ∷ names_of rest

-- The body of the transaction of `Reserve`: the rows that it would commit.
unfoldable pub reserve_rows :
    Faults → ℕ → List Assignment → List Assignment → Outcome Error (List Assignment)
unfolding read_rows
reserve_rows faults now active rows = do
  refuse_if faults.begin Error.begin_failed
  existing ← read_rows faults.query rows
  reserved ← reserve_all faults now existing active rows
  retire_omitted faults now (names_of active) existing reserved

-- `tx.Commit`, then `syncLedger`: rows whose sync fails are committed all the same. Any error
-- before the commit rolls the transaction back.
unfoldable pub finish :
    Faults → Ledger → Outcome Error (List Assignment) → Ledger × Outcome Error (Unit {0})
finish faults l (err e) = (l, err e)
finish faults l (ok rows) =
    if faults.commit
    then (l, err Error.commit_failed)
    else (record l { rows = rows }, refuse_if faults.sync Error.sync_failed)

unfoldable pub reserve : Faults → ℕ → Ledger → List Assignment → Ledger × Outcome Error (Unit {0})
unfolding writable
reserve faults now l active =
    finish faults l (writable l >> validate_active active >> reserve_rows faults now active l.rows)

unfoldable pub validate_required_each :
    Bool
    → List Assignment
    → List Assignment
    → List String
    → List (ℕ × String)
    → Outcome Error (Unit {0})
validate_required_each fault rows [] names ids = ok tt
validate_required_each fault rows (a ∷ rest) names ids =
    let next = validate_required_each fault rows rest (a.name ∷ names) ((a.id, a.name) ∷ ids) in
    if not (identity_pattern a.name) || ltb a.id min_id || ltb max_id a.id
    then err (Error.id_out_of_range a.name)
    else if contains_name a.name names
    then err (Error.duplicate_identity a.name)
    else elim (owner_of a.id ids) [
      | some prior ↦ err (Error.id_assigned_twice a.id prior a.name)
      | none ↦ if fault then err Error.query_failed else elim (row_of a.name rows) [
        | none ↦ err (Error.absent_identity a.name)
        | some row ↦ if row.id == a.id then next else err (Error.permanent_id a.name row.id a.id)
      ]
    ]

unfoldable pub validate_required : Faults → Ledger → List Assignment → Outcome Error (Unit {0})
validate_required faults l required =
    if l.opened
    then validate_required_each faults.query l.rows required [] []
    else err Error.ledger_required

-- The first two loops of `MergeFrom`, which only check.
unfoldable pub check_saved :
    (String → Option Assignment)
    → (ℕ → Option Assignment)
    → List Assignment
    → Outcome Error (Unit {0})
check_saved live_by_name live_by_id [] = ok tt
check_saved live_by_name live_by_id (a ∷ saved) =
    let rest = check_saved live_by_name live_by_id saved in
    elim (live_by_name a.name) [
      | some live ↦
          if live.id == a.id
          then if not live.retired && a.retired then err (Error.saved_retires a.name) else rest
          else err (Error.saved_changes a.name)
      | none ↦ elim (live_by_id a.id) [ some live ↦ err (Error.saved_reuses a.name) | none ↦ rest ]
    ]

unfoldable pub check_live : List String → List Assignment → Outcome Error (Unit {0})
check_live saved_names [] = ok tt
check_live saved_names (a ∷ live) =
    let rest = check_live saved_names live in
    if not (contains_name a.name saved_names) && not a.retired
    then err (Error.live_regresses a.name)
    else rest

-- The row that is inserted for a saved one; a zero creation time becomes the present.
abbrev pub restored : ℕ → Assignment → Assignment
restored now a = record a { created_at = if a.created_at == 0 then now else a.created_at }

unfoldable pub merge_all :
    Faults
    → ℕ
    → (String → Option Assignment)
    → List Assignment
    → List Assignment
    → Outcome Error (List Assignment)
merge_all faults now live_by_name [] rows = ok rows
merge_all faults now live_by_name (a ∷ saved) rows = elim (live_by_name a.name) [
  | some live ↦ merge_all faults now live_by_name saved rows
  | none ↦
      insert_row (faults.insert a.name) (restored now a) rows
      >>= merge_all faults now live_by_name saved
]

unfoldable pub merge_rows :
    Faults → ℕ → List Assignment → List Assignment → Outcome Error (List Assignment)
unfolding read_rows
merge_rows faults now saved rows = do
  refuse_if faults.begin Error.begin_failed
  live ← read_rows faults.query rows
  let live_by_name = by_name live (λ _. none)
  check_saved live_by_name (by_id live (λ _. none)) saved
  check_live (names_of saved) live
  merge_all faults now live_by_name saved rows

-- `none` where the saved ledger does not open.
unfoldable pub merge_from : Faults → ℕ → Ledger → Option Ledger → Ledger × Outcome Error (Unit {0})
unfolding writable read_rows
merge_from faults now l none = finish faults l (writable l >> err Error.open_failed)
merge_from faults now l (some saved) = finish faults l (do
  writable l
  saved_rows ← read_rows faults.saved_query saved.rows
  merge_rows faults now saved_rows l.rows)

-- A database that answers every query.
abbrev pub no_faults : Faults
no_faults = record {
  begin = false;
  query = false;
  saved_query = false;
  insert = λ n. false;
  update = λ n. false;
  commit = false;
  sync = false;
}
