-- ===== src/Provenance/Table.antt =====
-- The `allocations` table of internal/provenance/ledger.go: its rows, the statements that the
-- package runs on it with the constraints of the schema, and the sorted read of all rows.
pub mod Rows
pub mod Sorted
use nft_firewall_v.Prelude.{
  ℕ, String, Bool, true, false, not, ◌&&◌, ◌||◌, Option, none, some, List, [], ◌∷◌, ◌++◌, Outcome,
  ok, err, ltb, leb, ◌==◌, if◌then◌else◌, str_eq, str_lt,
}
use nft_firewall_v.Provenance.Assignment.{Assignment, Error, min_id, max_id}

-- `SELECT … WHERE interface_name=?`
unfoldable pub row_of : String → List Assignment → Option Assignment
row_of n [] = none
row_of n (a ∷ rows) = if str_eq a.name n then some a else row_of n rows

-- Whether a row has this `provenance_id`.
unfoldable pub has_id : ℕ → List Assignment → Bool
has_id i [] = false
has_id i (a ∷ rows) = a.id == i || has_id i rows

unfoldable pub has_name : String → List Assignment → Bool
has_name n [] = false
has_name n (a ∷ rows) = str_eq a.name n || has_name n rows

-- `INSERT INTO allocations`: PRIMARY KEY, UNIQUE and CHECK of the schema, or a fault of the
-- database.
unfoldable pub insert_row : Bool → Assignment → List Assignment → Outcome Error (List Assignment)
unfolding has_name has_id
insert_row fault a rows =
    if fault || has_name a.name rows || has_id a.id rows || ltb a.id min_id || ltb max_id a.id
    then err (Error.insert_failed a.name)
    else ok (rows ++ a ∷ [])

-- `SET retired=1,retired_at=? … AND retired=0` on one row.
abbrev pub retired_now : ℕ → Assignment → Assignment
retired_now now a = if a.retired then a else record a { retired = true; retired_at = some now }

-- `UPDATE allocations SET retired=1,retired_at=? WHERE interface_name=? AND retired=0`
unfoldable pub retire_row : ℕ → String → List Assignment → List Assignment
retire_row now n [] = []
retire_row now n (a ∷ rows) =
    (if str_eq a.name n then retired_now now a else a) ∷ retire_row now n rows

row_lt : Assignment → Assignment → Bool
row_lt a b = if a.id == b.id then str_lt a.name b.name else ltb a.id b.id

insert_sorted : Assignment → List Assignment → List Assignment
insert_sorted a [] = a ∷ []
insert_sorted a (b ∷ rows) = if row_lt b a then b ∷ insert_sorted a rows else a ∷ b ∷ rows

-- `assignmentsFrom`: every row, by id and then by name.
unfoldable pub assignments_from : List Assignment → List Assignment
unfolding row_lt insert_sorted
assignments_from [] = []
assignments_from (a ∷ rows) = insert_sorted a (assignments_from rows)
