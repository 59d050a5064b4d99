-- ===== src/Provenance/Assignment.antt =====
-- The assignment, its encoding as a conntrack mark, and the contract of an active set, of
-- internal/provenance/ledger.go. A time is a number of nanoseconds, 0 the zero time.
pub mod ActiveSet
use nft_firewall_v.Prelude.{
  ℕ, ◌*◌, ◌^◌, ◌%◌, String, Bool, true, false, ◌||◌, Option, none, some, List, [], ◌∷◌, Outcome, ok,
  err, ltb, leb, ◌==◌, if◌then◌else◌, str_eq, matches, is_alnum, length,
}

-- The high byte of the mark is NFTFW's, the others are kept.
abbrev pub mask : ℕ
mask = 0xff000000

abbrev pub keep_mask : ℕ
keep_mask = 0x00ffffff

abbrev pub min_id : ℕ
min_id = 1

abbrev pub max_id : ℕ
max_id = 254

abbrev pub max_active : ℕ
max_active = 64

pub record Assignment : Type 0 where
  pub name : String
  pub id : ℕ
  pub retired : Bool
  pub created_at : ℕ
  pub retired_at : Option ℕ

-- `uint32(a.ID) << 24`
unfoldable pub encoded : Assignment → ℕ
encoded a = (a.id * 2 ^ 24) % 2 ^ 32

-- `^[A-Za-z0-9][A-Za-z0-9_.:-]{0,127}$`
unfoldable pub identity_pattern : String → Bool
unfolding matches
identity_pattern =
    matches is_alnum (λ c. is_alnum c || c == b'_' || c == b'.' || c == b':' || c == b'-') 127

-- The errors of the package, with the values that their messages print.
pub data Error : Type 0 where
  assignment_required too_many_active ledger_required writable_required : Error
  marked_retired invalid_identity id_out_of_range duplicate_identity : String → Error
  id_assigned_twice : ℕ → String → String → Error
  permanent_id : String → ℕ → ℕ → Error
  permanently_retired : String → Error
  permanently_allocated : ℕ → String → Error
  absent_identity : String → Error
  saved_changes saved_retires saved_reuses live_regresses : String → Error
  insert_failed update_failed : String → Error
  begin_failed query_failed commit_failed sync_failed open_failed : Error

-- `names[n]` of a `map[string]bool`.
unfoldable pub contains_name : String → List String → Bool
contains_name n [] = false
contains_name n (m ∷ ms) = str_eq m n || contains_name n ms

-- `ids[i]` of a `map[uint8]string`, the latest write first.
unfoldable pub owner_of : ℕ → List (ℕ × String) → Option String
owner_of i [] = none
owner_of i ((j, n) ∷ m) = if j == i then some n else owner_of i m

-- The loop of `ValidateActive`, over the maps that it fills.
unfoldable pub validate_each :
    List Assignment → List String → List (ℕ × String) → Outcome Error (Unit {0})
validate_each [] names ids = ok tt
validate_each (a ∷ rest) names ids =
    let next = validate_each rest (a.name ∷ names) ((a.id, a.name) ∷ ids) in
    if a.retired
    then err (marked_retired a.name)
    else if identity_pattern a.name
    then if ltb a.id min_id || ltb max_id a.id
      then err (id_out_of_range a.name)
      else if contains_name a.name names
      then err (duplicate_identity a.name)
      else elim (owner_of a.id ids) [
        | some prior ↦ err (id_assigned_twice a.id prior a.name)
        | none ↦ next
      ]
    else err (invalid_identity a.name)

unfoldable pub validate_active : List Assignment → Outcome Error (Unit {0})
validate_active assignments =
    if length assignments == 0
    then err assignment_required
    else if ltb max_active (length assignments)
    then err too_many_active
    else validate_each assignments [] []
