-- ===== src/Provenance/Tests.antt =====
-- The theorems on the registry at a small ledger, and runs of its operations.
use nft_firewall_v.Prelude.{
  String, ◌≡◌, ◌↔◌, refl, true, false, some, none, List, [], ◌∷◌, arith, All, ok, err, eq_iff,
}
use nft_firewall_v.Provenance.Assignment.{
  Assignment, Error, validate_active, identity_pattern, contains_name, owner_of, validate_each,
}
use nft_firewall_v.Provenance.Assignment.ActiveSet.{IsActiveSet, Distinct, validate_active_iff}
use nft_firewall_v.Provenance.Table.{
  row_of, has_id, has_name, insert_row, retire_row, assignments_from,
}
use nft_firewall_v.Provenance.Table.Rows.{IsTable}
use nft_firewall_v.Provenance.Ledger.{
  Ledger, Faults, reserve, validate_required, merge_from, finish, reserve_rows, reserve_all,
  reserve_one, by_name, by_id, retire_omitted, merge_rows, check_saved, check_live, merge_all,
}
use nft_firewall_v.Provenance.Ledger.Reserve.{settled, Reservable}
use nft_firewall_v.Provenance.Ledger.Accepts.{IsCalm}
use nft_firewall_v.Provenance.Ledger.Success.{reserve_succeeds_iff}
use nft_firewall_v.Provenance.Ledger.Permanence.{Keeps, reserve_settles}
use nft_firewall_v.Provenance.Ledger.Required.{IsRequired, validate_required_iff}
use nft_firewall_v.Provenance.Ledger.Linked.{validate_required-reserve}
use nft_firewall_v.Provenance.Ledger.Merged.{Merges, merge_settles}
use nft_firewall_v.Provenance.Ledger.History.{
  Call, reserves, merges, step, run, run-Keeps, run_id_permanent,
}

abbrev calm : Faults
calm = record {
  begin = false;
  query = false;
  saved_query = false;
  insert = λ n. false;
  update = λ n. false;
  commit = false;
  sync = false;
}

calm-IsCalm : IsCalm calm
calm-IsCalm = record {
  begins = refl;
  queries = refl;
  saved_queries = refl;
  inserts = λ n. refl;
  updates = λ n. refl;
  commits = refl;
  syncs = refl;
}

abbrev lan : Assignment
lan = record { name = "lan0"; id = 1; retired = false; created_at = 5; retired_at = none }

abbrev vpn : Assignment
vpn = record { name = "wg0"; id = 2; retired = false; created_at = 6; retired_at = none }

abbrev old : Assignment
old = record { name = "eth9"; id = 3; retired = true; created_at = 4; retired_at = some 8 }

abbrev uplink : Assignment
uplink = record { name = "eth0"; id = 7; retired = false; created_at = 0; retired_at = none }

abbrev ledger : Ledger
ledger = record { opened = true; read_only = false; rows = vpn ∷ old ∷ lan ∷ [] }

ledger-IsTable : IsTable ledger.rows
ledger-IsTable = record {
  distinct = ground (arith, eq_iff "eth9" "wg0", eq_iff "lan0" "wg0", eq_iff "lan0" "eth9");
  in_range = omega arith;
}

-- The uplink is new and the tunnel is left out.
abbrev wanted : List Assignment
wanted = lan ∷ uplink ∷ []

wanted_reserved : (reserve calm 100 ledger wanted).1 ≡ ok tt
unfolding reserve finish validate_active validate_each identity_pattern contains_name owner_of
    reserve_rows assignments_from reserve_all reserve_one by_name by_id insert_row has_id has_name
    retire_omitted
wanted_reserved = refl

-- The rows after: the tunnel is retired at time 100.
wanted_rows :
    row_of "wg0" (reserve calm 100 ledger wanted).0.rows
    ≡ some (record vpn { retired = true; retired_at = some 100 })
unfolding reserve finish validate_active validate_each identity_pattern contains_name owner_of
    reserve_rows assignments_from reserve_all reserve_one by_name by_id insert_row has_id has_name
    retire_omitted retire_row row_of
wanted_rows = refl

-- A retired identity cannot come back, nor its id under another name.
old_refused :
    (reserve calm 100 ledger (record old { retired = false } ∷ [])).1
    ≡ err (Error.permanently_retired "eth9")
unfolding reserve finish validate_active validate_each identity_pattern contains_name owner_of
    reserve_rows assignments_from reserve_all reserve_one by_name by_id
old_refused = refl

old_id_refused :
    (reserve calm 100 ledger (record uplink { id = 3 } ∷ [])).1
    ≡ err (Error.permanently_allocated 3 "eth9")
unfolding reserve finish validate_active validate_each identity_pattern contains_name owner_of
    reserve_rows assignments_from reserve_all reserve_one by_name by_id
old_id_refused = refl

wanted-IsActiveSet : IsActiveSet wanted
unfolding validate_active validate_each identity_pattern contains_name owner_of
wanted-IsActiveSet = (validate_active_iff wanted).0 refl

validate_active_iff_example : (validate_active wanted ≡ ok tt) ↔ IsActiveSet wanted
validate_active_iff_example = validate_active_iff wanted

reserve_settles_example :
    row_of "eth0" (reserve calm 100 ledger wanted).0.rows
    ≡ settled 100 (row_of "eth0" ledger.rows) (row_of "eth0" wanted)
reserve_settles_example =
    reserve_settles calm 100 ledger wanted ledger-IsTable wanted_reserved "eth0"

reserve_succeeds_iff_example :
    ((reserve calm 100 ledger wanted).1 ≡ ok tt)
    ↔ (IsActiveSet wanted × All (Reservable ledger.rows) wanted)
reserve_succeeds_iff_example =
    reserve_succeeds_iff calm 100 ledger wanted calm-IsCalm refl refl ledger-IsTable

validate_required_iff_example :
    (validate_required calm ledger (old ∷ []) ≡ ok tt)
    ↔ (All (IsRequired ledger.rows) (old ∷ []) × Distinct (old ∷ []))
validate_required_iff_example = validate_required_iff calm ledger (old ∷ []) refl refl

validate_required-reserve_example :
    validate_required calm (reserve calm 100 ledger wanted).0 wanted ≡ ok tt
validate_required-reserve_example =
    validate_required-reserve calm calm 100 ledger wanted ledger-IsTable refl refl wanted_reserved

-- A copy of the ledger made before the tunnel was retired, with one more identity.
abbrev copy : Ledger
copy = record ledger { rows = uplink ∷ vpn ∷ old ∷ lan ∷ [] }

copy-IsTable : IsTable copy.rows
copy-IsTable = record {
  distinct = ground (
    arith,
    eq_iff "eth9" "wg0",
    eq_iff "lan0" "wg0",
    eq_iff "lan0" "eth9",
    eq_iff "wg0" "eth0",
    eq_iff "eth9" "eth0",
    eq_iff "lan0" "eth0",
  );
  in_range = omega arith;
}

copy_merged : (merge_from calm 200 ledger (some copy)).1 ≡ ok tt
unfolding merge_from finish merge_rows assignments_from by_name by_id check_saved check_live
    contains_name merge_all insert_row has_id has_name
copy_merged = refl

merge_settles_example :
    Merges 200 copy.rows ledger.rows (merge_from calm 200 ledger (some copy)).0.rows
merge_settles_example = merge_settles calm 200 ledger copy ledger-IsTable copy-IsTable copy_merged

abbrev calls : List Call
calls = reserves calm 100 wanted ∷ merges calm 200 (some copy) ∷ merges calm 300 none ∷ []

run-Keeps_example : Keeps ledger.rows (run ledger calls).rows
run-Keeps_example = run-Keeps ledger calls ledger-IsTable

-- The calls leave "eth9" in place.
old_there : row_of "eth9" (run ledger calls).rows ≡ some old
unfolding run step reserve finish validate_active validate_each identity_pattern contains_name
    owner_of reserve_rows assignments_from reserve_all reserve_one by_name by_id insert_row has_id
    has_name retire_omitted retire_row row_of merge_from merge_rows check_saved check_live merge_all
old_there = refl

old_row : row_of "eth9" ledger.rows ≡ some old
unfolding row_of
old_row = refl

run_id_permanent_example : ◌≡◌ {A = String} "eth9" "eth9"
run_id_permanent_example =
    run_id_permanent ledger calls "eth9" "eth9" old old ledger-IsTable old_row old_there refl
