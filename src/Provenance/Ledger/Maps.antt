-- ===== src/Provenance/Ledger/Maps.antt =====
-- The maps `byName` and `byID` answer as the table does.
use nft_firewall_v.Prelude.{
  ℕ, String, ◌≡◌, ◌↔◌, refl, sym, ◌∙◌, false, Option, none, some, List, [], ◌∷◌, arith,
  if◌then◌else◌, eq_iff, ◌==◌,
}
use nft_firewall_v.Provenance.Assignment.{Assignment}
use nft_firewall_v.Provenance.Assignment.ActiveSet.{Distinct}
use nft_firewall_v.Provenance.Table.{row_of, has_id, assignments_from}
use nft_firewall_v.Provenance.Table.Rows.{or_row, Apart-row_of}
use nft_firewall_v.Provenance.Table.Sorted.{
  Distinct-assignments_from, row_of-assignments_from, has_id-assignments_from,
}
use nft_firewall_v.Provenance.Ledger.{by_name, by_id}

by_name-or_row :
    (rows : List Assignment) (m : String → Option Assignment) (n : String)
    → Distinct rows
    → by_name rows m n ≡ or_row (row_of n rows) (m n)
unfolding by_name row_of
by_name-or_row [] m n d = refl
by_name-or_row (a ∷ rows) m n d =
    by_name-or_row rows _ n d.1 ∙ ground (arith, Apart-row_of a rows d.0, eq_iff a.name n)

-- `byName` after the loop over all rows, sorted.
pub by_name-row_of :
    (rows : List Assignment) (n : String)
    → Distinct rows
    → by_name (assignments_from rows) (λ _. none) n ≡ row_of n rows
by_name-row_of rows n d =
    by_name-or_row (assignments_from rows) (λ _. none) n (Distinct-assignments_from rows d)
    ∙ ground (arith, row_of-assignments_from n rows d)

by_id-none :
    (rows : List Assignment) (m : ℕ → Option Assignment) (i : ℕ)
    → (by_id rows m i ≡ none) ↔ ((has_id i rows ≡ false) × (m i ≡ none))
unfolding by_id has_id
by_id-none [] m i = (λ h. (refl, h), λ h. h.1)
by_id-none (a ∷ rows) m i =
    let ih = by_id-none rows (λ j. if a.id == j then some a else m j) i in
    (λ h. ground (arith, ih.0 h), λ h. ih.1 (ground arith, ground arith))

-- `byID` after the loop over all rows, sorted, has nothing exactly for an id of no row.
pub by_id-has_id :
    (rows : List Assignment) (i : ℕ)
    → (by_id (assignments_from rows) (λ _. none) i ≡ none) ↔ (has_id i rows ≡ false)
by_id-has_id rows i = (
  λ h. sym (has_id-assignments_from i rows) ∙ ((by_id-none (assignments_from rows) _ i).0 h).0,
  λ h. (by_id-none (assignments_from rows) _ i).1 (has_id-assignments_from i rows ∙ h, refl),
)
