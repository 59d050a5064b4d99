-- ===== src/Provenance/Ledger/Retire.antt =====
-- The second loop of `Reserve`: rows outside the active set are retired.
use nft_firewall_v.Prelude.{
  ℕ, String, Bool, ◌≡◌, refl, ◌∙◌, ap, inl, inr, subst, false, Option, none, some, List, [], ◌∷◌,
  arith, if◌then◌else◌, str_eq, eq_iff, ok, Bool-cases, not, ◌||◌, ◌&&◌,
}
use nft_firewall_v.Provenance.Assignment.{Assignment, contains_name}
use nft_firewall_v.Provenance.Assignment.ActiveSet.{Distinct}
use nft_firewall_v.Provenance.Table.{row_of, retired_now, retire_row}
use nft_firewall_v.Provenance.Table.Rows.{
  IsTable, row_of-retire_row, retire_row-IsTable, Apart-row_of,
}
use nft_firewall_v.Provenance.Ledger.{Faults, retire_omitted}

-- The loop reaches an UPDATE for this name.
abbrev pending : List String → String → List Assignment → Bool
pending names n [] = false
pending names n (a ∷ existing) =
    (str_eq a.name n && not (a.retired || contains_name a.name names)) || pending names n existing

-- A row after the loop.
abbrev pub retire_if : ℕ → Bool → Option Assignment → Option Assignment
retire_if now due none = none
retire_if now due (some a) = some (if due then retired_now now a else a)

retire_if-retire_if :
    (now : ℕ) (b c : Bool) (o : Option Assignment)
    → retire_if now b (retire_if now c o) ≡ retire_if now (c || b) o
retire_if-retire_if now b c none = refl
retire_if-retire_if now b c (some a) = ground arith

row_of-retire_if :
    (now : ℕ) (m n : String) (rows : List Assignment)
    → row_of n (retire_row now m rows) ≡ retire_if now (str_eq m n) (row_of n rows)
row_of-retire_if now m n rows = row_of-retire_row now m n rows ∙ ground arith

module _ (faults : Faults) (now : ℕ) (names : List String) where
  retire_omitted-pending :
      (existing rows after : List Assignment)
      → retire_omitted faults now names existing rows ≡ ok after
      → (n : String) → row_of n after ≡ retire_if now (pending names n existing) (row_of n rows)
  unfolding retire_omitted
  retire_omitted-pending [] rows after h n = ground arith
  retire_omitted-pending (a ∷ existing) rows after h n =
      elim (Bool-cases (a.retired || contains_name a.name names)) [
        | inl skip ↦ ground (arith, retire_omitted-pending existing rows after (ground arith) n)
        | inr due ↦
            retire_omitted-pending existing (retire_row now a.name rows) after (ground arith) n
            ∙ ap (retire_if now (pending names n existing)) (row_of-retire_if now a.name n rows)
            ∙ retire_if-retire_if now (pending names n existing) (str_eq a.name n) (row_of n rows)
            ∙ rw due (ground arith)
      ]

  pub retire_omitted-IsTable :
      (existing rows after : List Assignment)
      → retire_omitted faults now names existing rows ≡ ok after
      → IsTable rows
      → IsTable after
  unfolding retire_omitted
  retire_omitted-IsTable [] rows after h t = subst IsTable (ground arith) t
  retire_omitted-IsTable (a ∷ existing) rows after h t =
      elim (Bool-cases (a.retired || contains_name a.name names)) [
        | inl skip ↦ retire_omitted-IsTable existing rows after (ground arith) t
        | inr due ↦
            retire_omitted-IsTable existing (retire_row now a.name rows) after (ground arith)
              (retire_row-IsTable now a.name rows t)
      ]

-- Which rows are due, by the row of the name.
abbrev pub is_due : List String → String → Option Assignment → Bool
is_due names n none = false
is_due names n (some a) = not (a.retired || contains_name n names)

pending-row_of :
    (names : List String) (n : String) (existing : List Assignment)
    → Distinct existing
    → pending names n existing ≡ is_due names n (row_of n existing)
unfolding row_of
pending-row_of names n [] d = refl
pending-row_of names n (a ∷ existing) d =
    ground
      (arith, pending-row_of names n existing d.1, Apart-row_of a existing d.0, eq_iff a.name n)

-- After the loop every live row whose name is not among `names` is retired, others are the same.
pub retire_omitted_view :
    (faults : Faults) (now : ℕ) (names : List String) (existing rows after : List Assignment)
    → Distinct existing
    → retire_omitted faults now names existing rows ≡ ok after
    → (n : String)
    → row_of n after ≡ retire_if now (is_due names n (row_of n existing)) (row_of n rows)
retire_omitted_view faults now names existing rows after d h n =
    retire_omitted-pending faults now names existing rows after h n
    ∙ ap (λ b. retire_if now b (row_of n rows)) (pending-row_of names n existing d)
