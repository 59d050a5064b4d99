-- ===== src/Provenance/Ledger/Accepts.antt =====
-- `Reserve` succeeds on every active set that fits the ledger, where nothing fails below it.
use nft_firewall_v.Prelude.{
  ℕ, ◌≤◌, String, ◌≡◌, refl, inl, inr, false, none, List, [], ◌∷◌, ◌++◌, arith, All, str_eq, eq_iff,
  ◌==◌, ok, ◌||◌, Bool-cases,
}
use nft_firewall_v.Provenance.Assignment.{Assignment, contains_name}
use nft_firewall_v.Provenance.Assignment.ActiveSet.{Apart, Distinct, IsActive}
use nft_firewall_v.Provenance.Table.{row_of, has_id, has_name, insert_row, retire_row}
use nft_firewall_v.Provenance.Table.Rows.{IsTable, has_name-row_of}
use nft_firewall_v.Provenance.Ledger.Maps.{by_name-row_of, by_id-has_id}
use nft_firewall_v.Provenance.Ledger.Reserve.{fresh, Reservable, existing}
use nft_firewall_v.Provenance.Ledger.{Faults, reserve_one, reserve_all, retire_omitted}

-- No step below the package fails.
pub record IsCalm (faults : Faults) : Type 0 where
  pub begins : faults.begin ≡ false
  pub queries : faults.query ≡ false
  pub saved_queries : faults.saved_query ≡ false
  pub inserts : (n : String) → faults.insert n ≡ false
  pub updates : (n : String) → faults.update n ≡ false
  pub commits : faults.commit ≡ false
  pub syncs : faults.sync ≡ false

has_name-append :
    (n : String) (rows : List Assignment) (a : Assignment)
    → has_name n (rows ++ a ∷ []) ≡ (has_name n rows || str_eq a.name n)
unfolding has_name
has_name-append n [] a = ground arith
has_name-append n (b ∷ rows) a = ground (arith, has_name-append n rows a)

has_id-append :
    (i : ℕ) (rows : List Assignment) (a : Assignment)
    → has_id i (rows ++ a ∷ []) ≡ (has_id i rows || a.id == i)
unfolding has_id
has_id-append i [] a = ground arith
has_id-append i (b ∷ rows) a = ground (arith, has_id-append i rows a)

-- A new member finds no row with its name or its id.
abbrev pub Room : List Assignment → List Assignment → Assignment → Type 0
Room rows₀ rows b =
    row_of b.name rows₀ ≡ none → (has_name b.name rows ≡ false) × (has_id b.id rows ≡ false)

pub Room-append :
    (rows₀ rows : List Assignment) (a b : Assignment)
    → Apart a b
    → Room rows₀ rows b
    → Room rows₀ (rows ++ a ∷ []) b
Room-append rows₀ rows a b ap₁ room missing =
    let (p, q) = room missing in
    ground
      (arith, has_name-append b.name rows a, has_id-append b.id rows a, eq_iff a.name b.name, p, q)

All-Room-append :
    (rows₀ rows : List Assignment) (a : Assignment) (active : List Assignment)
    → All (Apart a) active
    → All (Room rows₀ rows) active
    → All (Room rows₀ (rows ++ a ∷ [])) active
All-Room-append rows₀ rows a [] d h = tt
All-Room-append rows₀ rows a (b ∷ active) d h =
    (Room-append rows₀ rows a b d.0 h.0, All-Room-append rows₀ rows a active d.1 h.1)

module _ (faults : Faults) (calm : IsCalm faults) (now : ℕ) (rows₀ : List Assignment)
    (t₀ : IsTable rows₀) where
  insert_row_accepts :
      (a : Assignment) (rows : List Assignment)
      → has_name a.name rows ≡ false
      → has_id a.id rows ≡ false
      → (1 ≤ a.id) × (a.id ≤ 254)
      → insert_row (faults.insert a.name) a rows ≡ ok (rows ++ a ∷ [])
  unfolding insert_row
  insert_row_accepts a rows p q r = ground (arith, calm.inserts a.name)

  pub reserve_all_accepts :
      (active rows : List Assignment)
      → All IsActive active
      → Distinct active
      → All (Reservable rows₀) active
      → All (Room rows₀ rows) active
      → (after : List Assignment) × (reserve_all faults now
            (existing faults now rows₀ t₀)
            active
            rows
          ≡ ok after)
  unfolding reserve_all reserve_one
  reserve_all_accepts [] rows v d h room = (rows, refl)
  reserve_all_accepts (a ∷ active) rows v d (inl (p, q, same, live), hs) room =
      let (after, e) = reserve_all_accepts active rows v.1 d.1 hs room.1 in
      (after, ground (arith, by_name-row_of rows₀ a.name t₀.distinct))
  reserve_all_accepts (a ∷ active) rows v d (inr (missing, free), hs) room =
      let (after, e) =
        reserve_all_accepts active (rows ++ fresh now a ∷ []) v.1 d.1 hs
          (All-Room-append rows₀ rows (fresh now a) active d.0 room.1) in
      let (p, q) = room.0 missing in
      (
        after,
        ground (
          arith,
          by_name-row_of rows₀ a.name t₀.distinct,
          (by_id-has_id rows₀ a.id).1 free,
          insert_row_accepts (fresh now a) rows p q,
        ),
      )

  pub retire_omitted_accepts :
      (names : List String) (olds rows : List Assignment)
      → (after : List Assignment) × (retire_omitted faults now names olds rows ≡ ok after)
  unfolding retire_omitted
  retire_omitted_accepts names [] rows = (rows, refl)
  retire_omitted_accepts names (a ∷ olds) rows =
      elim (Bool-cases (a.retired || contains_name a.name names)) [
        | inl skip ↦ let (after, e) = retire_omitted_accepts names olds rows in (after, rw skip e)
        | inr due ↦
            let (after, e) = retire_omitted_accepts names olds (retire_row now a.name rows) in
            (after, rw due (rw (calm.updates a.name) e))
      ]

  -- At the start a reservable member finds room.
  pub Room-start : (a : Assignment) → Reservable rows₀ a → Room rows₀ rows₀ a
  Room-start a (inl (p, q, _, _)) missing = cc
  Room-start a (inr (_, free)) missing = (has_name-row_of a.name rows₀ missing, free)
