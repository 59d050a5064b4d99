-- ===== src/State/Authority.antt =====
-- The enforcement pointer against the generations table: what a reader of the pointer may rely on.
use nft_firewall_v.Prelude.{
  ℕ, Bool, true, false, ◌≡◌, ◌≢◌, refl, sym, subst, ◌&&◌, ◌||◌, Option, none, some, List,
  if◌then◌else◌, ◌==◌, arith, Bool-cases, inl, inr,
}
use nft_firewall_v.Machine.Types.{
  Machine, Generation, Status, pending, applied, commit_prepared, committed, rolled_back, Pointer,
}
use nft_firewall_v.State.Store.{update_rows, row_with, is_status, is_open, finalized, prepared_from}
use nft_firewall_v.State.Store.Rows.{updated, row_with-update_rows, row_with-id}

-- The statuses of a generation that may be published.
unfoldable pub is_published : Status → Bool
is_published pending = false
is_published applied = false
is_published commit_prepared = true
is_published committed = true
is_published rolled_back = false

-- The pointer, if there is one, names a row that is committed or durably prepared for it.
unfoldable pub IsAuthorized : Option Pointer → List Generation → Type 0
IsAuthorized none rows = Unit
IsAuthorized (some p) rows =
    (g : Generation) × (row_with p.generation rows ≡ some g) × (is_published g.status ≡ true)

unfoldable pub IsSafe : Machine → Type 0
IsSafe m = IsAuthorized m.pointer m.rows

-- The machine may have changed, but the pointer has not moved and is authorized.
unfoldable pub Guarded : Machine → Machine → Type 0
Guarded d d' = (d'.pointer ≡ d.pointer) × IsSafe d'

unfoldable pub Names : Option Pointer → ℕ → Type 0
Names none id = ⊥
Names (some p) id = id ≡ p.generation

-- The pointer does not name the generation.
unfoldable pub Spares : ℕ → Option Pointer → Type 0
Spares id none = Unit
Spares id (some p) = p.generation ≢ id

updated-published :
    (test : Generation → Bool) (f : Generation → Generation) (g : Generation)
    → (test g ≡ true → is_published (f g).status ≡ true)
    → is_published g.status ≡ true
    → is_published (updated test f g).status ≡ true
unfolding updated
updated-published test f g stays h = elim (Bool-cases (test g)) [
  | inl t ↦ subst (λ b. is_published (if b then f g else g).status ≡ true) (sym t) (stays t)
  | inr t ↦ subst (λ b. is_published (if b then f g else g).status ≡ true) (sym t) h
]

-- An update that unpublishes no row with an id that the pointer names.
module _ (test : Generation → Bool) (f : Generation → Generation)
    (keeps : (g : Generation) → (f g).id ≡ g.id) where
  pub IsAuthorized-update_rows :
      (p : Option Pointer) (rows : List Generation)
      → ((g : Generation)
          → Names p g.id
          → is_published g.status ≡ true
          → test g ≡ true
          → is_published (f g).status ≡ true)
      → IsAuthorized p rows
      → IsAuthorized p (update_rows test f rows)
  unfolding IsAuthorized Names
  IsAuthorized-update_rows none rows stays h = tt
  IsAuthorized-update_rows (some p) rows stays (g, found, h) = (
    updated test f g,
    row_with-update_rows test f keeps p.generation rows g found,
    updated-published test f g (stays g (row_with-id p.generation rows g found) h) h,
  )

pub finalized-IsAuthorized :
    (p : Option Pointer) (id : ℕ) (rows : List Generation)
    → IsAuthorized p rows
    → IsAuthorized p (finalized id rows)
unfolding finalized is_published is_status
finalized-IsAuthorized p id rows h =
    IsAuthorized-update_rows _ _ (λ g. refl) p _ (λ g named published t. refl)
      (IsAuthorized-update_rows _ _ (λ g. refl) p rows (λ g named published t. ground arith) h)

pub prepared-IsAuthorized :
    (p previous : Option Pointer) (id : ℕ) (rows : List Generation)
    → IsAuthorized p rows
    → IsAuthorized p
        (update_rows (λ g. g.id == id && is_status g.status applied) (prepared_from previous) rows)
unfolding prepared_from is_published
prepared-IsAuthorized p previous id rows =
    IsAuthorized-update_rows _ _ (λ g. refl) p rows (λ g named published t. refl)

pub rolled_back-IsAuthorized :
    (p : Option Pointer) (id : ℕ) (rows : List Generation)
    → Spares id p
    → IsAuthorized p rows
    → IsAuthorized p (
        update_rows
          (λ g. g.id == id && (is_open g.status || is_status g.status committed))
          (λ g. record g { status = rolled_back })
          rows)
unfolding Spares IsAuthorized Names
rolled_back-IsAuthorized none id rows spared h = h
rolled_back-IsAuthorized (some p) id rows spared h =
    IsAuthorized-update_rows _ _ (λ g. refl) (some p) rows (λ g named published t. ground arith) h

pub recovered-IsAuthorized :
    (p : Option Pointer) (id : ℕ) (rows : List Generation)
    → Spares id p
    → IsAuthorized p rows
    → IsAuthorized p (
        update_rows
          (λ g. g.id == id && is_open g.status)
          (λ g. record g { status = rolled_back })
          rows)
unfolding Spares IsAuthorized Names
recovered-IsAuthorized none id rows spared h = h
recovered-IsAuthorized (some p) id rows spared h =
    IsAuthorized-update_rows _ _ (λ g. refl) (some p) rows (λ g named published t. ground arith) h
