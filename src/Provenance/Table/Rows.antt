-- ===== src/Provenance/Table/Rows.antt =====
-- Reading the `allocations` table after each statement, and the sorted read of all rows.
use nft_firewall_v.Prelude.{
  ℕ, ◌≤◌, String, Bool, ◌≡◌, refl, false, Option, none, some, List, [], ◌∷◌, ◌++◌, ok, arith, All,
  All-append, if◌then◌else◌, str_eq, eq_iff,
}
use nft_firewall_v.Provenance.Assignment.{Assignment}
use nft_firewall_v.Provenance.Assignment.ActiveSet.{Apart, Distinct}
use nft_firewall_v.Provenance.Table.{row_of, has_id, has_name, insert_row, retired_now, retire_row}

-- The constraints of the schema.
pub record IsTable (rows : List Assignment) : Type 0 where
  pub distinct : Distinct rows
  pub in_range : All (λ a. (1 ≤ a.id) × (a.id ≤ 254)) rows

-- A later row answers only where the earlier ones do not.
abbrev pub or_row : Option Assignment → Option Assignment → Option Assignment
or_row none o = o
or_row (some a) o = some a

pub row_of-append :
    (n : String) (rows ys : List Assignment)
    → row_of n (rows ++ ys) ≡ or_row (row_of n rows) (row_of n ys)
unfolding row_of
row_of-append n [] ys = refl
row_of-append n (a ∷ rows) ys = ground (arith, row_of-append n rows ys)

pub row_of_name :
    (n : String) (rows : List Assignment) {a : Assignment} → row_of n rows ≡ some a → a.name ≡ n
unfolding row_of
row_of_name n [] h = cc
row_of_name n (b ∷ rows) {a} h = ground (arith, row_of_name n rows {a = a}, eq_iff b.name n)

pub Apart-row_of :
    (a : Assignment) (rows : List Assignment) → All (Apart a) rows → row_of a.name rows ≡ none
unfolding row_of
Apart-row_of a [] h = refl
Apart-row_of a (b ∷ rows) h = ground (arith, Apart-row_of a rows h.1, eq_iff b.name a.name)

pub has_name-row_of :
    (n : String) (rows : List Assignment) → row_of n rows ≡ none → has_name n rows ≡ false
unfolding row_of has_name
has_name-row_of n [] h = refl
has_name-row_of n (b ∷ rows) h = ground (arith, has_name-row_of n rows)

pub row_of-has_name :
    (n : String) (rows : List Assignment) → has_name n rows ≡ false → row_of n rows ≡ none
unfolding row_of has_name
row_of-has_name n [] h = refl
row_of-has_name n (b ∷ rows) h = ground (arith, row_of-has_name n rows)

-- Retiring one name changes the row of that name.
pub row_of-retire_row :
    (now : ℕ) (m n : String) (rows : List Assignment)
    → row_of n (retire_row now m rows) ≡ elim (row_of n rows) [
      | none ↦ none
      | some a ↦ some (if str_eq m n then retired_now now a else a)
    ]
unfolding row_of retire_row
row_of-retire_row now m n [] = refl
row_of-retire_row now m n (a ∷ rows) =
    ground (arith, row_of-retire_row now m n rows, eq_iff a.name m, eq_iff a.name n, eq_iff m n)

Apart-retire_row :
    (a : Assignment) (now : ℕ) (m : String) (rows : List Assignment)
    → All (Apart a) rows
    → All (Apart a) (retire_row now m rows)
unfolding retire_row
Apart-retire_row a now m [] h = tt
Apart-retire_row a now m (b ∷ rows) h = ground (arith, Apart-retire_row a now m rows h.1)

Apart-same :
    (a b : Assignment) (rows : List Assignment)
    → b.name ≡ a.name
    → b.id ≡ a.id
    → All (Apart a) rows
    → All (Apart b) rows
Apart-same a b [] p q h = tt
Apart-same a b (c ∷ rows) p q h = ((rw p h.0.0, rw q h.0.1), Apart-same a b rows p q h.1)

Distinct-retire_row :
    (now : ℕ) (m : String) (rows : List Assignment)
    → Distinct rows
    → Distinct (retire_row now m rows)
unfolding retire_row
Distinct-retire_row now m [] h = tt
Distinct-retire_row now m (b ∷ rows) h = (
  Apart-same b (if str_eq b.name m then retired_now now b else b) _ (ground arith) (ground arith)
      (Apart-retire_row b now m rows h.0),
  Distinct-retire_row now m rows h.1,
)

in_range-retire_row :
    (now : ℕ) (m : String) (rows : List Assignment)
    → All (λ a. (1 ≤ a.id) × (a.id ≤ 254)) rows
    → All (λ a. (1 ≤ a.id) × (a.id ≤ 254)) (retire_row now m rows)
unfolding retire_row
in_range-retire_row now m [] h = tt
in_range-retire_row now m (b ∷ rows) h = (ground arith, in_range-retire_row now m rows h.1)

pub retire_row-IsTable :
    (now : ℕ) (m : String) (rows : List Assignment) → IsTable rows → IsTable (retire_row now m rows)
retire_row-IsTable now m rows t = record {
  distinct = Distinct-retire_row now m rows t.distinct;
  in_range = in_range-retire_row now m rows t.in_range;
}

-- A new row at the end.
Apart-snoc :
    (a : Assignment) (rows : List Assignment)
    → has_name a.name rows ≡ false
    → has_id a.id rows ≡ false
    → Distinct rows
    → Distinct (rows ++ a ∷ [])
unfolding has_name has_id
Apart-snoc a [] p q d = (tt, tt)
Apart-snoc a (b ∷ rows) p q d = (
  All-append (Apart b) rows (a ∷ []) d.0
      ((λ e. ground (arith, eq_iff b.name a.name), λ e. ground arith), tt),
  Apart-snoc a rows (ground arith) (ground arith) d.1,
)

-- What an accepted INSERT has found and done.
pub insert_row_lem :
    (fault : Bool) (a : Assignment) (rows after : List Assignment)
    → insert_row fault a rows ≡ ok after
    → (after ≡ rows ++ a ∷ [])
      × (has_name a.name rows ≡ false)
      × (has_id a.id rows ≡ false)
      × (1 ≤ a.id)
      × (a.id ≤ 254)
unfolding insert_row
insert_row_lem fault a rows after h = ground arith

pub insert_row-row_of :
    (fault : Bool) (a : Assignment) (rows after : List Assignment) (n : String)
    → insert_row fault a rows ≡ ok after
    → row_of n after ≡ or_row (row_of n rows) (if str_eq a.name n then some a else none)
unfolding row_of
insert_row-row_of fault a rows after n h =
    rw (insert_row_lem fault a rows after h).0 (row_of-append n rows (a ∷ []))

pub insert_row-IsTable :
    (fault : Bool) (a : Assignment) (rows after : List Assignment)
    → insert_row fault a rows ≡ ok after
    → IsTable rows
    → IsTable after
insert_row-IsTable fault a rows after h t =
    let (e, p, q, lo, hi) = insert_row_lem fault a rows after h in
    rw e (record {
      distinct = Apart-snoc a rows p q t.distinct;
      in_range = All-append _ rows (a ∷ []) t.in_range ((lo, hi), tt);
    })
