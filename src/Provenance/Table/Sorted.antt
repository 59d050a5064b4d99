-- ===== src/Provenance/Table/Sorted.antt =====
-- `assignmentsFrom` reads the rows of the table in another order, and its maps answer as the
-- table does.
use nft_firewall_v.Prelude.{
  ℕ, String, ◌≡◌, refl, sym, inl, inr, List, [], ◌∷◌, arith, All, eq_iff, Bool-cases,
}
use nft_firewall_v.Provenance.Assignment.{Assignment}
use nft_firewall_v.Provenance.Assignment.ActiveSet.{Apart, Distinct}
use nft_firewall_v.Provenance.Table.{row_of, has_id, row_lt, insert_sorted, assignments_from}

Apart-insert_sorted :
    (x a : Assignment) (rows : List Assignment)
    → Apart x a
    → All (Apart x) rows
    → All (Apart x) (insert_sorted a rows)
unfolding insert_sorted
Apart-insert_sorted x a [] p h = (p, tt)
Apart-insert_sorted x a (b ∷ rows) p h = elim (Bool-cases (row_lt b a)) [
  | inl e ↦ rw e (h.0, Apart-insert_sorted x a rows p h.1)
  | inr e ↦ rw e (p, h)
]

Distinct-insert_sorted :
    (a : Assignment) (rows : List Assignment)
    → All (Apart a) rows
    → Distinct rows
    → Distinct (insert_sorted a rows)
unfolding insert_sorted
Distinct-insert_sorted a [] h d = (tt, tt)
Distinct-insert_sorted a (b ∷ rows) h d = elim (Bool-cases (row_lt b a)) [
  | inl e ↦ rw e (
    Apart-insert_sorted b a rows ((λ q. h.0.0 (sym q)), (λ q. h.0.1 (sym q))) d.0,
    Distinct-insert_sorted a rows h.1 d.1,
  )
  | inr e ↦ rw e (h, d)
]

Apart-assignments_from :
    (a : Assignment) (rows : List Assignment)
    → All (Apart a) rows
    → All (Apart a) (assignments_from rows)
unfolding assignments_from
Apart-assignments_from a [] h = tt
Apart-assignments_from a (b ∷ rows) h =
    Apart-insert_sorted a b (assignments_from rows) h.0 (Apart-assignments_from a rows h.1)

pub Distinct-assignments_from :
    (rows : List Assignment) → Distinct rows → Distinct (assignments_from rows)
unfolding assignments_from
Distinct-assignments_from [] d = tt
Distinct-assignments_from (a ∷ rows) d =
    Distinct-insert_sorted a (assignments_from rows) (Apart-assignments_from a rows d.0)
      (Distinct-assignments_from rows d.1)

row_of-insert_sorted :
    (n : String) (a : Assignment) (rows : List Assignment)
    → All (Apart a) rows
    → row_of n (insert_sorted a rows) ≡ row_of n (a ∷ rows)
unfolding row_of insert_sorted
row_of-insert_sorted n a [] h = refl
row_of-insert_sorted n a (b ∷ rows) h =
    ground (arith, row_of-insert_sorted n a rows h.1, eq_iff a.name n, eq_iff b.name n)

pub row_of-assignments_from :
    (n : String) (rows : List Assignment)
    → Distinct rows
    → row_of n (assignments_from rows) ≡ row_of n rows
unfolding row_of assignments_from
row_of-assignments_from n [] d = refl
row_of-assignments_from n (a ∷ rows) d = ground (
  arith,
  row_of-insert_sorted n a (assignments_from rows) (Apart-assignments_from a rows d.0),
  row_of-assignments_from n rows d.1,
)

has_id-insert_sorted :
    (i : ℕ) (a : Assignment) (rows : List Assignment)
    → has_id i (insert_sorted a rows) ≡ has_id i (a ∷ rows)
unfolding has_id insert_sorted
has_id-insert_sorted i a [] = refl
has_id-insert_sorted i a (b ∷ rows) = ground (arith, has_id-insert_sorted i a rows)

pub has_id-assignments_from :
    (i : ℕ) (rows : List Assignment) → has_id i (assignments_from rows) ≡ has_id i rows
unfolding has_id assignments_from
has_id-assignments_from i [] = refl
has_id-assignments_from i (a ∷ rows) =
    ground (arith, has_id-insert_sorted i a (assignments_from rows), has_id-assignments_from i rows)
