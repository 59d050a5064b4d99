-- ===== src/Provenance/Ledger/Merge.antt =====
-- `MergeFrom`, the merge-only restore of a saved ledger.
use nft_firewall_v.Prelude.{
  ℕ, String, ◌≡◌, ◌⊎◌, refl, inl, inr, subst, ◌∙◌, true, some, none, List, [], ◌∷◌, arith, ok,
  step_reached, eq_iff, Option, Option-cases, str_eq, if◌then◌else◌,
}
use nft_firewall_v.Provenance.Assignment.{Assignment}
use nft_firewall_v.Provenance.Table.{row_of, insert_row}
use nft_firewall_v.Provenance.Table.Rows.{IsTable, or_row, insert_row-row_of, insert_row-IsTable}
use nft_firewall_v.Provenance.Ledger.{Faults, restored, merge_all}

abbrev pub map_restored : ℕ → Option Assignment → Option Assignment
map_restored now none = none
map_restored now (some a) = some (restored now a)

or_none : (o : Option Assignment) → or_row o none ≡ o
or_none none = refl
or_none (some a) = refl

-- A live row is not contradicted by a saved one: the same id, and no saved tombstone over it.
abbrev pub Agrees : Option Assignment → Option Assignment → Type 0
Agrees none saved = Unit {0}
Agrees (some live) none = live.retired ≡ true
Agrees (some live) (some a) = (live.id ≡ a.id) × (a.retired ≡ true → live.retired ≡ true)

module _ (now : ℕ) (a : Assignment) (saved rows mid : List Assignment) (n : String) where
  kept_step :
      (p : Assignment)
      → row_of a.name rows ≡ some p
      → or_row (row_of n rows) (map_restored now (row_of n saved))
        ≡ or_row (row_of n rows) (map_restored now (row_of n (a ∷ saved)))
  unfolding row_of
  kept_step p q = ground (arith, eq_iff a.name n)

  put_step :
      row_of n mid
        ≡ or_row (row_of n rows) (if str_eq a.name n then some (restored now a) else none)
      → or_row (row_of n mid) (map_restored now (row_of n saved))
        ≡ or_row (row_of n rows) (map_restored now (row_of n (a ∷ saved)))
  unfolding row_of
  put_step e = ground (arith, eq_iff a.name n)

module _ (faults : Faults) (now : ℕ) (rows₀ : List Assignment) (live : String → Option Assignment)
    (answers : (n : String) → live n ≡ row_of n rows₀) where
  merge_one_lem :
      (a : Assignment) (saved rows after : List Assignment)
      → merge_all faults now live (a ∷ saved) rows ≡ ok after
      → ((p : Assignment) × (row_of a.name rows₀ ≡ some p)
          × (merge_all faults now live saved rows ≡ ok after))
        ⊎ ((mid : List Assignment) × (insert_row (faults.insert a.name) (restored now a) rows
              ≡ ok mid)
            × (merge_all faults now live saved mid ≡ ok after))
  unfolding merge_all
  merge_one_lem a saved rows after h = elim (Option-cases (live a.name)) [
    | inl e ↦
        inr
          (step_reached (insert_row (faults.insert a.name) (restored now a) rows) _ (ground arith))
    | inr (p, e) ↦ inl (p, ground (arith, answers a.name), ground arith)
  ]

  pub merge_all_view :
      (saved rows after : List Assignment)
      → ((n : String) (r : Assignment) → row_of n rows₀ ≡ some r → row_of n rows ≡ some r)
      → merge_all faults now live saved rows ≡ ok after
      → (n : String) → row_of n after ≡ or_row (row_of n rows) (map_restored now (row_of n saved))
  unfolding merge_all row_of
  merge_all_view [] rows after ext h n = ground (arith, or_none (row_of n rows))
  merge_all_view (a ∷ saved) rows after ext h n = elim (merge_one_lem a saved rows after h) [
    | inl (p, q, k) ↦
        merge_all_view saved rows after ext k n
        ∙ kept_step now a saved rows rows n p (ext a.name p q)
    | inr (mid, put, k) ↦
        merge_all_view saved mid after
          (λ m r x. insert_row-row_of _ (restored now a) rows mid m put ∙ rw (ext m r x)) k n
        ∙ put_step now a saved rows mid n (insert_row-row_of _ (restored now a) rows mid n put)
  ]

  pub merge_all-IsTable :
      (saved rows after : List Assignment)
      → merge_all faults now live saved rows ≡ ok after
      → IsTable rows
      → IsTable after
  unfolding merge_all
  merge_all-IsTable [] rows after h t = subst IsTable (ground arith) t
  merge_all-IsTable (a ∷ saved) rows after h t = elim (merge_one_lem a saved rows after h) [
    | inl (p, q, k) ↦ merge_all-IsTable saved rows after k t
    | inr (mid, put, k) ↦
        merge_all-IsTable saved mid after k (insert_row-IsTable _ (restored now a) rows mid put t)
  ]
