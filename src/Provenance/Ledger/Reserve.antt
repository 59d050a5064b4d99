-- ===== src/Provenance/Ledger/Reserve.antt =====
-- What `Reserve` makes of the table, row by row.
use nft_firewall_v.Prelude.{
  ℕ, String, ◌≡◌, refl, ◌∙◌, true, false, Option, none, some, List, [], ◌∷◌, arith, subst, All,
  if◌then◌else◌, str_eq, eq_iff, ◌⊎◌, inl, inr, ok, step_reached,
}
use nft_firewall_v.Provenance.Assignment.{Assignment, contains_name}
use nft_firewall_v.Provenance.Table.{row_of, has_id, insert_row, retired_now, assignments_from}
use nft_firewall_v.Provenance.Table.Rows.{IsTable, or_row, insert_row-row_of, insert_row-IsTable}
use nft_firewall_v.Provenance.Ledger.Maps.{by_name-row_of, by_id-has_id}
use nft_firewall_v.Provenance.Ledger.{Faults, reserve_one, reserve_all, names_of}

-- The row that is inserted for a new assignment.
abbrev pub fresh : ℕ → Assignment → Assignment
fresh now a = record {
  name = a.name;
  id = a.id;
  retired = false;
  created_at = now;
  retired_at = none;
}

-- A name's row after `Reserve`, from its row before and its entry in the active set.
abbrev pub settled : ℕ → Option Assignment → Option Assignment → Option Assignment
settled now (some a) (some x) = some a
settled now (some a) none = some (retired_now now a)
settled now none (some x) = some (fresh now x)
settled now none none = none

-- The assignment may be reserved over these rows.
abbrev pub Reservable : List Assignment → Assignment → Type 0
Reservable rows a =
    ((p : Assignment) × (row_of a.name rows ≡ some p) × (p.id ≡ a.id) × (p.retired ≡ false))
    ⊎ ((row_of a.name rows ≡ none) × (has_id a.id rows ≡ false))

abbrev pub map_fresh : ℕ → Option Assignment → Option Assignment
map_fresh now none = none
map_fresh now (some a) = some (fresh now a)

pub contains_name-row_of :
    (n : String) (active : List Assignment)
    → contains_name n (names_of active) ≡ elim (row_of n active) [ none ↦ false | some x ↦ true ]
unfolding contains_name row_of
contains_name-row_of n [] = refl
contains_name-row_of n (a ∷ active) = ground (arith, contains_name-row_of n active)

module _ (now : ℕ) (a : Assignment) (active rows mid : List Assignment) where
  kept_step :
      (p : Assignment) (n : String)
      → mid ≡ rows
      → row_of a.name rows ≡ some p
      → or_row (row_of n mid) (map_fresh now (row_of n active))
        ≡ or_row (row_of n rows) (map_fresh now (row_of n (a ∷ active)))
  unfolding row_of
  kept_step p n same q = ground (arith, eq_iff a.name n)

  put_step :
      (n : String)
      → row_of n mid ≡ or_row (row_of n rows) (if str_eq a.name n then some (fresh now a) else none)
      → or_row (row_of n mid) (map_fresh now (row_of n active))
        ≡ or_row (row_of n rows) (map_fresh now (row_of n (a ∷ active)))
  unfolding row_of
  put_step n e = ground (arith, eq_iff a.name n)

nothing_fresh : (n : String) → row_of n [] ≡ none
unfolding row_of
nothing_fresh n = refl

or_none : (o : Option Assignment) → or_row o none ≡ o
or_none none = refl
or_none (some a) = refl

module _ (faults : Faults) (now : ℕ) (rows₀ : List Assignment) (t₀ : IsTable rows₀) where
  abbrev pub existing : List Assignment
  existing = assignments_from rows₀

  pub reserve_one_lem :
      (a : Assignment) (rows after : List Assignment)
      → reserve_one faults now existing a rows ≡ ok after
      → ((p : Assignment) × (row_of a.name rows₀ ≡ some p)
          × (p.id ≡ a.id)
          × (p.retired ≡ false)
          × (after ≡ rows))
        ⊎ ((row_of a.name rows₀ ≡ none)
            × (has_id a.id rows₀ ≡ false)
            × (insert_row (faults.insert a.name) (fresh now a) rows ≡ ok after))
  unfolding reserve_one
  reserve_one_lem a rows after h =
      ground (arith, by_name-row_of rows₀ a.name t₀.distinct, (by_id-has_id rows₀ a.id).0)

  -- Rows that are there stay as they are; a new name gets its fresh row.
  pub reserve_all_view :
      (active rows after : List Assignment)
      → ((n : String) (r : Assignment) → row_of n rows₀ ≡ some r → row_of n rows ≡ some r)
      → reserve_all faults now existing active rows ≡ ok after
      → (n : String) → row_of n after ≡ or_row (row_of n rows) (map_fresh now (row_of n active))
  unfolding reserve_all
  reserve_all_view [] rows after ext h n = ground (arith, nothing_fresh n, or_none (row_of n rows))
  reserve_all_view (a ∷ active) rows after ext h n =
      let (mid, e, k) = step_reached (reserve_one faults now existing a rows) _ h in
      elim (reserve_one_lem a rows mid e) [
        | inl (p, q, _, _, same) ↦
            reserve_all_view active mid after (λ m r x. rw same (ext m r x)) k n
            ∙ kept_step now a active rows mid p n same (ext a.name p q)
        | inr (_, _, put) ↦
            reserve_all_view active mid after
              (λ m r x. insert_row-row_of _ (fresh now a) rows mid m put ∙ rw (ext m r x)) k n
            ∙ put_step now a active rows mid n (insert_row-row_of _ (fresh now a) rows mid n put)
      ]

  pub reserve_all-IsTable :
      (active rows after : List Assignment)
      → reserve_all faults now existing active rows ≡ ok after
      → IsTable rows
      → IsTable after
  unfolding reserve_all
  reserve_all-IsTable [] rows after h t = subst IsTable (ground arith) t
  reserve_all-IsTable (a ∷ active) rows after h t =
      let (mid, e, k) = step_reached (reserve_one faults now existing a rows) _ h in
      elim (reserve_one_lem a rows mid e) [
        | inl (_, _, _, _, same) ↦ reserve_all-IsTable active mid after k (rw same t)
        | inr (_, _, put) ↦
            reserve_all-IsTable active mid after k
              (insert_row-IsTable _ (fresh now a) rows mid put t)
      ]

  -- Every member of the active set could be reserved over the rows at the start.
  pub reserve_all-Reservable :
      (active rows after : List Assignment)
      → reserve_all faults now existing active rows ≡ ok after
      → All (Reservable rows₀) active
  unfolding reserve_all
  reserve_all-Reservable [] rows after h = tt
  reserve_all-Reservable (a ∷ active) rows after h =
      let (mid, e, k) = step_reached (reserve_one faults now existing a rows) _ h in
      (
        elim (reserve_one_lem a rows mid e) [
          | inl (p, q, same_id, live, _) ↦ inl (p, q, same_id, live)
          | inr (missing, free, _) ↦ inr (missing, free)
        ],
        reserve_all-Reservable active mid after k,
      )
