-- ===== src/Provenance/Ledger/Required.antt =====
-- `ValidateRequired` against an independent description, and after a `Reserve`.
use nft_firewall_v.Prelude.{
  ℕ, ◌≤◌, String, ◌≡◌, ◌↔◌, refl, inl, inr, true, false, some, List, [], ◌∷◌, arith, All, ok,
  Option-cases,
}
use nft_firewall_v.Provenance.Assignment.{Assignment, identity_pattern}
use nft_firewall_v.Provenance.Assignment.ActiveSet.{Distinct, Unseen, All-Unseen-cons, All-Unseen}
use nft_firewall_v.Provenance.Table.{row_of}
use nft_firewall_v.Provenance.Ledger.{Ledger, Faults, validate_required_each, validate_required}

-- The ledger has the identity with this id, live or retired.
abbrev pub Allocated : List Assignment → Assignment → Type 0
Allocated rows a = (r : Assignment) × (row_of a.name rows ≡ some r) × (r.id ≡ a.id)

pub record IsRequired (rows : List Assignment) (a : Assignment) : Type 0 where
  pub named : identity_pattern a.name ≡ true
  pub in_range : (1 ≤ a.id) × (a.id ≤ 254)
  pub allocated : Allocated rows a

module _ (rows : List Assignment) where
  IsRequired-step :
      (a : Assignment) (rest : List Assignment) (names : List String) (ids : List (ℕ × String))
      → validate_required_each false rows (a ∷ rest) names ids ≡ ok tt
      → IsRequired rows a
        × Unseen names ids a
        × (validate_required_each false rows rest (a.name ∷ names) ((a.id, a.name) ∷ ids) ≡ ok tt)
  unfolding validate_required_each
  IsRequired-step a rest names ids h = elim (Option-cases (row_of a.name rows)) [
    | inl none_ ↦ absurd (ground arith)
    | inr (r, e) ↦ (
      record { named = ground arith; in_range = ground arith; allocated = (r, e, ground arith) },
      (ground arith, ground arith),
      ground arith,
    )
  ]

  step-IsRequired :
      (a : Assignment) (rest : List Assignment) (names : List String) (ids : List (ℕ × String))
      → IsRequired rows a
      → Unseen names ids a
      → validate_required_each false rows rest (a.name ∷ names) ((a.id, a.name) ∷ ids) ≡ ok tt
      → validate_required_each false rows (a ∷ rest) names ids ≡ ok tt
  unfolding validate_required_each
  step-IsRequired a rest names ids v u h =
      let (r, e, same) = v.allocated in ground (arith, v.named, v.in_range, e, same)

  IsRequired-sound :
      (rest : List Assignment) (names : List String) (ids : List (ℕ × String))
      → validate_required_each false rows rest names ids ≡ ok tt
      → All (IsRequired rows) rest × All (Unseen names ids) rest × Distinct rest
  IsRequired-sound [] names ids h = (tt, tt, tt)
  IsRequired-sound (a ∷ rest) names ids h =
      let (v, u, k) = IsRequired-step a rest names ids h in
      let (vs, us, ds) = IsRequired-sound rest (a.name ∷ names) ((a.id, a.name) ∷ ids) k in
      let (us', d) = (All-Unseen-cons a rest names ids).0 us in ((v, vs), (u, us'), (d, ds))

  IsRequired-complete :
      (rest : List Assignment) (names : List String) (ids : List (ℕ × String))
      → All (IsRequired rows) rest
      → All (Unseen names ids) rest
      → Distinct rest
      → validate_required_each false rows rest names ids ≡ ok tt
  unfolding validate_required_each
  IsRequired-complete [] names ids vs us ds = refl
  IsRequired-complete (a ∷ rest) names ids vs us ds = step-IsRequired a rest names ids vs.0 us.0 (
      IsRequired-complete rest (a.name ∷ names) ((a.id, a.name) ∷ ids) vs.1
        ((All-Unseen-cons a rest names ids).1 (us.1, ds.0)) ds.1)

-- On an open ledger whose queries do not fail, `ValidateRequired` accepts exactly the lists whose
-- members have well-formed names, ids from 1 to 254 and a row with the same id, live or retired,
-- and in which no two members share a name or an id.
pub validate_required_iff :
    (faults : Faults) (l : Ledger) (required : List Assignment)
    → l.opened ≡ true
    → faults.query ≡ false
    → (validate_required faults l required ≡ ok tt)
      ↔ (All (IsRequired l.rows) required × Distinct required)
unfolding validate_required
validate_required_iff faults l required up quiet = (
  λ h. let r = IsRequired-sound l.rows required [] [] (ground arith) in (r.0, r.2),
  λ h. ground (arith, IsRequired-complete l.rows required [] [] h.0 (All-Unseen required) h.1),
)
