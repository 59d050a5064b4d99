-- ===== src/Provenance/Assignment/ActiveSet.antt =====
-- `ValidateActive` against an independent description of an active set.
use nft_firewall_v.Prelude.{
  ℕ, ◌≤◌, String, ◌≡◌, ◌≢◌, refl, ◌↔◌, true, false, none, List, [], ◌∷◌, ok, arith, All, length,
  eq_iff,
}
use nft_firewall_v.Provenance.Assignment.{
  Assignment, identity_pattern, contains_name, owner_of, validate_each, validate_active,
}

-- No two members share a name or an id.
abbrev pub Apart : Assignment → Assignment → Type 0
Apart a b = (b.name ≢ a.name) × (b.id ≢ a.id)

abbrev pub Distinct : List Assignment → Type 0
Distinct [] = Unit
Distinct (a ∷ rest) = All (Apart a) rest × Distinct rest

pub record IsActive (a : Assignment) : Type 0 where
  pub live : a.retired ≡ false
  pub named : identity_pattern a.name ≡ true
  pub in_range : (1 ≤ a.id) × (a.id ≤ 254)

pub record IsActiveSet (assignments : List Assignment) : Type 0 where
  pub size : (1 ≤ length assignments) × (length assignments ≤ 64)
  pub each : All IsActive assignments
  pub distinct : Distinct assignments

-- What the maps of the loop hold.
abbrev pub Unseen : List String → List (ℕ × String) → Assignment → Type 0
Unseen names ids a = (contains_name a.name names ≡ false) × (owner_of a.id ids ≡ none)

pub Unseen-cons :
    (a b : Assignment) (names : List String) (ids : List (ℕ × String))
    → Unseen (a.name ∷ names) ((a.id, a.name) ∷ ids) b ↔ (Unseen names ids b × Apart a b)
unfolding contains_name owner_of
Unseen-cons a b names ids =
    (λ h. ground (arith, eq_iff a.name b.name), λ h. ground (arith, eq_iff a.name b.name))

pub All-Unseen-cons :
    (a : Assignment) (rest : List Assignment) (names : List String) (ids : List (ℕ × String))
    → All (Unseen (a.name ∷ names) ((a.id, a.name) ∷ ids)) rest
      ↔ (All (Unseen names ids) rest × All (Apart a) rest)
All-Unseen-cons a [] names ids = (λ h. (tt, tt), λ h. tt)
All-Unseen-cons a (b ∷ rest) names ids = (
  λ h.
      let (u, d) = (Unseen-cons a b names ids).0 h.0 in
      let (us, ds) = (All-Unseen-cons a rest names ids).0 h.1 in ((u, us), (d, ds)),
  λ h. (
    (Unseen-cons a b names ids).1 (h.0.0, h.1.0),
    (All-Unseen-cons a rest names ids).1 (h.0.1, h.1.1),
  ),
)

-- One round of the loop.
each_step :
    (a : Assignment) (rest : List Assignment) (names : List String) (ids : List (ℕ × String))
    → validate_each (a ∷ rest) names ids ≡ ok tt
    → IsActive a
      × Unseen names ids a
      × (validate_each rest (a.name ∷ names) ((a.id, a.name) ∷ ids) ≡ ok tt)
unfolding validate_each
each_step a rest names ids h = ground arith

step_each :
    (a : Assignment) (rest : List Assignment) (names : List String) (ids : List (ℕ × String))
    → IsActive a
    → Unseen names ids a
    → validate_each rest (a.name ∷ names) ((a.id, a.name) ∷ ids) ≡ ok tt
    → validate_each (a ∷ rest) names ids ≡ ok tt
unfolding validate_each
step_each a rest names ids v u h = ground arith

validate_each_sound :
    (rest : List Assignment) (names : List String) (ids : List (ℕ × String))
    → validate_each rest names ids ≡ ok tt
    → All IsActive rest × All (Unseen names ids) rest × Distinct rest
validate_each_sound [] names ids h = (tt, tt, tt)
validate_each_sound (a ∷ rest) names ids h =
    let (v, u, k) = each_step a rest names ids h in
    let (vs, us, ds) = validate_each_sound rest (a.name ∷ names) ((a.id, a.name) ∷ ids) k in
    let (us', d) = (All-Unseen-cons a rest names ids).0 us in ((v, vs), (u, us'), (d, ds))

validate_each_complete :
    (rest : List Assignment) (names : List String) (ids : List (ℕ × String))
    → All IsActive rest
    → All (Unseen names ids) rest
    → Distinct rest
    → validate_each rest names ids ≡ ok tt
unfolding validate_each
validate_each_complete [] names ids vs us ds = refl
validate_each_complete (a ∷ rest) names ids vs us ds = step_each a rest names ids vs.0 us.0 (
    validate_each_complete rest (a.name ∷ names) ((a.id, a.name) ∷ ids) vs.1
      ((All-Unseen-cons a rest names ids).1 (us.1, ds.0)) ds.1)

pub All-Unseen : (rest : List Assignment) → All (Unseen [] []) rest
unfolding contains_name owner_of
All-Unseen [] = tt
All-Unseen (a ∷ rest) = ((refl, refl), All-Unseen rest)

-- `ValidateActive` accepts a list exactly when it has 1 to 64 members, each is live with a
-- well-formed name and an id from 1 to 254, and no two share a name or an id.
pub validate_active_iff :
    (assignments : List Assignment)
    → (validate_active assignments ≡ ok tt) ↔ IsActiveSet assignments
unfolding validate_active
validate_active_iff assignments = (
  λ h.
      let r = validate_each_sound assignments [] [] (ground arith) in
      record { size = ground arith; each = r.0; distinct = r.2 },
  λ s.
      ground (
        arith,
        validate_each_complete assignments [] [] s.each (All-Unseen assignments) s.distinct,
      ),
)
