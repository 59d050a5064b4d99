-- ===== src/Claims/Addresses/Active.antt =====
-- The claims that are active at a time, `Claims` of internal/state/store.go, and what they block.
use nft_firewall_v.Prelude.{
  ℕ, String, Bool, true, false, ◌&&◌, ◌||◌, ◌≡◌, ◌∙◌, ◌⊎◌, ◌↔◌, refl, sym, subst, Option, none,
  some, List, [], ◌∷◌, ◌++◌, if◌then◌else◌, ◌==◌, ltb, str_eq, str_lt, eq_iff, codes, arith,
  Bool-cases, inl, inr, &&-eq-true, ==_iff,
}
use nft_firewall_v.Claims.Types.{Formats, Claim, is_active, lives, is_allow_source, starts_with}
use nft_firewall_v.Claims.Replace.{contains}
use nft_firewall_v.Claims.Addresses.{
  blocks, blocks_any, effective_addresses, contains-effective_addresses,
}

-- `ORDER BY address,source,id`
unfoldable pub claim_before : Claim → Claim → Bool
claim_before c d =
    str_lt c.address d.address
    || (str_eq c.address d.address
        && (str_lt c.source d.source || (str_eq c.source d.source && ltb c.id d.id)))

unfoldable pub insert_ordered : Claim → List Claim → List Claim
unfolding claim_before
insert_ordered c [] = c ∷ []
insert_ordered c (d ∷ ds) =
    let rest = insert_ordered c ds in if claim_before d c then d ∷ rest else c ∷ d ∷ ds

-- `Claims`, without its errors.
unfoldable pub active_claims : Formats → ℕ → List Claim → List Claim
unfolding is_active insert_ordered
active_claims f now [] = []
active_claims f now (c ∷ cs) =
    let rest = active_claims f now cs in if is_active f now c then insert_ordered c rest else rest

-- A source of temporary access: allow, or a text after allow/.
unfoldable pub IsAccess : String → Type 0
IsAccess s = (s ≡ "allow") ⊎ ((rest : List ℕ) × (codes s ≡ codes "allow/" ++ rest))

-- No expiry, or one that sorts behind the time.
unfoldable pub IsUnexpired : Formats → ℕ → Option String → Type 0
IsUnexpired f now none = Unit
IsUnexpired f now (some t) = str_lt (f.time_text now) t ≡ true

-- A claim of the family and the address that is not access and has not expired.
unfoldable pub Blocks : Formats → ℕ → String → String → Claim → Type 0
unfolding IsAccess IsUnexpired
Blocks f now family a c =
    (c.family ≡ family) × (c.address ≡ a) × ¬ IsAccess c.source × IsUnexpired f now c.expires_at

-- Some claim of the table blocks the address at the time.
unfoldable pub IsBlocked : Formats → ℕ → String → String → List Claim → Type 0
unfolding Blocks
IsBlocked f now family a [] = ⊥
IsBlocked f now family a (c ∷ cs) = Blocks f now family a c ⊎ IsBlocked f now family a cs

split_prefix : (ps cs : List ℕ) → starts_with ps cs ≡ true → (rest : List ℕ) × (cs ≡ ps ++ rest)
unfolding starts_with
split_prefix [] cs h = (cs, refl)
split_prefix (p ∷ ps) [] h = absurd (cc)
split_prefix (p ∷ ps) (c ∷ cs) h =
    let both = &&-eq-true (p == c) (starts_with ps cs) h in
    let (rest, e) = split_prefix ps cs both.1 in (rest, λ i. sym ((==_iff p c).0 both.0) i ∷ e i)

pub starts_with-append : (ps rest : List ℕ) → starts_with ps (ps ++ rest) ≡ true
unfolding starts_with
starts_with-append [] rest = refl
starts_with-append (p ∷ ps) rest = rw ((==_iff p p).1 refl) (starts_with-append ps rest)

IsAccess-tested : (s : String) → IsAccess s → is_allow_source s ≡ true
unfolding IsAccess is_allow_source
IsAccess-tested s (inl e) = ground (arith, (eq_iff s "allow").1 e)
IsAccess-tested s (inr (rest, e)) =
    let k : starts_with (codes "allow/") (codes s) ≡ true =
      subst (λ t. starts_with (codes "allow/") t ≡ true) (sym e)
        (starts_with-append (codes "allow/") rest) in
    ground (arith, k)

tested-IsAccess : (s : String) → is_allow_source s ≡ true → IsAccess s
unfolding IsAccess is_allow_source
tested-IsAccess s h = elim (Bool-cases (str_eq s "allow")) [
  | inl e ↦ inl ((eq_iff s "allow").0 e)
  | inr e ↦ inr (split_prefix (codes "allow/") (codes s) (ground (arith, e, h)))
]

pub not-IsAccess : (s : String) → is_allow_source s ≡ false → ¬ IsAccess s
not-IsAccess s h k = let there = IsAccess-tested s k in cc

second_true : (x y : Bool) → x ≡ false → (x || y) ≡ true → y ≡ true
second_true x y e h = ground (arith, e, h)

lives_iff :
    (f : Formats) (now : ℕ) (e : Option String) → (lives f now e ≡ true) ↔ IsUnexpired f now e
unfolding lives IsUnexpired
lives_iff f now none = (λ h. tt, λ h. refl)
lives_iff f now (some t) = (λ h. h, λ h. h)

module _ (f : Formats) (now : ℕ) (family a : String) where
  tested : Claim → Bool
  tested c = is_active f now c && (blocks family c && str_eq c.address a)

  tested-Blocks : (c : Claim) → (tested c ≡ true) ↔ Blocks f now family a c
  unfolding tested Blocks blocks is_active
  tested-Blocks c = (
    λ h.
        let live = &&-eq-true (lives f now c.expires_at) _ h in
        let both = &&-eq-true _ (str_eq c.address a) live.1 in
        let parts = &&-eq-true (str_eq c.family family) _ both.0 in
        let plain : is_allow_source c.source ≡ false = ground (arith, parts.1) in
        (
          (eq_iff c.family family).0 parts.0,
          (eq_iff c.address a).0 both.1,
          not-IsAccess c.source plain,
          (lives_iff f now c.expires_at).0 live.0,
        ),
    λ (e, k, plain, live). elim (Bool-cases (is_allow_source c.source)) [
      | inl t ↦ absurd (plain (tested-IsAccess c.source t))
      | inr t ↦ ground (
        arith,
        t,
        (lives_iff f now c.expires_at).1 live,
        (eq_iff c.family family).1 e,
        (eq_iff c.address a).1 k,
      )
    ],
  )

  blocks_any-insert_ordered :
      (c : Claim) (ds : List Claim)
      → blocks_any a family (insert_ordered c ds)
        ≡ ((blocks family c && str_eq c.address a) || blocks_any a family ds)
  unfolding blocks_any insert_ordered
  blocks_any-insert_ordered c [] = refl
  blocks_any-insert_ordered c (d ∷ ds) = elim (Bool-cases (claim_before d c)) [
    | inl e ↦ rw e (ground (arith, blocks_any-insert_ordered c ds))
    | inr e ↦ rw e refl
  ]

  any_tested :
      (c : Claim) (cs : List Claim)
      → blocks_any a family (active_claims f now (c ∷ cs))
        ≡ (tested c || blocks_any a family (active_claims f now cs))
  unfolding active_claims tested
  any_tested c cs = elim (Bool-cases (is_active f now c)) [
    | inl e ↦ rw e (blocks_any-insert_ordered c (active_claims f now cs))
    | inr e ↦ rw e refl
  ]

  blocks_any-IsBlocked :
      (cs : List Claim)
      → (blocks_any a family (active_claims f now cs) ≡ true) ↔ IsBlocked f now family a cs
  unfolding IsBlocked blocks_any active_claims
  blocks_any-IsBlocked [] = (λ h. cc, λ h. elim h [ ])
  blocks_any-IsBlocked (c ∷ cs) = (
    λ h. elim (Bool-cases (tested c)) [
      | inl t ↦ inl ((tested-Blocks c).0 t)
      | inr t ↦ inr ((blocks_any-IsBlocked cs).0 (second_true _ _ t (sym (any_tested c cs) ∙ h)))
    ],
    λ h. any_tested c cs ∙ elim h [
      | inl b ↦ ground (arith, (tested-Blocks c).1 b)
      | inr r ↦ ground (arith, (blocks_any-IsBlocked cs).1 r)
    ],
  )

-- At any time, the addresses of a family that are given to the kernel for the claims that are
-- active then are exactly those of a claim in the table that has that family and address, has no
-- expiry or one that sorts behind the time, and whose source is neither allow nor begins with
-- allow/.
pub effective_addresses_iff :
    (f : Formats) (now : ℕ) (family a : String) (cs : List Claim)
    → (contains a (effective_addresses (active_claims f now cs) family) ≡ true)
      ↔ IsBlocked f now family a cs
effective_addresses_iff f now family a cs =
    let same = contains-effective_addresses a family (active_claims f now cs) in
    let (there, back) = blocks_any-IsBlocked f now family a cs in
    (λ h. there (sym same ∙ h), λ h. same ∙ back h)
