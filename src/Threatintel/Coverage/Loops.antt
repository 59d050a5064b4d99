-- ===== src/Threatintel/Coverage/Loops.antt =====
-- The two inner loops of `validateAggregateCoverage` (internal/threatintel/feed.go) end, and what
-- they find.
use nft_firewall_v.Prelude.{
  ℕ, zero, suc, ◌+◌, ◌*◌, ◌-◌, ◌≤◌, ◌<◌, Bool, true, false, ◌≡◌, ◌∙◌, ◌⊎◌, inl, inr, refl, sym, ap,
  List, [], ◌∷◌, none, some, Outcome, ok, err, ltb, leb, arith, Bool-cases,
}
use nft_firewall_v.Threatintel.Coverage.{
  NetIp, FeedError, double_from, has_prefix, family_of, ancestor, covered_from, Tally, add_size,
  minimum_of, count_prefix, cover_prefix, cover_each, validate_aggregate_coverage, sort_prefixes,
}

-- The size of a prefix.
unfoldable pub doubled : ℕ → ℕ → ℕ
doubled zero size = size
doubled (suc n) size = doubled n (size * 2)

is_before : (bit family : ℕ) → ltb bit family ≡ true → family - bit ≡ suc (family - (bit + 1))
is_before bit family h = ground (arith, h)

is_after : (bit family : ℕ) → ltb bit family ≡ false → family - bit ≡ 0
is_after bit family h = ground (arith, h)

-- With more fuel than steps are left, the size is doubled for each of them.
pub double_from-ends :
    (fuel bit family size : ℕ)
    → family - bit < fuel
    → double_from fuel bit family size ≡ some (doubled (family - bit) size)
unfolding double_from doubled
double_from-ends zero bit family size h = absurd (omega (arith, h))
double_from-ends (suc fuel) bit family size h = elim (Bool-cases (ltb bit family)) [
  | inl e ↦
      let step = is_before bit family e in
      rw e (
        double_from-ends fuel (bit + 1) family (size * 2) (omega (arith, h, step))
        ∙ ap (λ n. some (doubled n size)) (sym step))
  | inr e ↦ rw e (ap (λ n. some (doubled n size)) (sym (is_after bit family e)))
]

within_bits : (bits last : ℕ) → leb bits last ≡ true → bits ≤ last
within_bits bits last h = ground (arith, h)

module _ (N : NetIp) where
  -- Some ancestor of the prefix, of the bits that were asked for, was seen.
  unfoldable pub HasAncestor : List N.Prefix → N.Prefix → Type 0
  HasAncestor seen p =
      (bits : ℕ) × (bits ≤ N.bits p)
      × (minimum_of (family_of N p) ≤ bits)
      × (has_prefix N (ancestor N p bits) seen ≡ true)

  unfoldable pub FoundIn : ℕ → List N.Prefix → N.Prefix → Bool → Type 0
  FoundIn from seen p true =
      (bits : ℕ) × (bits ≤ N.bits p)
      × (from ≤ bits)
      × (has_prefix N (ancestor N p bits) seen ≡ true)
  FoundIn from seen p false = Unit

  FoundIn-earlier :
      (from : ℕ) (seen : List N.Prefix) (p : N.Prefix) (found : Bool)
      → FoundIn (from + 1) seen p found
      → FoundIn from seen p found
  unfolding FoundIn
  FoundIn-earlier from seen p true (bits, h, k, m) = (bits, h, omega (arith, k), m)
  FoundIn-earlier from seen p false h = tt

  -- The search for an ancestor ends, and has found what it says.
  pub covered_from-ends :
      (fuel bits : ℕ) (seen : List N.Prefix) (p : N.Prefix)
      → N.bits p + 1 - bits < fuel
      → (found : Bool) × (covered_from N fuel bits seen p ≡ some found) × FoundIn bits seen p found
  unfolding covered_from FoundIn
  covered_from-ends zero bits seen p h = absurd (omega (arith, h))
  covered_from-ends (suc fuel) bits seen p h = elim (Bool-cases (leb bits (N.bits p))) [
    | inr e ↦ (false, rw e refl, tt)
    | inl e ↦ elim (Bool-cases (has_prefix N (ancestor N p bits) seen)) [
      | inl m ↦ (true, rw (e, m) refl, (bits, within_bits bits (N.bits p) e, omega arith, m))
      | inr m ↦
          let inside = within_bits bits (N.bits p) e in
          let (found, k, n) = covered_from-ends fuel (bits + 1) seen p (omega (arith, h, inside)) in
          (found, rw (e, m) k, FoundIn-earlier bits seen p found n)
    ]
  ]

  abbrev pub size_of : N.Prefix → ℕ
  size_of p = doubled (family_of N p - N.bits p) 1

  -- What a round leaves: nothing new for a prefix with an ancestor that was seen, or the prefix and
  -- its size.
  unfoldable pub Round : N.Prefix → Tally N → Outcome FeedError (Tally N) → Type 0
  Round p c outcome =
      (HasAncestor c.seen p × (outcome ≡ ok c)) ⊎ (outcome ≡ add_size N p c (size_of p))

  counted : (p : N.Prefix) (c : Tally N) → count_prefix N p c ≡ some (add_size N p c (size_of p))
  unfolding count_prefix
  counted p c =
      rw
        (
          count_prefix,
          double_from-ends (family_of N p + 1) (N.bits p) (family_of N p) 1 (omega arith),
        )
        refl

  searched :
      (p : N.Prefix) (c : Tally N) (found : Bool)
      → covered_from N (N.bits p + 2) (minimum_of (family_of N p)) c.seen p ≡ some found
      → FoundIn (minimum_of (family_of N p)) c.seen p found
      → (outcome : Outcome FeedError (Tally N)) × (cover_prefix N p c ≡ some outcome)
        × Round p c outcome
  unfolding cover_prefix Round HasAncestor FoundIn
  searched p c true e k = (ok c, rw (cover_prefix, e) refl, inl (k, refl))
  searched p c false e k =
      (add_size N p c (size_of p), rw (cover_prefix, e) (counted p c), inr refl)

  pub cover_prefix-ends :
      (p : N.Prefix) (c : Tally N)
      → (outcome : Outcome FeedError (Tally N)) × (cover_prefix N p c ≡ some outcome)
        × Round p c outcome
  unfolding cover_prefix count_prefix Round HasAncestor FoundIn
  cover_prefix-ends p c =
      let (found, e, k) =
        covered_from-ends (N.bits p + 2) (minimum_of (family_of N p)) c.seen p (omega arith) in
      searched p c found e k

  after_round :
      (ps : List N.Prefix) (outcome : Outcome FeedError (Tally N))
      → ((c : Tally N) → (last : Outcome FeedError (Tally N)) × (cover_each N ps c ≡ some last))
      → (last : Outcome FeedError (Tally N)) × (elim (some outcome) [
        | none ↦ none
        | some (err e) ↦ some (err e)
        | some (ok next) ↦ cover_each N ps next
      ]
          ≡ some last)
  after_round ps (err e) h = (err e, refl)
  after_round ps (ok next) h = h next

  -- The loop over the prefixes ends.
  pub cover_each-ends :
      (ps : List N.Prefix) (c : Tally N)
      → (outcome : Outcome FeedError (Tally N)) × (cover_each N ps c ≡ some outcome)
  unfolding cover_each
  cover_each-ends [] c = (ok c, refl)
  cover_each-ends (p ∷ ps) c =
      let (outcome, e, k) = cover_prefix-ends (N.masked p) c in
      let (last, m) = after_round ps outcome (cover_each-ends ps) in (last, rw (cover_each, e) m)

  -- `validateAggregateCoverage` ends on every list.
  pub validate_aggregate_coverage-ends :
      (ps : List N.Prefix)
      → (outcome : Outcome FeedError (Tally N)) × (validate_aggregate_coverage N ps ≡ some outcome)
  unfolding validate_aggregate_coverage
  validate_aggregate_coverage-ends ps = cover_each-ends (sort_prefixes N ps) _
